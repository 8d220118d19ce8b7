-- ===== src/Tests/Lookups.antt =====
-- Witnesses of the theorems on lookups and on the handler of a binding.
use package.text.Mathlib.TextLemmas.{append_cancel_left}
use dasher.Common.{◌<>◌, String, ◌==◌, none, List, [], ◌∷◌, any, ◌≡◌, refl, sym, ap, ℕ, All}
use dasher.Common.Dict.{Dict, lookup, insert, lookup-All}
use dasher.Common.Int.{pos}
use dasher.Config.{StreamBinding}
use dasher.Event.{Event}
use dasher.Event.Parse.{ok, fail}
use dasher.Handler.{Handler, Emitter, returned}
use dasher.Lookup.{Lookup}
use dasher.Lookup.Bind.{Numbers, column, normalize_number, resolve_bind}
use dasher.Lookup.Cache.{Cache, CacheEntry, new_cache}
use dasher.Lookup.Cache.Refines.{new_cache-IsSound}
use dasher.Lookup.Cache.Sound.{contents}
use dasher.Lookup.Cached.{Formats, Clock, make_cache_key, cached_resolve}
use dasher.Lookup.Cached.Agrees.{IsStable, IsWarm, Answers, cached_resolve-IsWarm}
use dasher.Lookup.Runner.{EnrichRule, apply_rows, then_apply, bind_values, run_rules, run}
use dasher.Lookup.Runner.Keys.{has, run-has}
use dasher.Middleware.{enrich, emit_after}
use dasher.Pipeline.{base_handler, resolve_rules, with_emit, with_enrich, build_handler}
use dasher.Pipeline.Emits.{Ends, TracksEmits, build_handler-emits}
use dasher.Tests.{event, named}
use dasher.Value.{Value, Row, Table, object, to_fields, text}

abbrev pub Log : Type 0
Log = List (String × Event)

abbrev pub numbers : Numbers
numbers = record { parse_int = λ s. none; parse_float = λ s. none }

abbrev ann : Row
ann = ("email", text "ann@example.org") ∷ []

abbrev by_name : {W : Type 0} → Lookup W
by_name bind w = (ok (ann ∷ []), w)

abbrev rule : {W : Type 0} → EnrichRule W
rule = record {
  lookup_name = "by_name";
  resolve = by_name;
  bind = ("name", "name") ∷ [];
  into = "user";
}

abbrev enrichment : Row
enrichment = ("user", object (to_fields ann)) ∷ []

rule-run : (run numbers {W = Log} (rule ∷ []) named none []).0 ≡ ok enrichment
unfolding run run_rules bind_values then_apply apply_rows resolve_bind column normalize_number
    insert lookup to_fields
rule-run = refl

run-has_example : has "user" enrichment ≡ any (λ r. r.into == "user") (rule {W = Log} ∷ [])
run-has_example = run-has numbers (rule ∷ []) named none enrichment [] "user" rule-run

abbrev log_event : Handler (Unit {0}) Log
log_event inst evt w = (returned none, w)

abbrev pub publish : Emitter Log
publish stream evt w = (none, (stream, evt) ∷ w)

abbrev pub handlers : Dict (Handler (Unit {0}) Log)
handlers = ("log", log_event) ∷ []

abbrev pub lookups : Dict (Lookup Log)
lookups = ("by_name", by_name) ∷ []

abbrev pub binding : StreamBinding
binding = record {
  stream = "users";
  scope = "";
  handler = "log";
  emit = "joined";
  enrich = record { lookup = "by_name"; bind = ("name", "name") ∷ []; into = "user" } ∷ [];
}

abbrev pub composed : Handler (Unit {0}) Log
composed = enrich numbers (rule ∷ []) (emit_after publish "joined" log_event)

pub publish-TracksEmits : {A : Type 0} (kept : Log → A) → TracksEmits handlers lookups kept
publish-TracksEmits kept = record {
  lookup_same =
      λ name l bind w h. lookup-All (λ l'. kept (l' bind w).1 ≡ kept w) lookups name l (refl, tt) h;
  handler_same = λ name h inst evt w found.
      lookup-All (λ h'. kept (h' inst evt w).1 ≡ kept w) handlers name h (refl, tt) found;
}

pub binding-build_handler : build_handler numbers binding handlers publish lookups ≡ ok composed
unfolding build_handler base_handler with_emit with_enrich resolve_rules lookup
binding-build_handler = refl

build_handler-emits_example :
    (w' : Log) × (enr : Table) × (w' ≡ [])
    × Ends publish "joined"
        (record (event "1-0") { enrichment = enr })
        w'
        (composed tt (event "1-0") [])
build_handler-emits_example =
    build_handler-emits handlers publish lookups (λ w. w) (publish-TracksEmits (λ w. w)) numbers
      binding composed tt (event "1-0") [] binding-build_handler

abbrev print_text : Value → String
print_text v = elim v as (λ _. String) [ text s ↦ "string:" <> s | _ ↦ "" ]

abbrev formats : Formats
formats = record { sort_strings = λ ks. ks; print = print_text }

abbrev clock : Clock (Unit {0})
clock = record { now = λ w. pos 5; jitter = λ w. pos 0 }

abbrev memory : ℕ → CacheEntry (List Row)
memory a = record { key = ""; value = []; expires_at = pos 0 }

-- A database that answers with the row of the name that it is asked by.
abbrev echo : Lookup (Unit {0})
echo bind w = (ok (bind ∷ []), w)

abbrev row_of : String → List Row
row_of s = (("name", text s) ∷ []) ∷ []

echo-IsStable : IsStable formats clock echo "name" row_of
echo-IsStable = record {
  answers = λ s w rows h. ap (λ r. elim r [ ok x ↦ x | fail e ↦ rows ]) (sym h);
  prints = λ s t h. append_cancel_left "string:" s t h;
  sort_one = λ x. refl;
}

new_cache-All :
    All
      (λ e.
        (s : String) × (make_cache_key formats (("name", text s) ∷ []) ≡ e.key)
        × (e.value ≡ row_of s))
      (contents (new_cache memory (pos 0)))
unfolding new_cache
new_cache-All = tt

abbrev ann_asked : Unit {0} × Cache (List Row)
ann_asked =
    (cached_resolve formats clock echo (pos 60) (("name", text "Ann") ∷ [])
      (tt, new_cache memory (pos 0))).1

-- The second caller asks by another name than the first.
cached_resolve-IsWarm_example :
    Answers formats clock echo "name" row_of "Bob" tt
      (cached_resolve formats clock echo (pos 60) (("name", text "Bob") ∷ []) (tt, ann_asked.1)).0
    × IsWarm formats clock echo "name" row_of
        (cached_resolve formats clock echo
          (pos 60)
          (("name", text "Bob") ∷ [])
          (tt, ann_asked.1)).1.1
cached_resolve-IsWarm_example =
    cached_resolve-IsWarm formats clock echo "name" row_of "Bob" (pos 60) tt ann_asked.1
      echo-IsStable
      (cached_resolve-IsWarm formats clock echo "name" row_of "Ann" (pos 60) tt
        (new_cache memory (pos 0)) echo-IsStable
        ((new_cache-IsSound memory (pos 0)).0, new_cache-All)).1
