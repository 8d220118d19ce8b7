-- ===== src/Middleware.antt =====
-- The middleware of dasher/internal/middleware: Enrich and EmitAfter.
use dasher.Common.{String, Option, none, some, List, if◌then◌else◌}
use dasher.Errors.{Error, wrapped, poison, is_lookup_poison}
use dasher.Event.Parse.{ok, fail}
use dasher.Handler.{Handler, Emitter, returned, panicked}
use dasher.Lookup.Bind.{Numbers}
use dasher.Lookup.Runner.{EnrichRule, run}

-- A lookup's poison error becomes an event's.
unfoldable pub enrich_error : Error → Option Error
unfolding poison is_lookup_poison
enrich_error e = if is_lookup_poison e then poison (some (wrapped "enrich" e)) else some e

module _ {I W : Type 0} where
  unfoldable pub enrich : Numbers → List (EnrichRule W) → Handler I W → Handler I W
  unfolding run enrich_error
  enrich n rules inner inst evt w =
      let (r, w') = run n rules evt.row evt.old w in
      elim r [
        | fail e ↦ (returned (enrich_error e), w')
        | ok enr ↦ inner inst (record evt { enrichment = some enr }) w'
      ]

  unfoldable pub emit_after : Emitter W → String → Handler I W → Handler I W
  emit_after emit stream inner inst evt w =
      let (r, w') = inner inst evt w in
      elim r [
        | panicked v ↦ (panicked v, w')
        | returned herr ↦ elim herr [
          | some e ↦ (returned (some e), w')
          | none ↦ let (e, w'') = emit stream evt w' in (returned e, w'')
        ]
      ]
