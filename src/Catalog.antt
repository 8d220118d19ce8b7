-- ===== src/Catalog.antt =====
-- buildLookupCatalog of dasher/cmd/dasher/main.go. The entries of the configuration are visited in
-- the order of their list; a range over a Go map may take any order.
pub mod Entries
pub mod Builds
pub mod Keys
use dasher.Common.{String, ◌<>◌, ◌==◌, Option, none, some, List, [], ◌∷◌, if◌then◌else◌}
use dasher.Common.Dict.{Dict, lookup, insert}
use dasher.Common.Int.{ℤ, pos}
use dasher.Config.{LookupSpecRaw}
use dasher.Errors.{plain, wrapped}
use dasher.Event.Parse.{Result, ok, fail}
use dasher.Handler.{Action}
use dasher.Lookup.{Lookup}
use dasher.Lookup.Registry.{Spec, Deps, Registry}
use dasher.Memory.{Memory}
use dasher.Value.{text}

-- `fmt.Errorf("lookup %q: %w", name, err)`
abbrev pub in_entry : {A : Type 0} → String → Result A → Result A
in_entry name (fail e) = fail (wrapped ("lookup " <> name) e)
in_entry name (ok l) = ok l

unfoldable pub ttl_of : (String → Option ℤ) → String → LookupSpecRaw → Result ℤ
ttl_of parse_duration name raw =
    if raw.ttl == "" then ok (pos 0) else elim (parse_duration raw.ttl) [
      | none ↦ fail (wrapped ("lookup " <> name <> ": invalid ttl " <> raw.ttl) (plain "time"))
      | some ttl ↦ ok ttl
    ]

module _ {W P : Type 0} (parse_duration : String → Option ℤ) (registry : Registry W P)
    (deps : Deps P) where
  -- The lookup of one entry.
  unfoldable pub build_entry :
      String → LookupSpecRaw → Action (Memory W) (Result (Lookup (Memory W)))
  unfolding lookup ttl_of
  build_entry name raw m = elim (lookup raw.type_name registry) [
    | none ↦ (fail (plain ("lookup " <> name <> ": unknown type " <> raw.type_name)), m)
    | some factory ↦ elim (ttl_of parse_duration name raw) [
      | fail e ↦ (fail e, m)
      | ok ttl ↦
          let spec : Spec = record {
            type_name = raw.type_name;
            ttl = ttl;
            raw = ("sql", text raw.sql) ∷ [];
          } in
          let (r, m') = factory spec deps m in (in_entry name r, m')
    ]
  ]

  -- The loop, with the lookups built so far.
  unfoldable pub build_entries :
      Dict (Lookup (Memory W))
      → Dict LookupSpecRaw
      → Action (Memory W) (Result (Dict (Lookup (Memory W))))
  unfolding build_entry insert
  build_entries out [] m = (ok out, m)
  build_entries out ((name, raw) ∷ raws) m =
      let (r, m') = build_entry name raw m in
      elim r [ fail e ↦ (fail e, m') | ok l ↦ build_entries (insert name l out) raws m' ]

  unfoldable pub build_lookup_catalog :
      Dict LookupSpecRaw → Action (Memory W) (Result (Dict (Lookup (Memory W))))
  unfolding build_entries
  build_lookup_catalog raws m = build_entries [] raws m
