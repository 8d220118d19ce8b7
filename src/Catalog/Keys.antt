-- ===== src/Catalog/Keys.antt =====
-- The names that the catalog answers to.
use dasher.Common.{String, ◌==◌, Option, none, [], ◌∷◌, ◌≢◌, ◌⊎◌, refl, inl, inr, Bool-cases}
use dasher.Common.Dict.{Dict, lookup, insert, lookup-insert}
use dasher.Common.Int.{ℤ}
use dasher.Catalog.{build_entry, build_entries, build_lookup_catalog}
use dasher.Config.{LookupSpecRaw}
use dasher.Event.Parse.{Result, ok, fail}
use dasher.Lookup.{Lookup}
use dasher.Lookup.Registry.{Deps, Registry}
use dasher.Memory.{Memory}

-- What is found in either of two maps is found in the result.
abbrev pub Covers :
    {W : Type 0}
    → Dict (Lookup (Memory W))
    → Dict LookupSpecRaw
    → Result (Dict (Lookup (Memory W)))
    → Type 0
Covers out todo (fail e) = Unit
Covers out todo (ok all) =
    (name : String) → (lookup name out ≢ none) ⊎ (lookup name todo ≢ none) → lookup name all ≢ none

module _ {W P : Type 0} (parse_duration : String → Option ℤ) (registry : Registry W P)
    (deps : Deps P) where
  insert-found :
      (name asked : String) (raw : LookupSpecRaw) (l : Lookup (Memory W))
      (out : Dict (Lookup (Memory W))) (todo : Dict LookupSpecRaw)
      → (lookup asked out ≢ none) ⊎ (lookup asked ((name, raw) ∷ todo) ≢ none)
      → (lookup asked (insert name l out) ≢ none) ⊎ (lookup asked todo ≢ none)
  unfolding lookup
  insert-found name asked raw l out todo found = elim (Bool-cases (name == asked)) [
    | inl same ↦ inl (rw (lookup-insert name asked l out, same) (λ h. cc))
    | inr other ↦ elim found [
      | inl here ↦ inl (rw (lookup-insert name asked l out, other) here)
      | inr there ↦ inr (rw (other, lookup) at there)
    ]
  ]

  build_entries-Covers :
      (out : Dict (Lookup (Memory W))) (todo : Dict LookupSpecRaw) (m : Memory W)
      → Covers out todo (build_entries parse_duration registry deps out todo m).0
  unfolding build_entries lookup
  build_entries-Covers out [] m = λ name found. elim found [ inl h ↦ h | inr h ↦ λ e. h refl ]
  build_entries-Covers out ((name, raw) ∷ todo) m =
      go (build_entry parse_duration registry deps name raw m).0 _
        (λ l m'. build_entries-Covers (insert name l out) todo m')
    where
      go :
          (r : Result (Lookup (Memory W))) (m' : Memory W)
          → ((l : Lookup (Memory W)) (m' : Memory W)
              → Covers
                  (insert name l out)
                  todo
                  (build_entries parse_duration registry deps (insert name l out) todo m').0)
          → Covers out
              ((name, raw) ∷ todo)
              (elim r as (λ _. Result (Dict (Lookup (Memory W))) × Memory W) [
                | fail e ↦ (fail e, m')
                | ok l ↦ build_entries parse_duration registry deps (insert name l out) todo m'
              ]).0
      go (fail e) m' rest = tt
      go (ok l) m' rest = widen _ (rest l m')
        where
          widen :
              (r : Result (Dict (Lookup (Memory W))))
              → Covers (insert name l out) todo r
              → Covers out ((name, raw) ∷ todo) r
          widen (fail e) h = tt
          widen (ok all) h = λ asked found. h asked (insert-found name asked raw l out todo found)

  pub build_lookup_catalog-Covers :
      (raws : Dict LookupSpecRaw) (m : Memory W)
      → Covers [] raws (build_lookup_catalog parse_duration registry deps raws m).0
  unfolding build_lookup_catalog
  build_lookup_catalog-Covers raws m = build_entries-Covers [] raws m
