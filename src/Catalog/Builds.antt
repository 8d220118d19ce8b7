-- ===== src/Catalog/Builds.antt =====
-- When the catalog is built.
use dasher.Common.{ℕ, String, Option, List, [], ◌∷◌, All, ◌↔◌}
use dasher.Common.Dict.{Dict, insert}
use dasher.Common.Int.{ℤ}
use dasher.Catalog.{build_entries, build_lookup_catalog}
use dasher.Catalog.Entries.{IsFit, EntryBuilt, build_entry-EntryBuilt}
use dasher.Config.{LookupSpecRaw}
use dasher.Event.Parse.{Succeeds, Result, ok, fail}
use dasher.Lookup.{Lookup}
use dasher.Lookup.Cache.{CacheEntry}
use dasher.Lookup.Cached.{Formats, Clock}
use dasher.Lookup.Sql.{Queries, default_registry}
use dasher.Memory.{Memory}
use dasher.Value.{Row}

module _ {W P C : Type 0} (f : Formats) (clock : Clock W) (blank : ℕ → CacheEntry (List Row))
    (q : Queries W P C) (parse_duration : String → Option ℤ) (pool : Option P) where
  abbrev catalog : Dict LookupSpecRaw → Memory W → Result (Dict (Lookup (Memory W)))
  catalog raws m =
      (build_lookup_catalog parse_duration (default_registry f clock blank q)
        (record { pool = pool }) raws m).0

  abbrev entries :
      Dict (Lookup (Memory W)) → Dict LookupSpecRaw → Memory W → Result (Dict (Lookup (Memory W)))
  entries out raws m =
      (build_entries parse_duration (default_registry f clock blank q) (record { pool = pool }) out
        raws m).0

  build_entries_iff :
      (out : Dict (Lookup (Memory W))) (raws : Dict LookupSpecRaw) (m : Memory W)
      → Succeeds (entries out raws m) ↔ All (λ e. IsFit parse_duration pool e.1) raws
  unfolding build_entries
  build_entries_iff out [] m = (λ _. tt, λ _. tt)
  build_entries_iff out ((name, raw) ∷ raws) m =
      go _ _ (build_entry-EntryBuilt f clock blank q parse_duration pool name raw m)
        (λ l m'. build_entries_iff (insert name l out) raws m')
    where
      go :
          (r : Result (Lookup (Memory W))) (m' : Memory W)
          → EntryBuilt f clock blank q parse_duration pool raw m r m'
          → ((l : Lookup (Memory W)) (m' : Memory W)
              → Succeeds (entries (insert name l out) raws m')
                ↔ All (λ e. IsFit parse_duration pool e.1) raws)
          → Succeeds
              (elim r as (λ _. Result (Dict (Lookup (Memory W))) × Memory W) [
                | fail e ↦ (fail e, m')
                | ok l ↦
                    build_entries parse_duration
                      (default_registry f clock blank q)
                      (record { pool = pool })
                      (insert name l out)
                      raws
                      m'
              ]).0
            ↔ (IsFit parse_duration pool raw × All (λ e. IsFit parse_duration pool e.1) raws)
      go (fail e) m' unfit rest = (λ h. absurd h, λ (fit, _). unfit fit)
      go (ok l) m' (fit, _, _) rest =
          let (to, from) = rest l m' in (λ h. (fit, to h), λ (_, fits). from fits)

  -- The catalog is built exactly when every entry has the type "sql", a query, and a lifetime that
  -- parses or none, and there is a database pool unless there are no entries.
  pub build_lookup_catalog_iff :
      (raws : Dict LookupSpecRaw) (m : Memory W)
      → Succeeds (catalog raws m) ↔ All (λ e. IsFit parse_duration pool e.1) raws
  unfolding build_lookup_catalog
  build_lookup_catalog_iff raws m = build_entries_iff [] raws m
