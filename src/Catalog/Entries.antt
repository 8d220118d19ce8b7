-- ===== src/Catalog/Entries.antt =====
-- What becomes of one entry of the catalog.
use dasher.Common.{
  ℕ, suc, String, Option, none, some, [], ◌∷◌, List, ◌≡◌, ◌≢◌, ◌⊎◌, inl, inr, refl, sym, arith,
  String-cases, Option-cases,
}
use dasher.Common.Dict.{lookup, insert}
use dasher.Common.Int.{ℤ, pos}
use dasher.Catalog.{in_entry, ttl_of, build_entry}
use dasher.Config.{LookupSpecRaw}
use dasher.Event.Parse.{Result, ok, fail, Result-cases}
use dasher.Lookup.{Lookup}
use dasher.Lookup.Cache.{CacheEntry, new_cache}
use dasher.Lookup.Cached.{Formats, Clock, value_of, new_cached_lookup}
use dasher.Lookup.Registry.{Spec, Deps, register, type_sql}
use dasher.Lookup.Registry
use dasher.Lookup.Sql.{
  Queries, query_rows, sql_resolve, new_sql_lookup, default_query_timeout, at_cache, with_cache,
  sql_factory, default_registry,
}
use dasher.Memory.{Memory, put_cache}
use dasher.Value.{Row, text}

-- An entry that a lookup can be built for.
abbrev pub IsFit : {P : Type 0} → (String → Option ℤ) → Option P → LookupSpecRaw → Type 0
IsFit parse_duration pool raw =
    (raw.type_name ≡ "sql")
    × ((raw.ttl ≡ "") ⊎ (parse_duration raw.ttl ≢ none))
    × (pool ≢ none)
    × (raw.sql ≢ "")

-- What a lookup of the catalog stands for: a cache, a lifetime, and a query.
pub record Slot (P : Type 0) : Type 0 where
  pub address : ℕ
  pub ttl : ℤ
  pub pool : P
  pub sql : String

-- The query of an entry, without a cache.
abbrev pub query_of : {W P C : Type 0} → Queries W P C → P → String → Lookup W
query_of q pool sql =
    sql_resolve (record { q = query_rows q pool; sql = sql; timeout = default_query_timeout })

abbrev pub slot_lookup :
    {W P C : Type 0} → Formats → Clock W → Queries W P C → Slot P → Lookup (Memory W)
slot_lookup f clock q s =
    at_cache s.address (new_cached_lookup f clock (query_of q s.pool s.sql) s.ttl)

-- The memory with a new cache.
abbrev pub grown : {W : Type 0} → (ℕ → CacheEntry (List Row)) → Memory W → Memory W
grown blank m = record (put_cache m.next_cache (new_cache blank (pos 0)) m) {
  next_cache = suc m.next_cache;
}

module _ {W P C : Type 0} (f : Formats) (clock : Clock W) (blank : ℕ → CacheEntry (List Row))
    (q : Queries W P C) (parse_duration : String → Option ℤ) where
  abbrev pub EntryBuilt :
      Option P → LookupSpecRaw → Memory W → Result (Lookup (Memory W)) → Memory W → Type 0
  EntryBuilt pool raw m (fail e) m' = ¬ IsFit parse_duration pool raw
  EntryBuilt pool raw m (ok l) m' =
      IsFit parse_duration pool raw
      × (m' ≡ grown blank m)
      × ((s : Slot P) × (l ≡ slot_lookup f clock q s)
          × (s.address ≡ m.next_cache)
          × (s.sql ≡ raw.sql)
          × (pool ≡ some s.pool))

  abbrev IsTtl : LookupSpecRaw → Type 0
  IsTtl raw = (raw.ttl ≡ "") ⊎ (parse_duration raw.ttl ≢ none)

  abbrev Timed : LookupSpecRaw → Result ℤ → Type 0
  Timed raw (ok ttl) = IsTtl raw
  Timed raw (fail e) = ¬ IsTtl raw

  ttl_of-Timed : (name : String) (raw : LookupSpecRaw) → Timed raw (ttl_of parse_duration name raw)
  unfolding ttl_of
  ttl_of-Timed name raw = elim (String-cases raw.ttl "") [
    | inl (empty, absent) ↦ rw absent (inl empty)
    | inr (given, present) ↦ elim (Option-cases (parse_duration raw.ttl)) [
      | inr (ttl, parsed) ↦ rw (present, parsed) (inr (λ e. ground arith))
      | inl failed ↦
          rw (present, failed, ttl_of)
            (λ good. elim good [ inl empty ↦ given empty | inr parses ↦ parses failed ])
    ]
  ]

  -- What the factory makes of a pool, a query and a lifetime.
  abbrev Made : Option P → String → Memory W → Result (Lookup (Memory W)) → Memory W → Type 0
  Made pool sql m (fail e) m' = (pool ≡ none) ⊎ (sql ≡ "")
  Made pool sql m (ok l) m' =
      (sql ≢ "")
      × (m' ≡ grown blank m)
      × ((s : Slot P) × (l ≡ slot_lookup f clock q s)
          × (s.address ≡ m.next_cache)
          × (s.sql ≡ sql)
          × (pool ≡ some s.pool))

  abbrev spec_of : LookupSpecRaw → ℤ → Spec
  spec_of raw ttl = record {
    type_name = raw.type_name;
    ttl = ttl;
    raw = ("sql", text raw.sql) ∷ [];
  }

  sql_factory-Made :
      (pool : Option P) (raw : LookupSpecRaw) (ttl : ℤ) (m : Memory W)
      → Made pool raw.sql m
          (sql_factory f clock blank q (spec_of raw ttl) (record { pool = pool }) m).0
          (sql_factory f clock blank q (spec_of raw ttl) (record { pool = pool }) m).1
  unfolding sql_factory new_sql_lookup value_of lookup with_cache
  sql_factory-Made none raw ttl m = inl refl
  sql_factory-Made (some pool) raw ttl m = elim (String-cases raw.sql "") [
    | inl (empty, none_given) ↦ rw (none_given, sql_factory) (inr empty)
    | inr (given, some_given) ↦
        rw (some_given, sql_factory)
          (
            given,
            refl,
            (
              record { address = m.next_cache; ttl = ttl; pool = pool; sql = raw.sql },
              refl,
              refl,
              refl,
              refl,
            ),
          )
  ]

  in_entry-EntryBuilt :
      (pool : Option P) (name : String) (raw : LookupSpecRaw) (m m' : Memory W)
      (r : Result (Lookup (Memory W)))
      → raw.type_name ≡ "sql"
      → IsTtl raw
      → Made pool raw.sql m r m'
      → EntryBuilt pool raw m (in_entry name r) m'
  in_entry-EntryBuilt pool name raw m m' (ok l) sql timed (given, same, made) =
      let (s, _, _, _, found) = made in ((sql, timed, λ absent. cc, given), same, made)
  in_entry-EntryBuilt pool name raw m m' (fail e) sql timed made =
      λ (_, _, there, given). elim made [ inl absent ↦ there absent | inr empty ↦ given empty ]

  pub build_entry-EntryBuilt :
      (pool : Option P) (name : String) (raw : LookupSpecRaw) (m : Memory W)
      → EntryBuilt pool raw m
          (build_entry parse_duration
            (default_registry f clock blank q)
            (record { pool = pool })
            name
            raw
            m).0
          (build_entry parse_duration
            (default_registry f clock blank q)
            (record { pool = pool })
            name
            raw
            m).1
  unfolding build_entry default_registry register Registry.new lookup insert
  build_entry-EntryBuilt pool name raw m = elim (String-cases "sql" raw.type_name) [
    | inr (other, unknown) ↦ rw (unknown, build_entry) (λ (sql, _, _, _). other (sym sql))
    | inl (sql, known) ↦
        let timed = ttl_of-Timed name raw in
        elim (Result-cases (ttl_of parse_duration name raw)) [
          | inr (e, failed) ↦
              rw (known, failed, build_entry) (λ (_, good, _, _). (rw failed at timed) good)
          | inl (ttl, got) ↦
              rw (known, got, build_entry)
                (in_entry-EntryBuilt pool name raw m _ _ (sym sql) (rw got at timed)
                  (sql_factory-Made pool raw ttl m))
        ]
  ]
