-- ===== src/Lookup/Sql.antt =====
-- The SQL lookup of dasher/internal/lookup/sql.go, and the factory that its init function registers.
-- The database pool is a parameter.
use dasher.Common.{ℕ, suc, ◌*◌, String, ◌==◌, none, some, List, if◌then◌else◌}
use dasher.Common.Int.{ℤ, pos, leb_ℤ}
use dasher.Errors.{plain, wrapped}
use dasher.Event.Parse.{Result, ok, fail, as_string}
use dasher.Handler.{Action}
use dasher.Lookup.{Lookup}
use dasher.Lookup.Cache.{Cache, CacheEntry, new_cache}
use dasher.Lookup.Cached.{Formats, Clock, value_of, new_cached_lookup}
use dasher.Lookup.Registry.{Factory, Registry, new, register, type_sql}
use dasher.Memory.{Memory, put_cache}
use dasher.Value.{Row}

abbrev pub default_query_timeout : ℤ
default_query_timeout = pos (5 * 1000000000)

-- `pool.Query` under a context with a timeout, and `pgx.CollectRows` with `pgx.RowToMap`.
pub record Queries (W P C : Type 0) : Type 0 where
  pub query : ℤ → P → String → Row → Action W (Result C)
  pub collect : C → Action W (Result (List Row))

unfoldable pub query_rows :
    {W P C : Type 0} → Queries W P C → P → ℤ → String → Row → Action W (Result (List Row))
query_rows q pool timeout sql args w =
    let (r, w') = q.query timeout pool sql args w in
    elim r [ fail e ↦ (fail e, w') | ok rows ↦ q.collect rows w' ]

-- The `q` of a lookup is `QueryRows` of its pool.
pub record SqlLookup (W : Type 0) : Type 0 where
  pub q : ℤ → String → Row → Action W (Result (List Row))
  pub sql : String
  pub timeout : ℤ

unfoldable pub new_sql_lookup :
    {W : Type 0}
    → (ℤ → String → Row → Action W (Result (List Row)))
    → String
    → ℤ
    → Result (SqlLookup W)
new_sql_lookup q sql timeout =
    if sql == ""
    then fail (plain "lookup sql: sql text is required")
    else ok (record {
      q = q;
      sql = sql;
      timeout = if leb_ℤ timeout (pos 0) then default_query_timeout else timeout;
    })

-- `fmt.Errorf("sql lookup query: %w", err)`
abbrev pub in_query : Result (List Row) → Result (List Row)
in_query (fail e) = fail (wrapped "sql lookup query" e)
in_query (ok rows) = ok rows

-- `Resolve`
unfoldable pub sql_resolve : {W : Type 0} → SqlLookup W → Lookup W
sql_resolve l bind w = let (r, w') = l.q l.timeout l.sql bind w in (in_query r, w')

-- A lookup over the cache at an address.
unfoldable pub at_cache : {W : Type 0} → ℕ → Lookup (W × Cache (List Row)) → Lookup (Memory W)
unfolding put_cache
at_cache a l bind m =
    let (r, (w', c)) = l bind (m.outside, m.caches a) in
    (r, put_cache a c (record m { outside = w' }))

module _ {W P C : Type 0} (f : Formats) (clock : Clock W) (blank : ℕ → CacheEntry (List Row))
    (q : Queries W P C) where
  -- `NewCachedLookup` with a cache of its own, an address for which is taken also when the lookup
  -- does not cache.
  unfoldable pub with_cache : Lookup W → ℤ → Memory W → Lookup (Memory W) × Memory W
  unfolding at_cache new_cached_lookup new_cache put_cache
  with_cache l ttl m = (
    at_cache m.next_cache (new_cached_lookup f clock l ttl),
    record (put_cache m.next_cache (new_cache blank (pos 0)) m) { next_cache = suc m.next_cache },
  )

  -- `sqlText, _ := spec.Raw["sql"].(string)`
  abbrev pub sql_text : Row → String
  sql_text raw = elim (as_string (value_of raw "sql")) [ none ↦ "" | some s ↦ s ]

  -- The factory for "sql".
  unfoldable pub sql_factory : Factory W P
  unfolding new_sql_lookup with_cache sql_resolve query_rows value_of
  sql_factory spec deps m = elim deps.pool [
    | none ↦ (fail (plain "sql lookup: db pool is required"), m)
    | some pool ↦ elim (new_sql_lookup (query_rows q pool) (sql_text spec.raw) (pos 0)) [
      | fail e ↦ (fail e, m)
      | ok l ↦ let (cached, m') = with_cache (sql_resolve l) spec.ttl m in (ok cached, m')
    ]
  ]

  -- `DefaultRegistry` behind the init functions.
  unfoldable pub default_registry : Registry W P
  unfolding register new sql_factory
  default_registry = register type_sql sql_factory new
