-- ===== src/Lookup/Cached.antt =====
-- The caching lookup of dasher/internal/lookup/cached.go, and MakeCacheKey of cache.go.
pub mod Agrees
pub mod Orders
use dasher.Common.{String, ◌<>◌, Option, none, some, List, [], ◌∷◌, map, if◌then◌else◌}
use dasher.Common.Dict.{lookup}
use dasher.Common.Int.{ℤ, pos, leb_ℤ}
use dasher.Event.Parse.{Result, ok, fail}
use dasher.Handler.{Action}
use dasher.Lookup.{Lookup}
use dasher.Lookup.Cache.{Cache, get, set}
use dasher.Value.{Value, null, Row}

-- `sort.Strings`, and `fmt.Sprintf("%T:%v", v, v)`.
pub record Formats : Type 0 where
  pub sort_strings : List String → List String
  pub print : Value → String

-- `bind[k]`
unfoldable pub value_of : Row → String → Value
unfolding lookup
value_of bind k = elim (lookup k bind) [ none ↦ null | some v ↦ v ]

unfoldable pub join_fields : Formats → Row → List String → String
unfolding value_of
join_fields f bind [] = ""
join_fields f bind (k ∷ ks) = "|" <> k <> "=" <> f.print (value_of bind k) <> join_fields f bind ks

unfoldable pub make_cache_key : Formats → Row → String
unfolding join_fields
make_cache_key f bind = join_fields f bind (f.sort_strings (map (λ e. e.0) bind))

-- `time.Now()` and the random part of a lifetime, as the world has them.
pub record Clock (W : Type 0) : Type 0 where
  pub now : W → ℤ
  pub jitter : W → ℤ

module _ {W : Type 0} (f : Formats) (clock : Clock W) where
  -- Only a single row is stored.
  unfoldable pub store_single : String → ℤ → List Row → W → Cache (List Row) → Cache (List Row)
  unfolding set
  store_single key ttl [] w c = c
  store_single key ttl (row ∷ []) w c = set key (row ∷ []) ttl (clock.jitter w) (clock.now w) c
  store_single key ttl (_ ∷ _ ∷ _) w c = c

  -- `Resolve` over the world of the inner lookup and the cache.
  unfoldable pub cached_resolve : Lookup W → ℤ → Lookup (W × Cache (List Row))
  unfolding make_cache_key get store_single
  cached_resolve inner ttl bind (w, c) =
      let key = make_cache_key f bind in
      let (hit, c') = get key (clock.now w) c in
      elim hit [
        | some rows ↦ (ok rows, (w, c'))
        | none ↦
            let (r, w') = inner bind w in
            elim r [
              | fail e ↦ (fail e, (w', c'))
              | ok rows ↦ (ok rows, (w', store_single key ttl rows w' c'))
            ]
      ]

  -- A lookup that keeps the cache as it is.
  unfoldable pub uncached : Lookup W → Lookup (W × Cache (List Row))
  uncached inner bind (w, c) = let (r, w') = inner bind w in (r, (w', c))

  -- `NewCachedLookup`
  unfoldable pub new_cached_lookup : Lookup W → ℤ → Lookup (W × Cache (List Row))
  unfolding cached_resolve uncached
  new_cached_lookup inner ttl =
      if leb_ℤ ttl (pos 0) then uncached inner else cached_resolve inner ttl
