-- ===== src/Tests/Caches.antt =====
-- Witnesses of the theorems on the cache.
use dasher.Common.{arith, ℕ, ◌≡◌}
use dasher.Common.Int.{pos}
use dasher.Lookup.Cache.Lifetime.{IsLifetime, effective_ttl-bounds}
use dasher.Lookup.Cache.{effective_ttl, CacheEntry, Cache, new_cache, get, set}
use dasher.Lookup.Cache.Sound.{IsSound, contents}
use dasher.Lookup.Cache.Spec.{read, write}
use dasher.Lookup.Cache.Refines.{get-read, set-write, new_cache-IsSound}

abbrev memory : ℕ → CacheEntry ℕ
memory a = record { key = ""; value = 0; expires_at = pos 0 }

abbrev fresh : Cache ℕ
fresh = new_cache memory (pos 2)

abbrev filled : Cache ℕ
filled = set "b" 7 (pos 10) (pos 1) (pos 4) (set "a" 5 (pos 10) (pos 0) (pos 3) fresh)

filled-IsSound : IsSound filled
filled-IsSound =
    (set-write "b" 7 (pos 10) (pos 1) (pos 4) (set "a" 5 (pos 10) (pos 0) (pos 3) fresh)
      (set-write "a" 5 (pos 10) (pos 0) (pos 3) fresh (new_cache-IsSound memory (pos 2)).0).1).1

get-read_example :
    ((get "a" (pos 9) filled).0 ≡ (read "a" (pos 9) (contents filled)).0)
    × (contents (get "a" (pos 9) filled).1 ≡ (read "a" (pos 9) (contents filled)).1)
    × IsSound (get "a" (pos 9) filled).1
get-read_example = get-read "a" (pos 9) filled filled-IsSound

set-write_example :
    (contents (set "c" 1 (pos 10) (pos 0) (pos 9) filled)
      ≡ write filled.max_entries "c" 1 (pos 10) (pos 0) (pos 9) (contents filled))
    × IsSound (set "c" 1 (pos 10) (pos 0) (pos 9) filled)
set-write_example = set-write "c" 1 (pos 10) (pos 0) (pos 9) filled filled-IsSound

effective_ttl-bounds_example :
    IsLifetime 9223372036854775807 (effective_ttl (pos 9223372036854775807) (pos 10))
effective_ttl-bounds_example =
    effective_ttl-bounds 9223372036854775807 (pos 10) (omega arith) (omega arith) (omega arith)
