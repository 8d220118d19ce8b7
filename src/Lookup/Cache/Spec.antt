-- ===== src/Lookup/Cache/Spec.antt =====
-- What a cache promises, as operations on a list of entries, the most recently used one first.
use dasher.Common.{ℕ, String, Option, none, some, List, ◌∷◌, length, leb, if◌then◌else◌}
use dasher.Common.Int.{ℤ, pos, ltb_ℤ, leb_ℤ, ◌+ℤ◌}
use dasher.Lookup.Cache.{CacheEntry, effective_ttl}
use dasher.Lookup.Cache.Order.{find, drop_key, but_last}

module _ {R : Type 0} where
  -- A hit moves the entry to the front; an entry that has expired is a miss, and goes.
  unfoldable pub read : String → ℤ → List (CacheEntry R) → Option R × List (CacheEntry R)
  read key now es = elim (find key es) [
    | none ↦ (none, es)
    | some e ↦
        if ltb_ℤ e.expires_at now
        then (none, drop_key key es)
        else (some e.value, e ∷ drop_key key es)
  ]

  -- The entry goes to the front, in place of the one of its key; for a new key the least recently
  -- used entry goes if the list is full. Nothing is stored for a lifetime that is not positive.
  unfoldable pub write : ℕ → String → R → ℤ → ℤ → ℤ → List (CacheEntry R) → List (CacheEntry R)
  write max_entries key value ttl jitter now es =
      let e : CacheEntry R = record {
        key = key;
        value = value;
        expires_at = now +ℤ effective_ttl ttl jitter;
      } in
      if leb_ℤ ttl (pos 0) then es else elim (find key es) [
        | some _ ↦ e ∷ drop_key key es
        | none ↦ e ∷ (if leb max_entries (length es) then but_last es else es)
      ]
