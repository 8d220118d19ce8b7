-- ===== src/Lookup/Cache/Refines.antt =====
-- The operations of the cache against those of `Spec`, on the entries that the cache holds.
use dasher.Common.{
  if◌then◌else◌, ℕ, String, none, [], ◌∷◌, ◌≡◌, refl, sym, ◌∙◌, ap, arith, Option-cases, Bool-cases,
  inl, inr,
}
use dasher.Common.Dict.{lookup}
use dasher.Common.Int.{ℤ, pos, negsuc, ltb_ℤ, leb_ℤ, ◌+ℤ◌}
use dasher.Lookup.Cache.{CacheEntry, Cache, effective_ttl, new_cache, get, make_room, set}
use dasher.Lookup.Cache.Order.{address_of, key-address_of, drop_key, entries-unlink}
use dasher.Lookup.Cache.Spec.{read, write}
use dasher.Lookup.Cache.Sound.{
  contents, IsSound, find_miss, find_hit, removed-IsSound, moved-IsSound, make_room-IsSound,
  push_front-IsSound, rewritten-IsSound, length-entries, make_room-absent, stored,
}

empty : (k : String) → lookup {V = ℕ} k [] ≡ none
unfolding lookup
empty k = refl

module _ {R : Type 0} where
  -- `Get` on a sound cache returns what the promise says, leaves the entries that it says, in its
  -- order, and leaves the cache sound.
  pub get-read :
      (key : String) (now : ℤ) (c : Cache R)
      → IsSound c
      → ((get key now c).0 ≡ (read key now (contents c)).0)
        × (contents (get key now c).1 ≡ (read key now (contents c)).1)
        × IsSound (get key now c).1
  unfolding get read
  get-read key now c h = elim (Option-cases (lookup key c.items)) [
    | inl miss ↦ rw (miss, find_miss c key h miss, get, read) (refl, refl, h)
    | inr (a, hit) ↦
        let gone = entries-unlink c.heap key a c.order (sym (h.synced key) ∙ hit) in
        rw (hit, find_hit c key a h hit, get, read)
          (elim (Bool-cases (ltb_ℤ (c.heap a).expires_at now)) [
            | inl stale ↦ rw stale (refl, gone, removed-IsSound c key a h hit)
            | inr live ↦ rw live (refl, ap (◌∷◌ (c.heap a)) gone, moved-IsSound c key a h hit)
          ])
  ]

  -- `Set` on a sound cache leaves the entries that the promise says, in its order, and leaves the
  -- cache sound: so it never holds more entries than it may.
  pub set-write :
      (key : String) (value : R) (ttl jitter now : ℤ) (c : Cache R)
      → IsSound c
      → (contents (set key value ttl jitter now c)
          ≡ write c.max_entries key value ttl jitter now (contents c))
        × IsSound (set key value ttl jitter now c)
  unfolding set write
  set-write key value ttl jitter now c h = elim (Bool-cases (leb_ℤ ttl (pos 0))) [
    | inl never ↦ rw (never, set, write) (refl, h)
    | inr kept ↦ elim (Option-cases (lookup key c.items)) [
      | inr (a, hit) ↦
          let e : CacheEntry R = record (c.heap a) {
            value = value;
            expires_at = now +ℤ effective_ttl ttl jitter;
          } in
          let same = key-address_of c.heap key c.order a (sym (h.synced key) ∙ hit) in
          let (sound, left) = rewritten-IsSound c key a e h hit same in
          rw (kept, hit, find_hit c key a h hit, set, write)
            (
              left
                  ∙ ap
                      (λ k.
                        stored k value (now +ℤ effective_ttl ttl jitter)
                        ∷ drop_key key (contents c))
                      same,
              sound,
            )
      | inl miss ↦
          let (sound, room, left) = make_room-IsSound c h in
          let e : CacheEntry R = record {
            key = key;
            value = value;
            expires_at = now +ℤ effective_ttl ttl jitter;
          } in
          let (sound', left') =
            push_front-IsSound e (make_room c) sound room (make_room-absent c key miss) in
          rw (kept, miss, find_miss c key h miss, length-entries c.heap c.order, set, write)
            (left' ∙ ap (◌∷◌ e) left, sound')
    ]
  ]

  -- A new cache is sound and empty, and has room for the entries that are asked for, or for 1024 if
  -- that number is not positive.
  pub new_cache-IsSound :
      (memory : ℕ → CacheEntry R) (n : ℤ)
      → IsSound (new_cache memory n)
        × (contents (new_cache memory n) ≡ [])
        × (pos (new_cache memory n).max_entries ≡ (if ltb_ℤ (pos 0) n then n else pos 1024))
  unfolding new_cache address_of
  new_cache-IsSound memory (pos n) = (
    record {
      positive = ground arith;
      bounded = omega arith;
      distinct = tt;
      synced = λ k. empty k;
      addresses = tt;
    },
    refl,
    ground arith,
  )
  new_cache-IsSound memory (negsuc n) = (
    record {
      positive = omega arith;
      bounded = omega arith;
      distinct = tt;
      synced = λ k. empty k;
      addresses = tt;
    },
    refl,
    ground arith,
  )
