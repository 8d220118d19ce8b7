-- ===== src/Lookup/Cache/Sound.antt =====
-- The agreement of the map and the list of a cache, through the steps of `Get` and `Set`.
use dasher.Common.{
  ℕ, suc, ◌+◌, ◌≤◌, ◌<◌, String, eq_iff, eq_refl, none, some, List, [], ◌∷◌, length, leb, ◌≡◌, refl,
  sym, ◌∙◌, ap, arith, if◌then◌else◌, All, Option-cases, Bool-cases, inl, inr,
}
use dasher.Common.Dict.{lookup, delete, lookup-insert, lookup-delete}
use dasher.Common.Int.{ℤ}
use dasher.Lookup.Cache.{CacheEntry, Cache, unlink, back, update, make_room, push_front}
use dasher.Lookup.Cache.Order.{
  address_of, HasDistinctKeys, key-address_of, unlink-HasDistinctKeys, address_of-unlink, entries,
  find, drop_key, but_last, find-entries, entries-unlink, entries-unlink-back, length-unlink,
  entries-update, update_self, HasDistinctKeys-update, HasDistinctKeys-rewrite, address_of-update,
  address_of-rewrite, entries-rewrite,
}

unlink-addresses :
    (n a : ℕ) (order : List ℕ) → All (λ b. b < n) order → All (λ b. b < n) (unlink a order)
unfolding unlink
unlink-addresses n a [] h = tt
unlink-addresses n a (b ∷ order) (p, h) = ground (arith, unlink-addresses n a order h)

addresses-suc : (n : ℕ) (order : List ℕ) → All (λ b. b < n) order → All (λ b. b < n + 1) order
addresses-suc n [] h = tt
addresses-suc n (b ∷ order) (p, h) = (omega arith, addresses-suc n order h)

back-none : (order : List ℕ) → back order ≡ none → order ≡ []
unfolding back
back-none [] e = refl
back-none (a ∷ []) e = cc
back-none (a ∷ b ∷ order) e = cc (back-none (b ∷ order) e)

module _ {R : Type 0} where
  -- The entries of a cache, the most recently used one first.
  abbrev pub contents : Cache R → List (CacheEntry R)
  contents c = entries c.heap c.order

  pub record IsSound (c : Cache R) : Type 0 where
    pub positive : 0 < c.max_entries
    pub bounded : length c.order ≤ c.max_entries
    pub distinct : HasDistinctKeys c.heap c.order
    pub synced : (k : String) → lookup k c.items ≡ address_of c.heap k c.order
    pub addresses : All (λ a. a < c.next_address) c.order

  address-lt :
      (heap : ℕ → CacheEntry R) (n : ℕ) (k : String) (a : ℕ) (order : List ℕ)
      → address_of heap k order ≡ some a
      → All (λ b. b < n) order
      → a < n
  unfolding address_of
  address-lt heap n k a [] h b = cc
  address-lt heap n k a (x ∷ order) h (p, b) = ground (arith, address-lt heap n k a order)

  -- Without the element of a key: the map and the list still agree.
  pub removed-IsSound :
      (c : Cache R) (k : String) (a : ℕ)
      → IsSound c
      → lookup k c.items ≡ some a
      → IsSound (record c { order = unlink a c.order; items = delete k c.items })
  removed-IsSound c k a h e =
      let at = sym (h.synced k) ∙ e in
      record {
        positive = h.positive;
        bounded = omega (arith, length-unlink c.heap k a c.order at, h.bounded);
        distinct = unlink-HasDistinctKeys c.heap a c.order h.distinct;
        synced = λ j. ground (
          arith,
          lookup-delete k j c.items,
          h.synced j,
          address_of-unlink c.heap k j a c.order h.distinct at,
        );
        addresses = unlink-addresses c.next_address a c.order h.addresses;
      }

  -- With the element of a key at the front.
  pub moved-IsSound :
      (c : Cache R) (k : String) (a : ℕ)
      → IsSound c
      → lookup k c.items ≡ some a
      → IsSound (record c { order = a ∷ unlink a c.order })
  unfolding address_of
  moved-IsSound c k a h e =
      let at = sym (h.synced k) ∙ e in
      let key = key-address_of c.heap k c.order a at in
      record {
        positive = h.positive;
        bounded = omega (arith, length-unlink c.heap k a c.order at, h.bounded);
        distinct = (
          ground (arith, key, eq_refl k, address_of-unlink c.heap k k a c.order h.distinct at),
          unlink-HasDistinctKeys c.heap a c.order h.distinct,
        );
        synced = λ j. ground (
          arith,
          key,
          eq_iff k j,
          e,
          h.synced j,
          address_of-unlink c.heap k j a c.order h.distinct at,
        );
        addresses = (
          address-lt c.heap c.next_address k a c.order at h.addresses,
          unlink-addresses c.next_address a c.order h.addresses,
        );
      }

  pub find_miss :
      (c : Cache R) (k : String) → IsSound c → lookup k c.items ≡ none → find k (contents c) ≡ none
  find_miss c k h e = ground (arith, find-entries c.heap k c.order, h.synced k, e)

  pub find_hit :
      (c : Cache R) (k : String) (a : ℕ)
      → IsSound c
      → lookup k c.items ≡ some a
      → find k (contents c) ≡ some (c.heap a)
  find_hit c k a h e = ground (arith, find-entries c.heap k c.order, h.synced k, e)

  -- The cache after the eviction has room.
  pub make_room-IsSound :
      (c : Cache R)
      → IsSound c
      → IsSound (make_room c)
        × (length (make_room c).order < (make_room c).max_entries)
        × (contents (make_room c)
            ≡ (if leb c.max_entries (length c.order) then but_last (contents c) else contents c))
  unfolding make_room
  make_room-IsSound c h = elim (Bool-cases (leb c.max_entries (length c.order))) [
    | inr room ↦ rw (room, make_room) (h, ground arith, refl)
    | inl full ↦ elim (Option-cases (back c.order)) [
      | inl nothing ↦ absurd (ground (arith, h.positive, back-none c.order nothing))
      | inr (a, last) ↦
          let (gone, at) = entries-unlink-back c.heap a c.order h.distinct last in
          rw (full, last, make_room)
            (
              removed-IsSound c (c.heap a).key a h (h.synced (c.heap a).key ∙ at),
              omega (arith, length-unlink c.heap (c.heap a).key a c.order at, h.bounded),
              gone,
            )
    ]
  ]

  pub push_front-IsSound :
      (e : CacheEntry R) (c : Cache R)
      → IsSound c
      → length c.order < c.max_entries
      → lookup e.key c.items ≡ none
      → IsSound (push_front e c) × (contents (push_front e c) ≡ e ∷ contents c)
  unfolding push_front address_of
  push_front-IsSound e c h room new =
      let at = address_of-update c.heap c.next_address e in
      let own = update_self c.heap c.next_address e in
      (
        record {
          positive = h.positive;
          bounded = omega arith;
          distinct = (
            rw own (at e.key c.order h.addresses ∙ sym (h.synced e.key) ∙ new),
            HasDistinctKeys-update c.heap c.next_address e c.order h.addresses h.distinct,
          );
          synced = λ k. ground (
            arith,
            own,
            lookup-insert e.key k c.next_address c.items,
            at k c.order h.addresses,
            h.synced k,
          );
          addresses = (omega arith, addresses-suc c.next_address c.order h.addresses);
        },
        rw (own, entries-update c.heap c.next_address e c.order h.addresses) refl,
      )

  pub rewritten-IsSound :
      (c : Cache R) (k : String) (a : ℕ) (e : CacheEntry R)
      → IsSound c
      → lookup k c.items ≡ some a
      → e.key ≡ k
      → IsSound (record c { order = a ∷ unlink a c.order; heap = update c.heap a e })
        × (contents (record c { order = a ∷ unlink a c.order; heap = update c.heap a e })
            ≡ e ∷ drop_key k (contents c))
  unfolding address_of
  rewritten-IsSound c k a e h hit same =
      let at = sym (h.synced k) ∙ hit in
      let key = key-address_of c.heap k c.order a at in
      let m = moved-IsSound c k a h hit in
      let keeps : e.key ≡ (c.heap a).key = same ∙ sym key in
      let own = update_self c.heap a e in
      (
        record {
          positive = m.positive;
          bounded = m.bounded;
          distinct = HasDistinctKeys-rewrite c.heap a e (a ∷ unlink a c.order) keeps m.distinct;
          synced =
              λ j. m.synced j ∙ sym (address_of-rewrite c.heap a e j (a ∷ unlink a c.order) keeps);
          addresses = m.addresses;
        },
        rw
            (
              own,
              entries-rewrite c.heap a e (unlink a c.order) m.distinct.0,
              entries-unlink c.heap k a c.order at,
            )
            refl,
      )

  abbrev pub stored : String → R → ℤ → CacheEntry R
  stored key value expires_at = record { key = key; value = value; expires_at = expires_at }

  pub length-entries :
      (heap : ℕ → CacheEntry R) (order : List ℕ) → length (entries heap order) ≡ length order
  length-entries heap [] = refl
  length-entries heap (a ∷ order) = ap suc (length-entries heap order)

  pub make_room-absent :
      (c : Cache R) (k : String) → lookup k c.items ≡ none → lookup k (make_room c).items ≡ none
  unfolding make_room
  make_room-absent c k e = elim (Option-cases (back c.order)) [
    | inl nothing ↦ ground (arith, nothing, e)
    | inr (a, last) ↦ ground (arith, last, e, lookup-delete (c.heap a).key k c.items)
  ]
