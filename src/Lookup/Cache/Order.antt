-- ===== src/Lookup/Cache/Order.antt =====
-- The order of the elements, and the keys that their entries hold.
use dasher.Common.{
  ℕ, ◌+◌, ◌<◌, String, ◌==◌, eq_iff, eq_refl, Option, none, some, List, [], ◌∷◌, map, length, ◌≡◌,
  refl, arith, if◌then◌else◌, All,
}
use dasher.Lookup.Cache.{CacheEntry, unlink, back, update}

module _ {R : Type 0} (heap : ℕ → CacheEntry R) where
  -- The first element whose entry has the key.
  unfoldable pub address_of : String → List ℕ → Option ℕ
  address_of k [] = none
  address_of k (a ∷ order) = if (heap a).key == k then some a else address_of k order

  abbrev pub HasDistinctKeys : List ℕ → Type 0
  HasDistinctKeys [] = Unit
  HasDistinctKeys (a ∷ order) = (address_of (heap a).key order ≡ none) × HasDistinctKeys order

  pub key-address_of :
      (k : String) (order : List ℕ) (a : ℕ) → address_of k order ≡ some a → (heap a).key ≡ k
  unfolding address_of
  key-address_of k [] a h = cc
  key-address_of k (b ∷ order) a h = ground (arith, eq_iff (heap b).key k, key-address_of k order a)

  pub address_of-unlink-none :
      (k : String) (a : ℕ) (order : List ℕ)
      → address_of k order ≡ none
      → address_of k (unlink a order) ≡ none
  unfolding address_of unlink
  address_of-unlink-none k a [] h = refl
  address_of-unlink-none k a (b ∷ order) h = ground (arith, address_of-unlink-none k a order)

  pub unlink-HasDistinctKeys :
      (a : ℕ) (order : List ℕ) → HasDistinctKeys order → HasDistinctKeys (unlink a order)
  unfolding unlink
  unlink-HasDistinctKeys a [] h = tt
  unlink-HasDistinctKeys a (b ∷ order) (p, h) =
      ground
        (arith, unlink-HasDistinctKeys a order h, address_of-unlink-none (heap b).key a order p)

  -- Unlinking the element of a key hides that key alone.
  pub address_of-unlink :
      (k j : String) (a : ℕ) (order : List ℕ)
      → HasDistinctKeys order
      → address_of k order ≡ some a
      → address_of j (unlink a order) ≡ (if k == j then none else address_of j order)
  unfolding address_of unlink
  address_of-unlink k j a [] d h = cc
  address_of-unlink k j a (b ∷ order) (p, d) h = ground (
    arith,
    eq_iff k j,
    eq_iff (heap b).key k,
    eq_iff (heap b).key j,
    key-address_of k order a,
    address_of-unlink k j a order d,
  )

  -- The entries, the most recently used one first.
  abbrev pub entries : List ℕ → List (CacheEntry R)
  entries = map heap

-- A list of entries, looked up and changed by key.
module _ {R : Type 0} where
  unfoldable pub find : String → List (CacheEntry R) → Option (CacheEntry R)
  find k [] = none
  find k (e ∷ es) = if e.key == k then some e else find k es

  -- The list without the first entry of the key.
  unfoldable pub drop_key : String → List (CacheEntry R) → List (CacheEntry R)
  drop_key k [] = []
  drop_key k (e ∷ es) = let rest = drop_key k es in if e.key == k then es else e ∷ rest

  -- The list without its last entry.
  unfoldable pub but_last : List (CacheEntry R) → List (CacheEntry R)
  but_last [] = []
  but_last (e ∷ []) = []
  but_last (e ∷ f ∷ es) = e ∷ but_last (f ∷ es)

module _ {R : Type 0} (heap : ℕ → CacheEntry R) where
  pub find-entries :
      (k : String) (order : List ℕ)
      → find k (entries heap order)
        ≡ elim (address_of heap k order) [ none ↦ none | some a ↦ some (heap a) ]
  unfolding find address_of
  find-entries k [] = refl
  find-entries k (a ∷ order) = ground (arith, find-entries k order)

  pub entries-unlink :
      (k : String) (a : ℕ) (order : List ℕ)
      → address_of heap k order ≡ some a
      → entries heap (unlink a order) ≡ drop_key k (entries heap order)
  unfolding address_of unlink drop_key
  entries-unlink k a [] h = cc
  entries-unlink k a (b ∷ order) h =
      ground (arith, eq_iff (heap b).key k, key-address_of heap k order a, entries-unlink k a order)

  -- The element at the back, unlinked.
  pub entries-unlink-back :
      (a : ℕ) (order : List ℕ)
      → HasDistinctKeys heap order
      → back order ≡ some a
      → (entries heap (unlink a order) ≡ but_last (entries heap order))
        × (address_of heap (heap a).key order ≡ some a)
  unfolding back unlink but_last address_of
  entries-unlink-back a [] d h = cc
  entries-unlink-back a (b ∷ []) d h = ground (arith, eq_refl (heap b).key)
  entries-unlink-back a (b ∷ b' ∷ order) (p, d) h =
      ground (arith, p, entries-unlink-back a (b' ∷ order) d h, eq_iff (heap b).key (heap a).key)

  pub length-unlink :
      (k : String) (a : ℕ) (order : List ℕ)
      → address_of heap k order ≡ some a
      → length (unlink a order) + 1 ≡ length order
  unfolding address_of unlink
  length-unlink k a [] h = cc
  length-unlink k a (b ∷ order) h = ground (arith, length-unlink k a order)

  module _ (n : ℕ) (e : CacheEntry R) where
    -- A write at an address that is not in the list.
    pub entries-update :
        (order : List ℕ)
        → All (λ a. a < n) order
        → (entries (update heap n e) order ≡ entries heap order)
    unfolding update
    entries-update [] b = refl
    entries-update (a ∷ order) (p, b) = ground (arith, entries-update order b)

    pub address_of-update :
        (k : String) (order : List ℕ)
        → All (λ a. a < n) order
        → address_of (update heap n e) k order ≡ address_of heap k order
    unfolding update address_of
    address_of-update k [] b = refl
    address_of-update k (a ∷ order) (p, b) = ground (arith, address_of-update k order b)

    -- A write that keeps the key of the element.
    pub address_of-rewrite :
        (k : String) (order : List ℕ)
        → e.key ≡ (heap n).key
        → address_of (update heap n e) k order ≡ address_of heap k order
    unfolding update address_of
    address_of-rewrite k [] b = refl
    address_of-rewrite k (a ∷ order) b = ground (arith, address_of-rewrite k order b)

    pub entries-rewrite :
        (order : List ℕ)
        → address_of heap (heap n).key order ≡ none
        → entries (update heap n e) order ≡ entries heap order
    unfolding update address_of
    entries-rewrite [] b = refl
    entries-rewrite (a ∷ order) b = ground (arith, eq_refl (heap n).key, entries-rewrite order)

    pub update_self : update heap n e n ≡ e
    unfolding update
    update_self = ground arith

    pub HasDistinctKeys-update :
        (order : List ℕ)
        → All (λ a. a < n) order
        → HasDistinctKeys heap order
        → HasDistinctKeys (update heap n e) order
    unfolding update
    HasDistinctKeys-update [] b d = tt
    HasDistinctKeys-update (a ∷ order) (p, b) (f, d) =
        ground (arith, f, address_of-update (heap a).key order b, HasDistinctKeys-update order b d)

    pub HasDistinctKeys-rewrite :
        (order : List ℕ)
        → e.key ≡ (heap n).key
        → HasDistinctKeys heap order
        → HasDistinctKeys (update heap n e) order
    unfolding update
    HasDistinctKeys-rewrite [] b d = tt
    HasDistinctKeys-rewrite (a ∷ order) b (f, d) =
        ground
          (arith, f, address_of-rewrite (heap a).key order b, HasDistinctKeys-rewrite order b d)
