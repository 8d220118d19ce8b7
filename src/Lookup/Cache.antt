-- ===== src/Lookup/Cache.antt =====
-- The LRU cache with expiry of dasher/internal/lookup/cache.go: a map from keys to the elements
-- of a linked list, the front of which is the most recently used. An element is known by its
-- address, and `heap` holds the `Value` of each.
pub mod Order
pub mod Spec
pub mod Sound
pub mod Refines
pub mod Lifetime
use dasher.Common.{
  ◌-◌, ◌%◌, ltb, ℕ, zero, suc, ◌+◌, String, Bool, true, false, Option, none, some, List, [], ◌∷◌,
  length, leb, ◌==ℕ◌, if◌then◌else◌,
}
use dasher.Common.Dict.{Dict, lookup, insert, delete}
use dasher.Common.Int.{ℤ, pos, negsuc, ltb_ℤ, leb_ℤ, ◌+ℤ◌}

pub record CacheEntry (R : Type 0) : Type 0 where
  pub key : String
  pub value : R
  pub expires_at : ℤ

pub record Cache (R : Type 0) : Type 0 where
  pub max_entries : ℕ
  pub items : Dict ℕ
  pub order : List ℕ
  pub heap : ℕ → CacheEntry R
  pub next_address : ℕ

abbrev pub default_max_entries : ℕ
default_max_entries = 1024

-- `l.Remove(el)`
unfoldable pub unlink : ℕ → List ℕ → List ℕ
unlink el [] = []
unlink el (a ∷ order) = let rest = unlink el order in if el ==ℕ a then order else a ∷ rest

-- `l.Back()`
unfoldable pub back : List ℕ → Option ℕ
back [] = none
back (a ∷ []) = some a
back (a ∷ b ∷ order) = back (b ∷ order)

-- A write through the pointer to an element.
unfoldable pub update : {R : Type 0} → (ℕ → CacheEntry R) → ℕ → CacheEntry R → ℕ → CacheEntry R
update heap el e a = if el ==ℕ a then e else heap a

-- A sum of two int64: the low 64 bits, read as a signed number.
abbrev pub to_int64 : ℤ → ℤ
to_int64 n =
    let bits : ℕ = elim n [
      | pos a ↦ a % 18446744073709551616
      | negsuc a ↦ 18446744073709551615 - a % 18446744073709551616
    ] in
    if ltb bits 9223372036854775808 then pos bits else negsuc (18446744073709551615 - bits)

-- The lifetime that `Set` gives an entry; `jitter` is the random part that it adds to `ttl`.
unfoldable pub effective_ttl : ℤ → ℤ → ℤ
effective_ttl ttl jitter =
    let effective = to_int64 (ttl +ℤ jitter) in if leb_ℤ effective (pos 0) then ttl else effective

-- `if maxEntries <= 0 { maxEntries = defaultMaxEntries }`
abbrev pub capacity_of : ℤ → ℕ
capacity_of (pos n) = if n ==ℕ 0 then default_max_entries else n
capacity_of (negsuc n) = default_max_entries

module _ {R : Type 0} where
  -- `NewCache`; what memory holds before the first write does not matter.
  unfoldable pub new_cache : (ℕ → CacheEntry R) → ℤ → Cache R
  new_cache memory max_entries = record {
    max_entries = capacity_of max_entries;
    items = [];
    order = [];
    heap = memory;
    next_address = 0;
  }

  -- `Get` at the time `now`.
  unfoldable pub get : String → ℤ → Cache R → Option R × Cache R
  unfolding unlink
  get key now c = elim (lookup key c.items) [
    | none ↦ (none, c)
    | some el ↦
        if ltb_ℤ (c.heap el).expires_at now
        then (none, record c { order = unlink el c.order; items = delete key c.items })
        else (some (c.heap el).value, record c { order = el ∷ unlink el c.order })
  ]

  -- The eviction in `Set`.
  unfoldable pub make_room : Cache R → Cache R
  unfolding unlink back
  make_room c =
      if leb c.max_entries (length c.order)
      then elim (back c.order) [
        | none ↦ c
        | some el ↦ record c { order = unlink el c.order; items = delete (c.heap el).key c.items }
      ]
      else c

  -- `l.PushFront(entry)`, and the entry of the map for it.
  unfoldable pub push_front : CacheEntry R → Cache R → Cache R
  unfolding update
  push_front e c = record c {
    order = c.next_address ∷ c.order;
    heap = update c.heap c.next_address e;
    items = insert e.key c.next_address c.items;
    next_address = c.next_address + 1;
  }

  -- `Set` at the time `now`.
  unfoldable pub set : String → R → ℤ → ℤ → ℤ → Cache R → Cache R
  unfolding make_room push_front effective_ttl
  set key value ttl jitter now c =
      let e : CacheEntry R = record {
        key = key;
        value = value;
        expires_at = now +ℤ effective_ttl ttl jitter;
      } in
      if leb_ℤ ttl (pos 0) then c else elim (lookup key c.items) [
        | some el ↦ record c {
          order = el ∷ unlink el c.order;
          heap = update c.heap el (record (c.heap el) { value = value; expires_at = e.expires_at });
        }
        | none ↦ push_front e (make_room c)
      ]

  unfoldable pub len : Cache R → ℕ
  len c = length c.order
