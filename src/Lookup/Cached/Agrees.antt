-- ===== src/Lookup/Cached/Agrees.antt =====
-- What the caching lookup answers, against the lookup that it wraps.
use package.text.Mathlib.TextLemmas.{append_cancel_left, append_cancel_right}
use dasher.Common.Dict.{lookup}
use dasher.Common.{
  ◌<>◌, eq_refl, ℕ, String, ◌==◌, eq_iff, none, some, List, [], ◌∷◌, ◌≡◌, refl, sym, ◌∙◌, ap,
  length, leb, All, Option-cases, Bool-cases, inl, inr,
}
use mathlib.Core.Path.{subst}
use dasher.Common.Int.{ℤ, pos, ltb_ℤ, leb_ℤ, ◌+ℤ◌}
use dasher.Event.Parse.{Result-cases, Result, ok, fail}
use dasher.Lookup.{Lookup}
use dasher.Lookup.Cache.{CacheEntry, Cache, get, effective_ttl}
use dasher.Lookup.Cache.Order.{find, drop_key, but_last}
use dasher.Lookup.Cache.Refines.{get-read, set-write}
use dasher.Lookup.Cache.Sound.{IsSound, contents}
use dasher.Lookup.Cache.Spec.{read, write}
use dasher.Lookup.Cached.{
  Formats, Clock, value_of, join_fields, make_cache_key, store_single, cached_resolve,
}
use dasher.Value.{Row, text}

module _ {R : Type 0} (P : CacheEntry R → Type 0) where
  find-All :
      (key : String) (es : List (CacheEntry R)) (e : CacheEntry R)
      → All P es
      → find key es ≡ some e
      → P e × (e.key ≡ key)
  unfolding find
  find-All key [] e a h = cc
  find-All key (x ∷ es) e (p, a) h = elim (Bool-cases (x.key == key)) [
    | inl same ↦
        subst (λ y. P y × (y.key ≡ key)) (some-injective x e (rw (same, find) at h))
          (p, (eq_iff x.key key).0 same)
    | inr other ↦ find-All key es e a (rw (other, find) at h)
  ]
    where
      some-injective : (x y : CacheEntry R) → some x ≡ some y → x ≡ y
      some-injective x y q = ap (λ o. elim o [ none ↦ x | some z ↦ z ]) q

  drop_key-All : (key : String) (es : List (CacheEntry R)) → All P es → All P (drop_key key es)
  unfolding drop_key
  drop_key-All key [] a = tt
  drop_key-All key (x ∷ es) (p, a) = elim (Bool-cases (x.key == key)) [
    | inl same ↦ rw (same, drop_key) a
    | inr other ↦ rw (other, drop_key) (p, drop_key-All key es a)
  ]

  but_last-All : (es : List (CacheEntry R)) → All P es → All P (but_last es)
  unfolding but_last
  but_last-All [] a = tt
  but_last-All (x ∷ []) a = tt
  but_last-All (x ∷ y ∷ es) (p, a) = (p, but_last-All (y ∷ es) a)

  read-All :
      (key : String) (now : ℤ) (es : List (CacheEntry R))
      → All P es
      → All P (read key now es).1
        × ((v : R)
            → (read key now es).0 ≡ some v
            → (e : CacheEntry R) × P e × (e.key ≡ key) × (e.value ≡ v))
  unfolding read
  read-All key now es a = elim (Option-cases (find key es)) [
    | inl miss ↦ rw (miss, read) (a, λ v h. cc)
    | inr (e, found) ↦
        let (p, same) = find-All key es e a found in
        elim (Bool-cases (ltb_ℤ e.expires_at now)) [
          | inl stale ↦ rw (found, stale, read) (drop_key-All key es a, λ v h. cc)
          | inr live ↦
              rw (found, live, read)
                (
                  (p, drop_key-All key es a),
                  λ v h. (e, p, same, ap (λ o. elim o [ none ↦ e.value | some z ↦ z ]) h),
                )
        ]
  ]

  write-All :
      (max_entries : ℕ) (key : String) (value : R) (ttl jitter now : ℤ) (es : List (CacheEntry R))
      → All P es
      → P (record { key = key; value = value; expires_at = now +ℤ effective_ttl ttl jitter })
      → All P (write max_entries key value ttl jitter now es)
  unfolding write
  write-All max_entries key value ttl jitter now es a p = elim (Bool-cases (leb_ℤ ttl (pos 0))) [
    | inl never ↦ rw (never, write) a
    | inr kept ↦ elim (Option-cases (find key es)) [
      | inr (e, found) ↦ rw (kept, found, write) (p, drop_key-All key es a)
      | inl miss ↦ elim (Bool-cases (leb max_entries (length es))) [
        | inl full ↦ rw (kept, miss, full, write) (p, but_last-All es a)
        | inr room ↦ rw (kept, miss, room, write) (p, a)
      ]
    ]
  ]

module _ {W : Type 0} (f : Formats) (clock : Clock W) (inner : Lookup W) (k : String)
    (answer : String → List Row) where
  -- The bind map of one text parameter.
  abbrev pub asking : String → Row
  asking s = (k, text s) ∷ []

  -- The database does not change its answers while the process runs; of the Go library: different
  -- texts are printed differently, and a list of one name is sorted.
  pub record IsStable : Type 0 where
    pub answers :
        (s : String) (w : W) (rows : List Row) → (inner (asking s) w).0 ≡ ok rows → rows ≡ answer s
    pub prints : (s t : String) → f.print (text s) ≡ f.print (text t) → s ≡ t
    pub sort_one : (x : String) → f.sort_strings (x ∷ []) ≡ x ∷ []

  value_of-asking : (s : String) → value_of (asking s) k ≡ text s
  unfolding value_of lookup
  value_of-asking s = rw (eq_refl k, value_of) refl

  make_cache_key-asking :
      (s : String)
      → IsStable
      → make_cache_key f (asking s) ≡ "|" <> k <> "=" <> f.print (text s) <> ""
  unfolding make_cache_key join_fields
  make_cache_key-asking s stable =
      ap (join_fields f (asking s)) (stable.sort_one k)
      ∙ ap (λ v. "|" <> k <> "=" <> f.print v <> "") (value_of-asking s)

  -- Different texts have different keys.
  make_cache_key-injective :
      (s t : String) → IsStable → make_cache_key f (asking s) ≡ make_cache_key f (asking t) → s ≡ t
  make_cache_key-injective s t stable same =
      let whole = sym (make_cache_key-asking s stable) ∙ same ∙ make_cache_key-asking t stable in
      stable.prints s t (
        append_cancel_right _ _ "" (
          append_cancel_left "=" _ _ (append_cancel_left k _ _ (append_cancel_left "|" _ _ whole))))

  -- An entry holds the answer to a text, under its key.
  abbrev pub IsAnswer : CacheEntry (List Row) → Type 0
  IsAnswer e = (s : String) × (make_cache_key f (asking s) ≡ e.key) × (e.value ≡ answer s)

  abbrev pub IsWarm : Cache (List Row) → Type 0
  IsWarm c = IsSound c × All IsAnswer (contents c)

  store_single-IsWarm :
      (s : String) (ttl : ℤ) (rows : List Row) (w : W) (c : Cache (List Row))
      → rows ≡ answer s
      → IsWarm c
      → IsWarm (store_single f clock (make_cache_key f (asking s)) ttl rows w c)
  unfolding store_single
  store_single-IsWarm s ttl [] w c e h = h
  store_single-IsWarm s ttl (row ∷ []) w c e (sound, warm) =
      let key = make_cache_key f (asking s) in
      let (left, sound') = set-write key (row ∷ []) ttl (clock.jitter w) (clock.now w) c sound in
      (
        sound',
        rw left (write-All IsAnswer c.max_entries _ _ ttl _ _ (contents c) warm (s, refl, e)),
      )
  store_single-IsWarm s ttl (row ∷ row' ∷ rows) w c e h = h

  -- A lookup in the cache leaves it warm, and what it finds is the answer.
  get-IsWarm :
      (s : String) (now : ℤ) (c : Cache (List Row))
      → IsStable
      → IsWarm c
      → IsWarm (get (make_cache_key f (asking s)) now c).1
        × ((v : List Row) → (get (make_cache_key f (asking s)) now c).0 ≡ some v → v ≡ answer s)
  get-IsWarm s now c stable (sound, warm) =
      let key = make_cache_key f (asking s) in
      let (found, left, sound') = get-read key now c sound in
      let (warm', hits) = read-All IsAnswer key now (contents c) warm in
      (
        (sound', subst (All IsAnswer) (sym left) warm'),
        λ v hit.
            let (e, (t, of_key, value), same, held) = hits v (sym found ∙ hit) in
            sym held ∙ value ∙ ap answer (make_cache_key-injective t s stable (of_key ∙ same)),
      )

  -- The database's answer, or an error that the database returned.
  abbrev pub Answers : String → W → Result (List Row) → Type 0
  Answers s w (ok rows) = rows ≡ answer s
  Answers s w (fail e) = (inner (asking s) w).0 ≡ fail e

  -- A caching lookup that is asked by one text parameter, over a database that does not change its
  -- answers to it: on a cache that holds answers of the database, each under the key of its text,
  -- it answers as the database does for that very text, from the cache or not, whatever has
  -- expired or been evicted; it fails only with an error of the database; and it leaves the cache
  -- such a one.
  pub cached_resolve-IsWarm :
      (s : String) (ttl : ℤ) (w : W) (c : Cache (List Row))
      → IsStable
      → IsWarm c
      → Answers s w (cached_resolve f clock inner ttl (asking s) (w, c)).0
        × IsWarm (cached_resolve f clock inner ttl (asking s) (w, c)).1.1
  unfolding cached_resolve
  cached_resolve-IsWarm s ttl w c stable warm =
      let key = make_cache_key f (asking s) in
      let (still, right) = get-IsWarm s (clock.now w) c stable warm in
      elim (Option-cases (get key (clock.now w) c).0) [
        | inr (v, hit) ↦ rw (hit, cached_resolve) (right v hit, still)
        | inl miss ↦ elim (Result-cases (inner (asking s) w).0) [
          | inr (e, failed) ↦ rw (miss, failed, cached_resolve) (failed, still)
          | inl (rows, got) ↦
              let same = stable.answers s w rows got in
              rw (miss, got, cached_resolve)
                (
                  same,
                  store_single-IsWarm s ttl rows (inner (asking s) w).1 (get key (clock.now w) c).1
                      same still,
                )
        ]
      ]
