-- ===== src/Lookup/Cache/Lifetime.antt =====
-- The lifetime of a cache entry.
use dasher.Common.{
  ℕ, suc, ◌+◌, ◌*◌, ◌≤◌, ◌<◌, ◌≡◌, ◌-◌, arith, refl, true, false, leb, leb→le, Bool-cases, inl, inr,
}
use dasher.Common.Int.{ℤ, pos, negsuc, pos_part, neg_part, ◌+ℤ◌, leb_ℤ}
use dasher.Lookup.Cache.{to_int64, effective_ttl}

to_int64_small : (m : ℕ) → m < 9223372036854775808 → to_int64 (pos m) ≡ pos m
to_int64_small m h = ground arith

to_int64_wraps :
    (m : ℕ)
    → 9223372036854775808 ≤ m
    → m < 18446744073709551616
    → leb_ℤ (to_int64 (pos m)) (pos 0) ≡ true
to_int64_wraps m h k = ground arith

pos-not_leb : (m : ℕ) → 0 < m → leb_ℤ (pos m) (pos 0) ≡ false
pos-not_leb m h = ground arith

abbrev pub IsLifetime : ℕ → ℤ → Type 0
IsLifetime ttl effective =
    (n : ℕ) × (effective ≡ pos n)
    × (0 < n)
    × (n < 9223372036854775808)
    × (17 * ttl ≤ 20 * n)
    × (20 * n ≤ 23 * ttl)

-- The sum of the TTL and the random part is `m`.
of_sum :
    (ttl m : ℕ) (jitter : ℤ)
    → 0 < ttl
    → ttl < 9223372036854775808
    → pos ttl +ℤ jitter ≡ pos m
    → 17 * ttl ≤ 20 * m
    → 20 * m ≤ 23 * ttl
    → IsLifetime ttl (effective_ttl (pos ttl) jitter)
unfolding effective_ttl
of_sum ttl m jitter some_ttl fits sum low high = elim (Bool-cases (leb 9223372036854775808 m)) [
  | inl over ↦
      rw (sum, to_int64_wraps m (leb→le _ _ over) (omega arith))
        (ttl, refl, some_ttl, fits, omega arith, omega arith)
  | inr under ↦
      let small : m < 9223372036854775808 = ground arith in
      rw (sum, to_int64_small m small, pos-not_leb m (omega arith))
        (m, refl, omega arith, small, low, high)
]

sum_pos : (a b : ℕ) → pos a +ℤ pos b ≡ pos (a + b)
sum_pos a b = ground arith

sum_neg : (a b : ℕ) → b < a → pos a +ℤ negsuc b ≡ pos (a - suc b)
sum_neg a b h = ground arith

-- The lifetime of an entry whose TTL is positive is positive, is an int64, and lies between 85 and
-- 115 percent of the TTL, when the random part is at most 15 percent either way: also where the sum
-- of the two overflows, as then the TTL itself is taken.
pub effective_ttl-bounds :
    (ttl : ℕ) (jitter : ℤ)
    → 0 < ttl
    → ttl < 9223372036854775808
    → 20 * (pos_part jitter + neg_part jitter) ≤ 3 * ttl
    → IsLifetime ttl (effective_ttl (pos ttl) jitter)
effective_ttl-bounds ttl (pos j) some_ttl fits small =
    of_sum ttl (ttl + j) (pos j) some_ttl fits (sum_pos ttl j) (omega (arith, small))
      (omega (arith, small))
effective_ttl-bounds ttl (negsuc j) some_ttl fits small =
    of_sum ttl (ttl - suc j) (negsuc j) some_ttl fits (sum_neg ttl j (omega (arith, small)))
      (omega (arith, small)) (omega (arith, small))
