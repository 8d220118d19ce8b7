-- ===== src/Services/Bundle/Conns.antt =====
-- The size of the database pool.
use dasher.Common.{ℕ, ◌-◌, ◌%◌, ◌≤◌, ◌<◌, ◌≡◌, ◌⊎◌, arith}
use dasher.Common.Int.{ℤ, pos, negsuc, ◌≤ℤ◌, ◌<ℤ◌}
use dasher.Services.Bundle.{max_conns_of}

-- The low 32 bits of a number in two's complement.
abbrev pub low_bits : ℤ → ℕ
low_bits (pos n) = n % 4294967296
low_bits (negsuc n) = 4294967295 - n % 4294967296

-- The pool gets between 1 and 2^31 - 1 connections, whatever number the configuration states: the
-- stated number where it is in that range, and in general the number that its low 32 bits stand for
-- where that is positive as an int32, and 4 where it is not.
pub max_conns_of-bounds :
    (n : ℤ)
    → (pos 1 ≤ℤ max_conns_of n)
      × (max_conns_of n <ℤ pos 2147483648)
      × ((max_conns_of n ≡ n) ⊎ (n <ℤ pos 1) ⊎ (pos 2147483648 ≤ℤ n))
      × (((1 ≤ low_bits n) × (low_bits n < 2147483648) × (max_conns_of n ≡ pos (low_bits n)))
          ⊎ ((low_bits n ≡ 0) × (max_conns_of n ≡ pos 4))
          ⊎ ((2147483648 ≤ low_bits n) × (max_conns_of n ≡ pos 4)))
unfolding max_conns_of
max_conns_of-bounds (pos n) = ground arith
max_conns_of-bounds (negsuc n) = ground arith
