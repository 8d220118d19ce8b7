-- ===== src/Consume/Group/Drain/Removal.antt =====
-- The ids that remain when a page of them is acknowledged.
use dasher.Common.{
  ℕ, zero, suc, ◌≤◌, ◌<◌, String, ◌==◌, eq_refl, Bool, true, List, [], ◌∷◌, length, ◌≡◌, ◌≢◌, refl,
  ap, arith, if◌then◌else◌, take, take_of_length-lt, any, all,
}

-- The ids without one of them.
unfoldable pub remove : String → List String → List String
remove id [] = []
remove id (j ∷ ids) = let rest = remove id ids in if j == id then rest else j ∷ rest

unfoldable pub remove_all : List String → List String → List String
remove_all [] own = own
remove_all (id ∷ ids) own = remove_all ids (remove id own)

length-remove-le : (id : String) (ids : List String) → length (remove id ids) ≤ length ids
unfolding remove
length-remove-le id [] = omega arith
length-remove-le id (j ∷ ids) = ground (arith, length-remove-le id ids)

length-remove_all-le : (ids own : List String) → length (remove_all ids own) ≤ length own
unfolding remove_all
length-remove_all-le [] own = omega arith
length-remove_all-le (id ∷ ids) own =
    omega (arith, length-remove_all-le ids (remove id own), length-remove-le id own)

remove_self : (id : String) (own : List String) → remove id (id ∷ own) ≡ remove id own
unfolding remove
remove_self id own = rw (eq_refl id)

-- Removing the first page leaves fewer entries.
length-remove_all-lt :
    (n : ℕ) (id : String) (own : List String)
    → length (remove_all (take (suc n) (id ∷ own)) (id ∷ own)) < length (id ∷ own)
unfolding remove_all
length-remove_all-lt n id own = omega (
  arith,
  ap (λ l. length (remove_all (take n own) l)) (remove_self id own),
  length-remove_all-le (take n own) (remove id own),
  length-remove-le id own,
)

remove_all-nil : (ids : List String) → remove_all ids [] ≡ []
unfolding remove_all remove
remove_all-nil [] = refl
remove_all-nil (id ∷ ids) = remove_all-nil ids

abbrev occurs : List String → String → Bool
occurs ids j = any (λ i. j == i) ids

remove_all-cons :
    (ids : List String) (j : String) (own : List String)
    → remove_all ids (j ∷ own)
      ≡ (if occurs ids j then remove_all ids own else j ∷ remove_all ids own)
unfolding remove_all remove
remove_all-cons [] j own = refl
remove_all-cons (id ∷ ids) j own = ground (arith, remove_all-cons ids j (remove id own))

remove_all_of_all : (ids own : List String) → all (occurs ids) own ≡ true → remove_all ids own ≡ []
remove_all_of_all ids [] h = remove_all-nil ids
remove_all_of_all ids (j ∷ own) h =
    rw (remove_all-cons ids j own) (ground (arith, remove_all_of_all ids own))

occurs-cons :
    (id : String) (ids own : List String)
    → all (occurs ids) own ≡ true
    → all (occurs (id ∷ ids)) own ≡ true
occurs-cons id ids [] h = refl
occurs-cons id ids (j ∷ own) h = ground (arith, occurs-cons id ids own)

occurs_self : (ids : List String) → all (occurs ids) ids ≡ true
occurs_self [] = refl
occurs_self (id ∷ ids) = rw (eq_refl id) (occurs-cons id ids ids (occurs_self ids))

-- A page that is not full removes every entry.
pub remove_all-take :
    (n : ℕ) (own : List String) → length (take n own) < n → remove_all (take n own) own ≡ []
remove_all-take n own h =
    rw (take_of_length-lt n own h) (remove_all_of_all own own (occurs_self own))

pub take-eq-nil : (n : ℕ) (ids : List String) → 1 ≤ n → take n ids ≡ [] → ids ≡ []
take-eq-nil zero ids p e = elim p [ ]
take-eq-nil (suc n) [] p e = refl
take-eq-nil (suc n) (id ∷ ids) p e = cc

pub length-rest :
    (n : ℕ) (ids : List String)
    → 1 ≤ n
    → ids ≢ []
    → length (remove_all (take n ids) ids) < length ids
length-rest zero ids p q = elim p [ ]
length-rest (suc n) [] p q = absurd (q refl)
length-rest (suc n) (id ∷ ids) p q = length-remove_all-lt n id ids

pub take-nil : (n : ℕ) → take {A = String} n [] ≡ []
take-nil zero = refl
take-nil (suc n) = refl
