-- ===== src/Common/Dict.antt =====
-- Go maps with string keys, as association lists. `insert` is `m[k] = v`.
use Prim.Native.String.{String}
use mathlib.Core.Path.{◌≡◌, refl, ap, subst}
use mathlib.Core.Option.{Option, none, some}
use mathlib.Core.List.{List, [], ◌∷◌}
use native.Mathlib.Omega.{arith}
use text.Mathlib.Text.{◌==◌}
use text.Mathlib.TextEquality.{eq_iff}
use text.Mathlib.TextPositions.{eq_refl}
use dasher.Common.Tests.{if◌then◌else◌, Bool-cases}
use dasher.Common.Lists.{All}
use mathlib.Core.Logic.{inl, inr}

abbrev pub Dict {ℓ} : Type ℓ → Type ℓ
Dict V = List (String × V)

module _ {ℓ} {V : Type ℓ} where
  unfoldable pub lookup : String → Dict V → Option V
  lookup key [] = none
  lookup key ((name, x) ∷ rest) = if name == key then some x else lookup key rest

  unfoldable pub delete : String → Dict V → Dict V
  delete key [] = []
  delete key ((name, x) ∷ rest) =
      let others = delete key rest in if name == key then others else (name, x) ∷ others

  unfoldable pub insert : String → V → Dict V → Dict V
  insert key x [] = (key, x) ∷ []
  insert key x ((name, y) ∷ rest) =
      let others = insert key x rest in if name == key then (key, x) ∷ rest else (name, y) ∷ others

  pub lookup-delete :
      (key asked : String) (d : Dict V)
      → lookup asked (delete key d) ≡ (if key == asked then none else lookup asked d)
  unfolding lookup delete
  lookup-delete key asked [] = ground arith
  lookup-delete key asked ((name, x) ∷ rest) =
      ground
        (arith, lookup-delete key asked rest, eq_iff name key, eq_iff name asked, eq_iff key asked)

  pub lookup-insert :
      (key asked : String) (x : V) (d : Dict V)
      → lookup asked (insert key x d) ≡ (if key == asked then some x else lookup asked d)
  unfolding lookup insert
  lookup-insert key asked x [] = refl
  lookup-insert key asked x ((name, y) ∷ rest) =
      ground (
        arith,
        lookup-insert key asked x rest,
        eq_iff name key,
        eq_iff name asked,
        eq_iff key asked,
      )

  pub lookup-insert_self :
      (key : String) (x : V) (d : Dict V) → lookup key (insert key x d) ≡ some x
  lookup-insert_self key x d = simp (lookup-insert, eq_refl)

-- What holds of every value holds of one that is found.
pub lookup-All {ℓ κ} :
    {V : Type ℓ} (P : V → Type κ) (d : Dict V) (key : String) (x : V)
    → All (λ e. P e.1) d
    → lookup key d ≡ some x
    → P x
unfolding lookup
lookup-All P [] key x a h = cc
lookup-All {V = X} P ((name, y) ∷ d) key x (p, a) h = elim (Bool-cases (name == key)) [
  | inl same ↦ subst P (some-injective y x (rw (same, lookup) at h)) p
  | inr other ↦ lookup-All P d key x a (rw (other, lookup) at h)
]
  where
    some-injective : (y x : X) → some y ≡ some x → y ≡ x
    some-injective y x q = ap (λ o. elim o [ none ↦ y | some z ↦ z ]) q

module _ {ℓ κ} {V : Type ℓ} (P : String → V → Type κ) where
  -- What holds of every entry holds of one that is found.
  pub lookup-All_entry :
      (d : Dict V) (key : String) (x : V) → All (λ e. P e.0 e.1) d → lookup key d ≡ some x → P key x
  unfolding lookup
  lookup-All_entry [] key x a h = cc
  lookup-All_entry ((name, y) ∷ d) key x (p, a) h = elim (Bool-cases (name == key)) [
    | inl same ↦
        subst (P key) (some-injective y x (rw (same, lookup) at h))
          (subst (λ s. P s y) ((eq_iff name key).0 same) p)
    | inr other ↦ lookup-All_entry d key x a (rw (other, lookup) at h)
  ]
    where
      some-injective : (y x : V) → some y ≡ some x → y ≡ x
      some-injective y x q = ap (λ o. elim o [ none ↦ y | some z ↦ z ]) q

  pub insert-All :
      (d : Dict V) (key : String) (x : V)
      → P key x
      → All (λ e. P e.0 e.1) d
      → All (λ e. P e.0 e.1) (insert key x d)
  unfolding insert
  insert-All [] key x p a = (p, tt)
  insert-All ((name, y) ∷ d) key x p (q, a) = elim (Bool-cases (name == key)) [
    | inl same ↦ rw (same, insert) (p, a)
    | inr other ↦ rw (other, insert) (q, insert-All d key x p a)
  ]
