-- ===== src/Common/Maps.antt =====
-- Association lists as Go's maps: without an order, each key once.
use Prim.Native.String.{String}
use mathlib.Core.Path.{◌≡◌, refl, sym, ◌∙◌}
use mathlib.Core.Logic.{◌≢◌, inl, inr}
use mathlib.Core.HLevel.{¬_prop}
use mathlib.Core.Logic.Or
use mathlib.Core.Option.{none, some}
use mathlib.Core.List.{
  List, [], ◌∷◌, map, Mem, Nodup, Nodup-cons, Nodup-nil, Perm, not-mem-nil, mem-cons, mem-cons_self,
  mem-cons_of_mem, perm_ext_iff_of_Nodup,
}
use native.Mathlib.Omega.{arith}
use text.Mathlib.TextEquality.{eq_iff}
use dasher.Common.Tests.{Option-cases, String-cases}
use dasher.Common.Dict.{Dict, lookup, insert, lookup-insert}

module _ {V : Type 0} where
  -- Each key stands once.
  abbrev pub Distinct : Dict V → Type 0
  Distinct [] = Unit
  Distinct ((key, x) ∷ d) = (lookup key d ≡ none) × Distinct d

  -- The same map, whatever the order.
  abbrev pub SameMap : Dict V → Dict V → Type 0
  SameMap d d' = (key : String) → lookup key d ≡ lookup key d'

  abbrev pub keys : Dict V → List String
  keys d = map (λ e. e.0) d

  lookup-ne-none_of_mem : (key : String) (d : Dict V) → Mem key (keys d) → lookup key d ≢ none
  unfolding lookup
  lookup-ne-none_of_mem key [] m = absurd (not-mem-nil m)
  lookup-ne-none_of_mem key ((name, x) ∷ d) m = elim (String-cases name key) [
    | inl (same, hit) ↦ rw (hit, lookup) (λ e. cc)
    | inr (other, miss) ↦
        rw (miss, lookup)
          (Or.elim ¬_prop (mem-cons.0 m) (λ e. absurd (other (sym e)))
            (λ m'. lookup-ne-none_of_mem key d m'))
  ]

  mem_of_lookup : (key : String) (d : Dict V) (x : V) → lookup key d ≡ some x → Mem key (keys d)
  unfolding lookup
  mem_of_lookup key [] x h = absurd cc
  mem_of_lookup key ((name, y) ∷ d) x h = elim (String-cases name key) [
    | inl (same, hit) ↦ rw same mem-cons_self
    | inr (other, miss) ↦ mem-cons_of_mem _ (mem_of_lookup key d x (rw (miss, lookup) at h))
  ]

  keys-Nodup : (d : Dict V) → Distinct d → Nodup (keys d)
  keys-Nodup [] h = Nodup-nil
  keys-Nodup ((key, x) ∷ d) (new, h) =
      Nodup-cons.1 (λ m. lookup-ne-none_of_mem key d m new, keys-Nodup d h)

  keys_sub : (d d' : Dict V) (key : String) → SameMap d d' → Mem key (keys d) → Mem key (keys d')
  keys_sub d d' key same m = elim (Option-cases (lookup key d')) [
    | inr (x, found) ↦ mem_of_lookup key d' x found
    | inl missing ↦ absurd (lookup-ne-none_of_mem key d m (same key ∙ missing))
  ]

  -- Two lists of one map have the same keys, in some order.
  pub keys-perm :
      (d d' : Dict V) → Distinct d → Distinct d' → SameMap d d' → Perm (keys d) (keys d')
  keys-perm d d' h h' same =
      (perm_ext_iff_of_Nodup (keys-Nodup d h) (keys-Nodup d' h')).1
        (λ key. (keys_sub d d' key same, keys_sub d' d key (λ k. sym (same k))))

  pub insert-Distinct : (key : String) (x : V) (d : Dict V) → Distinct d → Distinct (insert key x d)
  unfolding insert lookup
  insert-Distinct key x [] h = (refl, tt)
  insert-Distinct key x ((name, y) ∷ d) (new, h) = elim (String-cases name key) [
    | inl (same, hit) ↦ rw (hit, insert) (rw (← same) new, h)
    | inr (other, miss) ↦
        rw (miss, insert)
          (
            lookup-insert key name x d ∙ ground (arith, eq_iff key name, other, new),
            insert-Distinct key x d h,
          )
  ]
