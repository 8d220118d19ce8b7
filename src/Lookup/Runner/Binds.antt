-- ===== src/Lookup/Runner/Binds.antt =====
-- The bind map that `Run` builds for a rule: what it holds, and of which types.
use dasher.Common.{
  String, ◌==◌, eq_iff, true, false, Option, none, some, [], ◌∷◌, ◌≡◌, refl, ap, ◌∙◌, sym, arith,
  eq_refl, if◌then◌else◌, String-cases, Bool-cases, Option-cases, inl, inr,
}
use mathlib.Core.Path.{subst}
use dasher.Common.Dict.{Dict, lookup, insert, lookup-insert}
use dasher.Common.Maps.{Distinct, insert-Distinct}
use dasher.Lookup.Bind.{Numbers, is_null, normalize_number, resolve_bind}
use dasher.Lookup.Runner.{bind_values}
use dasher.Value.{
  Value, null, boolean, number, int64, float64, text, other, object, array, Row, Table,
}

some-injective {ℓ} : {A : Type ℓ} (x y : A) → some x ≡ some y → x ≡ y
some-injective x y q = ap (λ o. elim o [ none ↦ x | some z ↦ z ]) q

-- A value that is itself neither nil nor a `json.Number`; nothing is asked of what it contains.
abbrev pub IsArgument : Value → Type 0
IsArgument null = ⊥
IsArgument (number s) = ⊥
IsArgument _ = Unit

module _ (n : Numbers) where
  normalize_number-IsArgument :
      (v : Value) → is_null (normalize_number n v) ≡ false → IsArgument (normalize_number n v)
  unfolding normalize_number
  normalize_number-IsArgument null h = absurd cc
  normalize_number-IsArgument (boolean b) h = tt
  normalize_number-IsArgument (number s) h = elim (Option-cases (n.parse_int s)) [
    | inr (i, whole) ↦ rw (whole, normalize_number) tt
    | inl broken ↦ elim (Option-cases (n.parse_float s)) [
      | inr (x, real) ↦ rw (broken, real, normalize_number) tt
      | inl odd ↦ rw (broken, odd, normalize_number) tt
    ]
  ]
  normalize_number-IsArgument (int64 i) h = tt
  normalize_number-IsArgument (float64 x) h = tt
  normalize_number-IsArgument (text s) h = tt
  normalize_number-IsArgument (other t) h = tt
  normalize_number-IsArgument (object fs) h = tt
  normalize_number-IsArgument (array xs) h = tt

  module _ (row old : Table) where
    -- What a rule binds a parameter to, if it is one of its parameters.
    abbrev pub bound : String → Dict String → Option Value
    bound param l = elim (lookup param l) as (λ _. Option Value) [
      | none ↦ none
      | some col ↦ some (resolve_bind n col row old)
    ]

    bound-cons :
        (p col : String) (l : Dict String) (param : String)
        → bound param ((p, col) ∷ l)
          ≡ (if p == param then some (resolve_bind n col row old) else bound param l)
    unfolding lookup
    bound-cons p col l param = ground arith

    resolve_bind-IsArgument :
        (param : String) (l : Dict String) (v : Value)
        → bound param l ≡ some v
        → is_null v ≡ false
        → IsArgument v
    unfolding resolve_bind
    resolve_bind-IsArgument param l v b value = elim (Option-cases (lookup param l)) [
      | inl missing ↦ absurd (cc (rw (missing, bound) at b))
      | inr (col, found) ↦
          let same = some-injective (resolve_bind n col row old) v (rw (found, bound) at b) in
          subst IsArgument same
            (normalize_number-IsArgument _ (subst (λ x. is_null x ≡ false) (sym same) value))
    ]

    bind_values-lookup :
        (l : Dict String) (acc bind : Row) (param : String)
        → Distinct l
        → bind_values n l row old acc ≡ some bind
        → lookup param bind ≡ (elim (lookup param l) as (λ _. Option Value) [
          | none ↦ lookup param acc
          | some col ↦ some (resolve_bind n col row old)
        ])
    unfolding bind_values lookup
    bind_values-lookup [] acc bind param h e = cc
    bind_values-lookup ((p, col) ∷ l) acc bind param (new, h) e =
        let v = resolve_bind n col row old in
        elim (Bool-cases (is_null v)) [
          | inl nil ↦ absurd (cc (rw (nil, bind_values) at e))
          | inr value ↦
              let ih =
                bind_values-lookup l (insert p v acc) bind param h (rw (value, bind_values) at e) in
              ground (arith, ih, lookup-insert p param v acc, eq_iff p param, new)
        ]

    pub bind_values-Distinct :
        (l : Dict String) (acc bind : Row)
        → Distinct acc
        → bind_values n l row old acc ≡ some bind
        → Distinct bind
    unfolding bind_values
    bind_values-Distinct [] acc bind d e = subst Distinct (some-injective acc bind e) d
    bind_values-Distinct ((p, col) ∷ l) acc bind d e =
        let v = resolve_bind n col row old in
        elim (Bool-cases (is_null v)) [
          | inl nil ↦ absurd (cc (rw (nil, bind_values) at e))
          | inr value ↦
              bind_values-Distinct l (insert p v acc) bind (insert-Distinct p v acc d)
                (rw (value, bind_values) at e)
        ]

    -- No parameter of a bind map that is built is nil.
    pub bind_values-is_null :
        (l : Dict String) (acc bind : Row) (param : String) (v : Value)
        → bind_values n l row old acc ≡ some bind
        → bound param l ≡ some v
        → is_null v ≡ false
    unfolding bind_values lookup
    bind_values-is_null [] acc bind param v e b = absurd cc
    bind_values-is_null ((p, col) ∷ l) acc bind param v e b =
        let w = resolve_bind n col row old in
        elim (Bool-cases (is_null w)) [
          | inl nil ↦ absurd (cc (rw (nil, bind_values) at e))
          | inr value ↦
              let b' = sym (bound-cons p col l param) ∙ b in
              elim (Bool-cases (p == param)) [
                | inl here ↦
                    subst (λ x. is_null x ≡ false) (some-injective w v (rw here at b')) value
                | inr later ↦
                    bind_values-is_null l (insert p w acc) bind param v
                      (rw (value, bind_values) at e) (rw later at b')
              ]
        ]

    behind :
        (p col : String) (l : Dict String) (param : String) (v : Value)
        → lookup p l ≡ none
        → bound param l ≡ some v
        → bound param ((p, col) ∷ l) ≡ some v
    behind p col l param v new b = elim (String-cases p param) [
      | inl (same, _) ↦ absurd (cc (rw (← same, new, bound) at b))
      | inr (_, later) ↦ bound-cons p col l param ∙ (rw later b)
    ]

    -- If none is built, some parameter is nil.
    pub bind_values-none :
        (l : Dict String) (acc : Row)
        → Distinct l
        → bind_values n l row old acc ≡ none
        → (param : String) × (v : Value) × (bound param l ≡ some v) × (is_null v ≡ true)
    unfolding bind_values lookup
    bind_values-none [] acc d e = absurd cc
    bind_values-none ((p, col) ∷ l) acc (new, d) e =
        let w = resolve_bind n col row old in
        elim (Bool-cases (is_null w)) [
          | inl nil ↦ (p, w, bound-cons p col l p ∙ rw (eq_refl p) refl, nil)
          | inr value ↦
              let (param, v, b, nil) =
                bind_values-none l (insert p w acc) d (rw (value, bind_values) at e) in
              (param, v, behind p col l param v new b, nil)
        ]

    pub bind_values-IsArgument :
        (l : Dict String) (bind : Row) (param : String)
        → Distinct l
        → bind_values n l row old [] ≡ some bind
        → (lookup param bind ≡ bound param l)
          × ((v : Value) → lookup param bind ≡ some v → IsArgument v)
    unfolding lookup
    bind_values-IsArgument l bind param d e =
        let same : lookup param bind ≡ bound param l = bind_values-lookup l [] bind param d e in
        (
          same,
          λ v found.
              let b = sym same ∙ found in
              resolve_bind-IsArgument param l v b (bind_values-is_null l [] bind param v e b),
        )
