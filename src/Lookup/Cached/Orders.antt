-- ===== src/Lookup/Cached/Orders.antt =====
-- The order in which Go ranges over a bind map, which is random, against the key of the cache.
use dasher.Common.{
  String, ◌<>◌, Option, none, some, List, [], ◌∷◌, ◌≡◌, refl, sym, ap, ◌∙◌, Option-cases, inl, inr,
}
use mathlib.Core.List.{Perm}
use dasher.Common.Dict.{Dict}
use dasher.Common.Maps.{Distinct, SameMap, keys, keys-perm}
use dasher.Lookup.Bind.{Numbers}
use dasher.Lookup.Cached.{Formats, value_of, join_fields, make_cache_key}
use dasher.Lookup.Runner.{bind_values}
use dasher.Lookup.Runner.Binds.{
  bound, bind_values-IsArgument, bind_values-Distinct, bind_values-is_null, bind_values-none,
}
use dasher.Value.{Row, Table}

-- `sort.Strings`: what is sorted does not depend on the order it came in.
pub record Sorts (f : Formats) : Type 0 where
  pub sorted : (xs ys : List String) → Perm xs ys → f.sort_strings xs ≡ f.sort_strings ys

module _ (f : Formats) (sorts : Sorts f) where
  value_of-same :
      (bind bind' : Row) (k : String) → SameMap bind bind' → value_of bind k ≡ value_of bind' k
  unfolding value_of
  value_of-same bind bind' k same = rw (same k, value_of) refl

  join_fields-same :
      (bind bind' : Row) (ks : List String)
      → SameMap bind bind'
      → join_fields f bind ks ≡ join_fields f bind' ks
  unfolding join_fields
  join_fields-same bind bind' [] same = refl
  join_fields-same bind bind' (k ∷ ks) same =
      ap (λ v. "|" <> k <> "=" <> f.print v <> join_fields f bind ks)
        (value_of-same bind bind' k same)
      ∙ ap (λ rest. "|" <> k <> "=" <> f.print (value_of bind' k) <> rest)
          (join_fields-same bind bind' ks same)

  make_cache_key-same :
      (bind bind' : Row)
      → Distinct bind
      → Distinct bind'
      → SameMap bind bind'
      → make_cache_key f bind ≡ make_cache_key f bind'
  unfolding make_cache_key
  make_cache_key-same bind bind' d d' same =
      join_fields-same bind bind' (f.sort_strings (keys bind)) same
      ∙ ap (join_fields f bind')
          (sorts.sorted (keys bind) (keys bind') (keys-perm bind bind' d d' same))

  module _ (n : Numbers) (row old : Table) where
    -- The key of a rule's bind map, if none of its columns is nil.
    abbrev pub bind_key : Dict String → Option String
    bind_key l = elim (bind_values n l row old []) as (λ _. Option String) [
      | none ↦ none
      | some bind ↦ some (make_cache_key f bind)
    ]

    bound-same :
        (l l' : Dict String) (param : String)
        → SameMap l l'
        → bound n row old param l ≡ bound n row old param l'
    bound-same l l' param same = rw (same param, bound) refl

    none-some :
        (l l' : Dict String) (bind : Row)
        → Distinct l
        → SameMap l l'
        → bind_values n l row old [] ≡ none
        → bind_values n l' row old [] ≡ some bind
        → ⊥
    none-some l l' bind d same e e' =
        let (param, v, b, nil) = bind_values-none n row old l [] d e in
        let value =
          bind_values-is_null n row old l' [] bind param v e'
            (sym (bound-same l l' param same) ∙ b) in
        cc

    -- The key that a rule's bind has in the cache does not depend on the order in which Go ranges
    -- over the columns of the rule, nor on the order in which it ranges over the bind map: two
    -- lists of the same columns give no bind map, for a nil value, or two bind maps with one key.
    pub bind_key-same :
        (l l' : Dict String) → Distinct l → Distinct l' → SameMap l l' → bind_key l ≡ bind_key l'
    bind_key-same l l' d d' same = elim (Option-cases (bind_values n l row old [])) [
      | inl none_built ↦ elim (Option-cases (bind_values n l' row old [])) [
        | inl none_built' ↦ rw (none_built, none_built', bind_key) refl
        | inr (bind', built') ↦ absurd (none-some l l' bind' d same none_built built')
      ]
      | inr (bind, built) ↦ elim (Option-cases (bind_values n l' row old [])) [
        | inl none_built' ↦ absurd (none-some l' l bind d' (λ k. sym (same k)) none_built' built)
        | inr (bind', built') ↦
            rw (built, built', bind_key)
              (ap some (
                make_cache_key-same bind bind' (bind_values-Distinct n row old l [] bind tt built)
                  (bind_values-Distinct n row old l' [] bind' tt built')
                  (λ k.
                    (bind_values-IsArgument n row old l bind k d built).0
                    ∙ bound-same l l' k same
                    ∙ sym (bind_values-IsArgument n row old l' bind' k d' built').0)))
      ]
    ]
