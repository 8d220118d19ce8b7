-- ===== src/Lookup/Runner/Keys.antt =====
-- The keys of the enrichment that `Run` returns.
use dasher.Common.{
  String, ◌==◌, Bool, true, false, ◌||◌, none, some, List, [], ◌∷◌, any, ◌≡◌, arith, Option-cases,
  inl, inr,
}
use dasher.Common.Dict.{lookup, insert, lookup-insert}
use dasher.Event.Parse.{Result, ok, fail}
use dasher.Handler.{Action}
use dasher.Lookup.Bind.{Numbers}
use dasher.Lookup.Runner.{EnrichRule, apply_rows, then_apply, bind_values, run_rules, run}
use dasher.Value.{Value, Row, Table, object, to_fields}

unfoldable pub has : String → Row → Bool
unfolding lookup
has name r = elim (lookup name r) [ none ↦ false | some _ ↦ true ]

has-insert :
    (name into : String) (v : Value) (r : Row)
    → has name (insert into v r) ≡ (into == name || has name r)
unfolding has
has-insert name into v r = ground (arith, lookup-insert into name v r)

-- Rules that succeed store one value for the first of them, and go on from there.
then_apply-ok :
    {W : Type 0} (again : Row → Action W (Result Row)) (rule : EnrichRule W) (result : Row)
    (r : Result (List Row) × W) (result' : Row)
    → (then_apply again rule result r).0 ≡ ok result'
    → (v : Value) × (w : W) × ((again (insert rule.into v result) w).0 ≡ ok result')
unfolding then_apply apply_rows
then_apply-ok again rule result (fail e, w) result' h = cc
then_apply-ok again rule result (ok [], w) result' h = cc
then_apply-ok again rule result (ok (x ∷ []), w) result' h = (object (to_fields x), w, h)
then_apply-ok again rule result (ok (x ∷ y ∷ rows), w) result' h = cc

module _ (n : Numbers) {W : Type 0} where
  run_rules-has :
      (rules : List (EnrichRule W)) (row old : Table) (result result' : Row) (w : W) (name : String)
      → (run_rules n rules row old result w).0 ≡ ok result'
      → has name result' ≡ (any (λ rule. rule.into == name) rules || has name result)
  unfolding run_rules
  run_rules-has [] row old result result' w name e = ground arith
  run_rules-has (rule ∷ rules) row old result result' w name e =
      elim (Option-cases (bind_values n rule.bind row old [])) [
        | inl missing ↦ absurd (cc (rw (missing, run_rules) at e))
        | inr (bind, bound) ↦
            let (v, w', h) =
              then_apply-ok (run_rules n rules row old) rule result (rule.resolve bind w) result'
                (rw (bound, run_rules) at e) in
            ground (
              arith,
              run_rules-has rules row old (insert rule.into v result) result' w' name h,
              has-insert name rule.into v result,
            )
      ]

  -- Where `Run` succeeds, the enrichment has an entry for a name exactly if some rule goes into
  -- that name.
  pub run-has :
      (rules : List (EnrichRule W)) (row old : Table) (result : Row) (w : W) (name : String)
      → (run n rules row old w).0 ≡ ok result
      → has name result ≡ any (λ rule. rule.into == name) rules
  unfolding run has
  run-has rules row old result w name e =
      ground (arith, run_rules-has rules row old [] result w name e)
