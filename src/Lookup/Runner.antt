-- ===== src/Lookup/Runner.antt =====
-- The runner of the lookups of a binding, dasher/internal/lookup/runner.go.
pub mod Keys
pub mod Binds
use dasher.Common.{String, ◌<>◌, Option, none, some, List, [], ◌∷◌, if◌then◌else◌}
use dasher.Common.Dict.{Dict, insert}
use dasher.Errors.{lookup_poison}
use dasher.Event.Parse.{Result, ok, fail}
use dasher.Handler.{Action}
use dasher.Lookup.{Lookup}
use dasher.Lookup.Bind.{Numbers, is_null, resolve_bind}
use dasher.Value.{Row, Table, object, to_fields}

pub record EnrichRule (W : Type 0) : Type 0 where
  pub lookup_name : String
  pub resolve : Lookup W
  pub bind : Dict String
  pub into : String

unfoldable pub apply_rows : {W : Type 0} → List Row → EnrichRule W → Row → Result Row
apply_rows [] rule result = fail (lookup_poison ("lookup " <> rule.lookup_name <> ": no row found"))
apply_rows (row ∷ []) rule result = ok (insert rule.into (object (to_fields row)) result)
apply_rows (_ ∷ _ ∷ _) rule result =
    fail (lookup_poison ("lookup " <> rule.lookup_name <> ": expected at most 1 row"))

-- The rows of a rule, stored, and the rules behind it.
unfoldable pub then_apply :
    {W : Type 0}
    → (Row → Action W (Result Row))
    → EnrichRule W
    → Row
    → Result (List Row) × W
    → Result Row × W
unfolding apply_rows
then_apply again rule result (fail e, w) = (fail e, w)
then_apply again rule result (ok rows, w) = elim (apply_rows rows rule result) [
  | fail e ↦ (fail e, w)
  | ok result' ↦ again result' w
]

module _ (n : Numbers) where
  -- The bind map of a rule; `none` once a column is nil.
  unfoldable pub bind_values : Dict String → Table → Table → Row → Option Row
  unfolding resolve_bind
  bind_values [] row old bind = some bind
  bind_values ((param, col) ∷ rest) row old bind =
      let v = resolve_bind n col row old in
      let others = bind_values rest row old (insert param v bind) in
      if is_null v then none else others

  unfoldable pub run_rules :
      {W : Type 0} → List (EnrichRule W) → Table → Table → Row → Action W (Result Row)
  unfolding bind_values then_apply
  run_rules [] row old result w = (ok result, w)
  run_rules (rule ∷ rules) row old result w = elim (bind_values rule.bind row old []) [
    | none ↦ (fail (lookup_poison ("lookup " <> rule.lookup_name <> ": bind column not found")), w)
    | some bind ↦ then_apply (run_rules rules row old) rule result (rule.resolve bind w)
  ]

  -- `Run`
  unfoldable pub run : {W : Type 0} → List (EnrichRule W) → Table → Table → Action W (Result Row)
  unfolding run_rules
  run rules row old w = run_rules rules row old [] w
