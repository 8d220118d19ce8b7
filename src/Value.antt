-- ===== src/Value.antt =====
-- Go's dynamic values, `any`, as events and lookup rows hold them, and the maps over them.
use dasher.Common.{ℕ, Bool, String, Option, [], ◌∷◌, ◌≡◌, refl, ap}
use dasher.Common.Dict.{Dict}
use dasher.Common.Int.{ℤ}

-- `number` is a `json.Number`, by its text; `float64` is given by its bit pattern; `other` is a
-- value of another Go type, such as a time that the database driver returns.
mutual
  pub data Value : Type 0 where
    null : Value
    boolean : Bool → Value
    number : String → Value
    int64 : ℤ → Value
    float64 : ℕ → Value
    text : String → Value
    other : ℕ → Value
    object : Fields → Value
    array : Items → Value

  pub data Fields : Type 0 where
    end : Fields
    field : String → Value → Fields → Fields

  pub data Items : Type 0 where
    no_items : Items
    item : Value → Items → Items

-- `map[string]any`; a nil map is `none`.
abbrev pub Row : Type 0
Row = Dict Value

abbrev pub Table : Type 0
Table = Option Row

-- A map stored as a value.
unfoldable pub to_fields : Row → Fields
to_fields [] = end
to_fields ((k, v) ∷ r) = field k v (to_fields r)

unfoldable pub of_fields : Fields → Row
of_fields end = []
of_fields (field k v fs) = (k, v) ∷ of_fields fs

-- Nothing is lost when a map is stored as a value.
pub of_fields-to_fields : (r : Row) → of_fields (to_fields r) ≡ r
unfolding to_fields of_fields
of_fields-to_fields [] = refl
of_fields-to_fields ((k, v) ∷ r) = ap (◌∷◌ (k, v)) (of_fields-to_fields r)
