-- ===== src/Lookup/Bind.antt =====
-- `ResolveBind` and `normalizeNumber` of dasher/internal/lookup/bind.go.
use dasher.Common.{ℕ, String, Bool, true, false, Option, none, some, if◌then◌else◌}
use dasher.Common.Dict.{lookup}
use dasher.Common.Int.{ℤ}
use dasher.Value.{Value, null, number, int64, float64, text, Table}

-- `Int64` and `Float64` of a `json.Number`; the float is given by its bit pattern.
pub record Numbers : Type 0 where
  pub parse_int : String → Option ℤ
  pub parse_float : String → Option ℕ

abbrev pub is_null : Value → Bool
is_null null = true
is_null _ = false

-- `m[col]`, which is nil for a missing key and for a nil map.
unfoldable pub column : String → Table → Value
column col none = null
column col (some r) = elim (lookup col r) [ none ↦ null | some v ↦ v ]

module _ (n : Numbers) where
  unfoldable pub normalize_number : Value → Value
  normalize_number (number s) = elim (n.parse_int s) [
    | some i ↦ int64 i
    | none ↦ elim (n.parse_float s) [ some f ↦ float64 f | none ↦ text s ]
  ]
  normalize_number v = v

  unfoldable pub resolve_bind : String → Table → Table → Value
  unfolding column normalize_number
  resolve_bind col row old =
      let v = column col row in normalize_number (if is_null v then column col old else v)
