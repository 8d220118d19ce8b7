-- ===== src/Lookup/Registry.antt =====
-- Spec, Deps, Factory and Registry of dasher/internal/lookup/lookup.go. A factory allocates what its
-- lookup keeps, so it changes the memory of the process.
use dasher.Common.{String, ◌<>◌, Option, none, some, []}
use dasher.Common.Dict.{Dict, lookup, insert}
use dasher.Common.Int.{ℤ}
use dasher.Errors.{plain}
use dasher.Event.Parse.{Result, fail}
use dasher.Handler.{Action}
use dasher.Lookup.{Lookup}
use dasher.Memory.{Memory}
use dasher.Value.{Row}

abbrev pub type_sql : String
type_sql = "sql"

pub record Spec : Type 0 where
  pub type_name : String
  pub ttl : ℤ
  pub raw : Row

pub record Deps (P : Type 0) : Type 0 where
  pub pool : Option P

abbrev pub Factory : Type 0 → Type 0 → Type 0
Factory W P = Spec → Deps P → Action (Memory W) (Result (Lookup (Memory W)))

abbrev pub Registry : Type 0 → Type 0 → Type 0
Registry W P = Dict (Factory W P)

module _ {W P : Type 0} where
  unfoldable pub new : Registry W P
  new = []

  unfoldable pub register : String → Factory W P → Registry W P → Registry W P
  unfolding insert
  register type_name factory r = insert type_name factory r

  unfoldable pub build : Registry W P → Factory W P
  unfolding lookup
  build r spec deps m = elim (lookup spec.type_name r) [
    | none ↦ (fail (plain ("lookup: unknown type " <> spec.type_name)), m)
    | some factory ↦ factory spec deps m
  ]
