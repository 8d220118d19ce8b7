-- ===== src/Event.antt =====
-- The event of dasher/dasher.go, and the parser of stream entries, dasher/internal/event/event.go.
-- JSON and RFC 3339 texts are read by a `Codec`, whose functions stand for `encoding/json` and
-- `time`.
pub mod Parse
use dasher.Common.{String, Option, none}
use dasher.Common.Int.{ℤ}
use dasher.Common.Dict.{Dict}
use dasher.Value.{Value, Table}

-- `streamed_at` is an instant, in nanoseconds since 1970 in UTC.
pub record Event : Type 0 where
  pub id : String
  pub op : String
  pub table : String
  pub schema : String
  pub lsn : String
  pub streamed_at : ℤ
  pub row : Table
  pub old : Table
  pub enrichment : Table
  pub source : String

-- A nil map that `json` writes as `null`, and reads back, is `none`. `parse_json` is a call of
-- `Decode` with `UseNumber` into a map; `parse_time` and `format_time` are RFC 3339, the latter
-- after `UTC()`.
pub record Codec : Type 0 where
  pub parse_json : String → Option Table
  pub marshal : Table → Option String
  pub parse_time : String → Option ℤ
  pub format_time : ℤ → String

-- The field map of a stream entry.
abbrev pub Entry : Type 0
Entry = Dict Value

abbrev pub no_table : Table
no_table = none
