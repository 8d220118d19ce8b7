-- ===== src/Event/Parse.antt =====
-- `Parse`, `reqStr` and `decodeJSON` of dasher/internal/event/event.go.
use dasher.Common.{◌≡◌, refl, ◌⊎◌, inl, inr, String, ◌<>◌, ◌==◌, Option, none, some, if◌then◌else◌}
pub mod Accepts
use dasher.Common.Dict.{lookup}
use dasher.Common.Int.{ℤ}
use dasher.Errors.{Error, plain, wrapped}
use dasher.Value.{Value, text, Table}
use dasher.Event.{Event, Codec, Entry}

pub data Result {ℓ} (A : Type ℓ) : Type ℓ where
  ok : A → Result A
  fail : Error → Result A

-- `if err != nil { return e, err }`, and the rest.
infixl 5 ◌>>=◌
abbrev pub ◌>>=◌ {ℓ κ} : {X : Type ℓ} {Y : Type κ} → Result X → (X → Result Y) → Result Y
fail e >>= rest = fail e
ok x >>= rest = rest x

pub Result-cases {ℓ} :
    {A : Type ℓ} (r : Result A) → ((a : A) × (r ≡ ok a)) ⊎ ((e : Error) × (r ≡ fail e))
Result-cases (ok a) = inl (a, refl)
Result-cases (fail e) = inr (e, refl)

abbrev pub Succeeds {ℓ} : {A : Type ℓ} → Result A → Type 0
Succeeds (ok a) = Unit
Succeeds (fail e) = ⊥

-- What holds of every failure and of the rest on every value holds of the whole.
pub >>=-elim {ℓ κ μ} :
    {X : Type ℓ} {Y : Type κ} (P : Result Y → Type μ) (r : Result X) (rest : X → Result Y)
    → ((e : Error) → P (fail e))
    → ((x : X) → P (rest x))
    → P (r >>= rest)
>>=-elim P (fail e) rest h k = h e
>>=-elim P (ok x) rest h k = k x

abbrev pub err_missing_field : Error
err_missing_field = plain "missing required field"

abbrev pub err_malformed_json : Error
err_malformed_json = plain "malformed JSON payload"

-- `raw.(string)`
abbrev pub as_string : Value → Option String
as_string (text s) = some s
as_string _ = none

unfoldable pub req_str : Entry → String → Result String
unfolding lookup
req_str v k = elim (lookup k v) [
  | none ↦ fail (wrapped ("field " <> k) err_missing_field)
  | some raw ↦ elim (as_string raw) [
    | none ↦ fail (wrapped ("field " <> k <> " is not a string") err_missing_field)
    | some s ↦ ok s
  ]
]

module _ (c : Codec) where
  unfoldable pub decode_json : String → Result Table
  decode_json s = elim (c.parse_json s) [ none ↦ fail err_malformed_json | some m ↦ ok m ]

  unfoldable pub read_time : String → Result ℤ
  read_time s = elim (c.parse_time s) [
    | none ↦ fail (wrapped "streamed_at" (plain s))
    | some t ↦ ok t
  ]

  -- `fmt.Errorf("old: %w", err)`
  abbrev pub in_field : String → Result Table → Result Table
  in_field k (ok m) = ok m
  in_field k (fail e) = fail (wrapped k e)

  -- A JSON field that may be absent, of another type than text, or empty.
  unfoldable pub optional : String → Entry → Result Table
  unfolding lookup decode_json
  optional k v = elim (lookup k v) [
    | none ↦ ok none
    | some raw ↦ elim (as_string raw) [
      | none ↦ ok none
      | some s ↦ if s == "" then ok none else in_field k (decode_json s)
    ]
  ]

  unfoldable pub source_of : Entry → String
  unfolding lookup
  source_of v = elim (lookup "source" v) [
    | none ↦ ""
    | some raw ↦ elim (as_string raw) [ none ↦ "" | some s ↦ s ]
  ]

  unfoldable pub parse : String → Entry → Result Event
  unfolding req_str decode_json read_time optional source_of
  parse id values = do
    op ← req_str values "op"
    table ← req_str values "table"
    schema ← req_str values "schema"
    lsn ← req_str values "lsn"
    sa ← req_str values "streamed_at"
    streamed_at ← read_time sa
    s ← req_str values "data"
    row ← in_field "data" (decode_json s)
    old ← optional "old" values
    enrichment ← optional "enrichment" values
    ok (record {
      id = id;
      op = op;
      table = table;
      schema = schema;
      lsn = lsn;
      streamed_at = streamed_at;
      row = row;
      old = old;
      enrichment = enrichment;
      source = source_of values;
    })
