-- ===== src/Event/Parse/Accepts.antt =====
-- The entries that Parse accepts.
use dasher.Common.{
  String, none, some, ◌≡◌, ◌≢◌, ◌↔◌, ◌⊎◌, refl, sym, ap, ◌∙◌, inl, inr, String-cases, Option-cases,
}
use mathlib.Core.Path.{subst}
use dasher.Common.Dict.{lookup}
use dasher.Errors.{Error}
use dasher.Event.{Codec, Entry}
use dasher.Event.Parse.{
  Result, ok, fail, ◌>>=◌, Succeeds, as_string, req_str, decode_json, read_time, in_field, optional,
  parse,
}
use dasher.Value.{Value, text, null, boolean, number, int64, float64, other, object, array}

-- Two steps, the second of which may use what the first returned.
>>=_iff :
    {X Y A B : Type 0} (r : Result X) (rest : X → Result Y)
    → Succeeds r ↔ A
    → ((x : X) → r ≡ ok x → Succeeds (rest x) ↔ B)
    → Succeeds (r >>= rest) ↔ (A × B)
>>=_iff (ok x) rest first second =
    (λ h. (first.0 tt, (second x refl).0 h), λ (a, b). (second x refl).1 b)
>>=_iff (fail e) rest first second = (λ h. absurd h, λ (a, b). first.1 a)

-- The text in a field.
abbrev pub HasText : Entry → String → String → Type 0
HasText v k s = lookup k v ≡ some (text s)

-- What a value is as a text.
as_string-cases :
    (raw : Value)
    → ((s : String) × (raw ≡ text s) × (as_string raw ≡ some s))
      ⊎ ((as_string raw ≡ none) × ((s : String) → raw ≢ text s))
as_string-cases (text s) = inl (s, refl, refl)
as_string-cases null = inr (refl, λ s h. cc)
as_string-cases (boolean b) = inr (refl, λ s h. cc)
as_string-cases (number n) = inr (refl, λ s h. cc)
as_string-cases (int64 n) = inr (refl, λ s h. cc)
as_string-cases (float64 n) = inr (refl, λ s h. cc)
as_string-cases (other n) = inr (refl, λ s h. cc)
as_string-cases (object fs) = inr (refl, λ s h. cc)
as_string-cases (array is) = inr (refl, λ s h. cc)

some-injective : {A : Type 0} (a b : A) → some a ≡ some b → a ≡ b
some-injective a b e = ap (λ o. elim o [ none ↦ a | some x ↦ x ]) e

-- A required field, by its text.
req_str-cases :
    (v : Entry) (k : String)
    → ((s : String) × HasText v k s × (req_str v k ≡ ok s))
      ⊎ (((s : String) → ¬ HasText v k s) × ((e : Error) × (req_str v k ≡ fail e)))
unfolding req_str
req_str-cases v k = elim (Option-cases (lookup k v)) [
  | inl missing ↦ inr (rw missing (λ s h. cc), rw (missing, req_str) (_, refl))
  | inr (raw, found) ↦ elim (as_string-cases raw) [
    | inl (s, same, given) ↦ inl (s, found ∙ ap some same, rw (found, given, req_str) refl)
    | inr (unread, untyped) ↦ inr (
      λ s h. untyped s (some-injective raw (text s) (sym found ∙ h)),
      rw (found, unread, req_str) (_, refl),
    )
  ]
]

-- What is asked of the text of a required field.
abbrev pub Reads : Entry → String → (String → Type 0) → Type 0
Reads v k P = (s : String) × HasText v k s × P s

same_text : (v : Entry) (k s t : String) → HasText v k s → HasText v k t → s ≡ t
same_text v k s t h h' =
    ap (λ r. elim (as_string r) [ none ↦ s | some x ↦ x ])
      (some-injective (text s) (text t) (sym h ∙ h'))

req_str_iff :
    (v : Entry) (k : String) {Y : Type 0} (rest : String → Result Y) (P : String → Type 0)
    → ((s : String) → Succeeds (rest s) ↔ P s)
    → Succeeds (req_str v k >>= rest) ↔ Reads v k P
req_str_iff v k rest P each = elim (req_str-cases v k) [
  | inr (never, (e, failed)) ↦ rw failed (λ h. absurd h, λ (s, has, _). never s has)
  | inl (s, has, got) ↦ rw got (
    λ h. (s, has, (each s).0 h),
    λ (t, has', p). (each s).1 (subst P (sym (same_text v k s t has has')) p),
  )
]

module _ (c : Codec) where
  read_time_iff : (s : String) → Succeeds (read_time c s) ↔ (c.parse_time s ≢ none)
  unfolding read_time
  read_time_iff s = elim (Option-cases (c.parse_time s)) [
    | inl bad ↦ rw (bad, read_time) (λ h. absurd h, λ h. absurd (h refl))
    | inr (t, good) ↦ rw (good, read_time) (λ _ e. cc, λ _. tt)
  ]

  in_field_iff :
      (k s : String) → Succeeds (in_field c k (decode_json c s)) ↔ (c.parse_json s ≢ none)
  unfolding decode_json
  in_field_iff k s = elim (Option-cases (c.parse_json s)) [
    | inl bad ↦ rw (bad, decode_json) (λ h. absurd h, λ h. absurd (h refl))
    | inr (m, good) ↦ rw (good, decode_json) (λ _ e. cc, λ _. tt)
  ]

  -- A field that may be left out: a text in it that is not empty is JSON.
  abbrev pub IsOptional : Entry → String → Type 0
  IsOptional v k = (s : String) → HasText v k s → s ≢ "" → c.parse_json s ≢ none

  optional_iff : (k : String) (v : Entry) → Succeeds (optional c k v) ↔ IsOptional v k
  unfolding optional
  optional_iff k v = elim (Option-cases (lookup k v)) [
    | inl missing ↦ rw (missing, optional) (λ _ s h. cc, λ _. tt)
    | inr (raw, found) ↦ elim (as_string-cases raw) [
      | inr (unread, untyped) ↦
          rw (found, unread, optional)
            (λ _ s h. absurd (untyped s (some-injective raw (text s) h)), λ _. tt)
      | inl (t, same, given) ↦ elim (String-cases t "") [
        | inl (empty, is_empty) ↦ (
          λ _ s h filled.
              absurd (filled (sym (same_text v k t s (found ∙ ap some same) h) ∙ empty)),
          λ _. rw (found, given, is_empty, optional) tt,
        )
        | inr (filled, is_filled) ↦ (
          λ h s has _.
              subst (λ x. c.parse_json x ≢ none) (same_text v k t s (found ∙ ap some same) has)
                ((in_field_iff k t).0 (rw (found, given, is_filled, optional) at h)),
          λ opt.
              rw (found, given, is_filled, optional)
                ((in_field_iff k t).1 (opt t (found ∙ ap some same) filled)),
        )
      ]
    ]
  ]

  -- An entry that can be parsed.
  pub record IsEnvelope (v : Entry) : Type 0 where
    pub op : Reads v "op" (λ s. Unit)
    pub table : Reads v "table" (λ s. Unit)
    pub schema : Reads v "schema" (λ s. Unit)
    pub lsn : Reads v "lsn" (λ s. Unit)
    pub streamed_at : Reads v "streamed_at" (λ s. c.parse_time s ≢ none)
    pub row : Reads v "data" (λ s. c.parse_json s ≢ none)
    pub old : IsOptional v "old"
    pub enrichment : IsOptional v "enrichment"

  -- The conditions in the order in which they are met.
  abbrev Chain : Entry → Type 0
  Chain v = Reads v "op" (λ _. Reads v "table" (λ _. Reads v "schema" (λ _. Reads v "lsn" (λ _.
      Reads v "streamed_at" (λ sa.
        (c.parse_time sa ≢ none)
        × (Reads v "data" (λ s.
            (c.parse_json s ≢ none)
            × (IsOptional v "old" × (IsOptional v "enrichment" × Unit {0})))))))))

  -- `Parse` accepts an entry exactly when the six required fields are there as texts, the time reads
  -- as RFC 3339 and the row as JSON, and `old` and `enrichment`, where they are texts that are not
  -- empty, read as JSON. Whatever else the entry holds does not matter.
  pub parse_iff : (id : String) (v : Entry) → Succeeds (parse c id v) ↔ IsEnvelope v
  unfolding parse
  parse_iff id v =
      let chain : Succeeds (parse c id v) ↔ Chain v = req_str_iff v "op" _ _ (λ op.
        req_str_iff v "table" _ _ (λ table. req_str_iff v "schema" _ _ (λ schema.
          req_str_iff v "lsn" _ _ (λ lsn. req_str_iff v "streamed_at" _ _ (λ sa.
            >>=_iff (read_time c sa) _ (read_time_iff sa) (λ streamed_at _.
              req_str_iff v "data" _ _ (λ s.
                >>=_iff (in_field c "data" (decode_json c s)) _ (in_field_iff "data" s) (λ row _.
                  >>=_iff (optional c "old" v) _ (optional_iff "old" v) (λ old _.
                    >>=_iff (optional c "enrichment" v) _ (optional_iff "enrichment" v)
                      (λ enr _. (λ (h : Unit {0}). h, λ (h : Unit {0}). h))))))))))) in
      (
        λ h.
            let (op, has_op, (table, has_table, (schema, has_schema, (lsn, has_lsn, times)))) =
              chain.0 h in
            let (sa, has_sa, (time, (s, has_data, (row, (old, (enr, _)))))) = times in
            record {
              op = (op, has_op, tt);
              table = (table, has_table, tt);
              schema = (schema, has_schema, tt);
              lsn = (lsn, has_lsn, tt);
              streamed_at = (sa, has_sa, time);
              row = (s, has_data, row);
              old = old;
              enrichment = enr;
            },
        λ e.
            let (op, has_op, _) = e.op in
            let (table, has_table, _) = e.table in
            let (schema, has_schema, _) = e.schema in
            let (lsn, has_lsn, _) = e.lsn in
            let (sa, has_sa, time) = e.streamed_at in
            let (s, has_data, row) = e.row in
            chain.1 (
              op,
              has_op,
              (
                table,
                has_table,
                (
                  schema,
                  has_schema,
                  (
                    lsn,
                    has_lsn,
                    (sa, has_sa, (time, (s, has_data, (row, (e.old, (e.enrichment, tt)))))),
                  ),
                ),
              ),
            ),
      )
