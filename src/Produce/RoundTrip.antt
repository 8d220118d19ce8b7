-- ===== src/Produce/RoundTrip.antt =====
-- The envelope that produce.go writes, and how event.go reads it.
use dasher.Common.{String, none, some, ◌≡◌, ◌≢◌, refl, eq_iff, [], ◌∷◌, ◌++◌, arith, if◌then◌else◌}
use dasher.Common.Dict.{lookup}
use dasher.Common.Int.{ℤ}
use dasher.Event.{Event, Codec, Entry}
use dasher.Event.Parse.{ok, parse, decode_json, optional, read_time}
use dasher.Produce.{Xadd, new, emit, is_filled, marshal_as, filled_field, fields_of}
use dasher.Value.{Table, text}

-- A map that an event carries, as the reader of the envelope sees it: an empty map is not sent.
unfoldable pub sent : Table → Table
sent none = none
sent (some []) = none
sent (some (e ∷ r)) = some (e ∷ r)

-- The text of a map is read back as that map, and it is not empty. So `encoding/json` documents it
-- for a map that `Decode` with `UseNumber` made.
pub record IsReadable (c : Codec) (m : Table) : Type 0 where
  pub written : String
  pub marshalled : c.marshal m ≡ some written
  pub parsed : c.parse_json written ≡ some m
  pub nonempty : written ≢ ""

module _ (c : Codec) where
  marshal_as-ok :
      (name : String) (m : Table) (r : IsReadable c m) → marshal_as c name m ≡ ok r.written
  marshal_as-ok name m r = ground (arith, r.marshalled)

  -- The envelope of an event, once its maps are written.
  abbrev envelope : String → Event → String → Entry → Entry → Entry
  envelope instance_id evt row old enrichment =
      ("op", text evt.op)
      ∷ ("table", text evt.table)
      ∷ ("schema", text evt.schema)
      ∷ ("lsn", text evt.lsn)
      ∷ ("streamed_at", text (c.format_time evt.streamed_at))
      ∷ ("source", text instance_id)
      ∷ ("data", text row)
      ∷ (old ++ enrichment)

  abbrev pub received : String → String → ℤ → Event → Event
  received id instance_id t evt = record evt {
    id = id;
    streamed_at = t;
    old = sent evt.old;
    enrichment = sent evt.enrichment;
    source = instance_id;
  }

  optional_field : String → Table → String → Entry
  optional_field name m s = if is_filled m then (name, text s) ∷ [] else []

  filled_field-ok :
      (name : String) (m : Table) (r : IsReadable c m)
      → filled_field c name m ≡ ok (optional_field name m r.written)
  unfolding filled_field optional_field
  filled_field-ok name m r = ground (arith, marshal_as-ok name m r)

  decode_json-ok : (m : Table) (r : IsReadable c m) → decode_json c r.written ≡ ok m
  unfolding decode_json
  decode_json-ok m r = rw (r.parsed, decode_json)

  optional_present :
      (k : String) (v : Entry) (m : Table) (r : IsReadable c m)
      → lookup k v ≡ some (text r.written)
      → optional c k v ≡ ok m
  unfolding optional
  optional_present k v m r found =
      ground (arith, found, r.parsed, r.nonempty, eq_iff r.written "", decode_json-ok m r)

  optional_absent : (k : String) (v : Entry) → lookup k v ≡ none → optional c k v ≡ ok none
  unfolding optional
  optional_absent k v missing = rw (missing, optional)

  module _ (instance_id : String) (evt : Event) (row old enr : String) where
    abbrev tail : Table → Table → Entry
    tail o n = optional_field "old" o old ++ optional_field "enrichment" n enr

    lookup-old :
        (o n : Table)
        → lookup "old" (
            envelope instance_id evt row
              (optional_field "old" o old)
              (optional_field "enrichment" n enr))
          ≡ (if is_filled o then some (text old) else none)
    unfolding lookup optional_field
    lookup-old o n = ground arith

    lookup-enrichment :
        (o n : Table)
        → lookup "enrichment" (
            envelope instance_id evt row
              (optional_field "old" o old)
              (optional_field "enrichment" n enr))
          ≡ (if is_filled n then some (text enr) else none)
    unfolding lookup optional_field
    lookup-enrichment o n = ground arith

  optional-sent :
      (k : String) (v : Entry) (m : Table) (r : IsReadable c m)
      → lookup k v ≡ (if is_filled m then some (text r.written) else none)
      → optional c k v ≡ ok (sent m)
  unfolding sent
  optional-sent k v none r found = optional_absent k v found
  optional-sent k v (some []) r found = optional_absent k v found
  optional-sent k v (some (e ∷ m)) r found = optional_present k v (some (e ∷ m)) r found

  parse-fields_of :
      (id instance_id : String) (t : ℤ) (evt : Event)
      → c.parse_time (c.format_time evt.streamed_at) ≡ some t
      → IsReadable c evt.row
      → IsReadable c evt.old
      → IsReadable c evt.enrichment
      → (fields : Entry) × (fields_of c instance_id evt ≡ ok fields)
        × (parse c id fields ≡ ok (received id instance_id t evt))
  unfolding fields_of parse
  parse-fields_of id instance_id t evt time row old enr = (
    envelope instance_id evt row.written (optional_field "old" evt.old old.written)
        (optional_field "enrichment" evt.enrichment enr.written),
    rw (
      marshal_as-ok "data" evt.row row,
      filled_field-ok "old" evt.old old,
      filled_field-ok "enrichment" evt.enrichment enr,
    ),
    ground (
      arith,
      read_time-ok,
      decode_json-ok evt.row row,
      optional-sent "old" env evt.old old
          (lookup-old instance_id evt row.written old.written enr.written evt.old evt.enrichment),
      optional-sent "enrichment" env evt.enrichment enr (
          lookup-enrichment instance_id evt row.written old.written enr.written evt.old
            evt.enrichment),
    ),
  )
    where
      env : Entry
      env =
          envelope instance_id evt row.written (optional_field "old" evt.old old.written)
            (optional_field "enrichment" evt.enrichment enr.written)

      read_time-ok : read_time c (c.format_time evt.streamed_at) ≡ ok t
      read_time-ok = rw (time, read_time)

  -- An open producer emits an event by exactly one `XADD` to the raw stream key. Where the three
  -- maps of the event are readable and its written time is read as the instant `t`, the envelope
  -- of that call is parsed back as the event itself: under the id that Redis gives it, with the
  -- emitting instance as its source and `t` as its time, and with `old` and `enrichment` nil
  -- where they were empty.
  pub parse-emit :
      {W : Type 0} (xadd : Xadd W) (stream id instance_id : String) (t : ℤ) (evt : Event) (w : W)
      → c.parse_time (c.format_time evt.streamed_at) ≡ some t
      → IsReadable c evt.row
      → IsReadable c evt.old
      → IsReadable c evt.enrichment
      → (fields : Entry) × (emit c xadd (new instance_id) stream evt w ≡ xadd stream fields w)
        × (parse c id fields ≡ ok (received id instance_id t evt))
  unfolding emit new
  parse-emit xadd stream id instance_id t evt w time row old enr =
      let (fields, written, read) = parse-fields_of id instance_id t evt time row old enr in
      (fields, rw written refl, read)
