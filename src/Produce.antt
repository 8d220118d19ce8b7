-- ===== src/Produce.antt =====
-- The Redis producer, dasher/internal/produce/produce.go. `XADD` is a parameter.
pub mod RoundTrip
use dasher.Common.{String, ◌<>◌, Bool, Option, none, some, ◌++◌, List, [], ◌∷◌, if◌then◌else◌}
use dasher.Errors.{Error, plain, wrapped}
use dasher.Event.{Event, Codec, Entry}
use dasher.Event.Parse.{Result, ok, fail, ◌>>=◌}
use dasher.Handler.{Action}
use dasher.Value.{text, Table}

pub record Producer : Type 0 where
  pub instance_id : String
  pub closed : Bool

-- `XADD key * fields`
abbrev pub Xadd : Type 0 → Type 0
Xadd W = String → Entry → Action W (Option Error)

unfoldable pub new : String → Producer
new instance_id = record { instance_id = instance_id; closed = Bool.false }

unfoldable pub close : Producer → Producer
close p = record p { closed = Bool.true }

-- `len(m) > 0`, which a nil map fails too.
abbrev pub is_filled : Table → Bool
is_filled none = Bool.false
is_filled (some []) = Bool.false
is_filled (some (_ ∷ _)) = Bool.true

module _ (c : Codec) where
  abbrev pub marshal_as : String → Table → Result String
  marshal_as name m = elim (c.marshal m) [
    | none ↦ fail (wrapped ("produce: marshal " <> name) (plain "json"))
    | some s ↦ ok s
  ]

  -- The field that `Emit` adds for `old` and `enrichment`, if the map is not empty.
  unfoldable pub filled_field : String → Table → Result Entry
  filled_field name m =
      let written = marshal_as name m >>= λ s. ok ((name, text s) ∷ []) in
      if is_filled m then written else ok []

  -- The envelope of an event.
  unfoldable pub fields_of : String → Event → Result Entry
  unfolding filled_field
  fields_of instance_id evt = do
    row ← marshal_as "data" evt.row
    old ← filled_field "old" evt.old
    enrichment ← filled_field "enrichment" evt.enrichment
    ok (
        ("op", text evt.op)
        ∷ ("table", text evt.table)
        ∷ ("schema", text evt.schema)
        ∷ ("lsn", text evt.lsn)
        ∷ ("streamed_at", text (c.format_time evt.streamed_at))
        ∷ ("source", text instance_id)
        ∷ ("data", text row)
        ∷ (old ++ enrichment))

  unfoldable pub emit : {W : Type 0} → Xadd W → Producer → String → Event → Action W (Option Error)
  unfolding fields_of
  emit xadd p stream evt w =
      if p.closed
      then (some (plain "produce: emit after close"), w)
      else elim (fields_of p.instance_id evt) [
        | fail e ↦ (some e, w)
        | ok fields ↦ xadd stream fields w
      ]
