-- ===== src/Tests/Events.antt =====
-- Witnesses of the theorems on events, the producer, errors and identifiers.
use dasher.Common.{String, Option, none, some, ◌≡◌, ◌↔◌, refl, []}
use dasher.Common.Int.{pos}
use dasher.Errors.{Error, plain, wrapped, poison_error}
use dasher.Event.{Event, Entry}
use dasher.Event.Parse.{parse, ok, Succeeds}
use dasher.Event.Parse.Accepts.{IsEnvelope, parse_iff}
use dasher.Produce.{Xadd, new, emit}
use dasher.Produce.RoundTrip.{IsReadable, received, parse-emit}
use dasher.Tests.{codec, event, named, fields}

-- A world that keeps the last entry that was added to a stream.
abbrev xadd : Xadd (Option (String × Entry))
xadd stream entry w = (none, some (stream, entry))

abbrev sent_event : Event
sent_event = record (event "1-0") { old = named; enrichment = some [] }

named-IsReadable : IsReadable codec named
named-IsReadable = record {
  written = "{\"name\":\"ann\"}";
  marshalled = refl;
  parsed = refl;
  nonempty = cc;
}

empty-IsReadable : IsReadable codec (some [])
empty-IsReadable = record { written = "{}"; marshalled = refl; parsed = refl; nonempty = cc }

parse-emit_example :
    (fields : Entry) × (emit codec xadd (new "a") "a.users" sent_event none
      ≡ xadd "a.users" fields none)
    × (parse codec "7-0" fields ≡ ok (received codec "7-0" "a" (pos 0) sent_event))
parse-emit_example =
    parse-emit codec xadd "a.users" "7-0" "a" (pos 0) sent_event none refl empty-IsReadable
      named-IsReadable empty-IsReadable

abbrev deep : Error
deep = wrapped "bind" (wrapped "rule" (poison_error (plain "no id")))

parse_iff_example : Succeeds (parse codec "1-0" fields) ↔ IsEnvelope codec fields
parse_iff_example = parse_iff codec "1-0" fields
