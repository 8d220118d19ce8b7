-- ===== src/Tests.antt =====
-- The values that the witnesses of the theorems share: a codec, a stream with a few entries, and a
-- world whose first calls fail.
mod Consumers
mod Events
mod Configs
mod Caches
mod Lookups
mod Removals
mod Requests
mod Catalogs
mod Boots
mod Peers
mod Courses
mod Tickers
mod Orders
mod Publishes
use dasher.Common.{
  ℕ, zero, suc, String, ◌*◌, Option, none, some, List, [], ◌∷◌, map, ◌==◌, if◌then◌else◌, take,
}
use dasher.Common.Int.{ℤ, pos}
use dasher.Errors.{Error, plain}
use dasher.Value.{Table, text}
use dasher.Event.{Event, Codec, Entry}
use dasher.Handler.{Outcome, returned, fail_loud}
use dasher.Consume.{Consumer, Runtime, Run, second}
use dasher.Consume.Process.{Message}
use dasher.Consume.Group.{Redis, Reply, reply, Read, entries, Pending}
use dasher.Consume.Group.Drain.Removal.{remove}

abbrev pub named : Table
named = some (("name", text "ann") ∷ [])

abbrev pub marshal : Table → Option String
marshal none = some "null"
marshal (some []) = some "{}"
marshal (some (_ ∷ _)) = some "{\"name\":\"ann\"}"

abbrev pub parse_json : String → Option Table
parse_json s = if s == "null" then some none else (if s == "{}" then some (some []) else some named)

abbrev pub codec : Codec
codec = record {
  parse_json = parse_json;
  marshal = marshal;
  parse_time = λ s. some (pos 0);
  format_time = λ t. "1970-01-01T00:00:00Z";
}

abbrev pub fields : Entry
fields =
    ("op", text "INSERT")
    ∷ ("table", text "users")
    ∷ ("schema", text "public")
    ∷ ("lsn", text "0/1")
    ∷ ("streamed_at", text "1970-01-01T00:00:00Z")
    ∷ ("data", text "{}")
    ∷ []

abbrev pub event : String → Event
event id = record {
  id = id;
  op = "INSERT";
  table = "users";
  schema = "public";
  lsn = "0/1";
  streamed_at = pos 0;
  row = some [];
  old = none;
  enrichment = none;
  source = "";
}

abbrev pub message : String → Message
message id = record { id = id; values = fields }

-- The entries pending for the consumer, and the calls of the handler and of `XACK` still to fail.
pub record World : Type 0 where
  pub own : List String
  pub busy : ℕ
  pub lost : ℕ

abbrev pub handle_in : ℕ → World → Outcome × World
handle_in zero w = (returned none, w)
handle_in (suc n) w = (returned (some (plain "busy")), record w { busy = n })

unfoldable pub ack_in : ℕ → String → World → Option Error × World
unfolding remove
ack_in zero id w = (none, record w { own = remove id w.own })
ack_in (suc n) id w = (some (plain "lost"), record w { lost = n })

abbrev pub runtime : Runtime World
runtime = record { ctx_err = λ w. none; wait = λ d w. (none, w) }

abbrev pub consumer : Consumer (Unit {0}) World
consumer = record {
  stream = "a.users";
  group = "a";
  name = "pod";
  handler = λ inst evt w. handle_in w.busy w;
  inst = tt;
  policy = fail_loud;
  escalate_after = pos 2;
  block = pos (2 * second);
  count = 2;
  reclaim_min_idle = pos (30 * second);
  reclaim_interval = pos (5 * second);
  consumer_gc_interval = pos (300 * second);
  consumer_gc_timeout = pos (600 * second);
  heartbeat_interval = pos (15 * second);
  ack_fn = λ id w. ack_in w.lost id w;
  claim_fn = λ id w. (none, w);
}

abbrev pub pending_of : List String → List Pending
pending_of ids = map (λ id. record { id = id; consumer = "pod"; idle = pos 0 }) ids

abbrev pub redis : Redis World
redis = record {
  xgroup_create = λ w. (some (plain "BUSYGROUP exists"), w);
  xpending = λ a w. (reply (pending_of (take a.count w.own)), w);
  xclaim = λ name idle ids w. (reply (map message ids), w);
  xreadgroup = λ name count block w. (entries (message "2-0" ∷ []), w);
  xinfo_consumers = λ w. (reply [], w);
  xgroup_del_consumer = λ name w. (none, w);
  text_of = λ e. "BUSYGROUP exists";
}

abbrev pub start : Run World
start = record {
  world = record { own = "1-0" ∷ "1-1" ∷ "1-2" ∷ []; busy = 2; lost = 1 };
  in_flight = none;
  deeds = [];
}
