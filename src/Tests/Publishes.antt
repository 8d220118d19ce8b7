-- ===== src/Tests/Publishes.antt =====
-- The witness of the theorem on the events that a consumer publishes.
use dasher.Common.{none, [], ◌∷◌}
use dasher.Common.Int.{pos}
use dasher.Consume.{Consumer, Runtime, Run}
use dasher.Consume.Group.{Redis, reply, entries}
use dasher.Handler.{fail_loud}
use dasher.Tests.{message}
use dasher.Tests.Lookups.{Log, composed}

abbrev consumer : Consumer (Unit {0}) Log
consumer = record {
  stream = "a.users";
  group = "a";
  name = "pod";
  handler = composed;
  inst = tt;
  policy = fail_loud;
  escalate_after = pos 10;
  block = pos 2;
  count = 10;
  reclaim_min_idle = pos 30;
  reclaim_interval = pos 5;
  consumer_gc_interval = pos 300;
  consumer_gc_timeout = pos 600;
  heartbeat_interval = pos 15;
  ack_fn = λ id w. (none, w);
  claim_fn = λ id w. (none, w);
}

abbrev redis : Redis Log
redis = record {
  xgroup_create = λ w. (none, w);
  xpending = λ a w. (reply [], w);
  xclaim = λ name idle ids w. (reply [], w);
  xreadgroup = λ name count block w. (entries (message "1-0" ∷ message "1-1" ∷ []), w);
  xinfo_consumers = λ w. (reply [], w);
  xgroup_del_consumer = λ name w. (none, w);
  text_of = λ e. "";
}

abbrev runtime : Runtime Log
runtime = record { ctx_err = λ w. none; wait = λ d w. (none, w) }

abbrev start : Run Log
start = record { world = []; in_flight = none; deeds = [] }
