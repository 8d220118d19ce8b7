-- ===== src/Tests/Removals.antt =====
-- The witness of the theorem on the removal of consumers.
use dasher.Common.{String, true, none, List, [], ◌∷◌, ◌≡◌, ◌↔◌, ◌⊎◌, refl, ◌*◌}
use dasher.Common.Int.{pos}
use dasher.Consume.{Consumer, second}
use dasher.Consume.Group.{Redis, ConsumerInfo, reply, timed_out, gc_consumers}
use dasher.Consume.Group.Removals.{TracksRemovals, Any, occurs, IsExpired, gc_consumers_iff}
use dasher.Handler.{noop, fail_loud}

abbrev pod : Consumer (Unit {0}) (List String)
pod = record {
  stream = "a.users";
  group = "a";
  name = "pod";
  handler = noop;
  inst = tt;
  policy = fail_loud;
  escalate_after = pos 2;
  block = pos (2 * second);
  count = 2;
  reclaim_min_idle = pos (30 * second);
  reclaim_interval = pos (5 * second);
  consumer_gc_interval = pos (300 * second);
  consumer_gc_timeout = pos (600 * second);
  heartbeat_interval = pos (15 * second);
  ack_fn = λ id w. (none, w);
  claim_fn = λ id w. (none, w);
}

abbrev known : List ConsumerInfo
known =
    record { name = "pod"; pending = 0; idle = pos (900 * second) }
    ∷ record { name = "old"; pending = 0; idle = pos (900 * second) }
    ∷ record { name = "stuck"; pending = 3; idle = pos (900 * second) }
    ∷ []

abbrev group : Redis (List String)
group = record {
  xgroup_create = λ w. (none, w);
  xpending = λ a w. (reply [], w);
  xclaim = λ name idle ids w. (reply [], w);
  xreadgroup = λ name count block w. (timed_out, w);
  xinfo_consumers = λ w. (reply known, w);
  xgroup_del_consumer = λ name w. (none, name ∷ w);
  text_of = λ e. "";
}

group-TracksRemovals : TracksRemovals group (λ w. w)
group-TracksRemovals = record { info_same = λ w. refl; del_asked = λ name w. refl }

gc_consumers_iff_example :
    ((gc_consumers group pod []).0 ≡ none)
    × ((occurs "old" (gc_consumers group pod []).1 ≡ true)
        ↔ ((occurs "old" [] ≡ true) ⊎ Any (IsExpired group pod "old") known))
gc_consumers_iff_example =
    gc_consumers_iff group pod (λ w. w) group-TracksRemovals "old" known [] refl
