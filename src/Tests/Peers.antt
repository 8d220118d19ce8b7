-- ===== src/Tests/Peers.antt =====
-- Witnesses of the theorems on consumers that share a group: an entry in flight, and a peer that
-- reclaims.
use dasher.Common.{ℕ, String, none, [], ◌∷◌, ◌≡◌, ◌≤◌, refl, arith, if◌then◌else◌}
use dasher.Common.Int.{pos, leb_ℤ, ◌<ℤ◌}
use dasher.Consume.{Consumer}
use dasher.Consume.Group.{Redis, reply, timed_out, peer_reclaim}
use dasher.Consume.Group.Beats.{Resets, InFlight, read, waits, reclaims, InFlight-owner}
use dasher.Consume.Group.Peers.{Spares}
use dasher.Handler.{noop, fail_loud}
use dasher.Tests.{message}

-- The owner of the one entry, and its idle time.
abbrev Shared : Type 0
Shared = String × ℕ

abbrev owner : Shared → String
owner w = w.0

abbrev idle : Shared → ℕ
idle w = w.1

abbrev commands : Redis Shared
commands = record {
  xgroup_create = λ w. (none, w);
  xpending = λ a w. (
    reply (
        if leb_ℤ a.idle (pos w.1)
        then record { id = "1-0"; consumer = w.0; idle = pos w.1 } ∷ []
        else []),
    w,
  );
  xclaim = λ name min_idle ids w. (
    reply (message "1-0" ∷ []),
    (
      (if leb_ℤ min_idle (pos w.1) then name else w.0),
      (if leb_ℤ min_idle (pos w.1) then 0 else w.1),
    ),
  );
  xreadgroup = λ name count block w. (timed_out, w);
  xinfo_consumers = λ w. (reply [], w);
  xgroup_del_consumer = λ name w. (none, w);
  text_of = λ e. "";
}

abbrev named_consumer : String → Consumer (Unit {0}) Shared
named_consumer name = record {
  stream = "a.users";
  group = "a";
  name = name;
  handler = noop;
  inst = tt;
  policy = fail_loud;
  escalate_after = pos 10;
  block = pos 2;
  count = 10;
  reclaim_min_idle = pos 30;
  reclaim_interval = pos 5;
  consumer_gc_interval = pos 300;
  consumer_gc_timeout = pos 600;
  heartbeat_interval = pos 15;
  ack_fn = λ id w. (none, w);
  claim_fn = λ id w. (none, (name, 0));
}

commands-Spares : Spares owner idle commands
commands-Spares = record {
  pending = λ a w. (refl, refl);
  claim = λ name min_idle ids w h. ground arith;
}

pod-Resets : Resets owner idle commands (named_consumer "pod") "1-0"
pod-Resets = record { claimed = λ w mine done. (refl, refl); lost = λ w e failed. cc }

abbrev reclaimed : Shared
reclaimed = (peer_reclaim commands (named_consumer "peer") 5 ("pod", 20)).1

reclaimed-InFlight : InFlight owner idle commands (named_consumer "pod") "1-0" 20 reclaimed
reclaimed-InFlight =
    reclaims (named_consumer "peer") commands 5
      (waits 20 ("pod", 20) (read ("pod", 0) refl refl) (omega arith) refl refl) commands-Spares
      refl

InFlight-owner_example : (owner reclaimed ≡ "pod") × (idle reclaimed ≤ 20) × (pos 20 <ℤ pos 30)
InFlight-owner_example =
    InFlight-owner owner idle commands (named_consumer "pod") "1-0" pod-Resets (omega arith)
      reclaimed-InFlight
