-- ===== src/Consume/Group/Beats.antt =====
-- An entry in flight under heartbeatLoop, while peers reclaim: the calls of the consumers that share
-- a group, in any order.
use dasher.Common.{ℕ, ◌+◌, ◌≤◌, String, none, some, ◌≡◌, ◌∙◌, arith}
use dasher.Common.Int.{pos, ◌<ℤ◌}
use dasher.Consume.{Consumer}
use dasher.Consume.Group.{Redis, heartbeat, peer_reclaim}
use dasher.Consume.Group.Peers.{Same, Spares, peer_reclaim-Same}
use dasher.Errors.{Error}

module _ {I W : Type 0} (owner : W → String) (idle : W → ℕ) (redis : Redis W) (k : Consumer I W)
    (id : String) where
  -- The owner's `XCLAIM … JUSTID` resets the idle time; one that fails does nothing.
  pub record Resets : Type 0 where
    pub claimed :
        (w : W)
        → owner w ≡ k.name
        → (k.claim_fn id w).0 ≡ none
        → (owner (k.claim_fn id w).1 ≡ k.name) × (idle (k.claim_fn id w).1 ≡ 0)
    pub lost :
        (w : W) (e : Error) → (k.claim_fn id w).0 ≡ some e → Same owner idle w (k.claim_fn id w).1

  -- What happens to the entry once it has been read: heartbeats, which may fail, time that passes,
  -- and reclaims by consumers with the same setting. The index is the time since the last heartbeat
  -- that succeeded, which stays below the time after which peers reclaim.
  pub data InFlight : ℕ → W → Type 0 where
    read : (w : W) → owner w ≡ k.name → idle w ≡ 0 → InFlight 0 w
    beats :
        {since : ℕ} {w : W}
        → InFlight since w
        → (k.claim_fn id w).0 ≡ none
        → InFlight 0 (heartbeat redis k (some id) w)
    misses :
        {since : ℕ} {w : W} (e : Error)
        → InFlight since w
        → (k.claim_fn id w).0 ≡ some e
        → InFlight since (heartbeat redis k (some id) w)
    waits :
        {since : ℕ} {w : W} (d : ℕ) (w' : W)
        → InFlight since w
        → pos (since + d) <ℤ k.reclaim_min_idle
        → owner w' ≡ owner w
        → idle w' ≡ idle w + d
        → InFlight (since + d) w'
    reclaims :
        {since : ℕ} {w : W} (peer : Consumer I W) (commands : Redis W) (fuel : ℕ)
        → InFlight since w
        → Spares owner idle commands
        → peer.reclaim_min_idle ≡ k.reclaim_min_idle
        → InFlight since (peer_reclaim commands peer fuel w).1

  -- While the heartbeats that succeed are never as far apart as the time after which peers reclaim,
  -- the entry in flight stays with its consumer, in whatever order heartbeats, failed ones included,
  -- and the reclaims of any number of peers come: it is idle for no longer than since the last
  -- heartbeat.
  pub InFlight-owner :
      {since : ℕ} {w : W}
      → Resets
      → pos 0 <ℤ k.reclaim_min_idle
      → InFlight since w
      → (owner w ≡ k.name) × (idle w ≤ since) × (pos since <ℤ k.reclaim_min_idle)
  unfolding heartbeat
  InFlight-owner resets positive (read w mine zero_idle) =
      (mine, omega (arith, zero_idle), positive)
  InFlight-owner resets positive (beats {w = w} flight done) =
      let (mine, _, _) = InFlight-owner resets positive flight in
      let (owned, fresh) = resets.claimed w mine done in (owned, omega (arith, fresh), positive)
  InFlight-owner resets positive (misses {w = w} e flight failed) =
      let (mine, few, soon) = InFlight-owner resets positive flight in
      let (same, still) = resets.lost w e failed in (same ∙ mine, omega (arith, still, few), soon)
  InFlight-owner resets positive (waits d w' flight soon same later) =
      let (mine, few, _) = InFlight-owner resets positive flight in
      (same ∙ mine, omega (arith, later, few), soon)
  InFlight-owner resets positive
        (reclaims {since = since} {w = w} peer commands fuel flight spares agree) =
      let (mine, few, soon) = InFlight-owner resets positive flight in
      let busy : pos (idle w) <ℤ peer.reclaim_min_idle = rw agree (below (idle w) since few soon) in
      let (same, still) = peer_reclaim-Same owner idle commands peer spares fuel w busy in
      (same ∙ mine, omega (arith, still, few), soon)
    where
      below :
          (i since : ℕ) → i ≤ since → pos since <ℤ k.reclaim_min_idle → pos i <ℤ k.reclaim_min_idle
      below i since few soon = omega arith
