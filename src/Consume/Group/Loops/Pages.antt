-- ===== src/Consume/Group/Loops/Pages.antt =====
-- That `peerReclaim` ends: each page moves its cursor on.
use dasher.Common.{ℕ, zero, suc, ◌≤◌, ◌<◌, String, none, List, [], ◌∷◌, ◌≡◌, ◌≢◌, arith}
use dasher.Consume.{Consumer}
use dasher.Consume.Group.{
  Redis, Pending, PendingArgs, reply, claim_peers, cursor, peer_reclaim_from, peer_reclaim,
}

-- `behind` counts the pending entries from a cursor on. `XPENDING` lists them from there, so that
-- fewer are behind the last row of a page that is not empty; `XCLAIM` gives them another owner.
pub record Advances {I W : Type 0} (redis : Redis W) (k : Consumer I W) (behind : String → W → ℕ)
    : Type 0 where
  pub page :
      (start : String) (w : W) (xp : Pending) (more : List Pending)
      → let a : PendingArgs = record {
        start = start;
        count = k.count;
        consumer = none;
        idle = k.reclaim_min_idle;
      } in
        (redis.xpending a w).0 ≡ reply (xp ∷ more)
        → behind (cursor redis k start (xp ∷ more)) (redis.xpending a w).1 < behind start w
  pub claimed :
      (start : String) (ids : List String) (w : W)
      → behind start (redis.xclaim k.name k.reclaim_min_idle ids w).1 ≤ behind start w

module _ {I W : Type 0} (redis : Redis W) (k : Consumer I W) (behind : String → W → ℕ)
    (advances : Advances redis k behind) where
  behind-claim_peers :
      (start : String) (ids : List String) (w : W)
      → behind start (claim_peers redis k ids w).1 ≤ behind start w
  unfolding claim_peers
  behind-claim_peers start [] w = omega arith
  behind-claim_peers start (id ∷ ids) w = ground (arith, advances.claimed start (id ∷ ids) w)

  peer_reclaim_from-ne-none :
      (fuel : ℕ) (start : String) (w : W)
      → behind start w < fuel
      → (peer_reclaim_from redis k fuel start w).0 ≢ none
  unfolding peer_reclaim_from
  peer_reclaim_from-ne-none zero start w h = absurd (omega arith)
  peer_reclaim_from-ne-none (suc fuel) start w h =
      grind (arith, advances.page start w, behind-claim_peers, peer_reclaim_from-ne-none fuel)

  -- Pages of fuel beyond the number of pending entries are enough.
  pub peer_reclaim-ne-none :
      (fuel : ℕ) (w : W) → behind "-" w < fuel → (peer_reclaim redis k fuel w).0 ≢ none
  unfolding peer_reclaim
  peer_reclaim-ne-none fuel w h = peer_reclaim_from-ne-none fuel "-" w h
