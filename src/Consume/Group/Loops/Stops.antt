-- ===== src/Consume/Group/Loops/Stops.antt =====
-- When the background goroutines of a consumer return.
use dasher.Common.{
  ℕ, zero, suc, ◌+◌, ◌<◌, String, Option, none, List, [], ◌∷◌, length, ◌≡◌, ◌≢◌, refl, arith,
}
use dasher.Common.Int.{ℤ, pos, ◌<ℤ◌}
use dasher.Consume.{Consumer, Runtime}
use dasher.Errors.{Error}
use dasher.Consume.Group.{
  Redis, PendingArgs, ConsumerInfo, claim_peers, peer_reclaim_from, peer_reclaim, gc_each,
  gc_consumers,
}
use dasher.Consume.Group.Loops.{
  ticked, ctx_done, Ticks, Round, Standing, stopped, tick_loop, on_ticker, reclaim_loop, gc_turn,
  consumer_gc_loop, beat, heartbeat_loop,
}
use dasher.Consume.Group.Loops.Pages.{Advances, peer_reclaim-ne-none}

-- `left` counts the ticks that are still to come before the context is cancelled. A ticker of a
-- positive interval can be made.
pub record Counts {W : Type 0} (ticks : Ticks W) (left : W → ℕ) : Type 0 where
  pub made : (d : ℤ) → pos 0 <ℤ d → ticks.new_ticker d ≡ none
  pub tick : (w : W) → (ticks.next w).0 ≡ ticked → left w ≡ suc (left (ticks.next w).1)
  pub cancel : (w : W) → (ticks.next w).0 ≡ ctx_done → left w ≡ 0

-- No command of the loops takes a tick.
pub record Spends {I W : Type 0} (redis : Redis W) (k : Consumer I W) (left : W → ℕ) : Type 0 where
  pub pending : (a : PendingArgs) (w : W) → left (redis.xpending a w).1 ≡ left w
  pub claim :
      (ids : List String) (w : W) → left (redis.xclaim k.name k.reclaim_min_idle ids w).1 ≡ left w
  pub info : (w : W) → left (redis.xinfo_consumers w).1 ≡ left w
  pub del : (name : String) (w : W) → left (redis.xgroup_del_consumer name w).1 ≡ left w
  pub beat : (id : String) (w : W) → left (k.claim_fn id w).1 ≡ left w

-- The goroutine returned, after one turn for each tick.
abbrev pub StopsAfter : {W : Type 0} → ℕ → Standing × (W × List Round) → Type 0
StopsAfter n r = (r.0 ≡ stopped) × (length r.1.1 ≡ n)

module _ {W : Type 0} (rt : Runtime W) (ticks : Ticks W) (left : W → ℕ)
    (counts : Counts ticks left) where
  -- A turn ends, and takes no tick.
  record Turns (turn : W → Option (Option Error) × W) : Type 0 where
    ends : (w : W) → (turn w).0 ≢ none
    same : (w : W) → left (turn w).1 ≡ left w

  tick_loop-StopsAfter :
      (turn : W → Option (Option Error) × W) (fuel : ℕ) (w : W) (rounds : List Round)
      → Turns turn
      → left w < fuel
      → StopsAfter (left w + length rounds) (tick_loop rt ticks turn fuel w rounds)
  unfolding tick_loop
  tick_loop-StopsAfter turn zero w rounds t h = absurd (omega arith)
  tick_loop-StopsAfter turn (suc fuel) w rounds t h = grind (
    arith,
    counts.tick w,
    counts.cancel w,
    t.ends,
    t.same,
    λ (w' : W) (rs : List Round). tick_loop-StopsAfter turn fuel w' rs t,
  )

  on_ticker-StopsAfter :
      (d : ℤ) (turn : W → Option (Option Error) × W) (fuel : ℕ) (w : W)
      → pos 0 <ℤ d
      → Turns turn
      → left w < fuel
      → StopsAfter (left w) (on_ticker rt ticks d turn fuel w [])
  unfolding on_ticker
  on_ticker-StopsAfter d turn fuel w positive t h =
      let stops = tick_loop-StopsAfter turn fuel w [] t h in
      rw (counts.made d positive, on_ticker) (stops.0, omega (arith, stops.1))

  module _ {I : Type 0} (redis : Redis W) (k : Consumer I W) (spends : Spends redis k left) where
    left-claim_peers : (ids : List String) (w : W) → left (claim_peers redis k ids w).1 ≡ left w
    unfolding claim_peers
    left-claim_peers [] w = refl
    left-claim_peers (id ∷ ids) w = ground (arith, spends.claim (id ∷ ids) w)

    left-peer_reclaim_from :
        (fuel : ℕ) (start : String) (w : W)
        → left (peer_reclaim_from redis k fuel start w).1 ≡ left w
    unfolding peer_reclaim_from
    left-peer_reclaim_from zero start w = refl
    left-peer_reclaim_from (suc fuel) start w =
        grind (arith, spends.pending, left-claim_peers, left-peer_reclaim_from fuel)

    left-gc_each :
        (consumers : List ConsumerInfo) (w : W) → left (gc_each redis k consumers w) ≡ left w
    unfolding gc_each
    left-gc_each [] w = refl
    left-gc_each (xic ∷ rest) w = grind (arith, spends.del, left-gc_each rest)

    gc_turn-Turns : Turns (gc_turn rt ticks redis k)
    unfolding gc_turn gc_consumers
    gc_turn-Turns = record {
      ends = λ w e. cc;
      same = λ w. grind (arith, spends.info, left-gc_each);
    }

    beat-Turns : Turns (beat rt ticks redis k)
    unfolding beat
    beat-Turns = record { ends = λ w. ground arith; same = λ w. grind (arith, spends.beat) }

    -- Each of the three background goroutines of a consumer whose intervals are positive returns
    -- once the context is cancelled, and has made one turn for each tick until then, whatever its
    -- commands answer: no error and no panic ends it. For the reclaims, each page must move on among
    -- the pending entries, and there must be pages for all of them.
    pub loops-StopsAfter :
        (behind : String → W → ℕ) (pages fuel : ℕ) (w : W)
        → Advances redis k behind
        → ((w' : W) → behind "-" w' < pages)
        → pos 0 <ℤ k.reclaim_interval
        → pos 0 <ℤ k.consumer_gc_interval
        → pos 0 <ℤ k.heartbeat_interval
        → left w < fuel
        → StopsAfter (left w) (reclaim_loop rt ticks redis k pages fuel w [])
          × StopsAfter (left w) (consumer_gc_loop rt ticks redis k fuel w [])
          × StopsAfter (left w) (heartbeat_loop rt ticks redis k fuel w [])
    unfolding reclaim_loop consumer_gc_loop heartbeat_loop peer_reclaim
    loops-StopsAfter behind pages fuel w advances all_pages reclaims collects beats h = (
      on_ticker-StopsAfter k.reclaim_interval (peer_reclaim redis k pages) fuel w reclaims
          (record {
            ends = λ w'. peer_reclaim-ne-none redis k behind advances pages w' (all_pages w');
            same = left-peer_reclaim_from pages "-";
          })
          h,
      on_ticker-StopsAfter k.consumer_gc_interval _ fuel w collects gc_turn-Turns h,
      on_ticker-StopsAfter k.heartbeat_interval _ fuel w beats beat-Turns h,
    )
