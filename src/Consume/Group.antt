-- ===== src/Consume/Group.antt =====
-- The consumer group of consume.go: ensureGroup, selfReclaim, peerReclaim, gcConsumers, a tick of
-- heartbeatLoop, and Run. Redis is a parameter.
pub mod Keeps
pub mod Deeds
pub mod Returns
pub mod Owed
pub mod Course
pub mod Drain
pub mod Removals
pub mod Sweeps
pub mod Peers
pub mod Beats
pub mod Loops
pub use dasher.Consume.Commands.{
  Pending, PendingArgs, ConsumerInfo, Reply, reply, refused, Read, entries, timed_out, broken,
  Redis,
}
use dasher.Common.{
  ℕ, zero, suc, String, ◌<>◌, ◌==◌, Bool, true, false, not, ◌&&◌, Option, none, some, List, [], ◌∷◌,
  map, length, ltb, if◌then◌else◌, ◌==ℕ◌,
}
use text.Mathlib.Text.{starts_with}
use dasher.Common.Int.{ℤ, pos, leb_ℤ}
use dasher.Errors.{Error, wrapped}
use dasher.Event.{Codec}
use dasher.Handler.{Action}
use dasher.Consume.{
  spawned, reclaiming, collecting, beating, Consumer, Runtime, Run, Exit, exited, thrown,
  out_of_fuel,
}
use dasher.Consume.Process.{Message, process}

module _ {I W : Type 0} (redis : Redis W) (k : Consumer I W) where
  unfoldable pub ensure_group : Action W (Option Error)
  ensure_group w =
      let (err, w') = redis.xgroup_create w in
      elim err [
        | none ↦ (none, w')
        | some e ↦
            if starts_with (redis.text_of e) "BUSYGROUP"
            then (none, w')
            else (some (wrapped ("XGROUP CREATE " <> k.stream) e), w')
      ]

  -- The ids of the entries that other consumers own.
  unfoldable pub peers_of : List Pending → List String
  peers_of [] = []
  peers_of (xp ∷ xps) =
      let rest = peers_of xps in if xp.consumer == k.name then rest else xp.id ∷ rest

  -- `if len(toClaimIDs) > 0 { XCLAIM … }`
  unfoldable pub claim_peers : List String → Action W (Option Error)
  claim_peers [] w = (none, w)
  claim_peers (id ∷ ids) w =
      let (r, w') = redis.xclaim k.name k.reclaim_min_idle (id ∷ ids) w in
      elim r [
        | reply _ ↦ (none, w')
        | refused e ↦ (some (wrapped ("XCLAIM peer " <> k.stream) e), w')
      ]

  -- The cursor behind the last row, exclusive.
  unfoldable pub cursor : String → List Pending → String
  cursor start [] = start
  cursor start (xp ∷ []) = "(" <> xp.id
  cursor start (_ ∷ xp ∷ xps) = cursor start (xp ∷ xps)

  -- The loop of `peerReclaim`; `none` for a page count that the fuel does not cover.
  unfoldable pub peer_reclaim_from : ℕ → String → W → Option (Option Error) × W
  unfolding peers_of claim_peers cursor
  peer_reclaim_from zero start w = (none, w)
  peer_reclaim_from (suc fuel) start w =
      let (r, w₁) =
        redis.xpending
          (record { start = start; count = k.count; consumer = none; idle = k.reclaim_min_idle })
          w in
      elim r [
        | refused e ↦ (some (some (wrapped ("XPENDING " <> k.stream) e)), w₁)
        | reply xps ↦ elim xps [
          | [] ↦ (some none, w₁)
          | xp ∷ more ↦
              let (err, w₂) = claim_peers (peers_of (xp ∷ more)) w₁ in
              elim err [
                | some e ↦ (some (some e), w₂)
                | none ↦ elim (ltb (length (xp ∷ more)) k.count) [
                  | true ↦ (some none, w₂)
                  | false ↦ peer_reclaim_from fuel (cursor start (xp ∷ more)) w₂
                ]
              ]
        ]
      ]

  unfoldable pub peer_reclaim : ℕ → W → Option (Option Error) × W
  unfolding peer_reclaim_from
  peer_reclaim fuel w = peer_reclaim_from fuel "-" w

  -- Whether `gcConsumers` removes a consumer.
  unfoldable pub is_dead : ConsumerInfo → Bool
  is_dead xic =
      not (xic.name == k.name) && (leb_ℤ k.consumer_gc_timeout xic.idle && (xic.pending ==ℕ 0))

  -- The loop of `gcConsumers`: a failed removal is only logged.
  unfoldable pub gc_each : List ConsumerInfo → W → W
  unfolding is_dead
  gc_each [] w = w
  gc_each (xic ∷ rest) w =
      gc_each rest (if is_dead xic then (redis.xgroup_del_consumer xic.name w).1 else w)

  unfoldable pub gc_consumers : Action W (Option Error)
  unfolding gc_each
  gc_consumers w =
      let (r, w') = redis.xinfo_consumers w in
      elim r [
        | refused e ↦ (some (wrapped ("XINFO CONSUMERS " <> k.stream) e), w')
        | reply consumers ↦ (none, gc_each consumers w')
      ]

  -- What `heartbeatLoop` does on a tick. Its error is only logged.
  unfoldable pub heartbeat : Option String → W → W
  heartbeat none w = w
  heartbeat (some id) w = (k.claim_fn id w).1

-- `if err := …; err != nil { return err }`, and the rest.
abbrev pub and_then : {W : Type 0} → Exit × Run W → (Run W → Exit × Run W) → Exit × Run W
and_then (exited none, s) rest = rest s
and_then (exited (some e), s) rest = (exited (some e), s)
and_then (thrown v, s) rest = (thrown v, s)
and_then (out_of_fuel, s) rest = (out_of_fuel, s)

abbrev pub at_world : {W : Type 0} → W → Run W → Run W
at_world w s = record s { world = w }

-- A command whose error is returned, wrapped, and what uses its reply.
abbrev pub when_ok :
    {W A : Type 0} → String → Reply A × W → Run W → (A → Run W → Exit × Run W) → Exit × Run W
when_ok what (reply a, w) s use_reply = use_reply a (at_world w s)
when_ok what (refused e, w) s use_reply = (exited (some (wrapped what e)), at_world w s)

-- `if done { return nil }`, and the rest.
abbrev pub unless : {W : Type 0} → Bool → (Run W → Exit × Run W) → Run W → Exit × Run W
unless true rest s = (exited none, s)
unless false rest s = rest s

module _ {I W : Type 0} (redis : Redis W) (rt : Runtime W) (k : Consumer I W) (c : Codec) where
  -- `process` for each message of a page, up to the first error.
  unfoldable pub process_all : ℕ → List Message → Run W → Exit × Run W
  process_all fuel [] s = (exited none, s)
  process_all fuel (m ∷ ms) s = and_then (process rt k c fuel m s) (λ s'. process_all fuel ms s')

  -- A turn of the loop of `selfReclaim` behind its `XPENDING`; `again` is the next turn.
  unfoldable pub reclaim_page : (Run W → Exit × Run W) → ℕ → List Pending → Run W → Exit × Run W
  reclaim_page again rounds [] s = (exited none, s)
  reclaim_page again rounds (xp ∷ xps) s =
      when_ok ("XCLAIM " <> k.stream)
        (redis.xclaim k.name (pos 0) (map (λ p. p.id) (xp ∷ xps)) s.world) s
        (λ msgs s₂.
          and_then (process_all rounds msgs s₂) (unless (ltb (length (xp ∷ xps)) k.count) again))

  -- `selfReclaim`; `fuel` bounds the pages, and `rounds` those of each entry.
  unfoldable pub self_reclaim : ℕ → ℕ → Run W → Exit × Run W
  self_reclaim zero rounds s = (out_of_fuel, s)
  self_reclaim (suc fuel) rounds s =
      when_ok ("XPENDING " <> k.stream)
        (redis.xpending
          (record { start = "-"; count = k.count; consumer = some k.name; idle = pos 0 }) s.world)
        s (reclaim_page (self_reclaim fuel rounds) rounds)

  -- The rest of a turn of the loop of `Run`, behind its `XREADGROUP`.
  unfoldable pub take_new : (Run W → Exit × Run W) → ℕ → Read × W → Run W → Exit × Run W
  take_new again rounds (timed_out, w) s = again (at_world w s)
  take_new again rounds (entries ms, w) s = and_then (process_all rounds ms (at_world w s)) again
  take_new again rounds (broken e, w) s = elim (rt.ctx_err w) [
    | some cancelled ↦ (exited (some cancelled), at_world w s)
    | none ↦ (exited (some (wrapped ("XREADGROUP " <> k.stream) e)), at_world w s)
  ]

  -- The loop of `Run`, one turn for each `XREADGROUP`.
  unfoldable pub run_loop : ℕ → ℕ → ℕ → Run W → Exit × Run W
  run_loop zero pages rounds s = (out_of_fuel, s)
  run_loop (suc fuel) pages rounds s = elim (rt.ctx_err s.world) [
    | some cancelled ↦ (exited (some cancelled), s)
    | none ↦ and_then (self_reclaim pages rounds s) (λ s₁.
        take_new (run_loop fuel pages rounds) rounds
          (redis.xreadgroup k.name k.count k.block s₁.world) s₁)
  ]

  -- `go c.reclaimLoop(ctx)` and the other two; what they do is in Group/Loops.
  abbrev pub spawn_loops : Run W → Run W
  spawn_loops s = record s {
    deeds = spawned beating ∷ spawned collecting ∷ spawned reclaiming ∷ s.deeds;
  }

  unfoldable pub run : ℕ → ℕ → ℕ → Run W → Exit × Run W
  run fuel pages rounds s =
      let (e, w) = ensure_group redis k s.world in
      elim e [
        | some err ↦ (exited (some err), at_world w s)
        | none ↦ run_loop fuel pages rounds (spawn_loops (at_world w s))
      ]
