-- ===== src/Consume/Process.antt =====
-- `process` of consume.go: the loops that call the handler and acknowledge the entry.
pub mod Keeps
pub mod Acks
pub mod Retries
pub mod Ends
use dasher.Common.{
  ℕ, zero, suc, ◌+◌, ◌*◌, String, ◌<>◌, true, false, Option, none, some, ◌∷◌, ltb, if◌then◌else◌,
}
use dasher.Common.Int.{ℤ, pos, leb_ℤ}
use dasher.Errors.{Error, plain, wrapped, is_poison}
use dasher.Event.{Event, Codec, Entry}
use dasher.Event.Parse.{parse, ok, fail}
use dasher.Handler.{Outcome, returned, panicked}
use dasher.Consume.{
  millisecond, second, Consumer, Runtime, Level, Deed, handled, acked, retried, ack_failed, slept,
  fatal, Run, Exit, exited, thrown, out_of_fuel,
}

-- `redis.XMessage`
pub record Message : Type 0 where
  pub id : String
  pub values : Entry

abbrev pub initial_backoff : ℕ
initial_backoff = 100 * millisecond

-- `if backoff < 30*time.Second { backoff *= 2 }`
unfoldable pub next_backoff : ℕ → ℕ
next_backoff backoff = if ltb backoff (30 * second) then backoff * 2 else backoff

unfoldable pub level_of : ℤ → ℕ → Level
level_of escalate_after retries =
    if leb_ℤ escalate_after (pos retries) then Level.error else Level.warn

module _ {I W : Type 0} (rt : Runtime W) (k : Consumer I W) where
  abbrev record_deed : Deed → Run W → Run W
  record_deed d s = record s { deeds = d ∷ s.deeds }

  -- `c.ackFn(ctx, c.stream, c.group, m.ID)`
  unfoldable pub call_ack : String → Run W → Option Error × Run W
  call_ack id s =
      let (e, w) = k.ack_fn id s.world in (e, record s { world = w; deeds = acked id e ∷ s.deeds })

  unfoldable pub call_handler : Event → Run W → Outcome × Run W
  call_handler evt s =
      let (r, w) = k.handler k.inst evt s.world in
      (r, record s { world = w; deeds = handled s.in_flight r ∷ s.deeds })

  unfoldable pub pause : ℕ → Run W → Option Error × Run W
  pause d s =
      let (e, w) = rt.wait d s.world in (e, record s { world = w; deeds = slept d ∷ s.deeds })

  -- `c.policy.OnFatal(c.stream, err)`
  unfoldable pub on_fatal : Error → Run W → Exit × Run W
  on_fatal err s =
      let (e, w) = k.policy k.stream err s.world in
      (exited e, record s { world = w; deeds = fatal err ∷ s.deeds })

  -- The inner loop: `XACK` until it succeeds or the context is cancelled.
  unfoldable pub ack_loop : ℕ → String → Run W → Exit × Run W
  ack_loop zero id s = (out_of_fuel, s)
  ack_loop (suc fuel) id s =
      let (err, s₁) = call_ack id s in
      elim err [
        | none ↦ (exited none, s₁)
        | some _ ↦ elim (rt.ctx_err s₁.world) [
          | some cancelled ↦ (exited (some cancelled), s₁)
          | none ↦
              let (done, s₂) = pause (100 * millisecond) (record_deed (ack_failed id) s₁) in
              elim done [
                | some cancelled ↦ (exited (some cancelled), s₂)
                | none ↦ ack_loop fuel id s₂
              ]
        ]
      ]

  -- The outer loop: the handler until it succeeds, fails for good, or the context is cancelled.
  unfoldable pub handle_loop : ℕ → String → Event → ℕ → ℕ → Run W → Exit × Run W
  handle_loop zero id evt backoff retries s = (out_of_fuel, s)
  handle_loop (suc fuel) id evt backoff retries s =
      let (outcome, s₁) = call_handler evt s in
      elim outcome [
        | panicked v ↦ (thrown v, s₁)
        | returned herr ↦ elim herr [
          | none ↦ ack_loop fuel id s₁
          | some err ↦ elim (is_poison err) [
            | true ↦ on_fatal (wrapped ("poison " <> id) err) s₁
            | false ↦ elim (rt.ctx_err s₁.world) [
              | some cancelled ↦ (exited (some cancelled), s₁)
              | none ↦
                  let n = retries + 1 in
                  let level = level_of k.escalate_after n in
                  let (done, s₂) = pause backoff (record_deed (retried level n backoff) s₁) in
                  elim done [
                    | some cancelled ↦ (exited (some cancelled), s₂)
                    | none ↦ handle_loop fuel id evt (next_backoff backoff) n s₂
                  ]
            ]
          ]
        ]
      ]

  -- The two deferred calls: the entry is no longer in flight, and a panic goes to the policy.
  unfoldable pub leave : String → Exit × Run W → Exit × Run W
  leave id (exited e, s) = (exited e, record s { in_flight = none })
  leave id (thrown v, s) =
      on_fatal (plain ("panic in handler " <> id <> ": " <> v)) (record s { in_flight = none })
  leave id (out_of_fuel, s) = (out_of_fuel, s)

  unfoldable pub process : Codec → ℕ → Message → Run W → Exit × Run W
  process c fuel m s = elim (parse c m.id m.values) [
    | fail e ↦ on_fatal (wrapped ("malformed envelope " <> m.id) e) s
    | ok evt ↦
        leave m.id
          (handle_loop fuel m.id evt initial_backoff 0 (record s { in_flight = some m.id }))
  ]
