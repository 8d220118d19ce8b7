-- ===== src/Consume/Group/Drain.antt =====
-- `selfReclaim` and the list of the entries that are pending for this consumer.
pub mod Removal
pub mod Frames
use dasher.Common.{
  ◌<>◌, ℕ, zero, suc, ◌+◌, ◌≤◌, ◌<◌, String, ◌==◌, eq_refl, Bool, true, false, Option, none, some,
  List, [], ◌∷◌, map, length, ◌≡◌, ◌≢◌, refl, sym, ap, ◌∙◌, arith, ltb, tests, if◌then◌else◌,
  Option-cases, Bool-cases, inl, inr, take, take_of_length-lt, any, all, All, ◌||◌, ◌&&◌, ◌⊎◌,
}
use dasher.Common.Int.{pos}
use mathlib.Core.Path.{subst}
use dasher.Errors.{Error, wrapped}
use dasher.Event.{Event, Codec}
use dasher.Event.Parse.{parse, ok, fail}
use dasher.Handler.{returned, panicked}
use dasher.Consume.{Consumer, Runtime, Run, Exit, exited, thrown, out_of_fuel}
use dasher.Consume.Process.{
  Message, call_ack, call_handler, pause, on_fatal, ack_loop, handle_loop, leave, process,
}
use dasher.Consume.Process.Acks.{IsLoud}
use dasher.Consume.Process.Ends.{HasBudget, IsCalm, process-delivers}
use dasher.Consume.Group.{
  Redis, Reply, reply, refused, Pending, PendingArgs, and_then, at_world, when_ok, unless,
  process_all, reclaim_page, self_reclaim,
}
use dasher.Consume.Group.Drain.Removal.{
  remove, remove_all, remove_all-take, take-eq-nil, length-rest, take-nil,
}
use dasher.Consume.Group.Drain.Frames.{
  TracksOwn, IsHealthy, process-own, when_ok-eq, when_ok-refused, Reply-cases, and_then-eq,
  length-ids, process-budget,
}

module _ {I W : Type 0} (redis : Redis W) (k : Consumer I W) (own : W → List String) where
  -- The run returned nil and left no entry pending for this consumer.
  abbrev pub Drained : Exit × Run W → Type 0
  Drained r = (r.0 ≡ exited none) × (own r.1.world ≡ [])

  -- The run returned, wrapped, the error of an `XPENDING` or of an `XCLAIM` that Redis refused.
  abbrev pub Refused : Exit × Run W → Type 0
  Refused r =
      (w : W) × (e : Error) × (((a : PendingArgs) × ((redis.xpending a w).0 ≡ refused e)
          × (r.0 ≡ exited (some (wrapped ("XPENDING " <> k.stream) e))))
        ⊎ ((ids : List String) × ((redis.xclaim k.name (pos 0) ids w).0 ≡ refused e)
            × (r.0 ≡ exited (some (wrapped ("XCLAIM " <> k.stream) e)))))

module _ {I W : Type 0} (redis : Redis W) (rt : Runtime W) (k : Consumer I W) (c : Codec)
    (budget : W → ℕ) (h : IsHealthy redis rt k c budget) (own : W → List String)
    (t : TracksOwn redis rt k own) (loud : IsLoud k.policy) where
  -- A page of well-formed entries is processed to the end.
  process_all-drains :
      (rounds : ℕ) (ms : List Message) (s : Run W)
      → All (λ m. (evt : Event) × (parse c m.id m.values ≡ ok evt)) ms
      → budget s.world + 1 < rounds
      → ((process_all redis rt k c rounds ms s).0 ≡ exited none)
        × (budget (process_all redis rt k c rounds ms s).1.world ≤ budget s.world)
        × (own (process_all redis rt k c rounds ms s).1.world
            ≡ remove_all (map (λ m. m.id) ms) (own s.world))
  unfolding process_all remove_all
  process_all-drains rounds [] s a b = (refl, omega arith, refl)
  process_all-drains rounds (m ∷ ms) s ((evt, p), a) b =
      let e = process-delivers rt k budget h.bounded c rounds m s evt h.calm p b in
      let b' = process-budget redis rt k c budget h loud rounds m s e in
      let o = process-own redis rt k c own t loud rounds m s e in
      ground (
        arith,
        e,
        b',
        o,
        process_all-drains rounds ms (process rt k c rounds m s).1 a (omega arith),
      )

  -- Behind an `XCLAIM` of a page that Redis has answered.
  claimed-drains :
      (again : Run W → Exit × Run W) (rounds : ℕ) (xp : Pending) (xps : List Pending)
      (ms : List Message) (s : Run W)
      → 1 ≤ k.count
      → map (λ p. p.id) (xp ∷ xps) ≡ take k.count (own s.world)
      → (redis.xclaim k.name (pos 0) (map (λ p. p.id) (xp ∷ xps)) s.world).0 ≡ reply ms
      → budget s.world + 1 < rounds
      → ((s' : Run W)
          → length (own s'.world) < length (own s.world)
          → budget s'.world + 1 < rounds
          → Drained redis k own (again s') ⊎ Refused redis k own (again s'))
      → Drained redis k own (reclaim_page redis rt k c again rounds (xp ∷ xps) s)
        ⊎ Refused redis k own (reclaim_page redis rt k c again rounds (xp ∷ xps) s)
  unfolding reclaim_page
  claimed-drains again rounds xp xps ms s p page got b next =
      let asked : (redis.xclaim k.name (pos 0) (take k.count (own s.world)) s.world).0 ≡ reply ms =
        subst (λ l. (redis.xclaim k.name (pos 0) l s.world).0 ≡ reply ms) page got in
      let same = t.xclaim_page k.count s.world ms asked in
      let s₂ : Run W = at_world (redis.xclaim k.name (pos 0) ids s.world).1 s in
      let (done, spent, left) =
        process_all-drains rounds ms s₂ (h.well_formed ids s.world ms got)
          (omega (arith, h.xclaim_le ids s.world)) in
      let s₃ = (process_all redis rt k c rounds ms s₂).1 in
      let rest : own s₃.world ≡ remove_all (take k.count (own s.world)) (own s.world) =
        left ∙ rw (t.xclaim_same ids s.world, same) refl in
      let budget₃ : budget s₃.world + 1 < rounds = omega (arith, h.xclaim_le ids s.world) in
      let go = unless (ltb (length (xp ∷ xps)) k.count) again in
      rw
        (
          when_ok-eq ("XCLAIM " <> k.stream) (redis.xclaim k.name (pos 0) ids s.world) s
              (λ msgs s'. and_then (process_all redis rt k c rounds msgs s') go) ms got,
          and_then-eq (process_all redis rt k c rounds ms s₂) go done,
        )
        (elim (Bool-cases (ltb (length (xp ∷ xps)) k.count)) [
          | inl last ↦ rw last (
              inl (
                refl,
                rest
                    ∙ remove_all-take k.count (own s.world)
                        (omega (tests, ap length page, length-ids (xp ∷ xps))),
              ))
          | inr full ↦ rw full (
              next s₃
                (rw rest (
                  length-rest k.count (own s.world) p
                    (λ e. absurd_page (page ∙ ap (take k.count) e ∙ take-nil k.count))))
                budget₃)
        ])
    where
      ids : List String
      ids = map (λ q. q.id) (xp ∷ xps)

      absurd_page : ids ≡ [] → ⊥
      absurd_page e = cc

  reclaim_page-drains :
      (again : Run W → Exit × Run W) (rounds : ℕ) (xps : List Pending) (s : Run W)
      → 1 ≤ k.count
      → map (λ p. p.id) xps ≡ take k.count (own s.world)
      → budget s.world + 1 < rounds
      → ((s' : Run W)
          → length (own s'.world) < length (own s.world)
          → budget s'.world + 1 < rounds
          → Drained redis k own (again s') ⊎ Refused redis k own (again s'))
      → Drained redis k own (reclaim_page redis rt k c again rounds xps s)
        ⊎ Refused redis k own (reclaim_page redis rt k c again rounds xps s)
  unfolding reclaim_page
  reclaim_page-drains again rounds [] s p page b next =
      inl (refl, take-eq-nil k.count (own s.world) p (sym page))
  reclaim_page-drains again rounds (xp ∷ xps) s p page b next =
      let ids = map (λ q. q.id) (xp ∷ xps) in
      elim (Reply-cases (redis.xclaim k.name (pos 0) ids s.world).0) [
        | inl (ms, got) ↦ claimed-drains again rounds xp xps ms s p page got b next
        | inr (e, denied) ↦
            inr (
              s.world,
              e,
              inr (ids, denied, when_ok-refused ("XCLAIM " <> k.stream) _ s _ e denied),
            )
      ]

  -- `selfReclaim` under a policy that hands fatal errors back, in a world where the handler and
  -- `XACK` fail finitely often, nothing cancels the context, there is no poison and no panic, and
  -- the claimed entries are well formed. No other client touches the entries that are pending for this
  -- consumer, and none is trimmed from the stream. Then it returns: nil, and every entry that was
  -- pending for this consumer has been acknowledged; or the error of an `XPENDING` or an `XCLAIM`
  -- that Redis refused. Pages of fuel beyond the number of these entries are enough.
  pub self_reclaim-drains :
      (pages rounds : ℕ) (s : Run W)
      → 1 ≤ k.count
      → length (own s.world) < pages
      → budget s.world + 1 < rounds
      → Drained redis k own (self_reclaim redis rt k c pages rounds s)
        ⊎ Refused redis k own (self_reclaim redis rt k c pages rounds s)
  unfolding self_reclaim
  self_reclaim-drains zero rounds s p l b = absurd (omega arith)
  self_reclaim-drains (suc pages) rounds s p l b =
      elim (Reply-cases (redis.xpending args s.world).0) [
        | inr (e, denied) ↦ inr (
          s.world,
          e,
          inl (args, denied, when_ok-refused ("XPENDING " <> k.stream) _ s _ e denied),
        )
        | inl (xps, got) ↦
            let s₁ : Run W = at_world (redis.xpending args s.world).1 s in
            let same = t.xpending_same args s.world in
            rw
              (when_ok-eq ("XPENDING " <> k.stream) (redis.xpending args s.world) s
                (reclaim_page redis rt k c (self_reclaim redis rt k c pages rounds) rounds) xps got)
              (reclaim_page-drains (self_reclaim redis rt k c pages rounds) rounds xps s₁ p
                (t.xpending_page s.world xps got ∙ ap (take k.count) (sym same))
                (omega (arith, h.xpending_le args s.world))
                (λ s' l' b'.
                  self_reclaim-drains pages rounds s' p (omega (arith, ap length same)) b'))
      ]
    where
      args : PendingArgs
      args = record { start = "-"; count = k.count; consumer = some k.name; idle = pos 0 }
