-- ===== src/Consume/Group/Keeps.antt =====
-- The rule by which a property of the state of a run is kept by all that a consumer does.
use dasher.Common.{
  ℕ, zero, suc, String, Bool, true, false, none, some, List, [], ◌∷◌, map, ltb, length,
  Option-cases, inl, inr, ◌≡◌, arith,
}
use dasher.Common.Int.{pos}
use dasher.Event.{Codec}
use dasher.Consume.{
  Goroutine, spawned, reclaiming, collecting, beating, Consumer, Runtime, Run, Exit, exited, thrown,
  out_of_fuel,
}
use dasher.Consume.Process.{Message, process}
use dasher.Consume.Group.{
  Redis, Read, Reply, reply, refused, Pending, PendingArgs, and_then, at_world, when_ok, unless,
  reclaim_page, take_new, entries, timed_out, broken, process_all, self_reclaim, run_loop, run,
  ensure_group,
}

module _ {W : Type 0} (P : Run W → Type 0) where
  and_then-keeps :
      (r : Exit × Run W) (f : Run W → Exit × Run W)
      → P r.1
      → ((s : Run W) → P s → P (f s).1)
      → P (and_then r f).1
  and_then-keeps (exited none, s) f h g = g s h
  and_then-keeps (exited (some e), s) f h g = h
  and_then-keeps (thrown v, s) f h g = h
  and_then-keeps (out_of_fuel, s) f h g = h

  when_ok-keeps :
      {A : Type 0} (what : String) (r : Reply A × W) (s : Run W) (f : A → Run W → Exit × Run W)
      → P (at_world r.1 s)
      → ((a : A) (s' : Run W) → P s' → P (f a s').1)
      → P (when_ok what r s f).1
  when_ok-keeps what (reply a, w) s f h g = g a (at_world w s) h
  when_ok-keeps what (refused e, w) s f h g = h

  unless-keeps :
      (b : Bool) (f : Run W → Exit × Run W) (s : Run W)
      → P s
      → ((s' : Run W) → P s' → P (f s').1)
      → P (unless b f s).1
  unless-keeps true f s h g = h
  unless-keeps false f s h g = g s h

module _ {I W : Type 0} (redis : Redis W) (rt : Runtime W) (k : Consumer I W) (c : Codec) where
  -- Each command of a consumer, and the processing of each entry, keeps the property.
  pub record Stable (P : Run W → Type 0) : Type 0 where
    pub create : (s : Run W) → P s → P (at_world (redis.xgroup_create s.world).1 s)
    pub pending : (a : PendingArgs) (s : Run W) → P s → P (at_world (redis.xpending a s.world).1 s)
    pub claim :
        (ids : List String) (s : Run W)
        → P s
        → P (at_world (redis.xclaim k.name (pos 0) ids s.world).1 s)
    pub read :
        (s : Run W) → P s → P (at_world (redis.xreadgroup k.name k.count k.block s.world).1 s)
    pub spawn : (g : Goroutine) (s : Run W) → P s → P (record s { deeds = spawned g ∷ s.deeds })
    pub entry : (rounds : ℕ) (m : Message) (s : Run W) → P s → P (process rt k c rounds m s).1

  module _ {P : Run W → Type 0} (stable : Stable P) where
    pub process_all-keeps :
        (rounds : ℕ) (ms : List Message) (s : Run W)
        → P s
        → P (process_all redis rt k c rounds ms s).1
    unfolding process_all
    process_all-keeps rounds [] s h = h
    process_all-keeps rounds (m ∷ ms) s h =
        and_then-keeps P (process rt k c rounds m s) _ (stable.entry rounds m s h)
          (λ s' h'. process_all-keeps rounds ms s' h')

    reclaim_page-keeps :
        (again : Run W → Exit × Run W) (rounds : ℕ) (xps : List Pending) (s : Run W)
        → ((s' : Run W) → P s' → P (again s').1)
        → P s
        → P (reclaim_page redis rt k c again rounds xps s).1
    unfolding reclaim_page
    reclaim_page-keeps again rounds [] s g h = h
    reclaim_page-keeps again rounds (xp ∷ xps) s g h =
        when_ok-keeps P _ (redis.xclaim _ _ _ _) s _ (stable.claim (map (λ p. p.id) (xp ∷ xps)) s h)
          (λ msgs s₂ h₂.
            and_then-keeps P (process_all redis rt k c rounds msgs s₂) _
              (process_all-keeps rounds msgs s₂ h₂)
              (λ s₃ h₃. unless-keeps P (ltb (length (xp ∷ xps)) k.count) again s₃ h₃ g))

    pub self_reclaim-keeps :
        (pages rounds : ℕ) (s : Run W) → P s → P (self_reclaim redis rt k c pages rounds s).1
    unfolding self_reclaim
    self_reclaim-keeps zero rounds s h = h
    self_reclaim-keeps (suc pages) rounds s h =
        when_ok-keeps P _ (redis.xpending _ _) s _ (stable.pending _ s h)
          (λ xps s₁ h₁. reclaim_page-keeps _ rounds xps s₁ (self_reclaim-keeps pages rounds) h₁)

    take_new-keeps :
        (again : Run W → Exit × Run W) (rounds : ℕ) (r : Read × W) (s : Run W)
        → ((s' : Run W) → P s' → P (again s').1)
        → P (at_world r.1 s)
        → P (take_new redis rt k c again rounds r s).1
    unfolding take_new
    take_new-keeps again rounds (timed_out, w) s g h = g (at_world w s) h
    take_new-keeps again rounds (entries ms, w) s g h =
        and_then-keeps P (process_all redis rt k c rounds ms (at_world w s)) again
          (process_all-keeps rounds ms (at_world w s) h) g
    take_new-keeps again rounds (broken e, w) s g h = elim (Option-cases (rt.ctx_err w)) [
      | inl live ↦ rw (live, take_new) h
      | inr (err, cancelled) ↦ rw (cancelled, take_new) h
    ]

    run_loop-keeps :
        (fuel pages rounds : ℕ) (s : Run W) → P s → P (run_loop redis rt k c fuel pages rounds s).1
    unfolding run_loop
    run_loop-keeps zero pages rounds s h = h
    run_loop-keeps (suc fuel) pages rounds s h = elim (Option-cases (rt.ctx_err s.world)) [
      | inl live ↦
          rw (live, run_loop)
            (and_then-keeps P (self_reclaim redis rt k c pages rounds s) _
              (self_reclaim-keeps pages rounds s h)
              (λ s₁ h₁.
                take_new-keeps _ rounds (redis.xreadgroup k.name k.count k.block s₁.world) s₁
                  (run_loop-keeps fuel pages rounds) (stable.read s₁ h₁)))
      | inr (err, cancelled) ↦ rw (cancelled, run_loop) h
    ]

    ensure_group-world : (w : W) → (ensure_group redis k w).1 ≡ (redis.xgroup_create w).1
    unfolding ensure_group
    ensure_group-world w = ground arith

    pub run-keeps :
        (fuel pages rounds : ℕ) (s : Run W) → P s → P (run redis rt k c fuel pages rounds s).1
    unfolding run
    run-keeps fuel pages rounds s h =
        let created : P (at_world (ensure_group redis k s.world).1 s) =
          rw (ensure_group-world s.world) (stable.create s h) in
        elim (Option-cases (ensure_group redis k s.world).0) [
          | inl made ↦
              rw (made, run)
                (run_loop-keeps fuel pages rounds _ (
                  stable.spawn beating _
                    (stable.spawn collecting _ (stable.spawn reclaiming _ created))))
          | inr (err, failed) ↦ rw (failed, run) created
        ]
