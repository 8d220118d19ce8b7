-- ===== src/Consume/Group/Returns.antt =====
-- What `Run` returns.
use dasher.Common.{ℕ, zero, suc, none, some, ◌≢◌, Option-cases, inl, inr}
use dasher.Event.{Codec}
use dasher.Consume.{Consumer, Runtime, Run, Exit, exited, thrown, out_of_fuel}
use dasher.Consume.Group.{
  Redis, Read, and_then, at_world, take_new, entries, timed_out, broken, process_all, self_reclaim,
  run_loop, run, ensure_group,
}

and_then-ne-nil :
    {W : Type 0} (r : Exit × Run W) (f : Run W → Exit × Run W)
    → ((s : Run W) → (f s).0 ≢ exited none)
    → (and_then r f).0 ≢ exited none
and_then-ne-nil (exited none, s) f g = g s
and_then-ne-nil (exited (some e), s) f g = λ h. cc
and_then-ne-nil (thrown v, s) f g = λ h. cc
and_then-ne-nil (out_of_fuel, s) f g = λ h. cc

module _ {I W : Type 0} (redis : Redis W) (rt : Runtime W) (k : Consumer I W) (c : Codec) where
  take_new-ne-nil :
      (again : Run W → Exit × Run W) (rounds : ℕ) (r : Read × W) (s : Run W)
      → ((s' : Run W) → (again s').0 ≢ exited none)
      → (take_new redis rt k c again rounds r s).0 ≢ exited none
  unfolding take_new
  take_new-ne-nil again rounds (timed_out, w) s g = g (at_world w s)
  take_new-ne-nil again rounds (entries ms, w) s g =
      and_then-ne-nil (process_all redis rt k c rounds ms (at_world w s)) again g
  take_new-ne-nil again rounds (broken e, w) s g = elim (Option-cases (rt.ctx_err w)) [
    | inl live ↦ rw (live, take_new) (λ h. cc)
    | inr (err, gone) ↦ rw (gone, take_new) (λ h. cc)
  ]

  run_loop-ne-nil :
      (fuel pages rounds : ℕ) (s : Run W)
      → (run_loop redis rt k c fuel pages rounds s).0 ≢ exited none
  unfolding run_loop
  run_loop-ne-nil zero pages rounds s = λ h. cc
  run_loop-ne-nil (suc fuel) pages rounds s = elim (Option-cases (rt.ctx_err s.world)) [
    | inl live ↦
        rw (live, run_loop)
          (and_then-ne-nil (self_reclaim redis rt k c pages rounds s) _
            (λ s₁. take_new-ne-nil _ rounds _ s₁ (run_loop-ne-nil fuel pages rounds)))
    | inr (err, gone) ↦ rw (gone, run_loop) (λ h. cc)
  ]

  -- `Run` never returns nil: it goes on until the context is cancelled or an error ends it.
  pub run-ne-nil :
      (fuel pages rounds : ℕ) (s : Run W) → (run redis rt k c fuel pages rounds s).0 ≢ exited none
  unfolding run
  run-ne-nil fuel pages rounds s = elim (Option-cases (ensure_group redis k s.world).0) [
    | inl made ↦ rw (made, run) (run_loop-ne-nil fuel pages rounds _)
    | inr (err, failed) ↦ rw (failed, run) (λ h. cc)
  ]
