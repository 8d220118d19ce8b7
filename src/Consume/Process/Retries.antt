-- ===== src/Consume/Process/Retries.antt =====
-- The retries of `process`: how long each waits, how loudly it is logged, and how it is counted.
use dasher.Common.{ℕ, zero, suc, ◌-◌, ◌*◌, ◌^◌, ◌≤◌, List, [], ◌∷◌, ◌≡◌, ltb, if◌then◌else◌}
use dasher.Common.Int.{ℤ, pos, ◌≤ℤ◌, ◌<ℤ◌}
use dasher.Event.{Event}
use dasher.Consume.{
  spawned, millisecond, Consumer, Runtime, Level, Deed, handled, acked, retried, ack_failed, slept,
  fatal,
}

-- The wait before the retry that follows `n` earlier ones: it doubles from 100 ms, nine times.
abbrev pub delay : ℕ → ℕ
delay n = if ltb n 9 then 100 * millisecond * 2 ^ n else 51200 * millisecond

-- What stands directly under a wait: the retry that it is for, or a failed `XACK`.
abbrev IsDue : ℕ → List Deed → Type 0
IsDue d [] = ⊥
IsDue d (retried l n b ∷ ds) = d ≡ b
IsDue d (ack_failed id ∷ ds) = d ≡ 100 * millisecond
IsDue d (handled p r ∷ ds) = ⊥
IsDue d (acked id e ∷ ds) = ⊥
IsDue d (slept t ∷ ds) = ⊥
IsDue d (spawned g ∷ ds) = ⊥
IsDue d (fatal e ∷ ds) = ⊥

-- The deeds end with the wait of the `n`-th retry; nothing is asked of `n = 0`.
abbrev Resumes : ℕ → List Deed → Type 0
Resumes zero ds = Unit
Resumes (suc n) (slept d ∷ retried l m b ∷ ds) = m ≡ suc n
Resumes (suc n) _ = ⊥

-- A retry comes after a call of the handler, and is the next after the retry before that call.
abbrev Continues : ℕ → List Deed → Type 0
Continues n (handled p r ∷ ds) = Resumes n ds
Continues n _ = ⊥

-- The level is ERROR from the `escalate`-th retry on, and WARN before.
abbrev IsLevel : Level → ℤ → ℕ → Type 0
IsLevel Level.error escalate n = escalate ≤ℤ pos n
IsLevel Level.warn escalate n = pos n <ℤ escalate

-- No wait is due: the last deed is neither a failed `XACK` nor a retry that was announced.
abbrev pub Rested : List Deed → Type 0
Rested (ack_failed id ∷ ds) = ⊥
Rested (retried l n b ∷ ds) = ⊥
Rested _ = Unit

-- The `n`-th retry of an entry waits `delay (n - 1)`, has its level, and comes right after the retry
-- `n - 1`. A retry and a failed `XACK` are each followed by their wait, and by nothing else; a wait
-- that follows a failed `XACK` lasts 100 ms.
abbrev pub WellTimed : ℤ → List Deed → Type 0
WellTimed escalate [] = Unit
WellTimed escalate (slept d ∷ ds) = IsDue d ds × WellTimed escalate ds
WellTimed escalate (retried l n b ∷ ds) =
    (1 ≤ n)
    × (b ≡ delay (n - 1))
    × IsLevel l escalate n
    × Continues (n - 1) ds
    × WellTimed escalate ds
WellTimed escalate (_ ∷ ds) = Rested ds × WellTimed escalate ds

module _ {I W : Type 0} (rt : Runtime W) (k : Consumer I W) where
  abbrev IsTimed : List Deed → Type 0
  IsTimed ds = Rested ds × WellTimed k.escalate_after ds
