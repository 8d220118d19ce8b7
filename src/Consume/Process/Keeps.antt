-- ===== src/Consume/Process/Keeps.antt =====
-- The rule by which a property of the state of a run is kept by `process`.
use dasher.Common.{
  ℕ, zero, suc, String, ◌<>◌, Bool, true, Option, none, some, ◌∷◌, ◌≡◌, refl, arith, ◌⊎◌, inl, inr,
  Bool-cases, Option-cases, false, ◌∙◌, ◌+◌,
}
use dasher.Errors.{Error, wrapped, is_poison}
use dasher.Event.{Event, Codec}
use dasher.Handler.{Outcome, returned, panicked}
use dasher.Consume.{Consumer, Runtime, Level, ack_failed, retried, Run, Exit, exited}
use dasher.Consume.Process.{
  Message, call_ack, call_handler, pause, on_fatal, ack_loop, handle_loop, leave, process, level_of,
  next_backoff,
}

pub Outcome-cases :
    (o : Outcome)
    → ((v : String) × (o ≡ panicked v))
      ⊎ (o ≡ returned none)
      ⊎ ((e : Error) × (o ≡ returned (some e)))
Outcome-cases (panicked v) = inl (v, refl)
Outcome-cases (returned none) = inr (inl refl)
Outcome-cases (returned (some e)) = inr (inr (e, refl))

module _ {I W : Type 0} (rt : Runtime W) (k : Consumer I W) where
  -- `p` is to be kept, and `q j` is what holds of it once the handler has succeeded for the entry `j`.
  pub record Steps (p : Run W → Bool) (q : String → Run W → Bool) : Type 0 where
    pub of_success : (j : String) (s : Run W) → q j s ≡ true → p s ≡ true
    pub ack : (j : String) (s : Run W) → q j s ≡ true → q j (call_ack rt k j s).1 ≡ true
    pub failed :
        (j l : String) (s : Run W)
        → q j s ≡ true
        → q j (record s { deeds = ack_failed l ∷ s.deeds }) ≡ true
    pub ack_pause : (j : String) (d : ℕ) (s : Run W) → q j s ≡ true → q j (pause rt k d s).1 ≡ true
    pub handler : (evt : Event) (s : Run W) → p s ≡ true → p (call_handler rt k evt s).1 ≡ true
    pub success :
        (j : String) (evt : Event) (s : Run W)
        → s.in_flight ≡ some j
        → p s ≡ true
        → (call_handler rt k evt s).0 ≡ returned none
        → q j (call_handler rt k evt s).1 ≡ true
    pub retry :
        (l : Level) (n b : ℕ) (s : Run W)
        → p s ≡ true
        → p (record s { deeds = retried l n b ∷ s.deeds }) ≡ true
    pub wait : (d : ℕ) (s : Run W) → p s ≡ true → p (pause rt k d s).1 ≡ true
    pub fatal : (e : Error) (s : Run W) → p s ≡ true → p (on_fatal rt k e s).1 ≡ true
    pub flight :
        (o : Option String) (s : Run W) → p s ≡ true → p (record s { in_flight = o }) ≡ true

  in_flight-pause : (d : ℕ) (s : Run W) → (pause rt k d s).1.in_flight ≡ s.in_flight
  unfolding pause
  in_flight-pause d s = refl

  in_flight-call_handler :
      (evt : Event) (s : Run W) → (call_handler rt k evt s).1.in_flight ≡ s.in_flight
  unfolding call_handler
  in_flight-call_handler evt s = refl

  module _ (p : Run W → Bool) (q : String → Run W → Bool) (steps : Steps p q) where
    ack_loop-keeps :
        (fuel : ℕ) (j : String) (s : Run W) → q j s ≡ true → q j (ack_loop rt k fuel j s).1 ≡ true
    unfolding ack_loop
    ack_loop-keeps zero j s h = h
    ack_loop-keeps (suc fuel) j s h =
        let h₁ = steps.ack j s h in
        grind (arith, steps.failed j, steps.ack_pause j, ack_loop-keeps fuel j)

    handle_loop-keeps :
        (fuel : ℕ) (j : String) (evt : Event) (backoff retries : ℕ) (s : Run W)
        → s.in_flight ≡ some j
        → p s ≡ true
        → p (handle_loop rt k fuel j evt backoff retries s).1 ≡ true
    unfolding handle_loop
    handle_loop-keeps zero j evt backoff retries s f h = h
    handle_loop-keeps (suc fuel) j evt backoff retries s f h =
        let s₁ = (call_handler rt k evt s).1 in
        let h₁ : p s₁ ≡ true = steps.handler evt s h in
        elim (Outcome-cases (call_handler rt k evt s).0) [
          | inl (v, thrown_) ↦ rw (thrown_, handle_loop) h₁
          | inr (inl done) ↦
              rw (done, handle_loop)
                (steps.of_success j _ (ack_loop-keeps fuel j s₁ (steps.success j evt s f h done)))
          | inr (inr (e, failed)) ↦
              rw (failed, handle_loop)
                (again e s₁ h₁ (in_flight-call_handler evt s ∙ f)
                  (handle_loop-keeps fuel j evt (next_backoff backoff) (retries + 1)))
        ]
      where
        n : ℕ
        n = retries + 1

        noted : Run W → Run W
        noted s₁ = record s₁ { deeds = retried (level_of k.escalate_after n) n backoff ∷ s₁.deeds }

        waited : Run W → Option Error × Run W
        waited s₁ = pause rt k backoff (noted s₁)

        -- Behind a handler that returned an error.
        again :
            (e : Error) (s₁ : Run W)
            → p s₁ ≡ true
            → s₁.in_flight ≡ some j
            → ((s₂ : Run W)
                → s₂.in_flight ≡ some j
                → p s₂ ≡ true
                → p (handle_loop rt k fuel j evt (next_backoff backoff) n s₂).1 ≡ true)
            → p
                (elim (is_poison e) as (λ _. Exit × Run W) [
                  | true ↦ on_fatal rt k (wrapped ("poison " <> j) e) s₁
                  | false ↦ elim (rt.ctx_err s₁.world) as (λ _. Exit × Run W) [
                    | some gone ↦ (exited (some gone), s₁)
                    | none ↦ elim (waited s₁).0 as (λ _. Exit × Run W) [
                      | some gone ↦ (exited (some gone), (waited s₁).1)
                      | none ↦ handle_loop rt k fuel j evt (next_backoff backoff) n (waited s₁).1
                    ]
                  ]
                ]).1
              ≡ true
        again e s₁ h₁ f₁ on_retry =
            let kept : p (waited s₁).1 ≡ true =
              steps.wait backoff (noted s₁) (steps.retry _ n backoff s₁ h₁) in
            let f₂ = in_flight-pause backoff (noted s₁) ∙ f₁ in
            let rest = on_retry (waited s₁).1 f₂ kept in
            elim (Bool-cases (is_poison e)) [
              | inl bad ↦ rw bad (steps.fatal _ s₁ h₁)
              | inr soft ↦ elim (Option-cases (rt.ctx_err s₁.world)) [
                | inr (gone, e₁) ↦ rw (soft, e₁) h₁
                | inl live ↦ elim (Option-cases (waited s₁).0) [
                  | inr (gone, e₂) ↦ rw (soft, live, e₂) kept
                  | inl on ↦ rw (soft, live, on) rest
                ]
              ]
            ]

    pub process-keeps :
        (c : Codec) (fuel : ℕ) (m : Message) (s : Run W)
        → p s ≡ true
        → p (process rt k c fuel m s).1 ≡ true
    unfolding process leave
    process-keeps c fuel m s h =
        let h₁ = steps.flight (some m.id) s h in
        grind (arith, steps.fatal, steps.flight, handle_loop-keeps fuel m.id)
