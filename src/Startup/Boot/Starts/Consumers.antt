-- ===== src/Startup/Boot/Starts/Consumers.antt =====
-- What holds of each consumer that main starts, for any relation to its binding.
use dasher.Common.{Option, none, some, List, [], ◌∷◌, ◌≡◌, refl, inl, inr}
use mathlib.Core.Path.{subst}
use dasher.Common.Dict.{Dict}
use dasher.Config.{StreamBinding}
use dasher.Config.Load
use dasher.Config.Load.{Config, Loaded, load}
use dasher.Consume.{Consumer}
use dasher.Event.Parse.{Result, ok, fail, >>=-elim, Result-cases}
use dasher.Handler.{Handler, fail_loud}
use dasher.Handlers.{InstanceContext}
use dasher.Lookup.{Lookup}
use dasher.Memory.{Memory}
use dasher.Errors.{Error}
use dasher.Pipeline.{build_handler}
use dasher.Startup.Boot.Keeps.{registry}
use dasher.Startup.Boot.{
  emit_shared, Libraries, Started, context_of, catalog_of, build_consumers, start, start_with,
}
use dasher.Startup.{consumer_of}
use dasher.Services.Bundle
use dasher.Services.Bundle.{Services}

-- The consumers started for the bindings, in their order: one for each that the loop has got to, and
-- if the loop has left any binding without one, then main has exited with an error.
abbrev pub AreStarted : {A B : Type 0} → (A → B → Type 0) → List A → List B → Option Error → Type 0
AreStarted R [] ks halted = (ks ≡ []) × (halted ≡ none)
AreStarted R (b ∷ bs) [] halted = (e : Error) × (halted ≡ some e)
AreStarted R (b ∷ bs) (k ∷ ks) halted = R b k × AreStarted R bs ks halted

pub AreStarted-mono :
    {A B : Type 0} {R S : A → B → Type 0} (bs : List A) (ks : List B) (halted : Option Error)
    → ((b : A) (k : B) → R b k → S b k)
    → AreStarted R bs ks halted
    → AreStarted S bs ks halted
AreStarted-mono [] ks halted f h = h
AreStarted-mono (b ∷ bs) [] halted f h = h
AreStarted-mono (b ∷ bs) (k ∷ ks) halted f (r, rs) = (f b k r, AreStarted-mono bs ks halted f rs)

module _ {W K P C : Type 0} (lib : Libraries W K P C)
    (R : Config → StreamBinding → Consumer (InstanceContext P) (Memory W) → Type 0)
    (each : (cfg : Config) (b : StreamBinding) (h : Handler (InstanceContext P) (Memory W))
        (inst : InstanceContext P)
      → load lib.sys ≡ Load.ok cfg
      → R cfg b (consumer_of lib.ack lib.claim cfg b h inst fail_loud)) where
  build_consumers-AreStarted :
      (cfg : Config) (inst : InstanceContext P) (lookups : Dict (Lookup (Memory W)))
      (bs : List StreamBinding)
      → load lib.sys ≡ Load.ok cfg
      → AreStarted
          (R cfg)
          bs
          (build_consumers lib cfg inst lookups bs).0
          (build_consumers lib cfg inst lookups bs).1
  unfolding build_consumers
  build_consumers-AreStarted cfg inst lookups [] loaded = (refl, refl)
  build_consumers-AreStarted cfg inst lookups (b ∷ bs) loaded =
      elim (Result-cases (build_handler lib.numbers b (registry lib) (emit_shared lib) lookups)) [
        | inl (h, built) ↦
            rw (built, build_consumers)
              (each cfg b h inst loaded, build_consumers-AreStarted cfg inst lookups bs loaded)
        | inr (err, failed) ↦ rw (failed, build_consumers) (err, refl)
      ]

  abbrev Runs : Result (Started W P) → Type 0
  Runs (fail e) = Unit
  Runs (ok s) =
      (load lib.sys ≡ Load.ok s.config)
      × AreStarted (R s.config) s.config.inst.streams s.consumers s.halted

  start_with-Runs : (w : W) (r : Loaded Config) → load lib.sys ≡ r → Runs (start_with lib w r)
  unfolding start_with
  start_with-Runs w (Load.fail refusal) loaded = tt
  start_with-Runs w (Load.ok cfg) loaded =
      >>=-elim Runs (Bundle.new lib.sys.env lib.pgx cfg.inst.services) _ (λ e. tt)
        (λ svc.
          >>=-elim Runs (catalog_of lib cfg svc w).0 _ (λ e. tt)
            (λ lookups. (
              loaded,
              build_consumers-AreStarted cfg (context_of lib cfg svc) lookups cfg.inst.streams
                  loaded,
            )))

  pub start-AreStarted :
      (w : W) (s : Started W P)
      → start lib w ≡ ok s
      → (load lib.sys ≡ Load.ok s.config)
        × AreStarted (R s.config) s.config.inst.streams s.consumers s.halted
  unfolding start
  start-AreStarted w s started = subst Runs started (start_with-Runs w (load lib.sys) refl)
