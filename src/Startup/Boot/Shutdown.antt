-- ===== src/Startup/Boot/Shutdown.antt =====
-- What a handler can do once main has closed the producer.
use dasher.Common.{
  String, true, none, some, List, [], ◌∷◌, All, ◌≡◌, ◌≢◌, refl, ap, ◌∙◌, inl, inr, Bool-cases,
  String-cases,
}
use mathlib.Core.Path.{subst}
use dasher.Common.Dict.{Dict, lookup-All}
use dasher.Catalog.{build_lookup_catalog}
use dasher.Config.{StreamBinding, EnrichRuleConfig}
use dasher.Config.Load.{Config}
use dasher.Errors.{Error, poison, is_lookup_poison}
use dasher.Event.{Event}
use dasher.Event.Parse.{ok, Result-cases}
use dasher.Handler.{Handler, Outcome, returned, panicked}
use dasher.Handlers.{InstanceContext}
use dasher.Lookup.{Lookup}
use dasher.Lookup.Bind.{Numbers}
use dasher.Lookup.Runner.{EnrichRule, run}
use dasher.Memory.{Memory}
use dasher.Middleware.{enrich, enrich_error, emit_after}
use dasher.Pipeline.{base_handler, resolve_rules, with_emit, with_enrich, build_handler}
use dasher.Pipeline.Frames.{
  ok-eq, bind-ok, Silent, Asks, run_rules-same, base_handler-Silent, resolve_rules-Asks,
}
use dasher.Produce.{emit, close}
use dasher.Services.Bundle.{Services}
use dasher.Startup.Boot.Keeps.{
  registry, producer_of, Keeps, AllKeep, registry-Silent, build_entries-AllKeep,
}
use dasher.Startup.Boot.{Libraries, emit_shared, catalog_of, first_memory, shut_down}

-- A handler that never succeeds while the producer is closed.
abbrev pub Refuses : {I W : Type 0} → Handler I (Memory W) → Type 0
Refuses {I} {W} h =
    (inst : I) (evt : Event) (m : Memory W)
    → m.producer.closed ≡ true
    → (h inst evt m).0 ≢ returned none

module _ {W K P C : Type 0} (lib : Libraries W K P C) where
  emit_shared-closed :
      (stream : String) (evt : Event) (m : Memory W)
      → m.producer.closed ≡ true
      → (emit_shared lib stream evt m).0 ≢ none
  unfolding emit_shared emit
  emit_shared-closed stream evt m closed = rw (closed, emit) (λ e. cc)

  emit_after-Refuses :
      (stream : String) (h : Handler (InstanceContext P) (Memory W))
      → Silent (producer_of lib) h
      → Refuses (emit_after (emit_shared lib) stream h)
  unfolding emit_after
  emit_after-Refuses stream h silent inst evt m closed =
      step (h inst evt m).0 (h inst evt m).1 (ap (λ p. p.closed) (silent inst evt m) ∙ closed)
    where
      step :
          (r : Outcome) (m' : Memory W)
          → m'.producer.closed ≡ true
          → (elim r as (λ _. Outcome × Memory W) [
            | panicked v ↦ (panicked v, m')
            | returned herr ↦ elim herr [
              | some e ↦ (returned (some e), m')
              | none ↦ let (e, m'') = emit_shared lib stream evt m' in (returned e, m'')
            ]
          ]).0
            ≢ returned none
      step (panicked v) m' closed' = λ e. cc
      step (returned (some e)) m' closed' = λ e. cc
      step (returned none) m' closed' = λ e.
          emit_shared-closed stream evt m' closed'
            (ap (λ o. elim o [ returned x ↦ x | panicked v ↦ none ]) e)

  enrich-Refuses :
      (n : Numbers) (rules : List (EnrichRule (Memory W)))
      (h : Handler (InstanceContext P) (Memory W))
      → All (Asks (producer_of lib)) rules
      → Refuses h
      → Refuses (enrich n rules h)
  unfolding enrich run enrich_error poison
  enrich-Refuses n rules h asks refuses inst evt m closed =
      let same =
        run_rules-same n (producer_of lib) m.producer rules evt.row evt.old [] m asks refl in
      elim (Result-cases (run n rules evt.row evt.old m).0) [
        | inl (enr, found) ↦
            rw (found, enrich)
              (refuses inst (record evt { enrichment = some enr }) (run n rules evt.row evt.old m).1
                (ap (λ p. p.closed) same ∙ closed))
        | inr (e, failed) ↦ rw (failed, enrich) (errs e)
      ]
    where
      errs : (e : Error) → returned (enrich_error e) ≢ returned none
      errs e = elim (Bool-cases (is_lookup_poison e)) [
        | inl bad ↦ rw (bad, enrich_error) (λ h. cc)
        | inr fine ↦ rw (fine, enrich_error) (λ h. cc)
      ]

  with_emit-Refuses :
      (stream : String) (h : Handler (InstanceContext P) (Memory W))
      → stream ≢ ""
      → Silent (producer_of lib) h
      → Refuses (with_emit (emit_shared lib) stream h)
  unfolding with_emit
  with_emit-Refuses stream h given silent = elim (String-cases stream "") [
    | inl (empty, _) ↦ absurd (given empty)
    | inr (_, other) ↦ rw (other, with_emit) (emit_after-Refuses stream h silent)
  ]

  with_enrich-Refuses :
      (rules : List EnrichRuleConfig) (lookups : Dict (Lookup (Memory W)))
      (h built : Handler (InstanceContext P) (Memory W))
      → All (λ e. Keeps lib e.1) lookups
      → Refuses h
      → with_enrich lib.numbers rules lookups h ≡ ok built
      → Refuses built
  unfolding with_enrich
  with_enrich-Refuses [] lookups h built keep refuses e = subst Refuses (ok-eq h built e) refuses
  with_enrich-Refuses (rule ∷ rules) lookups h built keep refuses e =
      let (resolved, resolves, last) = bind-ok (resolve_rules (rule ∷ rules) lookups) _ built e in
      let asks =
        resolve_rules-Asks lookups (producer_of lib)
          (λ name l bind m found. (lookup-All (Keeps lib) lookups name l keep found) bind m)
          (rule ∷ rules) resolved resolves in
      subst Refuses (ok-eq (enrich lib.numbers resolved h) built last)
        (enrich-Refuses lib.numbers resolved h asks refuses)

  -- Once main has closed the producer and the pool, a handler that it built for a binding with a
  -- stream to emit to never returns nil: no entry that comes late is acknowledged without its event
  -- being published.
  pub shut_down-Refuses :
      (cfg : Config) (svc : Services P) (w : W) (lookups : Dict (Lookup (Memory W)))
      (b : StreamBinding) (h : Handler (InstanceContext P) (Memory W)) (inst : InstanceContext P)
      (evt : Event) (m : Memory W)
      → (catalog_of lib cfg svc w).0 ≡ ok lookups
      → build_handler lib.numbers b (registry lib) (emit_shared lib) lookups ≡ ok h
      → b.emit ≢ ""
      → (h inst evt (shut_down lib svc m)).0 ≢ returned none
  unfolding build_handler shut_down close build_lookup_catalog
  shut_down-Refuses cfg svc w lookups b h inst evt m made built emits =
      let keep =
        subst (AllKeep lib) made
          (build_entries-AllKeep lib svc.db [] cfg.inst.lookups (first_memory lib cfg svc w) tt) in
      let (base, based, enriched) = bind-ok (base_handler b (registry lib)) _ h built in
      with_enrich-Refuses b.enrich lookups (with_emit (emit_shared lib) b.emit base) h keep
        (with_emit-Refuses b.emit base emits
          (base_handler-Silent (registry lib) (producer_of lib) (registry-Silent lib) b base based))
        enriched inst evt (shut_down lib svc m) refl
