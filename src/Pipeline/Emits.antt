-- ===== src/Pipeline/Emits.antt =====
-- What the handler of a binding emits.
use dasher.Common.{
  String, ◌==◌, Bool, true, false, none, some, List, [], ◌∷◌, ◌≡◌, refl, sym, ◌∙◌, arith, All,
  Bool-cases, inl, inr, ◌⊎◌,
}
use mathlib.Core.Path.{subst}
use dasher.Common.Dict.{Dict, lookup}
use dasher.Config.{StreamBinding, EnrichRuleConfig}
use dasher.Consume.Process.Keeps.{Outcome-cases}
use dasher.Errors.{Error, poison}
use dasher.Event.{Event}
use dasher.Event.Parse.{Result-cases, ok}
use dasher.Handler.{Handler, Emitter, Outcome, returned, panicked}
use dasher.Lookup.{Lookup}
use dasher.Lookup.Bind.{Numbers}
use dasher.Lookup.Runner.{EnrichRule, run}
use dasher.Middleware.{enrich, enrich_error, emit_after}
use dasher.Pipeline.Frames.{
  ok-eq, bind-ok, Silent, Asks, run_rules-same, base_handler-Silent, resolve_rules-Asks,
}
use dasher.Pipeline.{base_handler, resolve_rules, with_emit, with_enrich, build_handler}
use dasher.Value.{Row, Table}

abbrev pub succeeded : Outcome → Bool
succeeded (returned none) = true
succeeded (returned (some e)) = false
succeeded (panicked v) = false

-- Only the producer adds to what `kept` lists: neither the lookups nor the registered handlers do.
pub record TracksEmits {I W A : Type 0} (reg : Dict (Handler I W)) (lookups : Dict (Lookup W))
    (kept : W → A) : Type 0 where
  pub lookup_same :
      (name : String) (l : Lookup W) (bind : Row) (w : W)
      → lookup name lookups ≡ some l
      → kept (l bind w).1 ≡ kept w
  pub handler_same :
      (name : String) (h : Handler I W) (inst : I) (evt : Event) (w : W)
      → lookup name reg ≡ some h
      → kept (h inst evt w).1 ≡ kept w

-- How a call ends: with one call of `Emit` from `w'`, whose error is the outcome, or in `w'` itself,
-- and then there is no stream to emit to, or the call has not succeeded.
abbrev pub Ends : {W : Type 0} → Emitter W → String → Event → W → Outcome × W → Type 0
Ends emit stream evt w' r =
    (((stream == "") ≡ false) × (r ≡ (returned (emit stream evt w').0, (emit stream evt w').1)))
    ⊎ ((r.1 ≡ w') × (((stream == "") ≡ true) ⊎ (succeeded r.0 ≡ false)))

module _ {I W A : Type 0} (emit : Emitter W) (kept : W → A) where
  -- The event goes out as it came, apart from its enrichment.
  abbrev Sends : String → Handler I W → Type 0
  Sends stream h =
      (inst : I) (evt : Event) (w : W)
      → (w' : W) × (enr : Table) × (kept w' ≡ kept w)
        × Ends emit stream (record evt { enrichment = enr }) w' (h inst evt w)

enrich_error-fails : (e : Error) → succeeded (returned (enrich_error e)) ≡ false
unfolding enrich_error poison
enrich_error-fails e = ground arith

module _ {I W A : Type 0} (reg : Dict (Handler I W)) (emit : Emitter W) (lookups : Dict (Lookup W))
    (kept : W → A) (t : TracksEmits reg lookups kept) where
  emit_after-Ends :
      (stream : String) (h : Handler I W) (inst : I) (evt : Event) (w : W)
      → (stream == "") ≡ false
      → Ends emit stream evt (h inst evt w).1 (emit_after emit stream h inst evt w)
  unfolding emit_after
  emit_after-Ends stream h inst evt w given = elim (Outcome-cases (h inst evt w).0) [
    | inl (v, thrown) ↦ rw (thrown, emit_after) (inr (refl, inr refl))
    | inr (inl done) ↦ rw (done, emit_after) (inl (given, refl))
    | inr (inr (e, failed)) ↦ rw (failed, emit_after) (inr (refl, inr refl))
  ]

  with_emit-Sends :
      (stream : String) (h : Handler I W)
      → Silent kept h
      → Sends emit kept stream (with_emit emit stream h)
  unfolding with_emit emit_after
  with_emit-Sends stream h silent inst evt w = (
    (h inst evt w).1,
    evt.enrichment,
    silent inst evt w,
    elim (Bool-cases (stream == "")) [
      | inl empty ↦ rw (empty, with_emit) (inr (refl, inl refl))
      | inr given ↦
          let chosen : with_emit emit stream h ≡ emit_after emit stream h =
            rw (given, with_emit) refl in
          subst (λ (g : Handler I W). Ends emit stream evt (h inst evt w).1 (g inst evt w))
            (sym chosen) (emit_after-Ends stream h inst evt w given)
    ],
  )

  enrich-Sends :
      (n : Numbers) (stream : String) (rules : List (EnrichRule W)) (h : Handler I W)
      → All (Asks kept) rules
      → Sends emit kept stream h
      → Sends emit kept stream (enrich n rules h)
  unfolding enrich run
  enrich-Sends n stream rules h a sends inst evt w =
      let same = run_rules-same n kept (kept w) rules evt.row evt.old [] w a refl in
      let w₁ = (run n rules evt.row evt.old w).1 in
      elim (Result-cases (run n rules evt.row evt.old w).0) [
        | inl (enr, found) ↦
            let (w', sent, same', ends) = sends inst (record evt { enrichment = some enr }) w₁ in
            (w', sent, same' ∙ same, rw (found, enrich) ends)
        | inr (e, failed) ↦
            (w₁, evt.enrichment, same, rw (failed, enrich) (inr (refl, inr (enrich_error-fails e))))
      ]

  with_enrich-Sends :
      (n : Numbers) (stream : String) (rules : List EnrichRuleConfig) (h built : Handler I W)
      → Sends emit kept stream h
      → with_enrich n rules lookups h ≡ ok built
      → Sends emit kept stream built
  unfolding with_enrich
  with_enrich-Sends n stream [] h built sends e =
      subst (Sends emit kept stream) (ok-eq h built e) sends
  with_enrich-Sends n stream (rule ∷ rules) h built sends e =
      let (resolved, resolves, last) = bind-ok (resolve_rules (rule ∷ rules) lookups) _ built e in
      subst (Sends emit kept stream) (ok-eq (enrich n resolved h) built last) (
        enrich-Sends n stream resolved h
          (resolve_rules-Asks lookups kept t.lookup_same (rule ∷ rules) resolved resolves) sends)

  -- A call of the handler that `buildHandler` composes for a binding leaves whatever only the
  -- producer changes as it was, up to a world `w'`. From there it calls `Emit` exactly once, to the
  -- stream that the binding names and with the event as it came apart from its enrichment, and its
  -- outcome is the error of that call, or nil. Or it ends in `w'` without a call of `Emit`; then
  -- the binding names no stream, or the outcome is an error or a panic.
  pub build_handler-emits :
      (n : Numbers) (b : StreamBinding) (h : Handler I W) (inst : I) (evt : Event) (w : W)
      → build_handler n b reg emit lookups ≡ ok h
      → (w' : W) × (enr : Table) × (kept w' ≡ kept w)
        × Ends emit b.emit (record evt { enrichment = enr }) w' (h inst evt w)
  unfolding build_handler
  build_handler-emits n b h inst evt w e =
      let (base, based, built) = bind-ok (base_handler b reg) _ h e in
      with_enrich-Sends n b.emit b.enrich (with_emit emit b.emit base) h
        (with_emit-Sends b.emit base (base_handler-Silent reg kept t.handler_same b base based))
        built inst evt w
