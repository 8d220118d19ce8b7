-- ===== src/Pipeline/Frames.antt =====
-- What the parts of a handler leave as it was: a function of the world that no lookup and no handler
-- of the registry changes.
use dasher.Common.{
  String, ◌==◌, some, List, [], ◌∷◌, ◌≡◌, refl, ◌∙◌, ap, All, Option-cases, Bool-cases, inl, inr,
}
use dasher.Common.Dict.{Dict, lookup}
use dasher.Config.{StreamBinding, EnrichRuleConfig}
use dasher.Event.{Event}
use dasher.Event.Parse.{Result, ok, fail, ◌>>=◌}
use dasher.Handler.{Handler, Action, noop}
use dasher.Lookup.{Lookup}
use dasher.Lookup.Bind.{Numbers}
use dasher.Lookup.Runner.{EnrichRule, apply_rows, then_apply, bind_values, run_rules}
use dasher.Pipeline.{base_handler, resolve_rules}
use dasher.Value.{Row, Table}

pub ok-eq : {A : Type 0} (a b : A) → ok a ≡ ok b → a ≡ b
ok-eq {A} a b e = ap value e
  where
    value : Result A → A
    value (ok x) = x
    value (fail err) = a

pub bind-ok :
    {A B : Type 0} (m : Result A) (f : A → Result B) (b : B)
    → (m >>= f) ≡ ok b
    → (a : A) × (m ≡ ok a) × (f a ≡ ok b)
bind-ok (ok a) f b h = (a, refl, h)
bind-ok (fail e) f b h = cc

abbrev pub Silent : {I W A : Type 0} → (W → A) → Handler I W → Type 0
Silent {I} {W} kept h = (inst : I) (evt : Event) (w : W) → kept (h inst evt w).1 ≡ kept w

abbrev pub Asks : {W A : Type 0} → (W → A) → EnrichRule W → Type 0
Asks {W} kept rule = (bind : Row) (w : W) → kept (rule.resolve bind w).1 ≡ kept w

then_apply-same :
    {W A : Type 0} (kept : W → A) (log : A) (again : Row → Action W (Result Row))
    (rule : EnrichRule W) (result : Row) (r : Result (List Row) × W)
    → kept r.1 ≡ log
    → ((result' : Row) (w : W) → kept w ≡ log → kept (again result' w).1 ≡ log)
    → kept (then_apply again rule result r).1 ≡ log
unfolding then_apply apply_rows
then_apply-same kept log again rule result (fail e, w) h k = h
then_apply-same kept log again rule result (ok [], w) h k = h
then_apply-same kept log again rule result (ok (x ∷ []), w) h k = k _ w h
then_apply-same kept log again rule result (ok (x ∷ y ∷ rows), w) h k = h

pub run_rules-same :
    {W A : Type 0} (n : Numbers) (kept : W → A) (log : A) (rules : List (EnrichRule W))
    (row old : Table) (result : Row) (w : W)
    → All (Asks kept) rules
    → kept w ≡ log
    → kept (run_rules n rules row old result w).1 ≡ log
unfolding run_rules
run_rules-same n kept log [] row old result w a h = h
run_rules-same n kept log (rule ∷ rules) row old result w (asks, a) h =
    elim (Option-cases (bind_values n rule.bind row old [])) [
      | inl missing ↦ rw (missing, run_rules) h
      | inr (bind, bound) ↦
          rw (bound, run_rules)
            (then_apply-same kept log (run_rules n rules row old) rule result (rule.resolve bind w)
              (asks bind w ∙ h)
              (λ result' w' h'. run_rules-same n kept log rules row old result' w' a h'))
    ]

module _ {I W A : Type 0} (reg : Dict (Handler I W)) (kept : W → A)
    (handler_same : (name : String) (h : Handler I W) (inst : I) (evt : Event) (w : W)
      → lookup name reg ≡ some h
      → kept (h inst evt w).1 ≡ kept w) where
  pub base_handler-Silent :
      (b : StreamBinding) (h : Handler I W) → base_handler b reg ≡ ok h → Silent kept h
  unfolding base_handler noop
  base_handler-Silent b h e inst evt w = elim (Bool-cases (b.handler == "")) [
    | inl empty ↦ rw (← ok-eq noop h (rw (empty, base_handler) at e)) refl
    | inr given ↦ elim (Option-cases (lookup b.handler reg)) [
      | inl unknown ↦ absurd (cc (rw (given, unknown, base_handler) at e))
      | inr (g, found) ↦
          rw (← ok-eq g h (rw (given, found, base_handler) at e))
            (handler_same b.handler g inst evt w found)
    ]
  ]

module _ {W A : Type 0} (lookups : Dict (Lookup W)) (kept : W → A)
    (lookup_same : (name : String) (l : Lookup W) (bind : Row) (w : W)
      → lookup name lookups ≡ some l
      → kept (l bind w).1 ≡ kept w) where
  pub resolve_rules-Asks :
      (rules : List EnrichRuleConfig) (resolved : List (EnrichRule W))
      → resolve_rules rules lookups ≡ ok resolved
      → All (Asks kept) resolved
  unfolding resolve_rules
  resolve_rules-Asks [] resolved e = rw (← ok-eq [] resolved e) tt
  resolve_rules-Asks (rule ∷ rules) resolved e = elim (Option-cases (lookup rule.lookup lookups)) [
    | inl unknown ↦ absurd (cc (rw (unknown, resolve_rules) at e))
    | inr (l, found) ↦
        let (rest, resolves, last) =
          bind-ok (resolve_rules rules lookups) _ resolved (rw (found, resolve_rules) at e) in
        rw (← ok-eq _ resolved last)
          (λ bind w. lookup_same rule.lookup l bind w found, resolve_rules-Asks rules rest resolves)
  ]
