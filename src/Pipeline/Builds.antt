-- ===== src/Pipeline/Builds.antt =====
-- When buildHandler builds the handler of a binding.
use dasher.Common.{
  none, List, [], ◌∷◌, All, ◌≡◌, ◌≢◌, ◌↔◌, ◌⊎◌, refl, inl, inr, String-cases, Option-cases,
}
use dasher.Common.Dict.{Dict, lookup}
use dasher.Config.{StreamBinding, EnrichRuleConfig}
use dasher.Event.Parse.{Succeeds, Result, ok, fail, ◌>>=◌}
use dasher.Handler.{Handler, Emitter}
use dasher.Lookup.{Lookup}
use dasher.Lookup.Bind.{Numbers}
use dasher.Pipeline.{base_handler, resolve_rules, with_emit, with_enrich, build_handler}

pub >>=-Succeeds :
    {X Y : Type 0} (r : Result X) (rest : X → Result Y)
    → Succeeds r
    → ((x : X) → Succeeds (rest x))
    → Succeeds (r >>= rest)
>>=-Succeeds (ok x) rest h k = k x
>>=-Succeeds (fail e) rest h k = h

pub Succeeds->>= :
    {X Y : Type 0} (r : Result X) (rest : X → Result Y) → Succeeds (r >>= rest) → Succeeds r
Succeeds->>= (ok x) rest h = tt
Succeeds->>= (fail e) rest h = h

-- Two results whose values are joined.
pub >>=-both :
    {X Y Z : Type 0} (r : Result X) (s : Result Y) (f : X → Y → Z)
    → Succeeds (r >>= λ x. s >>= λ y. ok (f x y)) ↔ (Succeeds r × Succeeds s)
>>=-both (fail e) s f = (λ h. absurd h, λ (h, _). h)
>>=-both (ok x) (fail e) f = (λ h. absurd h, λ (_, h). h)
>>=-both (ok x) (ok y) f = (λ _. (tt, tt), λ _. tt)

module _ {I W : Type 0} (reg : Dict (Handler I W)) where
  -- A binding has no handler of its own, or one that the registry has.
  abbrev pub IsKnown : StreamBinding → Type 0
  IsKnown b = (b.handler ≡ "") ⊎ (lookup b.handler reg ≢ none)

  resolve_rules-Succeeds :
      (rules : List EnrichRuleConfig) (lookups : Dict (Lookup W))
      → All (λ r. lookup r.lookup lookups ≢ none) rules
      → Succeeds (resolve_rules rules lookups)
  unfolding resolve_rules
  resolve_rules-Succeeds [] lookups h = tt
  resolve_rules-Succeeds (r ∷ rules) lookups (here, h) =
      elim (Option-cases (lookup r.lookup lookups)) [
        | inl missing ↦ absurd (here missing)
        | inr (l, found) ↦
            rw (found, resolve_rules)
              (>>=-Succeeds _ _ (resolve_rules-Succeeds rules lookups h) (λ rest. tt))
      ]

  base_handler_iff : (b : StreamBinding) → Succeeds (base_handler b reg) ↔ IsKnown b
  unfolding base_handler
  base_handler_iff b = elim (String-cases b.handler "") [
    | inl (empty, unnamed) ↦ rw (unnamed, base_handler) (λ _. inl empty, λ _. tt)
    | inr (given, named) ↦ elim (Option-cases (lookup b.handler reg)) [
      | inl missing ↦
          rw (named, missing, base_handler)
            (
              λ h. absurd h,
              λ known. elim known [ inl empty ↦ given empty | inr there ↦ there refl ],
            )
      | inr (h, found) ↦ rw (named, found, base_handler) (λ _. inr (λ e. cc), λ _. tt)
    ]
  ]

  with_enrich-Succeeds :
      (n : Numbers) (rules : List EnrichRuleConfig) (lookups : Dict (Lookup W)) (h : Handler I W)
      → All (λ r. lookup r.lookup lookups ≢ none) rules
      → Succeeds (with_enrich n rules lookups h)
  unfolding with_enrich
  with_enrich-Succeeds n [] lookups h found = tt
  with_enrich-Succeeds n (r ∷ rules) lookups h found =
      >>=-Succeeds _ _ (resolve_rules-Succeeds (r ∷ rules) lookups found) (λ rest. tt)

  pub build_handler_iff :
      (n : Numbers) (b : StreamBinding) (emit : Emitter W) (lookups : Dict (Lookup W))
      → All (λ r. lookup r.lookup lookups ≢ none) b.enrich
      → Succeeds (build_handler n b reg emit lookups) ↔ IsKnown b
  unfolding build_handler
  build_handler_iff n b emit lookups found = (
    λ h. (base_handler_iff b).0 (Succeeds->>= (base_handler b reg) _ h),
    λ known.
        >>=-Succeeds _ _ ((base_handler_iff b).1 known)
          (λ base. with_enrich-Succeeds n b.enrich lookups (with_emit emit b.emit base) found),
  )
