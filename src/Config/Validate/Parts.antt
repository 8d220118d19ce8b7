-- ===== src/Config/Validate/Parts.antt =====
-- What each check of `validateInstance` accepts.
use dasher.Common.{
  Bool, some, String, ◌==◌, eq_iff, true, false, not, ◌&&◌, ◌||◌, Option, none, List, [], ◌∷◌, any,
  All, ◌≡◌, ◌≢◌, ◌↔◌, ◌⊎◌, inl, inr, refl, arith, String-cases,
}
use dasher.Common.Dict.{Dict}
use dasher.Common.Int.{ℤ}
use dasher.Config.{
  LookupSpecRaw, EnrichRuleConfig, StreamBinding, GatewayServiceConfig, InstanceConfig, ConfigError,
  Environment, resolve_key, scope_or_default,
}
use dasher.Config.Cycles.{Walk, Marks, finished, cycle_at, out_of_fuel, detect_emit_cycles}
use dasher.Config.Cycles.Emissions.{Emits, emit_graph_iff}
use dasher.Config.Cycles.Search.{detect_emit_cycles_iff}
use dasher.Config.Validate.{
  Check, fail_if, ◌>>◌, for_each, is_empty, check_lookup, check_gateway, check_rule, check_binding,
  check_cycles,
}
use dasher.Ident.{match_ident}
use dasher.Config.Validate.Rules.{
  IsGoodLookup, IsGoodGateway, IsGoodRule, IsGoodScope, IsGoodBinding,
}

-- Two checks in a row pass exactly where both do.
pub >>_iff : (a b : Check) → ((a >> b) ≡ none) ↔ ((a ≡ none) × (b ≡ none))
>>_iff none b = (λ e. (refl, e), λ p. p.1)
>>_iff (some err) b = (λ e. cc, λ p. cc)

pub fail_if_iff : (b : Bool) (e : ConfigError) → (fail_if b e ≡ none) ↔ (b ≡ false)
fail_if_iff true e = (λ h. cc, λ h. cc)
fail_if_iff false e = (λ h. refl, λ h. refl)

module _ (env : Environment) (parse_duration : String → Option ℤ) where
  pub for_each_iff :
      {A : Type 0} (P : A → Type 0) (f : A → Check) (xs : List A)
      → ((x : A) → (f x ≡ none) ↔ P x)
      → (for_each xs f ≡ none) ↔ All P xs
  for_each_iff P f [] h = (λ _. tt, λ _. refl)
  for_each_iff P f (x ∷ xs) h = ground (arith, h x, for_each_iff P f xs h)

  pub check_lookup_iff :
      (e : String × LookupSpecRaw)
      → (check_lookup env parse_duration e ≡ none) ↔ IsGoodLookup env parse_duration e
  unfolding check_lookup
  check_lookup_iff e = ground (arith, eq_iff e.1.type_name "sql", eq_iff e.1.ttl "")

  pub check_gateway_iff :
      (g : GatewayServiceConfig)
      → (check_gateway env parse_duration g ≡ none) ↔ IsGoodGateway env parse_duration g
  unfolding check_gateway
  check_gateway_iff g = ground (
    arith,
    eq_iff g.url_env "",
    eq_iff g.app_instance_code_env "",
    eq_iff g.api_key_env "",
    eq_iff (env g.url_env) "",
    eq_iff (env g.app_instance_code_env) "",
    eq_iff (env g.api_key_env) "",
  )

  pub check_rule_iff :
      (lookups : Dict LookupSpecRaw) (r : EnrichRuleConfig)
      → (check_rule env parse_duration lookups r ≡ none) ↔ IsGoodRule env parse_duration lookups r
  unfolding check_rule
  check_rule_iff lookups r = ground (
    arith,
    for_each_iff (λ b. match_ident b.1 ≡ true)
        (λ b. fail_if (not (match_ident b.1)) ConfigError.bad_bind_key) r.bind (λ b. ground arith),
  )

  pub any_iff :
      (ss : List StreamBinding)
      → (any (λ s. not (is_empty s.enrich)) ss ≡ false) ↔ All (λ s. s.enrich ≡ []) ss
  any_iff [] = (λ _. tt, λ _. refl)
  any_iff (s ∷ ss) = ground (arith, any_iff ss)

  -- The scope that a binding resolves to is one of the two exactly where its text is good.
  pub scope_iff :
      (s : String)
      → ((not (scope_or_default s == "instance") && not (scope_or_default s == "shared")) ≡ false)
        ↔ IsGoodScope env parse_duration s
  unfolding scope_or_default
  scope_iff s = elim (String-cases s "") [
    | inl (empty, _) ↦ rw empty (λ _. inl refl, λ _. refl)
    | inr (given, other) ↦
        rw (other, scope_or_default) (ground (arith, given, eq_iff s "instance", eq_iff s "shared"))
  ]

  pub resolve_key-shared : (name id : String) → resolve_key name "shared" id ≡ name
  unfolding resolve_key
  resolve_key-shared name id = refl

  pub check_binding_iff :
      (inst : InstanceConfig) (s : StreamBinding)
      → (check_binding env parse_duration inst s ≡ none) ↔ IsGoodBinding env parse_duration inst s
  unfolding check_binding
  check_binding_iff inst s =
      let key = resolve_key s.stream (scope_or_default s.scope) inst.id in
      ground (
        arith,
        eq_iff s.stream "",
        eq_iff s.handler "",
        eq_iff s.emit "",
        scope_iff s.scope,
        resolve_key-shared s.emit inst.id,
        eq_iff key (resolve_key s.emit "shared" inst.id),
        for_each_iff (IsGoodRule env parse_duration inst.lookups)
            (check_rule env parse_duration inst.lookups) s.enrich (check_rule_iff inst.lookups),
      )

  pub check_cycles_iff :
      (inst : InstanceConfig)
      → (check_cycles env parse_duration (detect_emit_cycles inst.streams inst.id) ≡ none)
        ↔ ((key : String) → ¬ Emits inst.streams inst.id key key)
  check_cycles_iff inst =
      let (ends, found, _) = detect_emit_cycles_iff inst.streams inst.id in
      (
        λ e key l.
            found.0 (walked (detect_emit_cycles inst.streams inst.id) e) key
              ((emit_graph_iff inst.streams inst.id key key).1 l),
        λ h.
            accepted (found.1 (λ key l. h key ((emit_graph_iff inst.streams inst.id key key).0 l))),
      )
    where
      walked :
          (w : Walk) → check_cycles env parse_duration w ≡ none → (m : Marks) × (w ≡ finished m)
      walked (finished m) e = (m, refl)
      walked (cycle_at n) e = cc
      walked out_of_fuel e = cc

      accepted :
          (m : Marks) × (detect_emit_cycles inst.streams inst.id ≡ finished m)
          → check_cycles env parse_duration (detect_emit_cycles inst.streams inst.id) ≡ none
      accepted (m, e) = rw e

  pub streams_iff : (ss : List StreamBinding) → (is_empty ss ≡ false) ↔ (ss ≢ [])
  streams_iff [] = ground arith
  streams_iff (s ∷ ss) = ground arith

  pub internal_iff :
      (inst : InstanceConfig)
      → ((not (inst.services.internal.url_env == "") && env inst.services.internal.url_env == "")
          ≡ false)
        ↔ ((inst.services.internal.url_env ≡ "") ⊎ (env inst.services.internal.url_env ≢ ""))
  internal_iff inst = ground (
    arith,
    eq_iff inst.services.internal.url_env "",
    eq_iff (env inst.services.internal.url_env) "",
  )

  pub database_iff :
      (inst : InstanceConfig)
      → ((any (λ s. not (is_empty s.enrich)) inst.streams
            && (inst.services.db.dsn_env == "" || env inst.services.db.dsn_env == ""))
          ≡ false)
        ↔ (All (λ s. s.enrich ≡ []) inst.streams
            ⊎ ((inst.services.db.dsn_env ≢ "") × (env inst.services.db.dsn_env ≢ "")))
  database_iff inst = ground (
    arith,
    any_iff inst.streams,
    eq_iff inst.services.db.dsn_env "",
    eq_iff (env inst.services.db.dsn_env) "",
  )
