-- ===== src/Config/Validate/Rules.antt =====
-- The conditions on an instance, each as `validateInstance` means it.
use dasher.Common.{String, true, Option, none, [], All, ◌≡◌, ◌≢◌, ◌⊎◌}
use dasher.Common.Dict.{Dict, lookup}
use dasher.Common.Int.{ℤ}
use dasher.Config.{
  LookupSpecRaw, EnrichRuleConfig, StreamBinding, GatewayServiceConfig, InstanceConfig, Environment,
  resolve_key, scope_or_default,
}
use dasher.Config.Cycles.Emissions.{Emits}
use dasher.Ident.{match_ident}

module _ (env : Environment) (parse_duration : String → Option ℤ) where
  abbrev pub IsGoodLookup : String × LookupSpecRaw → Type 0
  IsGoodLookup e = (e.1.type_name ≡ "sql") × ((e.1.ttl ≡ "") ⊎ (parse_duration e.1.ttl ≢ none))

  -- A gateway is not configured, or its address and its two credentials are there.
  abbrev pub IsGoodGateway : GatewayServiceConfig → Type 0
  IsGoodGateway g =
      (g.url_env ≡ "")
      ⊎ ((env g.url_env ≢ "")
          × (g.app_instance_code_env ≢ "")
          × (g.api_key_env ≢ "")
          × (env g.app_instance_code_env ≢ "")
          × (env g.api_key_env ≢ ""))

  abbrev pub IsGoodRule : Dict LookupSpecRaw → EnrichRuleConfig → Type 0
  IsGoodRule lookups r = (lookup r.lookup lookups ≢ none) × All (λ b. match_ident b.1 ≡ true) r.bind

  abbrev pub IsGoodScope : String → Type 0
  IsGoodScope s = (s ≡ "") ⊎ ((s ≡ "instance") ⊎ (s ≡ "shared"))

  abbrev pub IsGoodBinding : InstanceConfig → StreamBinding → Type 0
  IsGoodBinding inst s =
      (s.stream ≢ "")
      × IsGoodScope s.scope
      × ((s.handler ≢ "") ⊎ (s.emit ≢ ""))
      × ((s.emit ≡ "") ⊎ (resolve_key s.stream (scope_or_default s.scope) inst.id ≢ s.emit))
      × All (IsGoodRule inst.lookups) s.enrich

  pub record IsValidInstance (inst : InstanceConfig) : Type 0 where
    pub streams : inst.streams ≢ []
    pub lookups : All IsGoodLookup inst.lookups
    pub internal : (inst.services.internal.url_env ≡ "") ⊎ (env inst.services.internal.url_env ≢ "")
    pub gateway : IsGoodGateway inst.services.gateway
    pub database :
        All (λ s. s.enrich ≡ []) inst.streams
        ⊎ ((inst.services.db.dsn_env ≢ "") × (env inst.services.db.dsn_env ≢ ""))
    pub bindings : All (IsGoodBinding inst) inst.streams
    -- Of several bindings that consume one key, the last that emits counts.
    pub acyclic : (key : String) → ¬ Emits inst.streams inst.id key key
