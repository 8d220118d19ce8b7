-- ===== src/Handlers.antt =====
-- Forward and selectClient of dasher/internal/handlers/handlers.go, the Registry of
-- dasher/internal/registry/registry.go, and InstanceContext of dasher/dasher.go.
pub mod Verdicts
use dasher.Common.{String, ◌==◌, Option, none, some, List, [], ◌∷◌, if◌then◌else◌}
use dasher.Common.Dict.{Dict}
use dasher.Common.Dict
use dasher.Common.Int.{ℤ, pos, leb_ℤ}
use dasher.Config.{InstanceConfig}
use dasher.Errors.{Error, plain, wrapped, poison}
use dasher.Event.{Event}
use dasher.Event.Parse.{Result, ok, fail}
use dasher.Handler.{Action, Handler, Outcome, returned}
use dasher.Memory.{Memory}
use dasher.Services.{Http, Response}
use dasher.Services.Bundle.{Services}
use dasher.Services.Gateway.{Jwt, gateway_do}
use dasher.Services.Internal.{InternalClient, internal_do}

pub record InstanceContext (P : Type 0) : Type 0 where
  pub id : String
  pub config : InstanceConfig
  pub services : Services P

-- `Do(ctx, method, path, body)` of a client.
abbrev pub HttpDoer : Type 0 → Type 0
HttpDoer W = String → String → String → Action W (Result Response)

pub data Service : Type 0 where
  service_internal service_gateway : Service

-- `json.Marshal` of an event, and the clock.
pub record Forwarding (W : Type 0) : Type 0 where
  pub marshal : Event → Option String
  pub now : W → ℤ

-- What `Forward` makes of the answer.
unfoldable pub verdict_on : Result Response → Option Error
unfolding poison
verdict_on (fail e) = some e
verdict_on (ok resp) =
    if leb_ℤ (pos 500) resp.status_code
    then some (plain "service")
    else if leb_ℤ (pos 400) resp.status_code
    then poison (some (plain "service rejected event"))
    else none

unfoldable pub internal_doer : {W : Type 0} → Http W → InternalClient → HttpDoer (Memory W)
unfolding internal_do
internal_doer http c method path body m =
    let (r, w) = internal_do http c method path body m.outside in (r, record m { outside = w })

module _ {W : Type 0} (jwt : Jwt) (http : Http W) (f : Forwarding W) where
  -- The gateway client is the shared one.
  unfoldable pub gateway_doer : HttpDoer (Memory W)
  unfolding gateway_do
  gateway_doer method path body m =
      let ((r, c), w) =
        gateway_do jwt http (f.now m.outside) m.gateway method path body m.outside in
      (r, record m { outside = w; gateway = c })

  unfoldable pub select_client :
      {P : Type 0} → InstanceContext P → Service → Option (HttpDoer (Memory W))
  unfolding internal_doer gateway_doer
  select_client inst service_internal = elim inst.services.internal [
    | none ↦ none
    | some c ↦ some (internal_doer http c)
  ]
  select_client inst service_gateway = elim inst.services.gateway [
    | none ↦ none
    | some _ ↦ some gateway_doer
  ]

  unfoldable pub forward : {P : Type 0} → Service → Handler (InstanceContext P) (Memory W)
  unfolding select_client verdict_on poison
  forward service inst evt m = elim (select_client inst service) [
    | none ↦ (returned none, m)
    | some do_request ↦ elim (f.marshal evt) [
      | none ↦ (returned (poison (some (wrapped "marshal event" (plain "json")))), m)
      | some body ↦
          let (r, m') = do_request "POST" "/events" body m in (returned (verdict_on r), m')
    ]
  ]

  -- `registry.Default()`; `Registry.Lookup` is `lookup` on it.
  unfoldable pub default_registry : {P : Type 0} → Dict (Handler (InstanceContext P) (Memory W))
  unfolding forward
  default_registry =
      let internal = forward service_internal in
      let gateway = forward service_gateway in
      ("order-sync@v1", internal)
      ∷ ("order-sync@v2", internal)
      ∷ ("product-sync", internal)
      ∷ ("billing-sync", internal)
      ∷ ("gateway-sync", gateway)
      ∷ []
