-- ===== src/Handlers/Verdicts.antt =====
-- What a forwarded event comes to.
use dasher.Common.{String, true, false, Option, none, some, ◌≡◌, ◌⊎◌}
use dasher.Common.Int.{pos, ◌≤ℤ◌, ◌<ℤ◌}
use dasher.Errors.{is_poison}
use dasher.Event.{Event}
use dasher.Event.Parse.{Result, ok, fail}
use dasher.Handler.{Outcome, returned, panicked}
use dasher.Handlers.{InstanceContext, HttpDoer, Service, Forwarding, select_client}
use dasher.Memory.{Memory}
use dasher.Services.Retryable.{IsRetryable}
use dasher.Services.{Http, Response}
use dasher.Services.Gateway.{Jwt}

-- The requests of a client, if there is one, fail with errors that are not poison.
abbrev Retries : {W : Type 0} → Option (HttpDoer (Memory W)) → Type 0
Retries none = Unit
Retries {W = W} (some do_request) =
    (method path body : String) (m : Memory W) → IsRetryable (do_request method path body m).0

module _ {W P : Type 0} (jwt : Jwt) (http : Http W) (f : Forwarding W) (inst : InstanceContext P)
    (service : Service) (evt : Event) (m : Memory W) where
  -- The service is configured, the event is marshalled, and the request for it comes to `r`.
  pub data Answered (r : Result Response) : Type 0 where
    answered :
        (do_request : HttpDoer (Memory W)) (body : String)
        → select_client jwt http f inst service ≡ some do_request
        → f.marshal evt ≡ some body
        → (do_request "POST" "/events" body m).0 ≡ r
        → Answered r

  abbrev pub Verdict : Outcome → Type 0
  Verdict (panicked v) = ⊥
  Verdict (returned none) =
      (select_client jwt http f inst service ≡ none)
      ⊎ ((resp : Response) × Answered (ok resp) × (resp.status_code <ℤ pos 400))
  Verdict (returned (some e)) =
      ((is_poison e ≡ true)
        × ((f.marshal evt ≡ none)
            ⊎ ((resp : Response) × Answered (ok resp)
                × (pos 400 ≤ℤ resp.status_code)
                × (resp.status_code <ℤ pos 500))))
      ⊎ ((is_poison e ≡ false)
          × (Answered (fail e)
              ⊎ ((resp : Response) × Answered (ok resp) × (pos 500 ≤ℤ resp.status_code))))
