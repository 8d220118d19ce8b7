-- ===== src/Services/Internal.antt =====
-- InternalClient of services.go.
use dasher.Common.{String, ◌<>◌, none, some, [], ◌∷◌}
use dasher.Event.Parse.{Result, fail}
use dasher.Handler.{Action}
use dasher.Services.{Response, Http}
use dasher.Services.Url.{join_url}

pub record InternalClient : Type 0 where
  pub base_url : String
  pub token : String

-- `Do`, with the request's body as a text.
unfoldable pub internal_do :
    {W : Type 0} → Http W → InternalClient → String → String → String → Action W (Result Response)
unfolding join_url
internal_do http c method path body w =
    let url = join_url c.base_url path in
    elim (http.refuse method url) [
      | some e ↦ (fail e, w)
      | none ↦
          http.send
            (record {
              method = method;
              url = url;
              headers = ("Authorization", "Bearer " <> c.token) ∷ [];
              body = body;
            })
            w
    ]
