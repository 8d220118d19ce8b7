-- ===== src/Services.antt =====
-- The services of an instance, dasher/internal/services: the HTTP client of the internal service,
-- that of the gateway, and the database pool. `net/http` is a parameter over the world.
pub mod Url
pub mod Internal
pub mod Gateway
pub mod Bundle
pub mod Retryable
use dasher.Common.{String, Option}
use dasher.Common.Dict.{Dict}
use dasher.Common.Int.{ℤ}
use dasher.Errors.{Error}
use dasher.Event.Parse.{Result}
use dasher.Handler.{Action}

-- A request as `http.NewRequestWithContext` makes it, with the headers that the code sets.
pub record Request : Type 0 where
  pub method : String
  pub url : String
  pub headers : Dict String
  pub body : String

pub record Response : Type 0 where
  pub status_code : ℤ
  pub body : String

-- `refuse` is the error of `http.NewRequestWithContext` on a method and a URL, and `send` is
-- `hc.Do`; a body is the text that can be read of it.
pub record Http (W : Type 0) : Type 0 where
  pub refuse : String → String → Option Error
  pub send : Request → Action W (Result Response)
