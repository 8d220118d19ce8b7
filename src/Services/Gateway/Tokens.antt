-- ===== src/Services/Gateway/Tokens.antt =====
-- What a token request leaves in the gateway client.
use dasher.Common.{String, ◌≡◌, ◌≢◌, ◌⊎◌}
use dasher.Common.Int.{ℤ}
use dasher.Event.Parse.{Result, ok, fail}
use dasher.Services.Gateway.{GatewayClient, Jwt, jwt_expiry}

-- The client has no token yet, or the expiry that it keeps is the one that its token states.
abbrev pub IsHolder : Jwt → GatewayClient → Type 0
IsHolder jwt c = (c.tok ≡ "") ⊎ (jwt_expiry jwt c.tok ≡ ok c.expiry)

-- A token that is handed out is the one the client keeps, is not empty and states its expiry; the
-- client is the same when there is an error.
abbrev pub Obtains : Jwt → GatewayClient → Result String → GatewayClient → Type 0
Obtains jwt c (fail e) c' = c' ≡ c
Obtains jwt c (ok t) c' = (t ≡ c'.tok) × (t ≢ "") × (jwt_expiry jwt t ≡ ok c'.expiry)

-- An answer that is read is a token with its expiry.
abbrev Reads : Jwt → Result (String × ℤ) → Type 0
Reads jwt (fail e) = Unit
Reads jwt (ok (t, expiry)) = (t ≢ "") × (jwt_expiry jwt t ≡ ok expiry)
