-- ===== src/Tests/Requests.antt =====
-- Witnesses of the theorems on the clients of services and on the handlers that forward events.
use dasher.Common.{false, ℕ, ◌≤◌, ◌<◌, suc, ◌<>◌, none, some, [], ◌≡◌, refl, ◌⊎◌}
use dasher.Common.Int.{pos, ◌≤ℤ◌, ◌<ℤ◌}
use dasher.Event.Parse.{ok}
use dasher.Handlers.{InstanceContext, Forwarding}
use dasher.Lookup.Cache.{new_cache}
use dasher.Memory.{Memory}
use dasher.Services.{Http}
use dasher.Services.Bundle.{max_conns_of}
use dasher.Services.Bundle.Conns.{low_bits, max_conns_of-bounds}
use dasher.Services.Gateway.{
  GatewayClient, Jwt, split_dots, claims_of, jwt_expiry, accept_token, read_login, log_in,
  keep_login, authenticate, is_live, get_token,
}
use dasher.Tests.Configs.{users}

max_conns_of-bounds_example :
    (pos 1 ≤ℤ max_conns_of (pos 4294967297))
    × (max_conns_of (pos 4294967297) <ℤ pos 2147483648)
    × ((max_conns_of (pos 4294967297) ≡ pos 4294967297)
        ⊎ (pos 4294967297 <ℤ pos 1)
        ⊎ (pos 2147483648 ≤ℤ pos 4294967297))
    × (((1 ≤ low_bits (pos 4294967297))
          × (low_bits (pos 4294967297) < 2147483648)
          × (max_conns_of (pos 4294967297) ≡ pos (low_bits (pos 4294967297))))
        ⊎ ((low_bits (pos 4294967297) ≡ 0) × (max_conns_of (pos 4294967297) ≡ pos 4))
        ⊎ ((2147483648 ≤ low_bits (pos 4294967297)) × (max_conns_of (pos 4294967297) ≡ pos 4)))
max_conns_of-bounds_example = max_conns_of-bounds (pos 4294967297)

-- The world counts the requests. Tokens expire at 100 seconds.
abbrev http : Http ℕ
http = record {
  refuse = λ method url. none;
  send = λ r calls. (ok (record { status_code = pos 200; body = "h.p.s" }), suc calls);
}

abbrev pub jwt : Jwt
jwt = record {
  marshal_login = λ code key. some (code <> key);
  decode_access = λ body. some body;
  decode_payload = λ payload. some payload;
  parse_exp = λ claims. some (some (pos 100));
}

abbrev client : GatewayClient
client = record {
  base_url = "http://gateway";
  auth_url = "http://gateway/api/auth/api_login/";
  app_instance_code = "app";
  api_key = "key";
  tok = "";
  expiry = pos 0;
}

abbrev logged_in : GatewayClient
logged_in = record client { tok = "h.p.s"; expiry = pos 100000000000 }

client-get_token : get_token jwt http (pos 0) client 0 ≡ ((ok "h.p.s", logged_in), 1)
unfolding get_token is_live authenticate log_in keep_login read_login accept_token jwt_expiry
    claims_of split_dots
client-get_token = refl

abbrev forwarding : Forwarding ℕ
forwarding = record { marshal = λ evt. some "{}"; now = λ calls. pos 0 }

abbrev context : InstanceContext (Unit {0})
context = record {
  id = "a";
  config = users;
  services = record { internal = none; gateway = some client; db = none };
}

abbrev memory : Memory ℕ
memory = record {
  outside = 0;
  gateway = client;
  caches = λ a. new_cache (λ b. record { key = ""; value = []; expires_at = pos 0 }) (pos 0);
  producer = record { instance_id = "a"; closed = false };
  next_cache = 0;
}
