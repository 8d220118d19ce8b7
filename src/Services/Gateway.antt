-- ===== src/Services/Gateway.antt =====
-- GatewayClient of dasher/internal/services/gateway.go. The client is a state that each call
-- returns; its mutex makes `getToken` atomic. Times are instants in nanoseconds since 1970.
pub mod Tokens
use Prim.Native.Char.{Char, code}
use dasher.Common.{
  ℕ, String, ◌<>◌, ◌==◌, Bool, true, false, not, ◌&&◌, ◌||◌, ◌*◌, Option, none, some, List, [], ◌∷◌,
  ◌==ℕ◌, if◌then◌else◌,
}
use dasher.Common.Int.{ℤ, pos, pos_part, neg_part, sub_ℕ, ltb_ℤ, leb_ℤ, ◌+ℤ◌}
use dasher.Errors.{Error, plain, wrapped}
use dasher.Event.Parse.{Result, ok, fail}
use dasher.Handler.{Action}
use dasher.Services.{Request, Response, Http}
use dasher.Services.Url.{join_url}

pub record GatewayClient : Type 0 where
  pub base_url : String
  pub auth_url : String
  pub app_instance_code : String
  pub api_key : String
  pub tok : String
  pub expiry : ℤ

-- `encoding/json` and `encoding/base64` as this client calls them: the login body, the `access`
-- field of the answer, empty if it is missing, the payload of a token, and its `exp` claim.
pub record Jwt : Type 0 where
  pub marshal_login : String → String → Option String
  pub decode_access : String → Option String
  pub decode_payload : String → Option String
  pub parse_exp : String → Option (Option ℤ)

-- `time.Unix(s, 0)`
abbrev pub unix : ℤ → ℤ
unix s = sub_ℕ (pos_part s * 1000000000) (neg_part s * 1000000000)

-- `60*time.Second`
abbrev pub expiry_buffer : ℤ
expiry_buffer = pos 60000000000

-- A character put in front of the first part.
abbrev pub into_first : Char → List String → List String
into_first c [] = String.◌∷◌ c "" ∷ []
into_first c (part ∷ parts) = String.◌∷◌ c part ∷ parts

-- `strings.Split(token, ".")`
unfoldable pub split_dots : String → List String
split_dots String.[] = "" ∷ []
split_dots (String.◌∷◌ c s) =
    let parts = split_dots s in if code c ==ℕ b'.' then "" ∷ parts else into_first c parts

-- Whether the token is there, and its expiry more than the buffer away.
unfoldable pub is_live : ℤ → GatewayClient → Bool
is_live now c = not (c.tok == "") && ltb_ℤ (now +ℤ expiry_buffer) c.expiry

-- `if err != nil { return "", err }; return c.tok, nil`
abbrev pub hand_out : Option Error → GatewayClient → Result String
hand_out (some e) c = fail e
hand_out none c = ok c.tok

-- `fmt.Errorf("gateway login: %w", err)`
abbrev pub in_login : Result Response → Result Response
in_login (fail e) = fail (wrapped "gateway login" e)
in_login (ok resp) = ok resp

module _ (jwt : Jwt) where
  -- The payload of a token of three parts.
  unfoldable pub claims_of : List String → Result ℤ
  claims_of (header ∷ payload ∷ signature ∷ []) = elim (jwt.decode_payload payload) [
    | none ↦ fail (wrapped "decode JWT payload" (plain "base64"))
    | some text ↦ elim (jwt.parse_exp text) [
      | none ↦ fail (wrapped "parse JWT claims" (plain "json"))
      | some exp ↦ elim exp [ none ↦ fail (plain "JWT missing exp claim") | some s ↦ ok (unix s) ]
    ]
  ]
  claims_of _ = fail (plain "invalid JWT format")

  unfoldable pub jwt_expiry : String → Result ℤ
  unfolding split_dots claims_of
  jwt_expiry token = claims_of (split_dots token)

  -- An access token is kept with its expiry.
  unfoldable pub accept_token : String → Result (String × ℤ)
  accept_token access =
      if access == ""
      then fail (plain "gateway login: empty access token")
      else elim (jwt_expiry access) [
        | fail e ↦ fail (wrapped "gateway login: parse token expiry" e)
        | ok expiry ↦ ok (access, expiry)
      ]

  -- What `authenticate` makes of the answer: the token and its expiry.
  unfoldable pub read_login : Response → Result (String × ℤ)
  read_login resp =
      if ltb_ℤ resp.status_code (pos 200) || leb_ℤ (pos 300) resp.status_code
      then fail (plain "gateway login returned")
      else elim (jwt.decode_access resp.body) [
        | none ↦ fail (wrapped "decode login response" (plain "json"))
        | some access ↦ accept_token access
      ]

  -- The client behind a login, and the error of it.
  unfoldable pub keep_login : GatewayClient → Result Response → Option Error × GatewayClient
  keep_login c (fail e) = (some e, c)
  keep_login c (ok resp) = elim (read_login resp) [
    | fail e ↦ (some e, c)
    | ok login ↦ (none, record c { tok = login.0; expiry = login.1 })
  ]

  module _ {W : Type 0} (http : Http W) where
    -- The answer to the login, or why there is none.
    unfoldable pub log_in : GatewayClient → Action W (Result Response)
    log_in c w = elim (jwt.marshal_login c.app_instance_code c.api_key) [
      | none ↦ (fail (wrapped "marshal login body" (plain "json")), w)
      | some body ↦ elim (http.refuse "POST" c.auth_url) [
        | some e ↦ (fail e, w)
        | none ↦
            let (r, w') =
              http.send
                (record {
                  method = "POST";
                  url = c.auth_url;
                  headers = ("Content-Type", "application/json") ∷ [];
                  body = body;
                })
                w in
            (in_login r, w')
      ]
    ]

    unfoldable pub authenticate : GatewayClient → Action W (Option Error × GatewayClient)
    unfolding log_in keep_login
    authenticate c w = let (r, w') = log_in c w in (keep_login c r, w')

    -- What `getToken` does while it holds the mutex; the lock itself is not modelled.
    unfoldable pub get_token : ℤ → GatewayClient → Action W (Result String × GatewayClient)
    unfolding authenticate is_live
    get_token now c w =
        if is_live now c
        then ((ok c.tok, c), w)
        else let ((err, c'), w') = authenticate c w in ((hand_out err c', c'), w')

    -- `Do`, at the time `now`.
    unfoldable pub gateway_do :
        ℤ → GatewayClient → String → String → String → Action W (Result Response × GatewayClient)
    unfolding get_token join_url
    gateway_do now c method path body w =
        let ((t, c'), w') = get_token now c w in
        elim t [
          | fail e ↦ ((fail (wrapped "gateway: get token" e), c'), w')
          | ok tok ↦
              let url = join_url c'.base_url path in
              elim (http.refuse method url) [
                | some e ↦ ((fail e, c'), w')
                | none ↦
                    let (r, w'') =
                      http.send
                        (record {
                          method = method;
                          url = url;
                          headers = ("Authorization", "Bearer " <> tok) ∷ [];
                          body = body;
                        })
                        w' in
                    ((r, c'), w'')
              ]
        ]
