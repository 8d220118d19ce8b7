-- ===== src/Services/Retryable.antt =====
-- The errors of the clients, none of which `Poison` made.
use dasher.Common.{
  String, Bool, true, false, [], ◌∷◌, Option, none, some, List, ◌==◌, ◌≡◌, refl, Option-cases,
  Bool-cases, inl, inr, if◌then◌else◌,
}
use dasher.Common.Int.{ℤ}
use dasher.Errors.{Error, wrapped, is_poison}
use dasher.Services.Url.{join_url}
use dasher.Event.Parse.{Result, ok, fail, Result-cases}
use dasher.Services.{Http, Request, Response}
use dasher.Services.Gateway.{
  GatewayClient, Jwt, log_in, keep_login, read_login, accept_token, claims_of, split_dots, in_login,
  jwt_expiry, authenticate, get_token, hand_out, is_live, gateway_do,
}
use dasher.Services.Internal.{InternalClient, internal_do}

-- An error that is not poison, if any.
abbrev pub IsRetryable {ℓ} : {A : Type ℓ} → Result A → Type 0
IsRetryable (ok a) = Unit
IsRetryable (fail e) = is_poison e ≡ false

-- The errors of `net/http` are none that `Poison` made.
pub record NeverPoisons {W : Type 0} (http : Http W) : Type 0 where
  pub refuse :
      (method url : String) (e : Error) → http.refuse method url ≡ some e → is_poison e ≡ false
  pub send : (r : Request) (w : W) → IsRetryable (http.send r w).0

-- A failure that is not poison, or a continuation.
or_fail-IsRetryable {ℓ} :
    {A : Type ℓ} {B : Type 0} (o : Option A) (e : Error) (rest : A → Result B)
    → is_poison e ≡ false
    → ((a : A) → IsRetryable (rest a))
    → IsRetryable (elim o [ none ↦ fail e | some a ↦ rest a ])
or_fail-IsRetryable none e rest h k = h
or_fail-IsRetryable (some a) e rest h k = k a

refused_or-IsRetryable :
    {B : Type 0} (refused : Bool) (e : Error) (r : Result B)
    → is_poison e ≡ false
    → IsRetryable r
    → IsRetryable (if refused then fail e else r)
refused_or-IsRetryable true e r h k = h
refused_or-IsRetryable false e r h k = k

wrap-IsRetryable :
    {A B : Type 0} (r : Result A) (s : String) (rest : A → Result B)
    → IsRetryable r
    → ((a : A) → IsRetryable (rest a))
    → IsRetryable (elim r [ fail e ↦ fail (wrapped s e) | ok a ↦ rest a ])
unfolding is_poison
wrap-IsRetryable (fail e) s rest h k = h
wrap-IsRetryable (ok a) s rest h k = k a

module _ (jwt : Jwt) where
  jwt_expiry-IsRetryable : (token : String) → IsRetryable (jwt_expiry jwt token)
  unfolding jwt_expiry claims_of is_poison
  jwt_expiry-IsRetryable token = claims (split_dots token)
    where
      claims : (parts : List String) → IsRetryable (claims_of jwt parts)
      claims [] = refl
      claims (header ∷ []) = refl
      claims (header ∷ payload ∷ []) = refl
      claims (header ∷ payload ∷ signature ∷ more ∷ parts) = refl
      claims (header ∷ payload ∷ signature ∷ []) =
          or_fail-IsRetryable (jwt.decode_payload payload) _ _ refl (λ text.
            or_fail-IsRetryable (jwt.parse_exp text) _ _ refl
              (λ exp. or_fail-IsRetryable exp _ _ refl (λ s. tt)))

  read_login-IsRetryable : (resp : Response) → IsRetryable (read_login jwt resp)
  unfolding read_login accept_token is_poison
  read_login-IsRetryable resp = refused_or-IsRetryable _ _ _ refl (
      or_fail-IsRetryable (jwt.decode_access resp.body) _ _ refl (λ access.
        refused_or-IsRetryable (access == "") _ _ refl (
          wrap-IsRetryable (jwt_expiry jwt access) _ _ (jwt_expiry-IsRetryable access)
            (λ expiry. tt))))

module _ {W : Type 0} (http : Http W) (clean : NeverPoisons http) where
  pub internal_do-IsRetryable :
      (c : InternalClient) (method path body : String) (w : W)
      → IsRetryable (internal_do http c method path body w).0
  unfolding internal_do
  internal_do-IsRetryable c method path body w =
      let url = join_url c.base_url path in
      elim (Option-cases (http.refuse method url)) [
        | inr (e, refused) ↦ rw (refused, internal_do) (clean.refuse method url e refused)
        | inl fine ↦ rw (fine, internal_do) (clean.send _ w)
      ]

  module _ (jwt : Jwt) where
    in_login-IsRetryable : (r : Result Response) → IsRetryable r → IsRetryable (in_login r)
    unfolding is_poison
    in_login-IsRetryable (fail e) h = h
    in_login-IsRetryable (ok resp) h = tt

    log_in-IsRetryable : (c : GatewayClient) (w : W) → IsRetryable (log_in jwt http c w).0
    unfolding log_in is_poison
    log_in-IsRetryable c w = elim (Option-cases (jwt.marshal_login c.app_instance_code c.api_key)) [
      | inl unwritable ↦ rw (unwritable, log_in) refl
      | inr (body, written) ↦ elim (Option-cases (http.refuse "POST" c.auth_url)) [
        | inr (e, refused) ↦
            rw (written, refused, log_in) (clean.refuse "POST" c.auth_url e refused)
        | inl fine ↦ rw (written, fine, log_in) (in_login-IsRetryable _ (clean.send _ w))
      ]
    ]

    keep_login-IsRetryable :
        (c : GatewayClient) (r : Result Response)
        → IsRetryable r
        → IsRetryable (hand_out (keep_login jwt c r).0 (keep_login jwt c r).1)
    unfolding keep_login
    keep_login-IsRetryable c (fail e) h = h
    keep_login-IsRetryable c (ok resp) h =
        let read = read_login-IsRetryable jwt resp in
        elim (Result-cases (read_login jwt resp)) [
          | inl (login, got) ↦ rw (got, keep_login) tt
          | inr (e, failed) ↦ rw (failed, keep_login) (rw failed at read)
        ]

    get_token-IsRetryable :
        (now : ℤ) (c : GatewayClient) (w : W) → IsRetryable (get_token jwt http now c w).0.0
    unfolding get_token authenticate
    get_token-IsRetryable now c w = elim (Bool-cases (is_live now c)) [
      | inl live ↦ rw live tt
      | inr dead ↦ rw dead (keep_login-IsRetryable c _ (log_in-IsRetryable c w))
    ]

    pub gateway_do-IsRetryable :
        (now : ℤ) (c : GatewayClient) (method path body : String) (w : W)
        → IsRetryable (gateway_do jwt http now c method path body w).0.0
    unfolding gateway_do is_poison
    gateway_do-IsRetryable now c method path body w =
        let clean_token = get_token-IsRetryable now c w in
        elim (Result-cases (get_token jwt http now c w).0.0) [
          | inr (e, failed) ↦ rw (failed, gateway_do) (rw failed at clean_token)
          | inl (tok, got) ↦
              let url = join_url (get_token jwt http now c w).0.1.base_url path in
              elim (Option-cases (http.refuse method url)) [
                | inr (e, refused) ↦
                    rw (got, refused, gateway_do) (clean.refuse method url e refused)
                | inl fine ↦ rw (got, fine, gateway_do) (clean.send _ _)
              ]
        ]
