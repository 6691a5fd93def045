-- ===== src/Identity/Requests.antt =====
-- identity/infrastructure/jwt_service.py and identity/api/dependencies.py: the tokens, and the checks that a
-- request passes before its route. Signing and verifying a token, and the hash of an API key, are
-- parameters; times are counted in seconds. A 401 is an authentication error, a 403 an authorization
-- error. The choice of keys and adapters from the environment is left out.
pub mod Tokens
pub mod Plain
use cadencia_platform.Base.{
  ℕ, ◌+◌, ◌*◌, Bool, true, false, not, ◌&&◌, ◌||◌, Option, none, some, List, [], ◌∷◌, leb, ◌==◌,
  if◌then◌else◌, Result, ok, err, internal_error, validation_error, authentication, authorization,
  Action, ◌>>=◌, ◌>>◌, pure, raise_if, gets, lift, or_raise, Text, codes, text_eq,
}
use cadencia_platform.Identity.{UserRole, User}
use cadencia_platform.Identity.Service.{Office, Claims, ApiKey, user_of, get_by_hash}
use cadencia_platform.Shared.Limiter.{Counter, check_rate_limit}

pub data TokenType : Type 0 where
  access refresh : TokenType

-- The payload of a token; the subject is the identifier of a user, if it is one.
pub record Payload : Type 0 where
  pub type : Option TokenType
  pub sub : Option ℕ
  pub enterprise_id : Option ℕ
  pub role : Option UserRole
  pub iat : ℕ
  pub exp : ℕ

-- The default of the variable JWT_ACCESS_TOKEN_EXPIRE_MINUTES; another value in the environment is left out.
abbrev pub access_expire_minutes : ℕ
access_expire_minutes = 15

abbrev pub refresh_expire_days : ℕ
refresh_expire_days = 30

abbrev is_access : Option TokenType → Bool
is_access (some TokenType.access) = true
is_access _ = false

abbrev is_refresh : Option TokenType → Bool
is_refresh (some TokenType.refresh) = true
is_refresh _ = false

unfoldable pub access_payload : (now : ℕ) → Claims → Payload
access_payload now c = record {
  type = some TokenType.access;
  sub = some c.subject;
  enterprise_id = some c.enterprise_id;
  role = some c.role;
  iat = now;
  exp = now + access_expire_minutes * 60;
}

unfoldable pub refresh_payload : (now subject : ℕ) → Payload
refresh_payload now subject = record {
  type = some TokenType.refresh;
  sub = some subject;
  enterprise_id = none;
  role = none;
  iat = now;
  exp = now + refresh_expire_days * 86400;
}

module _ (encode : Payload → Text) where
  unfoldable pub create_access_token : (now : ℕ) → Claims → Text
  unfolding access_payload
  create_access_token now c = encode (access_payload now c)

  unfoldable pub create_refresh_token : (now subject : ℕ) → Text
  unfolding refresh_payload
  create_refresh_token now subject = encode (refresh_payload now subject)

-- `none` is a JWTError: a token of another key, a damaged or an expired one.
module _ (decode : (now : ℕ) → Text → Option Payload) where
  unfoldable pub decode_access_token : (now : ℕ) → Text → Result Payload
  decode_access_token now t = elim (decode now t) [
    | none ↦ err validation_error
    | some p ↦ if is_access p.type then ok p else err validation_error
  ]

  unfoldable pub decode_refresh_token : (now : ℕ) → Text → Result Payload
  decode_refresh_token now t = elim (decode now t) [
    | none ↦ err validation_error
    | some p ↦ if is_refresh p.type then ok p else err validation_error
  ]

  -- An empty token counts as none; a subject that is no UUID is a ValueError.
  unfoldable pub token_subject : (now : ℕ) → Option Text → Result ℕ
  unfolding decode_access_token
  token_subject now none = err authentication
  token_subject now (some []) = err authentication
  token_subject now (some (c ∷ t)) = elim (decode_access_token now (c ∷ t)) [
    | err x ↦ err authentication
    | ok p ↦ elim p.sub [ none ↦ err internal_error | some i ↦ ok i ]
  ]

  -- `get_current_user`, which reads the user anew.
  unfoldable pub get_current_user : (now : ℕ) → Option Text → Action Office User
  unfolding user_of
  get_current_user now token = do
    i ← lift (token_subject now token)
    u ← or_raise (user_of i (← gets (λ o. o.users))) authentication
    raise_if (not u.is_active) authorization
    pure u

  abbrev role_number : UserRole → ℕ
  role_number UserRole.admin = 0
  role_number UserRole.treasury_manager = 1
  role_number UserRole.compliance_officer = 2
  role_number UserRole.auditor = 3

  unfoldable pub is_one_of : List UserRole → UserRole → Bool
  is_one_of [] r = false
  is_one_of (s ∷ ss) r = role_number s == role_number r || is_one_of ss r

  unfoldable pub require_role : List UserRole → (now : ℕ) → Option Text → Action Office User
  unfolding get_current_user is_one_of
  require_role roles now token = do
    u ← get_current_user now token
    raise_if (not (is_one_of roles u.role)) authorization
    pure u

  -- `require_enterprise_access` of identity/api/router.py.
  unfoldable pub require_enterprise_access : (enterprise now : ℕ) → Option Text → Action Office ℕ
  unfolding get_current_user
  require_enterprise_access enterprise now token = do
    u ← get_current_user now token
    raise_if (not (u.enterprise_id == enterprise)) authorization
    pure enterprise

  -- `rate_limit`: one counter for all users of an enterprise.
  unfoldable pub rate_limited :
      (limit window now : ℕ) → Option Text → Action (Office × List Counter) (Unit {0})
  unfolding get_current_user check_rate_limit
  rate_limited limit window now token s =
      let (r, o) = get_current_user now token s.0 in
      elim r [
        | err x ↦ (err x, (o, s.1))
        | ok u ↦
            let (passed, cs) = check_rate_limit limit window u.enterprise_id now s.1 in
            (passed, (o, cs))
      ]

-- `get_current_enterprise_from_api_key`.
unfoldable pub enterprise_from_api_key :
    (from_raw : Text → Text) → (x_api_key : Option Text) → Office → Result ApiKey
unfolding get_by_hash
enterprise_from_api_key from_raw none o = err authentication
enterprise_from_api_key from_raw (some []) o = err authentication
enterprise_from_api_key from_raw (some (c ∷ t)) o = elim (get_by_hash (from_raw (c ∷ t)) o.keys) [
  | none ↦ err authentication
  | some k ↦ ok k
]
