-- ===== src/Identity/Requests/Tokens.antt =====
-- What a token of identity/infrastructure/jwt_service.py opens. The library's part is a hypothesis: a token
-- decodes to the payload that was encoded, until the second of its expiry has passed, and is not empty.
use cadencia_platform.Base.{
  ℕ, ◌+◌, ◌≤◌, ◌<◌, ◌≡◌, true, false, Option, none, some, ◌∷◌, leb, if◌then◌else◌, ok, err,
  validation_error, authentication, authorization, Text, arith,
}
use cadencia_platform.Identity.{User}
use cadencia_platform.Identity.Service.{Office, Claims, user_of}
use cadencia_platform.Identity.Requests.{
  Payload, access_payload, refresh_payload, create_access_token, create_refresh_token,
  decode_access_token, decode_refresh_token, token_subject, get_current_user,
}

module _ (encode : Payload → Text) (decode : (now : ℕ) → Text → Option Payload)
    (decode-encode : (now : ℕ) (p : Payload)
      → decode now (encode p) ≡ (if leb now p.exp then some p else none))
    (head : Payload → ℕ) (tail : Payload → Text)
    (encode_filled : (p : Payload) → encode p ≡ head p ∷ tail p) where
  -- An access token decodes as one to what it was made of for fifteen minutes and to nothing later, a
  -- refresh token as one for thirty days, and neither ever decodes as the other.
  pub token_kinds :
      (now later subject : ℕ) (c : Claims)
      → let access = create_access_token encode now c in
        let refresh = create_refresh_token encode now subject in
        (later ≤ now + 900 → decode_access_token decode later access ≡ ok (access_payload now c))
        × (now + 900 < later → decode_access_token decode later access ≡ err validation_error)
        × (later ≤ now + 2592000
            → decode_refresh_token decode later refresh ≡ ok (refresh_payload now subject))
        × (now + 2592000 < later → decode_refresh_token decode later refresh ≡ err validation_error)
        × (decode_refresh_token decode later access ≡ err validation_error)
        × (decode_access_token decode later refresh ≡ err validation_error)
  unfolding create_access_token create_refresh_token access_payload refresh_payload
      decode_access_token decode_refresh_token
  token_kinds now later subject c =
      let a = decode-encode later (access_payload now c) in
      let r = decode-encode later (refresh_payload now subject) in
      (
        λ h. ground arith,
        λ h. ground arith,
        λ h. ground arith,
        λ h. ground arith,
        ground arith,
        ground arith,
      )

  token_subject_lem :
      (now later : ℕ) (c : Claims)
      → token_subject decode later (some (create_access_token encode now c))
        ≡ (if leb later (now + 900) then ok c.subject else err authentication)
  unfolding token_subject create_access_token access_payload decode_access_token
  token_subject_lem now later c =
      let filled = encode_filled (access_payload now c) in
      let back = decode-encode later (access_payload now c) in ground arith

  -- A request with an access token of a stored user is that user's for fifteen minutes and as long as
  -- the user is active: the enterprise and the role are those of the user's row at the time of the
  -- request, not the token's. A suspended user gets a 403 in these minutes, and after them any gets a 401.
  pub access_token-get_current_user :
      (now later : ℕ) (c : Claims) (o : Office) (u : User)
      → user_of c.subject o.users ≡ some u
      → let out = get_current_user decode later (some (create_access_token encode now c)) o in
        (later ≤ now + 900 → u.is_active ≡ true → out ≡ (ok u, o))
        × (later ≤ now + 900 → u.is_active ≡ false → out ≡ (err authorization, o))
        × (now + 900 < later → out ≡ (err authentication, o))
  unfolding get_current_user
  access_token-get_current_user now later c o u found =
      let subject = token_subject_lem now later c in
      (λ h k. ground arith, λ h k. ground arith, λ h. ground arith)

  pub refresh_token_refused :
      (now later subject : ℕ) (o : Office)
      → get_current_user decode later (some (create_refresh_token encode now subject)) o
        ≡ (err authentication, o)
  unfolding get_current_user token_subject create_refresh_token refresh_payload decode_access_token
  refresh_token_refused now later subject o =
      let filled = encode_filled (refresh_payload now subject) in
      let back = decode-encode later (refresh_payload now subject) in ground arith
