-- ===== src/Identity/Wallets.antt =====
-- identity/infrastructure/wallet_verifier.py, with the challenge and the link of wallet/api/router.py and the
-- link of identity/api/router.py. Redis works and drops a key once its time to live has passed; the
-- address decoder and the signature check of algosdk are arguments, as are fresh identifiers and nonces.
-- An HTTPException is the domain error of its status: 400 validation, 403 authorization, 409 conflict.
pub mod Once
pub mod Links
use cadencia_platform.Base.{
  ℕ, ◌+◌, Bool, true, false, not, ◌&&◌, Option, none, some, List, [], ◌∷◌, ◌++◌, ltb, if◌then◌else◌,
  ◌==◌, Result, ok, err, Action, ◌>>=◌, ◌>>◌, pure, raise_if, or_raise, gets, modify,
  validation_error, authorization, conflict, Text, codes, text_eq,
}
use cadencia_platform.Identity.{Enterprise}
use cadencia_platform.Identity.Service.{Office}
use cadencia_platform.Identity.Service

-- A key `wallet_challenge:<id>` with its value `nonce|enterprise_id`.
pub record Challenge : Type 0 where
  pub challenge_id : ℕ
  pub nonce : Text
  pub enterprise_id : ℕ
  pub expires_at : ℕ

abbrev pub challenge_ttl : ℕ
challenge_ttl = 300

unfoldable pub delete : ℕ → List Challenge → List Challenge
delete i [] = []
delete i (k ∷ ks) = let rest = delete i ks in if k.challenge_id == i then rest else k ∷ rest

-- `redis.get` of the key, which has not expired.
unfoldable pub find : (now id : ℕ) → List Challenge → Option Challenge
find now i [] = none
find now i (k ∷ ks) =
    let rest = find now i ks in if k.challenge_id == i && ltb now k.expires_at then some k else rest

-- `create_challenge`: `setex` replaces what is stored under the key.
unfoldable pub create_challenge :
    (id : ℕ) → (nonce : Text) → (now enterprise : ℕ) → List Challenge → List Challenge
unfolding delete
create_challenge i nonce now enterprise ks =
    record {
      challenge_id = i;
      nonce = nonce;
      enterprise_id = enterprise;
      expires_at = now + challenge_ttl;
    }
    ∷ delete i ks

abbrev pub message_of : Challenge → Text
message_of k = codes "Cadencia wallet verification: " ++ k.nonce

-- The first unexpired challenge of an enterprise, as the scan of the keys meets them.
unfoldable pub active_challenge : (now enterprise : ℕ) → List Challenge → Option Challenge
active_challenge now e [] = none
active_challenge now e (k ∷ ks) =
    let rest = active_challenge now e ks in
    if k.enterprise_id == e && ltb now k.expires_at then some k else rest

unfoldable pub delete_of : (enterprise : ℕ) → List Challenge → List Challenge
delete_of e [] = []
delete_of e (k ∷ ks) = let rest = delete_of e ks in if k.enterprise_id == e then rest else k ∷ rest

pub record Wallets : Type 0 where
  pub challenges : List Challenge
  pub office : Office

-- Whether the address is linked to an enterprise other than this one.
unfoldable pub linked_elsewhere : (address : Text) → (enterprise : ℕ) → List Enterprise → Bool
unfolding text_eq
linked_elsewhere address e [] = false
linked_elsewhere address e (x ∷ xs) =
    let rest = linked_elsewhere address e xs in
    elim x.algorand_wallet [
      | none ↦ rest
      | some w ↦ if text_eq w address && not (x.id == e) then true else rest
    ]

-- `GET /v1/wallet/challenge`: the earlier challenges of the enterprise are dropped. It answers with the
-- identifier only.
unfoldable pub get_wallet_challenge :
    (id : ℕ) → (nonce : Text) → (now enterprise : ℕ) → Action Wallets ℕ
unfolding create_challenge delete_of
get_wallet_challenge i nonce now enterprise = do
  modify λ w. record w {
    challenges = create_challenge i nonce now enterprise (delete_of enterprise w.challenges);
  }
  pure i

-- A call of the identity service.
unfoldable pub on_office : {A : Type 0} → Action Office A → Action Wallets A
on_office m w = let (r, o) = m w.office in (r, record w { office = o })

module _ (is_valid_address : Text → Bool)
    (verify_bytes : (message signature address : Text) → Result Bool) where
  -- `verify_challenge`: the challenge is used up by any signature that could be checked, right or wrong.
  -- Its reading and its deletion of the challenge are one step: two answers at once are left out.
  unfoldable pub verify_challenge :
      (now id : ℕ) → (address signature : Text) → List Challenge → Bool × List Challenge
  unfolding find delete
  verify_challenge now i address signature ks =
      if not (is_valid_address address) then (false, ks) else elim (find now i ks) [
        | none ↦ (false, ks)
        | some k ↦ elim (verify_bytes (message_of k) signature address) [
          | err x ↦ (false, ks)
          | ok valid ↦ (valid, delete i ks)
        ]
      ]

  unfoldable pub check_challenge : (now id : ℕ) → (address signature : Text) → Action Wallets Bool
  unfolding verify_challenge
  check_challenge now i address signature w =
      let (valid, ks) = verify_challenge now i address signature w.challenges in
      (ok valid, record w { challenges = ks })

  -- `POST /v1/wallet/link`, of a user of the enterprise.
  unfoldable pub link_wallet :
      (now enterprise user : ℕ) → (address signature : Text) → Action Wallets Enterprise
  unfolding linked_elsewhere active_challenge check_challenge on_office
  link_wallet now enterprise user address signature = do
    raise_if (linked_elsewhere address enterprise (← gets (λ w. w.office.enterprises))) conflict
    k ← or_raise (active_challenge now enterprise (← gets (λ w. w.challenges))) validation_error
    valid ← check_challenge now k.challenge_id address signature
    raise_if (not valid) validation_error
    on_office (Service.link_wallet enterprise user address)

  -- `POST /v1/enterprises/<id>/wallet/link`: the challenge is the one that the request names.
  unfoldable pub link_named :
      (now enterprise user challenge : ℕ) → (address signature : Text) → Action Wallets Enterprise
  unfolding check_challenge on_office
  link_named now enterprise user challenge address signature = do
    valid ← check_challenge now challenge address signature
    raise_if (not valid) authorization
    on_office (Service.link_wallet enterprise user address)
