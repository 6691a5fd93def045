-- ===== src/Events/Agreed.antt =====
-- `handle_session_agreed_deploy` of shared/infrastructure/events/handlers.py, which is to deploy the
-- escrow of an agreed session. The wallets of the enterprises and the rate from the provider are
-- arguments; an agreed price is a whole number of paise and a rate one of 1/10^8.
use cadencia_platform.Base.{
  ℕ, ◌*◌, ◌/◌, ◌≡◌, Bool, true, false, ◌&&◌, ◌||◌, Option, none, some, List, [], ◌∷◌, if◌then◌else◌,
  pos, Result, ok, err, internal_error, Action, ◌>>=◌, ◌>>◌, pure, lift, Text, codes, text_eq,
  arith,
}
use cadencia_platform.Settlement.Service.{World, Gateway, DeployCommand, deploy_escrow}

-- A dataclass is called with keywords: each must be a field, and each field (without a default) must be
-- given.
unfoldable pub member : Text → List Text → Bool
unfolding text_eq
member t [] = false
member t (u ∷ us) = text_eq t u || member t us

unfoldable pub all_in : List Text → List Text → Bool
unfolding member
all_in [] us = true
all_in (t ∷ ts) us = member t us && all_in ts us

unfoldable pub accepts : (fields keywords : List Text) → Bool
unfolding all_in
accepts fields keywords = all_in keywords fields && all_in fields keywords

-- The fields of `DeployEscrowCommand` in settlement/application/commands.py.
abbrev pub command_fields : List Text
command_fields =
    codes "session_id"
    ∷ codes "buyer_enterprise_id"
    ∷ codes "seller_enterprise_id"
    ∷ codes "buyer_algo_address"
    ∷ codes "seller_algo_address"
    ∷ codes "agreed_price_microalgo"
    ∷ []

-- The keywords with which the handler calls it.
abbrev pub handler_keywords : List Text
handler_keywords =
    codes "session_id"
    ∷ codes "buyer_algorand_address"
    ∷ codes "seller_algorand_address"
    ∷ codes "amount_microalgo"
    ∷ []

-- `DeployEscrowCommand(...)` of the handler; a `TypeError` if the keywords do not fit.
unfoldable pub deploy_command :
    (session : ℕ) → (buyer seller : Text) → (microalgo : ℕ) → Result DeployCommand
unfolding accepts
deploy_command session buyer seller microalgo =
    if accepts command_fields handler_keywords
    then ok (record {
      session_id = session;
      buyer_algo_address = buyer;
      seller_algo_address = seller;
      agreed_price_microalgo = pos microalgo;
    })
    else err internal_error

-- `int(price * rate * 1000000)`, or with the rate 0.012 when the provider fails.
unfoldable pub price_microalgo : (agreed_price : ℕ) → Result ℕ → ℕ
price_microalgo agreed_price (ok rate) = agreed_price * rate / 10_000
price_microalgo agreed_price (err x) = agreed_price * 120

module _ {W : Type 0} (g : Gateway W) (wallet : ℕ → Option Text) where
  -- The call of the service, in its `try`.
  unfoldable pub try_deploy :
      (id created now session : ℕ)
      → (buyer seller : Text) → (microalgo : ℕ) → Action (World W) (Unit {0})
  unfolding deploy_command deploy_escrow
  try_deploy id created now session buyer seller microalgo = do
    cmd ← lift (deploy_command session buyer seller microalgo)
    deploy_escrow g id created now cmd
    pure tt

  unfoldable pub handle_session_agreed_deploy :
      (id created now session buyer seller : ℕ) → (agreed_price : ℕ) → Result ℕ → World W → World W
  unfolding try_deploy price_microalgo
  handle_session_agreed_deploy id created now session buyer seller agreed_price rate w =
      elim (wallet buyer) [
        | none ↦ w
        | some b ↦ elim (wallet seller) [
          | none ↦ w
          | some s ↦ (try_deploy id created now session b s (price_microalgo agreed_price rate) w).1
        ]
      ]

  -- An agreed session never deploys an escrow: whatever the wallets, the price, the rate and the gateway,
  -- the handler leaves the chain, the database and the published events as they were.
  pub handle_session_agreed_deploy-unchanged :
      (id created now session buyer seller agreed_price : ℕ) (rate : Result ℕ) (w : World W)
      → handle_session_agreed_deploy id created now session buyer seller agreed_price rate w ≡ w
  unfolding handle_session_agreed_deploy try_deploy deploy_command
  handle_session_agreed_deploy-unchanged id created now session buyer seller agreed_price rate w =
      ground arith
