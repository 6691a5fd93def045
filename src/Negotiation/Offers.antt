-- ===== src/Negotiation/Offers.antt =====
-- Offers of negotiation/domain/offer.py and the value objects of negotiation/domain/value_objects.py
-- that they are made of. A `Decimal` price is a whole number of a smallest unit, and a confidence a
-- whole number of thousandths.
use cadencia_platform.Base.{
  ℕ, Bool, true, false, ◌&&◌, ◌||◌, Option, none, some, if◌then◌else◌, ℤ, pos, leb_ℤ, Result, ok,
  err, validation_error, Text, codes, text_eq,
}

pub data ProposerRole : Type 0 where
  buyer seller : ProposerRole

abbrev pub is_buyer : ProposerRole → Bool
is_buyer ProposerRole.buyer = true
is_buyer ProposerRole.seller = false

abbrev pub role_eq : ProposerRole → ProposerRole → Bool
role_eq ProposerRole.buyer ProposerRole.buyer = true
role_eq ProposerRole.seller ProposerRole.seller = true
role_eq _ _ = false

pub record OfferValue : Type 0 where
  pub amount : ℤ
  pub currency : Text

-- `currency in _VALID_CURRENCIES`.
pub is_currency : Text → Bool
is_currency c = text_eq c (codes "INR") || text_eq c (codes "USDC")

-- `OfferValue(amount=..., currency=...)`.
unfoldable pub offer_value : ℤ → Text → Result OfferValue
unfolding is_currency text_eq
offer_value amount currency =
    if leb_ℤ amount (pos 0)
    then err validation_error
    else if is_currency currency
    then ok (record { amount = amount; currency = currency })
    else err validation_error

-- `Confidence(value=...)`.
unfoldable pub confidence : ℤ → Result ℤ
confidence c = if leb_ℤ (pos 0) c && leb_ℤ c (pos 1000) then ok c else err validation_error

pub record Offer : Type 0 where
  pub id : ℕ
  pub session_id : ℕ
  pub round_number : ℕ
  pub proposer_role : ProposerRole
  pub price : OfferValue
  pub terms : Text
  pub confidence : Option ℤ
  pub agent_reasoning : Option Text
  pub is_human_override : Bool

-- `Offer.create_agent_offer`; `id` is the fresh identifier.
unfoldable pub create_agent_offer :
    (id session_id round_number : ℕ)
    → ProposerRole
    → (price : ℤ) (currency terms : Text) → (confidence : ℤ) (agent_reasoning : Text) → Result Offer
create_agent_offer id session round role price currency terms c reasoning =
    elim (offer_value price currency) [
      | err x ↦ err x
      | ok v ↦ elim (confidence c) [
        | err x ↦ err x
        | ok k ↦ ok (record {
          id = id;
          session_id = session;
          round_number = round;
          proposer_role = role;
          price = v;
          terms = terms;
          confidence = some k;
          agent_reasoning = some reasoning;
          is_human_override = false;
        })
      ]
    ]

-- `Offer.create_human_offer`.
unfoldable pub create_human_offer :
    (id session_id round_number : ℕ)
    → ProposerRole
    → (price : ℤ) (currency terms : Text) → Result Offer
create_human_offer id session round role price currency terms = elim (offer_value price currency) [
  | err x ↦ err x
  | ok v ↦ ok (record {
    id = id;
    session_id = session;
    round_number = round;
    proposer_role = role;
    price = v;
    terms = terms;
    confidence = none;
    agent_reasoning = some (codes "HUMAN_OVERRIDE");
    is_human_override = true;
  })
]
