-- ===== src/Negotiation/Guardrails.antt =====
-- The guardrail engine of negotiation/domain/guardrails.py. The role and the action of an envelope
-- are already lower-cased tokens; confidences are in thousandths, so the default minimum is 100.
use cadencia_platform.Base.{
  ◌≡◌, Bool, true, false, not, ◌&&◌, ◌||◌, Option, none, some, List, [], ◌∷◌, ◌++◌, if◌then◌else◌,
  ℤ, pos, ◌-ℤ◌, ◌*ℤ◌, leb_ℤ, ltb_ℤ, ◌≤ℤ◌, ◌≢◌, ◌↔◌, Result, ok, err, validation_error,
  policy_violation, arith,
}
use cadencia_platform.Negotiation.Offers.{ProposerRole, is_buyer}

pub data EnvelopeAction : Type 0 where
  counter accept reject offer : EnvelopeAction

pub record ActionEnvelope : Type 0 where
  pub agent_role : ProposerRole
  pub round : ℤ
  pub action : EnvelopeAction
  pub offer_value : ℤ
  pub confidence : ℤ

-- `ActionEnvelope(...)`, whose `__post_init__` checks the numbers.
unfoldable pub action_envelope : ActionEnvelope → Result ActionEnvelope
action_envelope e =
    if ltb_ℤ e.offer_value (pos 0)
    then err validation_error
    else if leb_ℤ (pos 0) e.confidence && leb_ℤ e.confidence (pos 1000)
    then if ltb_ℤ e.round (pos 0) then err validation_error else ok e
    else err validation_error

pub data ViolationType : Type 0 where
  below_reservation budget_exceeded margin_violation confidence_too_low : ViolationType

abbrev pub proposes : EnvelopeAction → Bool
proposes EnvelopeAction.counter = true
proposes EnvelopeAction.offer = true
proposes _ = false

abbrev is_reject : EnvelopeAction → Bool
is_reject EnvelopeAction.reject = true
is_reject _ = false

-- `if budget_ceiling and offer_value > budget_ceiling`: a ceiling of zero counts as none.
abbrev exceeds : ℤ → Option ℤ → Bool
exceeds value none = false
exceeds value (some ceiling) =
    not (leb_ℤ ceiling (pos 0) && leb_ℤ (pos 0) ceiling) && ltb_ℤ ceiling value

abbrev undercuts : ℤ → Option ℤ → Option ℤ → Bool
undercuts value none floor = false
undercuts value (some cost) none = false
undercuts value (some cost) (some floor) =
    ltb_ℤ (pos 0) cost && ltb_ℤ ((value -ℤ cost) *ℤ pos 10000) (floor *ℤ cost)

abbrev when : Bool → ViolationType → List ViolationType
when true v = v ∷ []
when false v = []

-- The three checks of `validate_envelope`, in the order in which it appends their violations. The
-- margin floor is in hundredths of a percent.
unfoldable pub validate_envelope :
    (min_confidence : ℤ)
    → ActionEnvelope
    → (reservation_price : ℤ) → (budget_ceiling cost_basis margin_floor : Option ℤ)
    → List ViolationType
validate_envelope min_confidence e reservation ceiling cost floor =
    when (proposes e.action && is_buyer e.agent_role && exceeds e.offer_value ceiling)
      ViolationType.budget_exceeded
    ++ (when (proposes e.action && not (is_buyer e.agent_role) && ltb_ℤ e.offer_value reservation)
          ViolationType.below_reservation
        ++ (when
              (not (is_buyer e.agent_role)
                && proposes e.action
                && undercuts e.offer_value cost floor)
              ViolationType.margin_violation
            ++ when (ltb_ℤ e.confidence min_confidence && not (is_reject e.action))
                ViolationType.confidence_too_low))

abbrev is_critical : ViolationType → Bool
is_critical ViolationType.confidence_too_low = false
is_critical v = true

any_critical : List ViolationType → Bool
any_critical [] = false
any_critical (v ∷ vs) = is_critical v || any_critical vs

pub enforce :
    (min_confidence : ℤ)
    → ActionEnvelope
    → (reservation_price : ℤ) → (budget_ceiling cost_basis margin_floor : Option ℤ)
    → Result (Unit {0})
unfolding any_critical validate_envelope
enforce min_confidence e reservation ceiling cost floor =
    if any_critical (validate_envelope min_confidence e reservation ceiling cost floor)
    then err policy_violation
    else ok tt

-- A buyer's proposal under a ceiling other than zero passes exactly when it is at most the ceiling.
enforce_buyer_iff :
    (m : ℤ) (e : ActionEnvelope) (reservation ceiling : ℤ) (cost floor : Option ℤ)
    → proposes e.action ≡ true
    → e.agent_role ≡ ProposerRole.buyer
    → ceiling ≢ pos 0
    → (enforce m e reservation (some ceiling) cost floor ≡ ok tt) ↔ (e.offer_value ≤ℤ ceiling)
unfolding enforce
enforce_buyer_iff m e reservation ceiling cost floor p b z = (λ h. ground arith, λ h. ground arith)

-- A seller's proposal over a positive cost passes exactly when it reaches the reservation price and
-- its margin reaches the floor.
enforce_seller_iff :
    (m : ℤ) (e : ActionEnvelope) (reservation cost floor : ℤ) (ceiling : Option ℤ)
    → proposes e.action ≡ true
    → e.agent_role ≡ ProposerRole.seller
    → pos 1 ≤ℤ cost
    → (enforce m e reservation ceiling (some cost) (some floor) ≡ ok tt)
      ↔ ((reservation ≤ℤ e.offer_value) × (floor *ℤ cost ≤ℤ (e.offer_value -ℤ cost) *ℤ pos 10000))
unfolding enforce
enforce_seller_iff m e reservation cost floor ceiling p b c = (λ h. ground arith, λ h. ground arith)

-- A ceiling of zero, and a confidence below any threshold, veto nothing that a buyer proposes.
enforce_zero_ceiling :
    (m : ℤ) (e : ActionEnvelope) (reservation : ℤ) (cost floor : Option ℤ)
    → e.agent_role ≡ ProposerRole.buyer
    → enforce m e reservation (some (pos 0)) cost floor ≡ ok tt
unfolding enforce
enforce_zero_ceiling m e reservation cost floor b = ground arith
