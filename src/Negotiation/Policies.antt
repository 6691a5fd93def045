-- ===== src/Negotiation/Policies.antt =====
-- `NegotiationPolicy` of negotiation/domain/policies.py. Ratios are compared by cross
-- multiplication, which agrees with the source's 28-digit `Decimal` and 53-bit `float` arithmetic for
-- prices of at most 10^13 of the smallest unit.
use cadencia_platform.Base.{
  ℕ, ◌+◌, ◌*◌, ◌≡◌, Bool, false, Option, none, some, List, [], ◌∷◌, leb, if◌then◌else◌, ℤ, pos,
  pos_part, neg_part, ◌-ℤ◌, ◌*ℤ◌, leb_ℤ, ltb_ℤ, Result, ok, err, policy_violation, arith,
}
use cadencia_platform.Negotiation.Offers.{ProposerRole, is_buyer, role_eq, Offer}
use cadencia_platform.Negotiation.History.{last_role, next_proposer}

unfoldable pub check_budget_guard : ℤ → ℤ → Result (Unit {0})
check_budget_guard price budget_ceiling =
    if ltb_ℤ budget_ceiling price then err policy_violation else ok tt

-- The margin floor is in hundredths of a percent.
unfoldable pub check_margin_floor : (price cost_basis margin_floor : ℤ) → Result (Unit {0})
check_margin_floor price cost_basis margin_floor =
    if leb_ℤ cost_basis (pos 0)
    then ok tt
    else if ltb_ℤ ((price -ℤ cost_basis) *ℤ pos 10000) (margin_floor *ℤ cost_basis)
    then err policy_violation
    else ok tt

unfoldable pub check_stall : (round_count stall_threshold : ℕ) → Bool
check_stall round_count stall_threshold = leb stall_threshold round_count

-- |a - b|.
abbrev pub distance : ℤ → ℤ → ℕ
distance a b = pos_part (a -ℤ b) + neg_part (a -ℤ b)

-- The gap is at most 2% of the buyer's price.
unfoldable pub within_tolerance : ℤ → ℤ → Bool
within_tolerance b s = if leb_ℤ b (pos 0) then false else leb (100 * distance s b) (2 * pos_part b)

unfoldable pub check_convergence : Option ℤ → Option ℤ → Bool
unfolding within_tolerance
check_convergence none s = false
check_convergence (some b) none = false
check_convergence (some b) (some s) = within_tolerance b s

unfoldable pub check_turn_order : List Offer → ProposerRole → Result (Unit {0})
unfolding last_role
check_turn_order [] role = if is_buyer role then ok tt else err policy_violation
check_turn_order (o ∷ os) role =
    if role_eq (last_role o.proposer_role os) role then err policy_violation else ok tt

-- The policy accepts exactly the role that the session says is next, so strict alternation starts
-- with the buyer.
check_turn_order-next_proposer :
    (os : List Offer) (role : ProposerRole)
    → check_turn_order os role
      ≡ (if role_eq (next_proposer os) role then ok tt else err policy_violation)
unfolding check_turn_order next_proposer
check_turn_order-next_proposer [] ProposerRole.buyer = ground arith
check_turn_order-next_proposer [] ProposerRole.seller = ground arith
check_turn_order-next_proposer (o ∷ os) role = ground arith
