-- ===== src/Negotiation/History.antt =====
-- The queries of negotiation/domain/session.py on the offers of a session, oldest first.
use cadencia_platform.Base.{Option, none, some, List, [], ◌∷◌, reverse, if◌then◌else◌, ℤ}
use cadencia_platform.Negotiation.Offers.{ProposerRole, role_eq, Offer}

-- `get_last_buyer_offer` and `get_last_seller_offer`: the first offer of the role in
-- `reversed(self.offers)`.
unfoldable pub first_of_role : ProposerRole → List Offer → Option Offer
first_of_role role [] = none
first_of_role role (o ∷ os) = if role_eq o.proposer_role role then some o else first_of_role role os

unfoldable pub get_last_offer : ProposerRole → List Offer → Option Offer
unfolding first_of_role
get_last_offer role offers = first_of_role role (reverse offers)

-- `get_buyer_prices` and `get_seller_prices`.
unfoldable pub prices_of : ProposerRole → List Offer → List ℤ
prices_of role [] = []
prices_of role (o ∷ os) =
    let rest = prices_of role os in
    if role_eq o.proposer_role role then o.price.amount ∷ rest else rest

-- `next_proposer`, from `self.offers[-1]`.
abbrev pub other_role : ProposerRole → ProposerRole
other_role ProposerRole.buyer = ProposerRole.seller
other_role ProposerRole.seller = ProposerRole.buyer

unfoldable pub last_role : ProposerRole → List Offer → ProposerRole
last_role r [] = r
last_role r (o ∷ os) = last_role o.proposer_role os

unfoldable pub next_proposer : List Offer → ProposerRole
unfolding last_role
next_proposer [] = ProposerRole.buyer
next_proposer (o ∷ os) = other_role (last_role o.proposer_role os)
