-- ===== src/Negotiation/Session.antt =====
-- The session aggregate of negotiation/domain/session.py: its status machine and its methods. The
-- agreed terms are the text of their JSON; each reading of the clock is an argument.
pub mod Calls
pub mod Invariant
pub mod Progress
use cadencia_platform.Base.{
  ℕ, suc, ◌+◌, ◌*◌, Bool, true, false, not, ◌&&◌, ◌||◌, Option, none, some, List, [], ◌∷◌, ◌++◌,
  reverse, ltb, leb, ◌==◌, if◌then◌else◌, length, ℤ, pos, leb_ℤ, Action, ◌>>=◌, ◌>>◌, pure, gets,
  modify, raise_if, conflict, Text, codes,
}
use cadencia_platform.Negotiation.Offers.{ProposerRole, is_buyer, role_eq, OfferValue, Offer}

abbrev pub max_rounds : ℕ
max_rounds = 20

abbrev pub stall_rounds : ℕ
stall_rounds = 3

abbrev pub max_schema_failures : ℕ
max_schema_failures = 3

pub data SessionStatus : Type 0 where
  init buyer_anchor seller_response round_loop agreed walk_away stalled timeout : SessionStatus
  policy_breach active failed expired human_review : SessionStatus

-- `is_active`: the statuses that accept offers.
abbrev pub is_active : SessionStatus → Bool
is_active SessionStatus.init = true
is_active SessionStatus.buyer_anchor = true
is_active SessionStatus.seller_response = true
is_active SessionStatus.round_loop = true
is_active SessionStatus.active = true
is_active _ = false

-- `is_terminal`: the session is done.
abbrev pub is_terminal : SessionStatus → Bool
is_terminal SessionStatus.agreed = true
is_terminal SessionStatus.walk_away = true
is_terminal SessionStatus.timeout = true
is_terminal SessionStatus.policy_breach = true
is_terminal SessionStatus.failed = true
is_terminal SessionStatus.expired = true
is_terminal _ = false

abbrev pub is_human_review : SessionStatus → Bool
is_human_review SessionStatus.human_review = true
is_human_review _ = false

-- `status not in (INIT, ACTIVE)` of `activate`, negated.
abbrev pub can_activate : SessionStatus → Bool
can_activate SessionStatus.init = true
can_activate SessionStatus.active = true
can_activate _ = false

-- The statuses that `escalate_to_human_review` accepts: not INIT.
abbrev pub can_escalate : SessionStatus → Bool
can_escalate SessionStatus.stalled = true
can_escalate SessionStatus.active = true
can_escalate SessionStatus.round_loop = true
can_escalate SessionStatus.buyer_anchor = true
can_escalate SessionStatus.seller_response = true
can_escalate _ = false

pub record Session : Type 0 where
  pub id : ℕ
  pub updated_at : ℕ
  pub rfq_id : ℕ
  pub match_id : ℕ
  pub buyer_enterprise_id : ℕ
  pub seller_enterprise_id : ℕ
  pub status : SessionStatus
  pub agreed_price : Option OfferValue
  pub agreed_terms : Option Text
  pub round_count : ℕ
  pub offers : List Offer
  pub completed_at : Option ℕ
  pub expires_at : ℕ
  pub schema_failure_count : ℕ
  pub stall_counter : ℕ

-- The events of negotiation/domain/events.py that the methods return.
pub data SessionEvent : Type 0 where
  session_created : (session rfq match_id buyer seller : ℕ) → SessionEvent
  offer_submitted :
      (session offer round : ℕ) → ProposerRole → (price : ℤ) (is_human : Bool) → SessionEvent
  session_agreed :
      (session rfq match_id buyer seller : ℕ) (price : ℤ) (currency terms : Text) → SessionEvent
  session_failed : (session : ℕ) (reason : Text) (round : ℕ) → SessionEvent
  session_escalated : (session round : ℕ) → SessionEvent
  session_expired : (session : ℕ) → SessionEvent

-- The status part of `transition`, which is called with the new offer already in the list.
abbrev next_status : SessionStatus → ProposerRole → ℕ → SessionStatus
next_status SessionStatus.buyer_anchor role n =
    if is_buyer role then SessionStatus.seller_response else SessionStatus.buyer_anchor
next_status SessionStatus.seller_response role n =
    if is_buyer role then SessionStatus.seller_response else SessionStatus.round_loop
next_status SessionStatus.active role n =
    if leb 2 n
    then SessionStatus.round_loop
    else if n == 0
    then SessionStatus.buyer_anchor
    else if n == 1
    then SessionStatus.seller_response
    else SessionStatus.active
next_status s role n = s

unfoldable pub transition : Offer → ℕ → Action Session SessionStatus
transition offer now = do
  modify λ s. record s {
    status = next_status s.status offer.proposer_role (length s.offers);
    updated_at = now;
  }
  gets λ s. s.status

unfoldable pub activate : ℕ → Action Session SessionEvent
activate now = do
  raise_if (not (can_activate (← gets (λ s. s.status)))) conflict
  modify λ s. record s { status = SessionStatus.buyer_anchor; updated_at = now }
  gets λ s. session_created s.id s.rfq_id s.match_id s.buyer_enterprise_id s.seller_enterprise_id

-- `not is_active and status != HUMAN_REVIEW`.
abbrev pub is_closed : SessionStatus → Bool
is_closed s = not (is_active s) && not (is_human_review s)

unfoldable pub add_offer : Offer → (moved now : ℕ) → Action Session SessionEvent
unfolding transition
add_offer offer moved now = do
  raise_if (is_closed (← gets (λ s. s.status))) conflict
  raise_if (leb max_rounds (← gets (λ s. s.round_count))) conflict
  raise_if (not (offer.session_id == (← gets (λ s. s.id)))) conflict
  modify λ s. record s { offers = s.offers ++ offer ∷ []; round_count = s.round_count + 1 }
  transition offer moved
  modify λ s. record s { updated_at = now }
  gets λ s.
      offer_submitted s.id offer.id s.round_count offer.proposer_role offer.price.amount
        offer.is_human_override

unfoldable pub mark_agreed : OfferValue → Text → (completed now : ℕ) → Action Session SessionEvent
mark_agreed price terms completed now = do
  raise_if (not (is_active (← gets (λ s. s.status)))) conflict
  modify λ s. record s {
    status = SessionStatus.agreed;
    agreed_price = some price;
    agreed_terms = some terms;
    completed_at = some completed;
    updated_at = now;
  }
  gets λ s.
      session_agreed s.id s.rfq_id s.match_id s.buyer_enterprise_id s.seller_enterprise_id
        price.amount price.currency terms

-- The reason that an event carries is prefixed: `f"WALK_AWAY: {reason}"`.
unfoldable pub mark_walk_away : Text → (completed now : ℕ) → Action Session SessionEvent
mark_walk_away reason completed now = do
  raise_if (is_closed (← gets (λ s. s.status))) conflict
  modify λ s. record s {
    status = SessionStatus.walk_away;
    completed_at = some completed;
    updated_at = now;
  }
  gets λ s. session_failed s.id (codes "WALK_AWAY: " ++ reason) s.round_count

unfoldable pub mark_failed : Text → (completed now : ℕ) → Action Session SessionEvent
mark_failed reason completed now = do
  raise_if (is_closed (← gets (λ s. s.status))) conflict
  modify λ s. record s {
    status = SessionStatus.failed;
    completed_at = some completed;
    updated_at = now;
  }
  gets λ s. session_failed s.id reason s.round_count

unfoldable pub mark_stalled : ℕ → Action Session SessionEvent
mark_stalled now = do
  raise_if (not (is_active (← gets (λ s. s.status)))) conflict
  modify λ s. record s { status = SessionStatus.stalled; updated_at = now }
  gets λ s. session_escalated s.id s.round_count

unfoldable pub escalate_to_human_review : ℕ → Action Session SessionEvent
escalate_to_human_review now = do
  raise_if (not (can_escalate (← gets (λ s. s.status)))) conflict
  modify λ s. record s { status = SessionStatus.human_review; updated_at = now }
  gets λ s. session_escalated s.id s.round_count

unfoldable pub resume_from_human_review : ℕ → Action Session (Unit {0})
resume_from_human_review now = do
  raise_if (not (is_human_review (← gets (λ s. s.status)))) conflict
  modify λ s. record s {
    status = if leb 2 (length s.offers) then SessionStatus.round_loop else SessionStatus.active;
    updated_at = now;
  }

unfoldable pub mark_timeout : (completed now : ℕ) → Action Session SessionEvent
mark_timeout completed now = do
  raise_if (is_terminal (← gets (λ s. s.status))) conflict
  modify λ s. record s {
    status = SessionStatus.timeout;
    completed_at = some completed;
    updated_at = now;
  }
  gets λ s. session_expired s.id

unfoldable pub mark_expired : (completed now : ℕ) → Action Session SessionEvent
mark_expired completed now = do
  raise_if (is_terminal (← gets (λ s. s.status))) conflict
  modify λ s. record s {
    status = SessionStatus.expired;
    completed_at = some completed;
    updated_at = now;
  }
  gets λ s. session_expired s.id

unfoldable pub mark_policy_breach : Text → (completed now : ℕ) → Action Session SessionEvent
mark_policy_breach reason completed now = do
  raise_if (is_terminal (← gets (λ s. s.status))) conflict
  modify λ s. record s {
    status = SessionStatus.policy_breach;
    completed_at = some completed;
    updated_at = now;
  }
  gets λ s. session_failed s.id (codes "POLICY_BREACH: " ++ reason) s.round_count

unfoldable pub record_schema_failure : ℕ → Action Session Bool
record_schema_failure now = do
  modify λ s. record s { schema_failure_count = s.schema_failure_count + 1; updated_at = now }
  gets λ s. leb max_schema_failures s.schema_failure_count

unfoldable pub record_no_concession : ℕ → Action Session Bool
record_no_concession now = do
  modify λ s. record s { stall_counter = s.stall_counter + 1; updated_at = now }
  gets λ s. leb stall_rounds s.stall_counter

unfoldable pub reset_stall_counter : ℕ → Action Session (Unit {0})
reset_stall_counter now = modify λ s. record s { stall_counter = 0; updated_at = now }

-- `is_expired` at the time `now`.
unfoldable pub is_expired : ℕ → Session → Bool
is_expired now s = ltb s.expires_at now
