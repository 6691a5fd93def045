-- ===== src/Negotiation/Session/Invariant.antt =====
-- The invariant of the sessions of negotiation/domain/session.py.
use cadencia_platform.Base.{
  ℕ, ◌≤◌, ◌≡◌, Bool, true, false, none, is_some, List, [], ◌∷◌, arith, length, ◌++◌, ◌==◌, ◌&&◌,
  length-append,
}
use cadencia_platform.Negotiation.Offers.{Offer}
use cadencia_platform.Negotiation.Session.{Session, SessionStatus, is_terminal, max_rounds}
use cadencia_platform.Negotiation.Session.Calls.{Call, perform, run}

abbrev pub is_agreed : SessionStatus → Bool
is_agreed SessionStatus.agreed = true
is_agreed _ = false

-- Every offer in the list names the session.
pub all_owned : ℕ → List Offer → Bool
all_owned i [] = true
all_owned i (o ∷ os) = o.session_id == i && all_owned i os

all_owned-append :
    (i : ℕ) (os : List Offer) (o : Offer)
    → all_owned i (os ++ o ∷ []) ≡ (all_owned i os && o.session_id == i)
unfolding all_owned
all_owned-append i [] o = ground arith
all_owned-append i (x ∷ os) o = ground (arith, all_owned-append i os o)

pub record IsValid (s : Session) : Type 0 where
  pub counted : s.round_count ≡ length s.offers
  pub bounded : s.round_count ≤ max_rounds
  pub owned : all_owned s.id s.offers ≡ true
  pub completed : is_some s.completed_at ≡ is_terminal s.status
  pub priced : is_some s.agreed_price ≡ is_agreed s.status
  pub answered : s.status ≡ SessionStatus.seller_response → 1 ≤ s.round_count
  pub looping : s.status ≡ SessionStatus.round_loop → 2 ≤ s.round_count

-- Every call keeps a session valid: its rounds are counted and at most twenty, its offers are its
-- own, a completion time stands exactly with a terminal status and an agreed price exactly with
-- AGREED, and the anchor and the response have been made before the round loop.
perform-IsValid : (c : Call) (s : Session) → IsValid s → IsValid (perform c s).1
unfolding perform
perform-IsValid (Call.offers o moved now) s h =
    ground (arith, length-append s.offers (o ∷ []), all_owned-append s.id s.offers o)
perform-IsValid (Call.activates now) s h = ground arith
perform-IsValid c s h = ground arith

-- A session as `create_session` builds it, with no offers and nothing decided.
pub record IsFresh (s : Session) : Type 0 where
  pub status : s.status ≡ SessionStatus.init
  pub offers : s.offers ≡ []
  pub round_count : s.round_count ≡ 0
  pub agreed_price : s.agreed_price ≡ none
  pub completed_at : s.completed_at ≡ none

run-IsValid : (cs : List Call) (s : Session) → IsValid s → IsValid (run cs s)
unfolding run
run-IsValid [] s h = h
run-IsValid (c ∷ cs) s h = run-IsValid cs (perform c s).1 (perform-IsValid c s h)

-- Any history of calls on a fresh session, whatever was refused on the way, leaves it valid: its rounds
-- are counted and at most twenty, its offers are its own, a completion time stands exactly with a
-- terminal status and an agreed price exactly with AGREED.
pub run_fresh-IsValid : (cs : List Call) (s : Session) → IsFresh s → IsValid (run cs s)
unfolding all_owned
run_fresh-IsValid cs s h = run-IsValid cs s (ground arith)
