-- ===== src/Marketplace/Confirmation.antt =====
-- How often an RFQ of marketplace/ is confirmed, over series of database sessions.
use cadencia_platform.Base.{
  ℕ, ◌+◌, ◌≤◌, ◌≡◌, refl, true, false, none, some, List, [], ◌∷◌, ◌==◌, ok, err, arith, DomainError,
  ap, sym, subst, Bool, if◌then◌else◌, ◌∙◌, inl, inr, Option-cases, Result-cases, Bool-cases,
}
use cadencia_platform.Marketplace.{Match}
use cadencia_platform.Marketplace.Rows.{
  RfqRow, rfq_row, rfq_model_to_domain, get_rfq_by_id, get_match_by_seller,
}
use cadencia_platform.Marketplace.Service.{Market, confirm_match, ConfirmRfqCommand, confirm_rfq}
use cadencia_platform.Marketplace.Once.{
  confirmations, closed, closed_row, IsOnce, confirm_match-IsOnce,
}

rfq_row-id : (i : ℕ) (ms : List RfqRow) (m : RfqRow) → rfq_row i ms ≡ some m → m.id ≡ i
rfq_row-id i ms m h = (closed_row i ms m h).1

-- A command that does not reach `confirm_match` changes nothing.
confirm_rfq_reached :
    (cmd : ConfirmRfqCommand) (w : Market) (row : RfqRow) (m : Match)
    → rfq_row cmd.rfq_id w.rfqs ≡ some row
    → (row.enterprise_id == cmd.buyer_enterprise_id) ≡ true
    → get_match_by_seller cmd.rfq_id cmd.seller_enterprise_id w.matches ≡ ok (some m)
    → confirm_rfq cmd w ≡ confirm_match (rfq_model_to_domain row) m w
unfolding confirm_rfq get_rfq_by_id rfq_model_to_domain
confirm_rfq_reached cmd w row m h buyer found = ground arith

confirm_rfq_missing :
    (cmd : ConfirmRfqCommand) (w : Market)
    → rfq_row cmd.rfq_id w.rfqs ≡ none
    → (confirm_rfq cmd w).1 ≡ w
unfolding confirm_rfq get_rfq_by_id
confirm_rfq_missing cmd w h = ground arith

confirm_rfq_foreign :
    (cmd : ConfirmRfqCommand) (w : Market) (row : RfqRow)
    → rfq_row cmd.rfq_id w.rfqs ≡ some row
    → (row.enterprise_id == cmd.buyer_enterprise_id) ≡ false
    → (confirm_rfq cmd w).1 ≡ w
unfolding confirm_rfq get_rfq_by_id rfq_model_to_domain
confirm_rfq_foreign cmd w row h k = ground arith

confirm_rfq_ambiguous :
    (cmd : ConfirmRfqCommand) (w : Market) (row : RfqRow) (x : DomainError)
    → rfq_row cmd.rfq_id w.rfqs ≡ some row
    → (row.enterprise_id == cmd.buyer_enterprise_id) ≡ true
    → get_match_by_seller cmd.rfq_id cmd.seller_enterprise_id w.matches ≡ err x
    → (confirm_rfq cmd w).1 ≡ w
unfolding confirm_rfq get_rfq_by_id rfq_model_to_domain
confirm_rfq_ambiguous cmd w row x h k f = ground arith

confirm_rfq_unmatched :
    (cmd : ConfirmRfqCommand) (w : Market) (row : RfqRow)
    → rfq_row cmd.rfq_id w.rfqs ≡ some row
    → (row.enterprise_id == cmd.buyer_enterprise_id) ≡ true
    → get_match_by_seller cmd.rfq_id cmd.seller_enterprise_id w.matches ≡ ok none
    → (confirm_rfq cmd w).1 ≡ w
unfolding confirm_rfq get_rfq_by_id rfq_model_to_domain
confirm_rfq_unmatched cmd w row h k f = ground arith

confirm_rfq-IsOnce :
    (n i : ℕ) (cmd : ConfirmRfqCommand) (w : Market)
    → IsOnce n i w
    → IsOnce n i (confirm_rfq cmd w).1
unfolding rfq_model_to_domain
confirm_rfq-IsOnce n i cmd w once =
    let same : (v : Market) → v ≡ w → IsOnce n i v = λ v e. subst (IsOnce n i) (sym e) once in
    elim (Option-cases (rfq_row cmd.rfq_id w.rfqs)) [
      | inl e ↦ same _ (confirm_rfq_missing cmd w e)
      | inr (row, e) ↦ elim (Bool-cases (row.enterprise_id == cmd.buyer_enterprise_id)) [
        | inr foreign ↦ same _ (confirm_rfq_foreign cmd w row e foreign)
        | inl buyer ↦
            elim (Result-cases
              (get_match_by_seller cmd.rfq_id cmd.seller_enterprise_id w.matches)) [
                | inr (x, f) ↦ same _ (confirm_rfq_ambiguous cmd w row x e buyer f)
                | inl (found, f) ↦ elim (Option-cases found) [
                  | inl k ↦ same _ (confirm_rfq_unmatched cmd w row e buyer (f ∙ ap ok k))
                  | inr (m, k) ↦
                      subst (λ q. IsOnce n i q.1)
                        (sym (confirm_rfq_reached cmd w row m e buyer (f ∙ ap ok k)))
                        (confirm_match-IsOnce n i (rfq_model_to_domain row) m row w
                          (ap (λ j. rfq_row j w.rfqs) (rfq_row-id cmd.rfq_id w.rfqs row e) ∙ e) refl
                          once)
                ]
              ]
      ]
    ]

-- The confirmations of one database session, those that raised among them: each sees what the ones before it
-- have flushed.
unfoldable confirm_all : List ConfirmRfqCommand → Market → Market
unfolding confirm_rfq
confirm_all [] w = w
confirm_all (c ∷ cs) w = confirm_all cs (confirm_rfq c w).1

-- A database session, and whether its caller commits it at the end.
pub record DbSession : Type 0 where
  pub commands : List ConfirmRfqCommand
  pub commits : Bool

-- The end of a session from `w` to `w'`: without a commit the rows are those of before, and what was published
-- stays published.
end_session : Bool → (w w' : Market) → Market
end_session true w w' = w'
end_session false w w' = record w { published = w'.published }

unfoldable pub confirm_sessions : List DbSession → Market → Market
unfolding confirm_all end_session
confirm_sessions [] w = w
confirm_sessions (s ∷ ss) w =
    confirm_sessions ss (end_session s.commits w (confirm_all s.commands w))

unfoldable pub uncommitted : List DbSession → ℕ
uncommitted [] = 0
uncommitted (s ∷ ss) = let rest = uncommitted ss in if s.commits then rest else rest + 1

confirm_all-IsOnce :
    (n i : ℕ) (cs : List ConfirmRfqCommand) (w : Market)
    → IsOnce n i w
    → IsOnce n i (confirm_all cs w)
unfolding confirm_all
confirm_all-IsOnce n i [] w h = h
confirm_all-IsOnce n i (c ∷ cs) w h =
    confirm_all-IsOnce n i cs (confirm_rfq c w).1 (confirm_rfq-IsOnce n i c w h)

closed_bound : (i : ℕ) (ms : List RfqRow) → closed i ms ≤ 1
unfolding closed
closed_bound i [] = omega arith
closed_bound i (m ∷ ms) = ground (arith, closed_bound i ms)

-- A session that is not committed may leave one confirmation more behind.
end_session-IsOnce :
    (n i : ℕ) (commits : Bool) (w w' : Market)
    → IsOnce n i w'
    → IsOnce (if commits then n else n + 1) i (end_session commits w w')
unfolding end_session
end_session-IsOnce n i true w w' h = h
end_session-IsOnce n i false w w' h = let bound = closed_bound i w'.rfqs in omega arith

confirm_sessions-IsOnce :
    (n i : ℕ) (ss : List DbSession) (w : Market)
    → IsOnce n i w
    → IsOnce (n + uncommitted ss) i (confirm_sessions ss w)
unfolding confirm_sessions uncommitted
confirm_sessions-IsOnce n i [] w h = omega arith
confirm_sessions-IsOnce n i (s ∷ ss) w h =
    let w' = confirm_all s.commands w in
    let ended = end_session-IsOnce n i s.commits w w' (confirm_all-IsOnce n i s.commands w h) in
    let rest =
      confirm_sessions-IsOnce (if s.commits then n else n + 1) i ss (end_session s.commits w w')
        ended in
    ground arith

-- Over any series of database sessions, committed at their end or not, in which whatever confirmations are
-- attempted, by whomever and for whichever sellers: the confirmation of an RFQ that was not published before
-- is published at most once for each session that is not committed, and at most once more, and that only if
-- the RFQ is stored as CONFIRMED or SETTLED at the end.
pub confirm_sessions-once :
    (i : ℕ) (ss : List DbSession) (w : Market)
    → confirmations i w.published ≡ 0
    → let w' = confirm_sessions ss w in
      (confirmations i w'.published ≤ uncommitted ss + closed i w'.rfqs) × (closed i w'.rfqs ≤ 1)
confirm_sessions-once i ss w h =
    let once = confirm_sessions-IsOnce 0 i ss w (omega arith) in
    (omega arith, closed_bound i (confirm_sessions ss w).rfqs)
