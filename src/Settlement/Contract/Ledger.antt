-- ===== src/Settlement/Contract/Ledger.antt =====
-- The money of the contract of contracts/escrow_contract.py: what came in by `fund` and what went
-- out by inner payments, over any history of transactions from any senders.
use cadencia_platform.Base.{
  ℕ, ◌+◌, ◌≡◌, ◌∙◌, refl, ◌⊎◌, none, some, List, [], ◌∷◌, arith, ◌==◌, if◌then◌else◌, Text,
}
use mathlib.Core.Path.{subst}
use cadencia_platform.Settlement.Contract.{
  Contract, Payment, Outcome, initialize, Transaction, funds, releases, refunds, freezes, unfreezes,
  execute,
}

-- What has been paid to the contract and by it, so far.
pub record Ledger : Type 0 where
  pub contract : Contract
  pub received : ℕ
  pub to_seller : ℕ
  pub to_buyer : ℕ

-- What an accepted transaction pays in.
abbrev pub paid_in : Transaction → ℕ
paid_in (funds sender receiver paid) = paid
paid_in _ = 0

-- What the inner payments pay to one account.
abbrev pub paid_to : ℕ → List Payment → ℕ
paid_to a [] = 0
paid_to a (p ∷ ps) = (if p.receiver == a then p.amount else 0) + paid_to a ps

settle : Transaction → Outcome → Ledger → Ledger
settle t none l = l
settle t (some (c, ps)) l = record {
  contract = c;
  received = l.received + paid_in t;
  to_seller = l.to_seller + paid_to l.contract.seller ps;
  to_buyer = l.to_buyer + paid_to l.contract.buyer ps;
}

pub step : Ledger → Transaction → Ledger
unfolding settle
step l t = settle t (execute t l.contract) l

pub run : Ledger → List Transaction → Ledger
run l [] = l
run l (t ∷ ts) = run (step l t) ts

-- A contract just created, with nothing paid.
pub opened : (sender address buyer seller amount : ℕ) → Text → Ledger
unfolding initialize
opened sender address buyer seller amount session = record {
  contract = initialize sender address buyer seller amount session;
  received = 0;
  to_seller = 0;
  to_buyer = 0;
}

-- The status says where the escrow amount is.
abbrev pub Located : (status amount received to_seller to_buyer : ℕ) → Type 0
Located status amount received to_seller to_buyer =
    ((status ≡ 0) × (received ≡ 0) × (to_seller ≡ 0) × (to_buyer ≡ 0))
    ⊎ ((status ≡ 1) × (received ≡ amount) × (to_seller ≡ 0) × (to_buyer ≡ 0))
    ⊎ ((status ≡ 2) × (received ≡ amount) × (to_seller ≡ amount) × (to_buyer ≡ 0))
    ⊎ ((status ≡ 3) × (received ≡ amount) × (to_seller ≡ 0) × (to_buyer ≡ amount))

pub record IsSound (l : Ledger) : Type 0 where
  pub parties : ¬ (l.contract.seller ≡ l.contract.buyer)
  pub located : Located l.contract.status l.contract.amount l.received l.to_seller l.to_buyer

step-IsSound : (l : Ledger) (t : Transaction) → IsSound l → IsSound (step l t)
unfolding step execute
step-IsSound l (funds sender receiver paid) h = ground arith
step-IsSound l (releases sender root) h = ground arith
step-IsSound l (refunds sender reason) h = ground arith
step-IsSound l (freezes sender) h = ground arith
step-IsSound l (unfreezes sender) h = ground arith

run-IsSound : (l : Ledger) (ts : List Transaction) → IsSound l → IsSound (run l ts)
unfolding run
run-IsSound l [] h = h
run-IsSound l (t ∷ ts) h = run-IsSound (step l t) ts (step-IsSound l t h)

step_amount : (l : Ledger) (t : Transaction) → (step l t).contract.amount ≡ l.contract.amount
unfolding step execute
step_amount l (funds sender receiver paid) = ground arith
step_amount l (releases sender root) = ground arith
step_amount l (refunds sender reason) = ground arith
step_amount l (freezes sender) = ground arith
step_amount l (unfreezes sender) = ground arith

run_amount : (l : Ledger) (ts : List Transaction) → (run l ts).contract.amount ≡ l.contract.amount
unfolding run
run_amount l [] = refl
run_amount l (t ∷ ts) = run_amount (step l t) ts ∙ step_amount l t

opened-IsSound :
    (sender address buyer seller amount : ℕ) (session : Text)
    → ¬ (seller ≡ buyer)
    → IsSound (opened sender address buyer seller amount session)
unfolding opened
opened-IsSound sender address buyer seller amount session ne = ground arith

opened_amount :
    (sender address buyer seller amount : ℕ) (session : Text)
    → (opened sender address buyer seller amount session).contract.amount ≡ amount
unfolding opened
opened_amount sender address buyer seller amount session = refl

-- Whatever transactions anybody sends to a fresh contract between two different parties, the
-- status says where the agreed amount is: nowhere yet (0), held (1), with the seller in full (2) or
-- with the buyer in full (3). Nothing else was ever paid in or out.
pub funds-Located :
    (sender address buyer seller amount : ℕ) (session : Text) (ts : List Transaction)
    → ¬ (seller ≡ buyer)
    → let l = run (opened sender address buyer seller amount session) ts in
      Located l.contract.status amount l.received l.to_seller l.to_buyer
funds-Located sender address buyer seller amount session ts ne =
    let l = opened sender address buyer seller amount session in
    let same = run_amount l ts ∙ opened_amount sender address buyer seller amount session in
    subst
      (λ n.
        Located (run l ts).contract.status n (run l ts).received (run l ts).to_seller
          (run l ts).to_buyer)
      same (run-IsSound l ts (opened-IsSound sender address buyer seller amount session ne)).located
