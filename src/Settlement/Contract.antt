-- ===== src/Settlement/Contract.antt =====
-- The on-chain escrow of contracts/escrow_contract.py. A failed `assert` rejects the transaction,
-- which then leaves no trace; the inner payments that a call submits are part of its result.
-- Accounts are numbers that are only compared. What the ledger does with a payment is not modelled.
pub mod Ledger
pub mod Access
use cadencia_platform.Base.{
  ℕ, Bool, true, false, not, ◌&&◌, ◌||◌, Option, none, some, List, [], ◌∷◌, ◌==◌, if◌then◌else◌,
  Text,
}

-- The global state, with the two addresses that the chain keeps beside it.
pub record Contract : Type 0 where
  pub creator : ℕ
  pub address : ℕ
  pub buyer : ℕ
  pub seller : ℕ
  pub amount : ℕ
  pub session_id : Text
  pub status : ℕ
  pub frozen : ℕ

pub record Payment : Type 0 where
  pub receiver : ℕ
  pub amount : ℕ
  pub note : Text

-- `none` is a rejected transaction.
abbrev pub Outcome : Type 0
Outcome = Option (Contract × List Payment)

abbrev pub assert : Bool → Outcome → Outcome
assert true rest = rest
assert false rest = none

-- `initialize`, the create transaction, whose sender the chain records as the creator.
pub initialize : (sender address buyer seller amount : ℕ) → Text → Contract
initialize sender address buyer seller amount session = record {
  creator = sender;
  address = address;
  buyer = buyer;
  seller = seller;
  amount = amount;
  session_id = session;
  status = 0;
  frozen = 0;
}

-- `fund`: the payment of the same group names its receiver and its amount.
unfoldable pub fund : (receiver paid : ℕ) → Contract → Outcome
fund receiver paid c = assert (c.status == 0) (
    assert (c.frozen == 0) (
      assert (receiver == c.address)
        (assert (paid == c.amount) (some (record c { status = 1 }, [])))))

unfoldable pub release : (sender : ℕ) (root : Text) → Contract → Outcome
release sender root c = assert (sender == c.creator) (
    assert (c.status == 1) (
      assert (c.frozen == 0) (
        some (
          record c { status = 2 },
          record { receiver = c.seller; amount = c.amount; note = root } ∷ [],
        ))))

unfoldable pub refund : (sender : ℕ) (reason : Text) → Contract → Outcome
refund sender reason c = assert (sender == c.creator) (
    assert (c.status == 1) (
      assert (c.frozen == 0) (
        some (
          record c { status = 3 },
          record { receiver = c.buyer; amount = c.amount; note = reason } ∷ [],
        ))))

unfoldable pub freeze : (sender : ℕ) → Contract → Outcome
freeze sender c =
    assert (sender == c.buyer || sender == c.seller || sender == c.creator)
      (some (record c { frozen = 1 }, []))

unfoldable pub unfreeze : (sender : ℕ) → Contract → Outcome
unfreeze sender c =
    assert (sender == c.creator) (assert (c.frozen == 1) (some (record c { frozen = 0 }, [])))

-- A transaction that anybody may send to the deployed application.
pub data Transaction : Type 0 where
  funds : (sender receiver paid : ℕ) → Transaction
  releases : (sender : ℕ) (root : Text) → Transaction
  refunds : (sender : ℕ) (reason : Text) → Transaction
  freezes unfreezes : (sender : ℕ) → Transaction

unfoldable pub execute : Transaction → Contract → Outcome
unfolding fund release refund freeze unfreeze
execute (funds sender receiver paid) = fund receiver paid
execute (releases sender root) = release sender root
execute (refunds sender reason) = refund sender reason
execute (freezes sender) = freeze sender
execute (unfreezes sender) = unfreeze sender
