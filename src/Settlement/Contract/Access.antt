-- ===== src/Settlement/Contract/Access.antt =====
-- Who may do what to the contract of contracts/escrow_contract.py, and what a freeze stops.
use cadencia_platform.Base.{ℕ, ◌≡◌, ◌⊎◌, ◌≢◌, none, some, List, [], ◌∷◌, arith}
use cadencia_platform.Settlement.Contract.{
  Contract, Payment, Transaction, funds, releases, refunds, freezes, unfreezes, execute,
}

-- The account that sends a transaction.
abbrev pub sender : Transaction → ℕ
sender (funds s receiver paid) = s
sender (releases s root) = s
sender (refunds s reason) = s
sender (freezes s) = s
sender (unfreezes s) = s

-- An accepted transaction that pays out comes from the creator, makes one payment, of the whole
-- escrow amount, to the buyer or to the seller, and finds the contract funded and not frozen.
pub payout_authorised :
    (t : Transaction) (c c' : Contract) (p : Payment) (ps : List Payment)
    → execute t c ≡ some (c', p ∷ ps)
    → (sender t ≡ c.creator)
      × (c.status ≡ 1)
      × (c.frozen ≡ 0)
      × (ps ≡ [])
      × (p.amount ≡ c.amount)
      × ((p.receiver ≡ c.seller) ⊎ (p.receiver ≡ c.buyer))
unfolding execute
payout_authorised (funds s receiver paid) c c' p ps h = ground arith
payout_authorised (releases s root) c c' p ps h = ground arith
payout_authorised (refunds s reason) c c' p ps h = ground arith
payout_authorised (freezes s) c c' p ps h = ground arith
payout_authorised (unfreezes s) c c' p ps h = ground arith

-- While a contract is frozen no transaction moves its status or pays out, and only an unfreeze by
-- the creator lifts the freeze.
frozen_halts :
    (t : Transaction) (c c' : Contract) (ps : List Payment)
    → c.frozen ≡ 1
    → execute t c ≡ some (c', ps)
    → (c'.status ≡ c.status)
      × (ps ≡ [])
      × ((c'.frozen ≡ 1) ⊎ ((t ≡ unfreezes c.creator) × (c'.frozen ≡ 0)))
unfolding execute
frozen_halts (funds s receiver paid) c c' ps f h = ground arith
frozen_halts (releases s root) c c' ps f h = ground arith
frozen_halts (refunds s reason) c c' ps f h = ground arith
frozen_halts (freezes s) c c' ps f h = ground arith
frozen_halts (unfreezes s) c c' ps f h = ground arith

-- Only the buyer, the seller or the creator can freeze, and each of them always can.
freeze_parties :
    (s : ℕ) (c : Contract)
    → ((execute (freezes s) c ≡ none) × (s ≢ c.buyer) × (s ≢ c.seller) × (s ≢ c.creator))
      ⊎ ((execute (freezes s) c ≡ some (record c { frozen = 1 }, []))
          × ((s ≡ c.buyer) ⊎ (s ≡ c.seller) ⊎ (s ≡ c.creator)))
unfolding execute
freeze_parties s c = ground arith
