-- ===== src/Identity/WalletTests.antt =====
-- Two challenges and their answers, on which the theorems on identity/infrastructure/wallet_verifier.py apply.
use cadencia_platform.Base.{◌+◌, ◌≤◌, true, List, [], ◌∷◌, ok, codes}
use cadencia_platform.Identity.Wallets.Once.{Event, stored, issued, accepted, accepted-le-issued}

-- A challenge that is issued, answered and answered again.
abbrev history : List Event
history =
    Event.issues 4 (codes "n") 10 7
    ∷ Event.answers 20 4 (codes "A") (codes "S")
    ∷ Event.answers 21 4 (codes "A") (codes "S")
    ∷ []

accepted-le-issued_example :
    accepted (λ t. true) (λ m s a. ok true) 4 history [] ≤ stored 4 [] + issued 4 history
accepted-le-issued_example = accepted-le-issued (λ t. true) (λ m s a. ok true) 4 history []
