-- ===== src/Identity/Wallets/Once.antt =====
-- A challenge of identity/infrastructure/wallet_verifier.py is answered at most once.
use cadencia_platform.Base.{
  ℕ, ◌+◌, ◌≤◌, ◌≡◌, refl, is_some, Bool, true, ◌&&◌, List, [], ◌∷◌, ◌==◌, if◌then◌else◌, Result,
  arith, Text,
}
use cadencia_platform.Identity.Wallets.{Challenge, delete, find, create_challenge, verify_challenge}

-- What happens to the challenges, in any order: one is issued, or an answer to one arrives.
pub data Event : Type 0 where
  issues : (id : ℕ) (nonce : Text) (now enterprise : ℕ) → Event
  answers : (now id : ℕ) (address signature : Text) → Event

abbrev count_if : Bool → ℕ
count_if b = if b then 1 else 0

-- How many challenges are stored under a key.
unfoldable pub stored : ℕ → List Challenge → ℕ
stored i [] = 0
stored i (k ∷ ks) = count_if (k.challenge_id == i) + stored i ks

unfoldable pub issued : ℕ → List Event → ℕ
issued i [] = 0
issued i (Event.issues j nonce now e ∷ vs) = count_if (j == i) + issued i vs
issued i (Event.answers now j address signature ∷ vs) = issued i vs

stored-delete : (i : ℕ) (ks : List Challenge) → stored i (delete i ks) ≡ 0
unfolding stored delete
stored-delete i [] = refl
stored-delete i (k ∷ ks) = ground (arith, stored-delete i ks)

stored-delete-le : (i j : ℕ) (ks : List Challenge) → stored i (delete j ks) ≤ stored i ks
unfolding stored delete
stored-delete-le i j [] = omega arith
stored-delete-le i j (k ∷ ks) = ground (arith, stored-delete-le i j ks)

stored-find : (now i : ℕ) (ks : List Challenge) → is_some (find now i ks) ≡ true → 1 ≤ stored i ks
unfolding stored find
stored-find now i [] h = absurd (cc)
stored-find now i (k ∷ ks) h = ground (arith, stored-find now i ks)

module _ (is_valid_address : Text → Bool)
    (verify_bytes : (message signature address : Text) → Result Bool) where
  -- How many answers to a challenge are accepted in the course of the events.
  unfoldable pub accepted : ℕ → List Event → List Challenge → ℕ
  unfolding create_challenge verify_challenge
  accepted i [] ks = 0
  accepted i (Event.issues j nonce now e ∷ vs) ks =
      accepted i vs (create_challenge j nonce now e ks)
  accepted i (Event.answers now j address signature ∷ vs) ks =
      let (valid, ks') =
        verify_challenge is_valid_address verify_bytes now j address signature ks in
      count_if (j == i && valid) + accepted i vs ks'

  answer-stored :
      (i now j : ℕ) (address signature : Text) (ks : List Challenge)
      → let (valid, ks') =
          verify_challenge is_valid_address verify_bytes now j address signature ks in
        count_if (j == i && valid) + stored i ks' ≤ stored i ks
  unfolding verify_challenge
  answer-stored i now j address signature ks =
      ground (arith, stored-delete j ks, stored-delete-le i j ks, stored-find now j ks)

  create-stored :
      (i j : ℕ) (nonce : Text) (now e : ℕ) (ks : List Challenge)
      → stored i (create_challenge j nonce now e ks) ≤ count_if (j == i) + stored i ks
  unfolding create_challenge stored
  create-stored i j nonce now e ks = ground (arith, stored-delete-le i j ks)

  -- However challenges are issued and answered, a key is accepted at most as often as it was issued, or
  -- already stored: the challenge of a fresh key is accepted once at most.
  pub accepted-le-issued :
      (i : ℕ) (vs : List Event) (ks : List Challenge) → accepted i vs ks ≤ stored i ks + issued i vs
  unfolding accepted issued
  accepted-le-issued i [] ks = omega arith
  accepted-le-issued i (Event.issues j nonce now e ∷ vs) ks = omega (
    arith,
    accepted-le-issued i vs (create_challenge j nonce now e ks),
    create-stored i j nonce now e ks,
  )
  accepted-le-issued i (Event.answers now j address signature ∷ vs) ks =
      let (valid, ks') =
        verify_challenge is_valid_address verify_bytes now j address signature ks in
      omega (arith, accepted-le-issued i vs ks', answer-stored i now j address signature ks)
