-- ===== src/Identity/Wallets/Links.antt =====
-- What a link of a wallet in wallet/api/router.py and identity/api/router.py requires.
use cadencia_platform.Base.{
  ℕ, ◌<◌, ◌≡◌, refl, Bool, true, false, Option, none, some, List, [], ◌∷◌, Result, ok, arith, Text,
  inl, inr, Option-cases,
}
use cadencia_platform.Identity.{Enterprise}
use cadencia_platform.Identity.Service
use cadencia_platform.Identity.Service.{Office}
use cadencia_platform.Identity.Wallets.{
  Challenge, Wallets, find, active_challenge, verify_challenge, check_challenge, message_of,
  linked_elsewhere, on_office, link_wallet, link_named, delete,
}

active_challenge_lem :
    (now e : ℕ) (ks : List Challenge) {k : Challenge}
    → active_challenge now e ks ≡ some k
    → (k.enterprise_id ≡ e) × (now < k.expires_at)
unfolding active_challenge
active_challenge_lem now e [] h = absurd (cc)
active_challenge_lem now e (c ∷ ks) {k} h = ground (arith, active_challenge_lem now e ks {k = k})

-- The challenges with their enterprises changed.
unfoldable pub reissued : (f : ℕ → ℕ) → List Challenge → List Challenge
reissued f [] = []
reissued f (k ∷ ks) = record k { enterprise_id = f k.enterprise_id } ∷ reissued f ks

abbrev moved_to : (ℕ → ℕ) → Option Challenge → Option Challenge
moved_to f none = none
moved_to f (some k) = some (record k { enterprise_id = f k.enterprise_id })

find-reissued :
    (f : ℕ → ℕ) (now i : ℕ) (ks : List Challenge)
    → find now i (reissued f ks) ≡ moved_to f (find now i ks)
unfolding find reissued
find-reissued f now i [] = refl
find-reissued f now i (k ∷ ks) = ground (arith, find-reissued f now i ks)

module _ (is_valid_address : Text → Bool)
    (verify_bytes : (message signature address : Text) → Result Bool) where
  accepted_challenge_lem :
      (now i : ℕ) (address signature : Text) (ks ks' : List Challenge)
      → verify_challenge is_valid_address verify_bytes now i address signature ks ≡ (true, ks')
      → (is_valid_address address ≡ true)
        × (k : Challenge) × (find now i ks ≡ some k)
        × (verify_bytes (message_of k) signature address ≡ ok true)
        × (ks' ≡ delete i ks)
  unfolding verify_challenge
  accepted_challenge_lem now i address signature ks ks' h = elim (Option-cases (find now i ks)) [
    | inr (k, e) ↦ (ground arith, k, e, ground arith, ground arith)
    | inl e ↦ absurd (ground arith)
  ]

  -- A link by the wallet router that returns has, when it was called: the address not linked to any other
  -- enterprise, an unexpired challenge of that very enterprise, and a stored one under the same key
  -- whose message the address has signed; and the identity service has linked it.
  pub link_wallet_sound :
      (now enterprise user : ℕ) (address signature : Text) (w : Wallets) {e : Enterprise}
      {w' : Wallets}
      → link_wallet is_valid_address verify_bytes now enterprise user address signature w
        ≡ (ok e, w')
      → (linked_elsewhere address enterprise w.office.enterprises ≡ false)
        × (is_valid_address address ≡ true)
        × (Service.link_wallet enterprise user address w.office ≡ (ok e, w'.office))
        × ((c k : Challenge) × (active_challenge now enterprise w.challenges ≡ some c)
            × (find now c.challenge_id w.challenges ≡ some k)
            × (verify_bytes (message_of k) signature address ≡ ok true)
            × (w'.challenges ≡ delete c.challenge_id w.challenges))
  unfolding link_wallet check_challenge on_office
  link_wallet_sound now enterprise user address signature w {e} {w'} h =
      elim (Option-cases (active_challenge now enterprise w.challenges)) [
        | inr (c, found) ↦
            let (free, k, at, signed, rest) =
              accepted_challenge_lem now c.challenge_id address signature w.challenges
                (w'.challenges) (ground arith) in
            (ground arith, free, ground arith, (c, k, found, at, signed, rest))
        | inl missing ↦ absurd (ground arith)
      ]

  -- The link by the identity router does not ask whom the challenge was issued to: with the enterprises of
  -- the challenges changed at will it answers the same, and leaves the same office.
  pub link_named_any :
      (f : ℕ → ℕ) (now enterprise user challenge : ℕ) (address signature : Text) (w : Wallets)
      → let moved = record w { challenges = reissued f w.challenges } in
        let (r, w') =
          link_named is_valid_address verify_bytes now enterprise user challenge address signature
            w in
        let (r', w'') =
          link_named is_valid_address verify_bytes now enterprise user challenge address signature
            moved in
        (r' ≡ r) × (w''.office ≡ w'.office)
  unfolding link_named check_challenge on_office verify_challenge
  link_named_any f now enterprise user challenge address signature w =
      ground (arith, find-reissued f now challenge w.challenges)
