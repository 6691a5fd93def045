-- ===== src/Settlement/Values/Formats.antt =====
-- Which texts the identifiers of settlement/domain/value_objects.py accept.
use cadencia_platform.Base.{
  ℕ, zero, suc, ◌≡◌, ◌↔◌, ◌⊎◌, refl, inl, inr, true, [], ◌∷◌, ◌++◌, arith, length, All, ok, Text,
}
use cadencia_platform.Settlement.Values.{is_base32, at_end, matches_base32, tx_id}

-- `n` characters of the class `[A-Z2-7]`, and nothing after them but possibly one line feed.
abbrev pub IsToken : ℕ → Text → Type 0
IsToken n t =
    (body : Text) × (length body ≡ n)
    × All (λ c. is_base32 c ≡ true) body
    × ((t ≡ body) ⊎ (t ≡ body ++ 10 ∷ []))

at_end-IsToken : (t : Text) → at_end t ≡ true → IsToken 0 t
unfolding at_end
at_end-IsToken [] h = ([], refl, tt, inl refl)
at_end-IsToken (c ∷ []) h = ([], refl, tt, inr (ground arith))
at_end-IsToken (c ∷ d ∷ t) h = absurd (cc)

matches-IsToken : (n : ℕ) (t : Text) → matches_base32 n t ≡ true → IsToken n t
unfolding matches_base32
matches-IsToken zero t h = at_end-IsToken t h
matches-IsToken (suc n) [] h = absurd (cc)
matches-IsToken (suc n) (c ∷ t) h =
    let (body, len, all, shape) = matches-IsToken n t (ground arith) in
    (c ∷ body, omega arith, (ground arith, all), ground arith)

IsToken-matches :
    (n : ℕ) (body t : Text)
    → length body ≡ n
    → All (λ c. is_base32 c ≡ true) body
    → (t ≡ body) ⊎ (t ≡ body ++ 10 ∷ [])
    → matches_base32 n t ≡ true
unfolding matches_base32
IsToken-matches zero [] t len all shape = ground arith
IsToken-matches zero (c ∷ body) t len all shape = absurd (omega arith)
IsToken-matches (suc n) [] t len all shape = absurd (omega arith)
IsToken-matches (suc n) (c ∷ body) [] len all shape = ground arith
IsToken-matches (suc n) (c ∷ body) (d ∷ t) len all shape = ground (arith, IsToken-matches n body t)

-- A transaction identifier is accepted exactly when it is 52 base-32 characters, or these and a
-- line feed: the pattern's `$` lets a final line feed pass.
tx_id-IsToken : (t : Text) → (tx_id t ≡ ok t) ↔ IsToken 52 t
unfolding tx_id
tx_id-IsToken t = (
  λ h. matches-IsToken 52 t (ground arith),
  λ k. ground (arith, IsToken-matches 52 k.0 t k.1 k.2 k.3),
)
