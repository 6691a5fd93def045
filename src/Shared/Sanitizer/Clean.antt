-- ===== src/Shared/Sanitizer/Clean.antt =====
-- What `sanitize_llm_input` of shared/api/llm_sanitizer.py lets through.
use cadencia_platform.Base.{
  ℕ, zero, suc, ◌≤◌, ◌≡◌, refl, subst, ap, ◌∙◌, Bool-cases, inl, inr, true, false, [], ◌∷◌, ◌++◌,
  ok, arith, Text, All, length,
}
use cadencia_platform.Shared.Sanitizer.{
  is_injection, is_control, strip_control, take, max_input_length, sanitize_llm_input,
}

abbrev pub IsPlain : Text → Type 0
IsPlain t = All (λ c. is_control c ≡ false) t

strip_control-IsPlain : (t : Text) → IsPlain (strip_control t)
unfolding strip_control
strip_control-IsPlain [] = tt
strip_control-IsPlain (c ∷ t) = elim (Bool-cases (is_control c)) [
  | inl e ↦ rw e (strip_control-IsPlain t)
  | inr e ↦ rw e (e, strip_control-IsPlain t)
]

length-strip_control : (t : Text) → length (strip_control t) ≤ length t
unfolding strip_control
length-strip_control [] = omega arith
length-strip_control (c ∷ t) = ground (arith, length-strip_control t)

length-take : (n : ℕ) (t : Text) → length (take n t) ≤ n
unfolding take
length-take zero t = omega arith
length-take (suc n) [] = omega arith
length-take (suc n) (c ∷ t) = omega (arith, length-take n t)

-- What is let through has no control characters and at most 8000 characters, and the input had none of the
-- patterns.
pub sanitize_llm_input_sound :
    (t : Text) {u : Text}
    → sanitize_llm_input t ≡ ok u
    → IsPlain u × (length u ≤ max_input_length) × (is_injection t ≡ false)
unfolding sanitize_llm_input
sanitize_llm_input_sound t {u} h =
    let e : strip_control (take max_input_length t) ≡ u = ground (arith, h) in
    let plain = strip_control-IsPlain (take max_input_length t) in
    let shorter = length-strip_control (take max_input_length t) in
    let short = length-take max_input_length t in
    (
      subst (λ (x : Text). IsPlain x) e plain,
      omega (arith, ap (λ (x : Text). length x) e),
      ground arith,
    )

strip_control_plain : (v : Text) → IsPlain v → strip_control v ≡ v
unfolding strip_control
strip_control_plain [] h = refl
strip_control_plain (d ∷ v) h = rw (h.0, strip_control_plain v h.1)

take_all : (n : ℕ) (t : Text) → length t ≤ n → take n t ≡ t
unfolding take
take_all zero [] h = refl
take_all zero (c ∷ t) h = absurd (omega arith)
take_all (suc n) [] h = refl
take_all (suc n) (c ∷ t) h = ap (λ (x : Text). c ∷ x) (take_all n t (omega arith))

strip_control-append :
    (u v : Text) (c : ℕ)
    → IsPlain u
    → IsPlain v
    → is_control c ≡ true
    → strip_control (u ++ c ∷ v) ≡ u ++ v
unfolding strip_control
strip_control-append [] v c hu hv h = rw h (strip_control_plain v hv)
strip_control-append (d ∷ u) v c hu hv h = ground (arith, strip_control-append u v c)

-- The patterns are looked for before the control characters are dropped, so a control character inside an
-- injection carries it through: a text in which the two halves are held apart by one comes out with
-- them joined.
pub sanitize_llm_input_smuggles :
    (u v : Text) (c : ℕ)
    → IsPlain u
    → IsPlain v
    → is_control c ≡ true
    → is_injection (u ++ c ∷ v) ≡ false
    → length (u ++ c ∷ v) ≤ max_input_length
    → sanitize_llm_input (u ++ c ∷ v) ≡ ok (u ++ v)
unfolding sanitize_llm_input
sanitize_llm_input_smuggles u v c hu hv h safe short = rw safe (
    ap (λ (x : Text). ok x)
      (ap strip_control (take_all max_input_length (u ++ c ∷ v) short)
        ∙ strip_control-append u v c hu hv h))
