-- ===== src/Shared/Payments/Proofs.antt =====
-- What an X-Payment-Proof header that shared/api/x402_handler.py accepts looks like, and for how long it is
-- accepted.
use mathlib.Core.List.{append_assoc}
use cadencia_platform.Base.{
  ℕ, ◌≡◌, refl, sym, ap, ◌∙◌, inl, inr, true, false, ◌||◌, Option, some, List, [], ◌∷◌, ◌++◌, ◌==◌,
  ℤ, pos, ◌+ℤ◌, ◌≤ℤ◌, Result, ok, err, is_ok, arith, Text, text_eq, text_eq→eq, text_eq_self, All,
  Bool-cases,
}
use cadencia_platform.Shared.Payments.{
  split, bar, Gate, PaymentProof, int_of, reject_sim_tokens, signed_text, verify_stamp,
  verify_fields, verify_parts, verify_payment_header, is_empty,
}

-- `"|".join(...)`.
abbrev pub join : Text × List Text → Text
join (f, []) = f
join (f, g ∷ gs) = f ++ bar ++ join (g, gs)

join-cons : (c : ℕ) (f : Text) (fs : List Text) → join (c ∷ f, fs) ≡ c ∷ join (f, fs)
join-cons c f [] = refl
join-cons c f (g ∷ gs) = refl

join-split : (t : Text) → join (split t) ≡ t
unfolding split
join-split [] = refl
join-split (c ∷ t) = elim (Bool-cases (c == b'|')) [
  | inl e ↦ rw e (ground (arith, join-split t))
  | inr e ↦ rw e (join-cons c _ _ ∙ ap (λ x. c ∷ x) (join-split t))
]

abbrev pub IsBarFree : Text → Type 0
IsBarFree t = All (λ c. (c == b'|') ≡ false) t

split-append : (f t : Text) → IsBarFree f → split (f ++ bar ++ t) ≡ (f, (split t).0 ∷ (split t).1)
unfolding split
split-append [] t h = refl
split-append (c ∷ f) t h = rw (h.0, split-append f t h.1)

split_field : (f : Text) → IsBarFree f → split f ≡ (f, [])
unfolding split
split_field [] h = refl
split_field (c ∷ f) h = rw (h.0, split_field f h.1)

split-join : (f : Text) (fs : List Text) → All IsBarFree (f ∷ fs) → split (join (f, fs)) ≡ (f, fs)
split-join f [] h = split_field f h.0
split-join f (g ∷ gs) h = rw (split-append f (join (g, gs)) h.0, split-join g gs h.1)

is_empty-append : (f t : Text) → is_empty (f ++ bar ++ t) ≡ false
is_empty-append [] t = refl
is_empty-append (c ∷ f) t = refl

-- What an accepted proof meets: the session that was expected, no less than the amount, an age of at most five
-- minutes, and no simulated transaction unless these are allowed.
abbrev pub Meets : Gate → (now : ℕ) → PaymentProof → Type 0
Meets g now p =
    (p.session_id ≡ g.expected_session_id)
    × (g.expected_amount_microalgo ≤ℤ p.amount)
    × (pos now ≤ℤ (p.timestamp +ℤ pos 300))
    × (reject_sim_tokens g.sim_allowed p.tx_id ≡ ok tt)

Result-unit : (r : Result (Unit {0})) → is_ok r ≡ true → r ≡ ok tt
Result-unit (ok tt) h = refl
Result-unit (err x) h = cc

module _ (hmac : (secret text : Text) → Text) where
  verify_fields-ok :
      (g : Gate) (now : ℕ) (a b c d e : Text) {p : PaymentProof}
      → verify_fields hmac g now a b c d e ≡ ok p
      → Meets g now p
        × ((is_empty g.secret || text_eq e (hmac g.secret (signed_text a b c d))) ≡ true)
  unfolding verify_fields
  verify_fields-ok g now a b c d e h =
      ground
        (arith, text_eq→eq b g.expected_session_id, Result-unit (reject_sim_tokens g.sim_allowed a))

  signed :
      (g : Gate) (a b c d e : Text)
      → (is_empty g.secret || text_eq e (hmac g.secret (signed_text a b c d))) ≡ true
      → is_empty g.secret ≡ false
      → join (a, b ∷ c ∷ d ∷ e ∷ [])
        ≡ signed_text a b c d ++ bar ++ hmac g.secret (signed_text a b c d)
  signed g a b c d e h k =
      let t : e ≡ hmac g.secret (signed_text a b c d) =
        text_eq→eq e (hmac g.secret (signed_text a b c d)) (ground arith) in
      rw t (simp append_assoc)

  verify_parts-ok :
      (g : Gate) (now : ℕ) (parts : Text × List Text) {p : PaymentProof}
      → verify_parts hmac g now parts ≡ ok p
      → Meets g now p
        × (is_empty g.secret ≡ false
            → (body : Text) × (join parts ≡ body ++ bar ++ hmac g.secret body))
  unfolding verify_parts
  verify_parts-ok g now (a, []) h = absurd (cc)
  verify_parts-ok g now (a, b ∷ []) h = absurd (cc)
  verify_parts-ok g now (a, b ∷ c ∷ []) h = absurd (cc)
  verify_parts-ok g now (a, b ∷ c ∷ d ∷ []) h = absurd (cc)
  verify_parts-ok g now (a, b ∷ c ∷ d ∷ e ∷ f ∷ fs) h = absurd (cc)
  verify_parts-ok g now (a, b ∷ c ∷ d ∷ e ∷ []) h =
      let (m, s) = verify_fields-ok g now a b c d e h in
      (m, λ k. (signed_text a b c d, signed g a b c d e s k))

  -- An accepted header is for the session that was expected, of no less than the amount, at most five minutes
  -- old and, unless they are allowed, not of a simulated transaction; and where a secret is set it is some
  -- text followed by a bar and the HMAC of that text.
  pub verify_payment_header_sound :
      (g : Gate) (now : ℕ) (header : Text) {p : PaymentProof}
      → verify_payment_header hmac g now (some header) ≡ ok p
      → Meets g now p
        × (is_empty g.secret ≡ false → (body : Text) × (header ≡ body ++ bar ++ hmac g.secret body))
  unfolding verify_payment_header
  verify_payment_header_sound g now header h =
      let (m, s) = verify_parts-ok g now (split header) (ground (arith, h)) in
      (m, λ k. let (body, e) = s k in (body, sym (join-split header) ∙ e))

  verify_fields-accepts :
      (g : Gate) (now : ℕ) (a b c d e : Text) (amount timestamp : ℤ)
      → int_of c ≡ some amount
      → int_of d ≡ some timestamp
      → e ≡ hmac g.secret (signed_text a b c d)
      → let p : PaymentProof = record {
        tx_id = a;
        session_id = b;
        amount = amount;
        timestamp = timestamp;
      } in
        Meets g now p → verify_fields hmac g now a b c d e ≡ ok p
  unfolding verify_fields
  verify_fields-accepts g now a b c d e amount timestamp hc hd he m =
      let same = text_eq_self e in let expected = text_eq_self b in ground arith

  five :
      (g : Gate) (now : ℕ) (a b c d e : Text)
      → verify_parts hmac g now (a, b ∷ c ∷ d ∷ e ∷ []) ≡ verify_fields hmac g now a b c d e
  unfolding verify_parts
  five g now a b c d e = refl

  -- A header that a payer assembles from five texts without a bar is accepted when it meets this, its amount and
  -- time are numbers, and it is signed.
  pub verify_payment_header-join :
      (g : Gate) (now : ℕ) (a b c d e : Text) (amount timestamp : ℤ)
      → All IsBarFree (a ∷ b ∷ c ∷ d ∷ e ∷ [])
      → int_of c ≡ some amount
      → int_of d ≡ some timestamp
      → e ≡ hmac g.secret (signed_text a b c d)
      → let p : PaymentProof = record {
        tx_id = a;
        session_id = b;
        amount = amount;
        timestamp = timestamp;
      } in
        Meets g now p
        → verify_payment_header hmac g now (some (join (a, b ∷ c ∷ d ∷ e ∷ []))) ≡ ok p
  unfolding verify_payment_header
  verify_payment_header-join g now a b c d e amount timestamp free hc hd he m =
      rw (is_empty-append a _) (
        ap (verify_parts hmac g now) (split-join a (b ∷ c ∷ d ∷ e ∷ []) free)
        ∙ five g now a b c d e
        ∙ verify_fields-accepts g now a b c d e amount timestamp hc hd he m)

  -- A proof that was accepted is accepted again, with the same answer, as long as it is not older than five
  -- minutes: nothing of it is used up, and a time that lies ahead counts as fresh.
  pub verify_payment_header_replayed :
      (g : Gate) (now later : ℕ) (header : Option Text) {p : PaymentProof}
      → verify_payment_header hmac g now header ≡ ok p
      → pos later ≤ℤ (p.timestamp +ℤ pos 300)
      → verify_payment_header hmac g later header ≡ ok p
  unfolding verify_payment_header verify_fields verify_stamp
  verify_payment_header_replayed g now later header h k = ground arith
