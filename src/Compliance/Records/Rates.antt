-- ===== src/Compliance/Records/Rates.antt =====
-- The taxes and the form that the records of compliance/ state.
use cadencia_platform.Base.{
  ℕ, ◌+◌, ◌*◌, ◌<◌, ◌≤◌, ◌≡◌, ap, not, Bool, if◌then◌else◌, ℤ, pos, pos_part, ◌*ℤ◌, ok, Text,
  text_eq, half_even, arith,
}
use cadencia_platform.Compliance.Values.{gstin, state_code, hsn_code, inr_amount}
use cadencia_platform.Compliance.Records.{
  TaxType, GstRecord, Taxes, taxes, generate_gst, >>=-ok, quantize, tax_at, FormType, FemaRecord,
  generate_fema, form_of,
}

-- Nearest: twice the distance to the exact quotient is at most the divisor.
abbrev pub IsNearest : (units n d : ℕ) → Type 0
IsNearest units n d = (2 * (units * d) ≤ 2 * n + d) × (2 * n ≤ 2 * (units * d) + d)

half_even-IsNearest : (n : ℕ) → IsNearest (half_even n 100_000_000_000_000) n 100_000_000_000_000
unfolding half_even
half_even-IsNearest n = ground arith

-- The taxes of an exact amount of `n` units, at a rate in per cent.
tax_at_pos : (rate n : ℕ) → tax_at rate (pos n) ≡ pos (half_even (n * rate) 100_000_000_000_000)
unfolding tax_at quantize ◌*ℤ◌
tax_at_pos rate n = grind arith

-- What the taxes on `n` units are.
abbrev pub Regime : TaxType → ℕ → Taxes → Type 0
Regime TaxType.interstate n t =
    IsNearest (pos_part t.igst) (n * 18) 100_000_000_000_000 × (t.cgst ≡ pos 0) × (t.sgst ≡ pos 0)
Regime TaxType.intrastate n t =
    (t.igst ≡ pos 0) × IsNearest (pos_part t.cgst) (n * 9) 100_000_000_000_000 × (t.sgst ≡ t.cgst)

taxes-Regime :
    (is_interstate : Bool) (n : ℕ) {t : Taxes}
    → taxes is_interstate (pos n) ≡ ok t
    → (t.tax_type ≡ (if is_interstate then TaxType.interstate else TaxType.intrastate))
      × Regime t.tax_type n t
unfolding taxes inr_amount
taxes-Regime is_interstate n {t} h =
    let nine = tax_at_pos 9 n in
    let eighteen = tax_at_pos 18 n in
    let nearest_nine = half_even-IsNearest (n * 9) in
    let nearest_eighteen = half_even-IsNearest (n * 18) in ground arith

abbrev pub taxes_of : GstRecord → Taxes
taxes_of r = record {
  tax_type = r.tax_type;
  igst = r.igst_amount;
  cgst = r.cgst_amount;
  sgst = r.sgst_amount;
}

generate_gst-taxes :
    (escrow : ℕ) (buyer seller hsn : Text) (amount : ℤ) {r : GstRecord}
    → generate_gst escrow buyer seller hsn amount ≡ ok r
    → taxes (not (text_eq (state_code r.buyer_gstin) (state_code r.seller_gstin))) amount
      ≡ ok (taxes_of r)
unfolding generate_gst
generate_gst-taxes escrow buyer seller hsn amount {r} h =
    let (b, eb, after_buyer) = >>=-ok (gstin buyer) _ h in
    let (s, es, after_seller) = >>=-ok (gstin seller) _ after_buyer in
    let (a, ea, after_amount) =
      >>=-ok (inr_amount (quantize amount 1_000_000_000_000)) _ after_seller in
    let (t, et, after_taxes) =
      >>=-ok (taxes (not (text_eq (state_code b) (state_code s))) amount) _ after_amount in
    let (code, ec, built) = >>=-ok (hsn_code hsn) _ after_taxes in ground arith

-- A GST record that is generated for an amount of 0 or more applies one regime and the right one: IGST
-- to the nearest paisa of 18 per cent when the state codes of the parties differ, and else CGST and
-- SGST, equal, to the nearest paisa of 9 per cent each; the other taxes are 0.
pub generate_gst-Regime :
    (escrow : ℕ) (buyer seller hsn : Text) (n : ℕ) {r : GstRecord}
    → generate_gst escrow buyer seller hsn (pos n) ≡ ok r
    → (r.tax_type ≡ (
        if not (text_eq (state_code r.buyer_gstin) (state_code r.seller_gstin))
        then TaxType.interstate
        else TaxType.intrastate))
      × Regime r.tax_type n (taxes_of r)
generate_gst-Regime escrow buyer seller hsn n {r} h =
    taxes-Regime _ n (generate_gst-taxes escrow buyer seller hsn (pos n) h)

half_even_halves :
    (n : ℕ)
    → let cgst = half_even (n * 9) 100_000_000_000_000 in
      let igst = half_even (n * 18) 100_000_000_000_000 in
      (cgst + cgst ≤ igst + 1) × (igst ≤ cgst + cgst + 1)
unfolding half_even
half_even_halves n = ground arith

-- The two regimes tax one amount alike, up to a paisa.
regimes_agree :
    (n : ℕ)
    → let within = pos_part (tax_at 9 (pos n)) + pos_part (tax_at 9 (pos n)) in
      let across = pos_part (tax_at 18 (pos n)) in (within ≤ across + 1) × (across ≤ within + 1)
regimes_agree n =
    let nine = ap pos_part (tax_at_pos 9 n) in
    let eighteen = ap pos_part (tax_at_pos 18 n) in let halves = half_even_halves n in grind arith

exact_amount : (amount rate : ℕ) → pos amount *ℤ pos rate ≡ pos (amount * rate)
unfolding ◌*ℤ◌
exact_amount amount rate = grind arith

rounds_up :
    (n : ℕ)
    → 49_999_999_500_000_000_000 < n
    → n < 50_000_000_000_000_000_000
    → (inr_amount (quantize (pos n) 1_000_000_000_000) ≡ ok (pos 50_000_000))
      × (form_of (pos n) ≡ FormType.form_15ca)
unfolding inr_amount quantize half_even form_of
rounds_up n low high = ground arith

-- The form follows the exact amount, and the stored amount is rounded: a record of an amount of less
-- than half a paisa under 500000 INR states 500000.00 INR and the form 15CA.
generate_fema_rounded :
    (escrow : ℕ) (buyer seller : Text) (amount rate : ℕ) (root purpose : Text) {r : FemaRecord}
    → generate_fema escrow buyer seller (pos amount) (pos rate) root purpose ≡ ok r
    → 49_999_999_500_000_000_000 < amount * rate
    → amount * rate < 50_000_000_000_000_000_000
    → (r.amount_inr ≡ pos 50_000_000) × (r.form_type ≡ FormType.form_15ca)
unfolding generate_fema
generate_fema_rounded escrow buyer seller amount rate root purpose {r} h low high =
    let exact = exact_amount amount rate in
    let (rounded, form) = rounds_up (amount * rate) low high in ground arith
