-- ===== src/Compliance/Records/Idempotence.antt =====
-- Repeated generation of the records of an escrow, of compliance/application/services.py.
use cadencia_platform.Base.{
  ℕ, ◌≡◌, not, text_eq, true, Option, is_some, List, [], ◌∷◌, ◌++◌, Result, ok, err, is_ok, Text, ℤ,
  arith, ap, inl, inr, Result-cases, Option-cases, subst, ◌∙◌,
}
use cadencia_platform.Compliance.Values.{gstin, hsn_code, state_code, inr_amount}
use cadencia_platform.Compliance.Records.{
  GstRecord, generate_gst, FemaRecord, generate_fema, >>=-ok, taxes, quantize,
}
use cadencia_platform.Compliance.Records.Service.{
  Records, GenerateCommand, Snapshot, fema_of, gst_of, new_fema, new_gst, add_missing,
  generate_missing, generate_compliance_records, get_fema_record, get_gst_record,
}

generate_fema-escrow :
    (escrow : ℕ) (buyer seller : Text) (amount rate : ℤ) (root purpose : Text) {r : FemaRecord}
    → generate_fema escrow buyer seller amount rate root purpose ≡ ok r
    → r.escrow_id ≡ escrow
unfolding generate_fema
generate_fema-escrow escrow buyer seller amount rate root purpose h = ground arith

generate_gst-escrow :
    (escrow : ℕ) (buyer seller hsn : Text) (amount : ℤ) {r : GstRecord}
    → generate_gst escrow buyer seller hsn amount ≡ ok r
    → r.escrow_id ≡ escrow
unfolding generate_gst
generate_gst-escrow escrow buyer seller hsn amount h =
    let (b, eb, after_buyer) = >>=-ok (gstin buyer) _ h in
    let (s, es, after_seller) = >>=-ok (gstin seller) _ after_buyer in
    let (a, ea, after_amount) =
      >>=-ok (inr_amount (quantize amount 1_000_000_000_000)) _ after_seller in
    let (t, et, after_taxes) =
      >>=-ok (taxes (not (text_eq (state_code b) (state_code s))) amount) _ after_amount in
    let (code, ec, built) = >>=-ok (hsn_code hsn) _ after_taxes in ground arith

fema_of-append :
    (i : ℕ) (rs : List FemaRecord) (f : FemaRecord)
    → f.escrow_id ≡ i
    → is_some (fema_of i (rs ++ f ∷ [])) ≡ true
unfolding fema_of
fema_of-append i [] f h = ground arith
fema_of-append i (r ∷ rs) f h = ground (arith, fema_of-append i rs f h)

gst_of-append :
    (i : ℕ) (rs : List GstRecord) (g : GstRecord)
    → g.escrow_id ≡ i
    → is_some (gst_of i (rs ++ g ∷ [])) ≡ true
unfolding gst_of
gst_of-append i [] g h = ground arith
gst_of-append i (r ∷ rs) g h = ground (arith, gst_of-append i rs g h)

add_missing-present :
    (i : ℕ) (f : FemaRecord) (g : GstRecord) (t : Records)
    → f.escrow_id ≡ i
    → g.escrow_id ≡ i
    → let t' = add_missing i f g t in
      (is_some (fema_of i t'.fema) ≡ true) × (is_some (gst_of i t'.gst) ≡ true)
unfolding add_missing
add_missing-present i f g t hf hg =
    let ff = fema_of-append i t.fema f hf in
    let gg = gst_of-append i t.gst g hg in (grind arith, grind arith)

abbrev pub first : {A B : Type 0} → Result (A × B) → Result A
first (ok p) = ok p.0
first (err x) = err x

abbrev pub second : {A B : Type 0} → Result (A × B) → Result B
second (ok p) = ok p.1
second (err x) = err x

-- Both records stand: the generation answers with them and leaves the tables.
generate_present :
    (reader : ℕ → Option Snapshot) (cmd : GenerateCommand) (t : Records)
    → is_some (fema_of cmd.escrow_id t.fema) ≡ true
    → is_some (gst_of cmd.escrow_id t.gst) ≡ true
    → let (r, t') = generate_compliance_records reader cmd t in
      (t' ≡ t)
      × (is_ok r ≡ true)
      × (first r ≡ (get_fema_record cmd.escrow_id t).0)
      × (second r ≡ (get_gst_record cmd.escrow_id t).0)
unfolding generate_compliance_records get_fema_record get_gst_record
generate_present reader cmd t f g = ground arith

module _ (reader : ℕ → Option Snapshot) where
  new_fema-escrow :
      (cmd : GenerateCommand) {f : FemaRecord}
      → new_fema reader cmd ≡ ok f
      → f.escrow_id ≡ cmd.escrow_id
  unfolding new_fema
  new_fema-escrow cmd h = search generate_fema-escrow

  new_gst-escrow :
      (cmd : GenerateCommand) {g : GstRecord}
      → new_gst reader cmd ≡ ok g
      → g.escrow_id ≡ cmd.escrow_id
  unfolding new_gst
  new_gst-escrow cmd h = search generate_gst-escrow

  generate_missing-present :
      (cmd : GenerateCommand) (t t' : Records) {r : FemaRecord × GstRecord}
      → generate_missing reader cmd t ≡ (ok r, t')
      → (is_some (fema_of cmd.escrow_id t'.fema) ≡ true)
        × (is_some (gst_of cmd.escrow_id t'.gst) ≡ true)
  unfolding generate_missing
  generate_missing-present cmd t t' h = elim (Result-cases (new_fema reader cmd)) [
    | inr (x, ef) ↦ absurd (ground arith)
    | inl (f, ef) ↦ elim (Result-cases (new_gst reader cmd)) [
      | inr (x, eg) ↦ absurd (ground arith)
      | inl (g, eg) ↦
          let stored : add_missing cmd.escrow_id f g t ≡ t' = ground arith in
          subst
            (λ u.
              (is_some (fema_of cmd.escrow_id u.fema) ≡ true)
              × (is_some (gst_of cmd.escrow_id u.gst) ≡ true))
            stored
            (add_missing-present cmd.escrow_id f g t (new_fema-escrow cmd ef)
              (new_gst-escrow cmd eg))
    ]
  ]

  generate-present :
      (cmd : GenerateCommand) (t t' : Records) {r : FemaRecord × GstRecord}
      → generate_compliance_records reader cmd t ≡ (ok r, t')
      → (is_some (fema_of cmd.escrow_id t'.fema) ≡ true)
        × (is_some (gst_of cmd.escrow_id t'.gst) ≡ true)
  unfolding generate_compliance_records
  generate-present cmd t t' {r} h =
      let missing = generate_missing-present cmd t t' {r = r} in
      elim (Option-cases (fema_of cmd.escrow_id t.fema)) [
        | inl e ↦ missing (ground arith)
        | inr (f, e) ↦ elim (Option-cases (gst_of cmd.escrow_id t.gst)) [
          | inl k ↦ missing (ground arith)
          | inr (g, k) ↦ ground arith
        ]
      ]

  -- Once a generation for an escrow has returned, any later one for the same escrow returns the stored
  -- records, those that the queries give, and writes nothing, whatever amounts or parties it names.
  pub generate-again :
      (cmd again : GenerateCommand) (t t' : Records) {r : FemaRecord × GstRecord}
      → generate_compliance_records reader cmd t ≡ (ok r, t')
      → again.escrow_id ≡ cmd.escrow_id
      → let (r', t'') = generate_compliance_records reader again t' in
        (t'' ≡ t')
        × (is_ok r' ≡ true)
        × (first r' ≡ (get_fema_record cmd.escrow_id t').0)
        × (second r' ≡ (get_gst_record cmd.escrow_id t').0)
  generate-again cmd again t t' h same =
      let (f, g) = generate-present cmd t t' h in
      let fa = ap (λ i. is_some (fema_of i t'.fema)) same ∙ f in
      let ga = ap (λ i. is_some (gst_of i t'.gst)) same ∙ g in
      let present = generate_present reader again t' fa ga in
      subst
        (λ i.
          let (r', t'') = generate_compliance_records reader again t' in
          (t'' ≡ t')
          × (is_ok r' ≡ true)
          × (first r' ≡ (get_fema_record i t').0)
          × (second r' ≡ (get_gst_record i t').0))
        same present
