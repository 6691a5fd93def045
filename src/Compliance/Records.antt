-- ===== src/Compliance/Records.antt =====
-- The GST and FEMA records of compliance/domain/gst_record.py and fema_record.py. An exact amount in INR
-- is a whole number of 1/10^14, since it is a number of microalgo times a rate of 1/10^8; a stored one is
-- a whole number of paise. Identifiers and times of the records are left out.
pub mod Rates
pub mod Service
pub mod Idempotence
use cadencia_platform.Base.{
  ℕ, ◌*◌, ◌≡◌, refl, arith, Bool, true, false, not, if◌then◌else◌, ℤ, pos, negsuc, suc, ◌+ℤ◌, ◌-ℤ◌,
  ◌*ℤ◌, leb_ℤ, Result, ok, err, Text, codes, text_eq, half_even,
}
use cadencia_platform.Compliance.Values.{
  gstin, state_code, hsn_code, pan_number, purpose_code, inr_amount,
}

-- IGST is `interstate`, CGST_SGST is `intrastate`.
pub data TaxType : Type 0 where
  interstate intrastate : TaxType

pub record GstRecord : Type 0 where
  pub escrow_id : ℕ
  pub hsn_code : Text
  pub buyer_gstin : Text
  pub seller_gstin : Text
  pub tax_type : TaxType
  pub taxable_amount : ℤ
  pub igst_amount : ℤ
  pub cgst_amount : ℤ
  pub sgst_amount : ℤ

-- `n / d` rounded half to even, which is symmetric in the sign.
unfoldable pub quantize : ℤ → ℕ → ℤ
unfolding half_even
quantize (pos n) d = pos (half_even n d)
quantize (negsuc n) d = pos 0 -ℤ pos (half_even (suc n) d)

-- `(taxable * rate / 100).quantize(0.01)`, in paise.
unfoldable pub tax_at : ℕ → ℤ → ℤ
unfolding quantize
tax_at rate taxable = quantize (taxable *ℤ pos rate) 100_000_000_000_000

-- The exception of the first step ends the second.
infixl 5 ◌>>=◌
abbrev ◌>>=◌ : {A B : Type 0} → Result A → (A → Result B) → Result B
ok a >>= k = k a
err x >>= k = err x

pub record Taxes : Type 0 where
  pub tax_type : TaxType
  pub igst : ℤ
  pub cgst : ℤ
  pub sgst : ℤ

-- The taxes that either branch of `GSTRecord.generate` states.
unfoldable pub taxes : (is_interstate : Bool) → (taxable_amount_inr : ℤ) → Result Taxes
unfolding inr_amount tax_at
taxes true amount = do
  igst ← inr_amount (tax_at 18 amount)
  ok (record { tax_type = TaxType.interstate; igst = igst; cgst = pos 0; sgst = pos 0 })
taxes false amount = do
  cgst ← inr_amount (tax_at 9 amount)
  sgst ← inr_amount (tax_at 9 amount)
  ok (record { tax_type = TaxType.intrastate; igst = pos 0; cgst = cgst; sgst = sgst })

-- Inversion of a step that returned.
module _ {A B : Type 0} where
  >>=-ok :
      (m : Result A) (k : A → Result B) {b : B}
      → (m >>= k) ≡ ok b
      → (a : A) × (m ≡ ok a) × (k a ≡ ok b)
  >>=-ok (ok a) k h = (a, refl, h)
  >>=-ok (err x) k h = absurd (ground arith)

-- `GSTRecord.generate`.
unfoldable pub generate_gst :
    (escrow_id : ℕ)
    → (buyer_gstin seller_gstin hsn : Text) → (taxable_amount_inr : ℤ) → Result GstRecord
unfolding gstin state_code hsn_code inr_amount quantize taxes text_eq
generate_gst escrow_id buyer_gstin seller_gstin hsn taxable_amount_inr = do
  buyer ← gstin buyer_gstin
  seller ← gstin seller_gstin
  taxable ← inr_amount (quantize taxable_amount_inr 1_000_000_000_000)
  tax ← taxes (not (text_eq (state_code buyer) (state_code seller))) taxable_amount_inr
  code ← hsn_code hsn
  ok (record {
    escrow_id = escrow_id;
    hsn_code = code;
    buyer_gstin = buyer;
    seller_gstin = seller;
    tax_type = tax.tax_type;
    taxable_amount = taxable;
    igst_amount = tax.igst;
    cgst_amount = tax.cgst;
    sgst_amount = tax.sgst;
  })

-- `total_tax`.
unfoldable pub total_tax : GstRecord → ℤ
total_tax r = r.igst_amount +ℤ r.cgst_amount +ℤ r.sgst_amount

-- 15CA and 15CB.
pub data FormType : Type 0 where
  form_15ca form_15cb : FormType

pub record FemaRecord : Type 0 where
  pub escrow_id : ℕ
  pub form_type : FormType
  pub purpose_code : Text
  pub buyer_pan : Text
  pub seller_pan : Text
  pub amount_inr : ℤ
  pub amount_microalgo : ℤ
  pub fx_rate_inr_per_algo : ℤ
  pub merkle_root : Text

-- The form of an exact amount: 500000 INR or more take 15CB.
unfoldable pub form_of : ℤ → FormType
form_of amount_inr =
    if leb_ℤ (pos 50_000_000_000_000_000_000) amount_inr
    then FormType.form_15cb
    else FormType.form_15ca

-- `FEMARecord.generate`.
unfoldable pub generate_fema :
    (escrow_id : ℕ)
    → (buyer_pan seller_pan : Text) → (amount_microalgo fx_rate_inr_per_algo : ℤ)
    → (merkle_root purpose : Text) → Result FemaRecord
unfolding form_of purpose_code pan_number inr_amount quantize
generate_fema escrow_id buyer_pan seller_pan amount_microalgo fx_rate merkle_root purpose = do
  let amount_inr = amount_microalgo *ℤ fx_rate
  code ← purpose_code purpose
  buyer ← pan_number buyer_pan
  seller ← pan_number seller_pan
  amount ← inr_amount (quantize amount_inr 1_000_000_000_000)
  ok (record {
    escrow_id = escrow_id;
    form_type = form_of amount_inr;
    purpose_code = code;
    buyer_pan = buyer;
    seller_pan = seller;
    amount_inr = amount;
    amount_microalgo = amount_microalgo;
    fx_rate_inr_per_algo = fx_rate;
    merkle_root = merkle_root;
  })
