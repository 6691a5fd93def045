-- ===== src/Compliance/RecordTests.antt =====
-- Records of two parties in different states, on which the theorems on the GST and FEMA records apply.
use cadencia_platform.Base.{ℕ, true, ◌≡◌, refl, Option, none, some, [], pos, is_ok, codes, ◌*ℤ◌}
use cadencia_platform.Compliance.Records.{TaxType, GstRecord, generate_gst, FormType, FemaRecord}
use cadencia_platform.Compliance.Records.Rates.{Regime, taxes_of, generate_gst-Regime}
use cadencia_platform.Compliance.Records.Service.{
  Records, GenerateCommand, Snapshot, generate_compliance_records, get_fema_record, get_gst_record,
}
use cadencia_platform.Compliance.Records.Idempotence.{first, second, generate-again}

abbrev interstate : GstRecord
interstate = record {
  escrow_id = 5;
  hsn_code = codes "8471";
  buyer_gstin = codes "27AAAAA0000A1Z5";
  seller_gstin = codes "29BBBBB0000B1Z5";
  tax_type = TaxType.interstate;
  taxable_amount = pos 10_000;
  igst_amount = pos 1800;
  cgst_amount = pos 0;
  sgst_amount = pos 0;
}

generate_gst-Regime_example :
    (interstate.tax_type ≡ TaxType.interstate)
    × Regime TaxType.interstate 10_000_000_000_000_000 (taxes_of interstate)
unfolding generate_gst ◌*ℤ◌
generate_gst-Regime_example =
    generate_gst-Regime 5 (codes " 27aaaaa0000a1z5 ") (codes "29BBBBB0000B1Z5") (codes "8471")
      10_000_000_000_000_000 {r = interstate} refl

abbrev fema : FemaRecord
fema = record {
  escrow_id = 5;
  form_type = FormType.form_15ca;
  purpose_code = codes "P0108";
  buyer_pan = codes "AAAAA0000A";
  seller_pan = codes "BBBBB0000B";
  amount_inr = pos 50_000_000;
  amount_microalgo = pos 33_333_333_333;
  fx_rate_inr_per_algo = pos 1_500_000_000;
  merkle_root = codes "root";
}

abbrev command : GenerateCommand
command = record {
  escrow_id = 5;
  amount_microalgo = pos 33_333_333_333;
  merkle_root = codes "root";
  buyer_enterprise_id = none;
  seller_enterprise_id = some 8;
  fx_rate_inr_per_algo = none;
  hsn_code = codes "8471";
}

abbrev unknown : ℕ → Option Snapshot
unknown e = none

abbrev empty : Records
empty = record { fema = []; gst = [] }

abbrev stored : Records
stored = (generate_compliance_records unknown command empty).1

generate-again_example :
    let again = record command { amount_microalgo = pos 1 } in
    let (r', t'') = generate_compliance_records unknown again stored in
    (t'' ≡ stored)
    × (is_ok r' ≡ true)
    × (first r' ≡ (get_fema_record 5 stored).0)
    × (second r' ≡ (get_gst_record 5 stored).0)
unfolding generate_compliance_records ◌*ℤ◌
generate-again_example =
    generate-again unknown command (record command { amount_microalgo = pos 1 }) empty stored refl
      refl
