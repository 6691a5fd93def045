-- ===== src/Compliance/Records/Service.antt =====
-- `generate_compliance_records` of compliance/application/services.py with the queries on the records,
-- over the rows that its database session sees. The snapshots of the enterprises are a parameter; a
-- commit succeeds.
use cadencia_platform.Base.{
  ℕ, Option, none, some, is_none, List, [], ◌∷◌, ◌++◌, if◌then◌else◌, ◌==◌, ℤ, pos, ◌*ℤ◌, Result,
  ok, Action, ◌>>=◌, ◌>>◌, pure, lift, gets, modify, or_raise, not_found, Text, codes,
}
use cadencia_platform.Compliance.Records.{
  GstRecord, generate_gst, FemaRecord, generate_fema, quantize,
}

-- The FEMA and the GST table.
pub record Records : Type 0 where
  pub fema : List FemaRecord
  pub gst : List GstRecord

pub record GenerateCommand : Type 0 where
  pub escrow_id : ℕ
  pub amount_microalgo : ℤ
  pub merkle_root : Text
  pub buyer_enterprise_id : Option ℕ
  pub seller_enterprise_id : Option ℕ
  pub fx_rate_inr_per_algo : Option ℤ
  pub hsn_code : Text

pub record Snapshot : Type 0 where
  pub pan : Text
  pub gstin : Text

-- `get_by_escrow` of the two repositories; the column is unique in both tables.
unfoldable pub fema_of : ℕ → List FemaRecord → Option FemaRecord
fema_of i [] = none
fema_of i (r ∷ rs) = if r.escrow_id == i then some r else fema_of i rs

unfoldable pub gst_of : ℕ → List GstRecord → Option GstRecord
gst_of i [] = none
gst_of i (r ∷ rs) = if r.escrow_id == i then some r else gst_of i rs

-- `cmd.fx_rate_inr_per_algo or _STUB_FX_RATE_INR_PER_ALGO`, in 1/10^8.
unfoldable pub fx_rate : Option ℤ → ℤ
fx_rate none = pos 1_500_000_000
fx_rate (some (pos n)) = if n == 0 then pos 1_500_000_000 else pos n
fx_rate (some r) = r

-- The snapshot of an enterprise that the command names, if the reader knows it.
unfoldable pub snapshot : (ℕ → Option Snapshot) → Option ℕ → Option Snapshot
snapshot reader none = none
snapshot reader (some e) = reader e

abbrev pan_of : Option Snapshot → Text → Text
pan_of none placeholder = placeholder
pan_of (some s) placeholder = s.pan

abbrev gstin_of : Option Snapshot → Text → Text
gstin_of none placeholder = placeholder
gstin_of (some s) placeholder = s.gstin

-- `save` of the records that are missing.
unfoldable pub add_missing : (escrow_id : ℕ) → FemaRecord → GstRecord → Records → Records
unfolding fema_of gst_of
add_missing i f g t = record {
  fema = if is_none (fema_of i t.fema) then t.fema ++ f ∷ [] else t.fema;
  gst = if is_none (gst_of i t.gst) then t.gst ++ g ∷ [] else t.gst;
}

module _ (reader : ℕ → Option Snapshot) where
  -- The FEMA record of a command, with placeholders for unknown parties.
  unfoldable pub new_fema : GenerateCommand → Result FemaRecord
  unfolding generate_fema fx_rate snapshot
  new_fema cmd =
      generate_fema cmd.escrow_id
        (pan_of (snapshot reader cmd.buyer_enterprise_id) (codes "AAAAA0000A"))
        (pan_of (snapshot reader cmd.seller_enterprise_id) (codes "BBBBB0000B"))
        cmd.amount_microalgo (fx_rate cmd.fx_rate_inr_per_algo) cmd.merkle_root (codes "P0108")

  -- The GST record of a command, on the amount rounded to paise.
  unfoldable pub new_gst : GenerateCommand → Result GstRecord
  unfolding generate_gst fx_rate snapshot quantize
  new_gst cmd =
      let exact = cmd.amount_microalgo *ℤ fx_rate cmd.fx_rate_inr_per_algo in
      let taxable = quantize exact 1_000_000_000_000 *ℤ pos 1_000_000_000_000 in
      generate_gst cmd.escrow_id
        (gstin_of (snapshot reader cmd.buyer_enterprise_id) (codes "27AAAAA0000A1Z5"))
        (gstin_of (snapshot reader cmd.seller_enterprise_id) (codes "29BBBBB0000B1Z5")) cmd.hsn_code
        taxable

  unfoldable pub generate_missing : GenerateCommand → Action Records (FemaRecord × GstRecord)
  unfolding new_fema new_gst add_missing
  generate_missing cmd = do
    fema ← lift (new_fema cmd)
    gst ← lift (new_gst cmd)
    modify (add_missing cmd.escrow_id fema gst)
    pure (fema, gst)

  unfoldable pub generate_compliance_records :
      GenerateCommand → Action Records (FemaRecord × GstRecord)
  unfolding fema_of gst_of generate_missing
  generate_compliance_records cmd t = elim (fema_of cmd.escrow_id t.fema) [
    | none ↦ generate_missing cmd t
    | some f ↦ elim (gst_of cmd.escrow_id t.gst) [
      | none ↦ generate_missing cmd t
      | some g ↦ (ok (f, g), t)
    ]
  ]

-- `get_fema_record` and `get_gst_record`.
unfoldable pub get_fema_record : ℕ → Action Records FemaRecord
unfolding fema_of
get_fema_record i = do or_raise (fema_of i (← gets (λ t. t.fema))) not_found

unfoldable pub get_gst_record : ℕ → Action Records GstRecord
unfolding gst_of
get_gst_record i = do or_raise (gst_of i (← gets (λ t. t.gst))) not_found
