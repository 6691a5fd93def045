-- ===== src/Treasury/Positions.antt =====
-- `FXPosition` of treasury/domain/fx_position.py. Rates are whole numbers of 1/10^8 and the notional
-- amount one of paise; a profit is kept as an exact quotient, before `Decimal` rounds it.
use cadencia_platform.Base.{
  ℕ, zero, suc, ◌≡◌, refl, Bool, false, Option, none, some, if◌then◌else◌, ◌==◌, ℤ, pos, negsuc,
  ◌-ℤ◌, ◌*ℤ◌, ◌<ℤ◌, ◌↔◌, Result, ok, err, Action, policy_violation, Text, codes, text_eq, arith,
  int_laws,
}

pub data Direction : Type 0 where
  long short : Direction

-- OPEN is `live`.
pub data PositionStatus : Type 0 where
  live closed : PositionStatus

pub record FxPosition : Type 0 where
  pub id : ℕ
  pub enterprise_id : ℕ
  pub currency_pair : Text
  pub direction : Direction
  pub notional_amount : ℤ
  pub entry_rate : ℤ
  pub current_rate : ℤ
  pub status : PositionStatus
  pub closed_at : Option ℕ

-- `direction in ("LONG", "SHORT")`.
unfoldable pub direction_of : Text → Option Direction
direction_of t =
    if text_eq t (codes "LONG")
    then some Direction.long
    else if text_eq t (codes "SHORT")
    then some Direction.short
    else none

-- `FXPosition(...)` of `open_fx_position`, with the check of `__post_init__`.
unfoldable pub fx_position :
    (id enterprise : ℕ) → (pair direction : Text) → (notional entry : ℤ) → Result FxPosition
unfolding direction_of
fx_position id enterprise pair direction notional entry = elim (direction_of direction) [
  | none ↦ err policy_violation
  | some d ↦ ok (record {
    id = id;
    enterprise_id = enterprise;
    currency_pair = pair;
    direction = d;
    notional_amount = notional;
    entry_rate = entry;
    current_rate = entry;
    status = PositionStatus.live;
    closed_at = none;
  })
]

-- A profit or loss: `dividend / divisor`.
pub record Pnl : Type 0 where
  pub dividend : ℤ
  pub divisor : ℤ

abbrev is_zero : ℤ → Bool
is_zero (pos n) = n == 0
is_zero (negsuc n) = false

abbrev pub signed_delta : Direction → ℤ → ℤ → ℤ
signed_delta Direction.long current entry = current -ℤ entry
signed_delta Direction.short current entry = pos 0 -ℤ (current -ℤ entry)

-- The direction in which a rate has to move for a gain: up for LONG, down for SHORT.
abbrev pub Favours : Direction → (current entry : ℤ) → Type 0
Favours Direction.long current entry = entry <ℤ current
Favours Direction.short current entry = current <ℤ entry

unfoldable pub unrealized_pnl : FxPosition → Pnl
unrealized_pnl f =
    if is_zero f.entry_rate then record { dividend = pos 0; divisor = pos 1 } else record {
      dividend = f.notional_amount *ℤ signed_delta f.direction f.current_rate f.entry_rate;
      divisor = f.entry_rate;
    }

unfoldable pub update_current_rate : ℤ → FxPosition → FxPosition
update_current_rate rate f = record f { current_rate = rate }

unfoldable pub close : (now : ℕ) → Action FxPosition Pnl
unfolding unrealized_pnl
close now f = elim f.status [
  | PositionStatus.closed ↦ (err policy_violation, f)
  | PositionStatus.live ↦
      (ok (unrealized_pnl f), record f { status = PositionStatus.closed; closed_at = some now })
]

abbrev pub opposite : Direction → Direction
opposite Direction.long = Direction.short
opposite Direction.short = Direction.long

neg_neg : (d : ℤ) → pos 0 -ℤ (pos 0 -ℤ d) ≡ d
neg_neg d = grind int_laws

*ℤ_neg : (x d : ℤ) → x *ℤ (pos 0 -ℤ d) ≡ pos 0 -ℤ x *ℤ d
unfolding ◌-ℤ◌ ◌*ℤ◌
*ℤ_neg (pos m) (pos zero) = grind arith
*ℤ_neg (pos m) (pos (suc n)) = grind arith
*ℤ_neg (pos m) (negsuc n) = grind arith
*ℤ_neg (negsuc m) (pos zero) = grind arith
*ℤ_neg (negsuc m) (pos (suc n)) = grind arith
*ℤ_neg (negsuc m) (negsuc n) = grind arith

*ℤ_positive : (n : ℕ) (d : ℤ) → (pos 0 <ℤ pos (suc n) *ℤ d) ↔ (pos 0 <ℤ d)
unfolding ◌*ℤ◌
*ℤ_positive n (pos zero) = grind arith
*ℤ_positive n (pos (suc d)) = grind arith
*ℤ_positive n (negsuc d) = grind arith

zero_neg : pos 0 ≡ pos 0 -ℤ pos 0
unfolding ◌-ℤ◌
zero_neg = refl

signed_delta-opposite :
    (d : Direction) (current entry : ℤ)
    → signed_delta (opposite d) current entry ≡ pos 0 -ℤ signed_delta d current entry
signed_delta-opposite Direction.long current entry = refl
signed_delta-opposite Direction.short current entry = grind int_laws

-- Two positions that differ in the direction alone have profits that cancel: over one divisor, the
-- dividends are each other's negation.
pub unrealized_pnl-opposite :
    (f : FxPosition)
    → let other = unrealized_pnl (record f { direction = opposite f.direction }) in
      ((unrealized_pnl f).divisor ≡ other.divisor)
      × ((unrealized_pnl f).dividend ≡ pos 0 -ℤ other.dividend)
unfolding unrealized_pnl
unrealized_pnl-opposite f =
    let d = signed_delta f.direction f.current_rate f.entry_rate in
    let flipped = signed_delta-opposite f.direction f.current_rate f.entry_rate in
    let negated = *ℤ_neg f.notional_amount d in
    let twice = neg_neg (f.notional_amount *ℤ d) in let zeros = zero_neg in grind arith

-- A position that is closed once pays its unrealized profit, and never again: closing it a second
-- time raises and writes nothing.
pub close-close :
    (f : FxPosition) (now later : ℕ)
    → f.status ≡ PositionStatus.live
    → let (r, g) = close now f in
      (r ≡ ok (unrealized_pnl f))
      × (unrealized_pnl g ≡ unrealized_pnl f)
      × (close later g ≡ (err policy_violation, g))
unfolding close unrealized_pnl
close-close f now later h = ground arith

signed_delta_positive :
    (d : Direction) (current entry : ℤ)
    → (pos 0 <ℤ signed_delta d current entry) ↔ Favours d current entry
signed_delta_positive Direction.long current entry = grind int_laws
signed_delta_positive Direction.short current entry = grind int_laws

-- With a positive notional amount and entry rate, a long position gains exactly when the rate has risen
-- above the entry rate, and a short one exactly when it has fallen below.
unrealized_pnl_gains :
    (f : FxPosition) (notional entry : ℕ)
    → f.notional_amount ≡ pos (suc notional)
    → f.entry_rate ≡ pos (suc entry)
    → (pos 0 <ℤ (unrealized_pnl f).dividend) ↔ Favours f.direction f.current_rate f.entry_rate
unfolding unrealized_pnl
unrealized_pnl_gains f notional entry n e =
    let d = signed_delta f.direction f.current_rate f.entry_rate in
    let positive = *ℤ_positive notional d in
    let favours = signed_delta_positive f.direction f.current_rate f.entry_rate in grind arith
