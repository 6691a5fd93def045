-- ===== src/Identity/Requests/Plain.antt =====
-- Unsigned tokens, which meet what is asked of the library of identity/infrastructure/jwt_service.py: the theorems on
-- tokens apply to them.
use cadencia_platform.Base.{
  ℕ, zero, suc, ◌≡◌, refl, Option, none, some, [], ◌∷◌, leb, if◌then◌else◌, Text, arith, ap,
}
use cadencia_platform.Identity.{UserRole}
use cadencia_platform.Identity.Requests.{Payload, TokenType}

abbrev type_code : Option TokenType → ℕ
type_code none = 0
type_code (some TokenType.access) = 1
type_code (some TokenType.refresh) = 2

abbrev type_of : ℕ → Option TokenType
type_of zero = none
type_of (suc zero) = some TokenType.access
type_of (suc (suc n)) = some TokenType.refresh

abbrev id_code : Option ℕ → ℕ
id_code none = 0
id_code (some n) = suc n

abbrev id_of : ℕ → Option ℕ
id_of zero = none
id_of (suc n) = some n

abbrev role_code : Option UserRole → ℕ
role_code none = 0
role_code (some UserRole.admin) = 1
role_code (some UserRole.treasury_manager) = 2
role_code (some UserRole.compliance_officer) = 3
role_code (some UserRole.auditor) = 4

abbrev role_of : ℕ → Option UserRole
role_of zero = none
role_of (suc zero) = some UserRole.admin
role_of (suc (suc zero)) = some UserRole.treasury_manager
role_of (suc (suc (suc zero))) = some UserRole.compliance_officer
role_of (suc (suc (suc (suc n)))) = some UserRole.auditor

abbrev pub plain_tail : Payload → Text
plain_tail p = id_code p.sub ∷ id_code p.enterprise_id ∷ role_code p.role ∷ p.iat ∷ p.exp ∷ []

abbrev pub plain_head : Payload → ℕ
plain_head p = type_code p.type

abbrev pub plain : Payload → Text
plain p = plain_head p ∷ plain_tail p

abbrev pub plain_payload : (now : ℕ) → Text → Option Payload
plain_payload now (t ∷ s ∷ e ∷ r ∷ iat ∷ exp ∷ []) =
    if leb now exp
    then some (record {
      type = type_of t;
      sub = id_of s;
      enterprise_id = id_of e;
      role = role_of r;
      iat = iat;
      exp = exp;
    })
    else none
plain_payload now _ = none

type_of_code : (t : Option TokenType) → type_of (type_code t) ≡ t
type_of_code none = refl
type_of_code (some TokenType.access) = refl
type_of_code (some TokenType.refresh) = refl

id_of_code : (i : Option ℕ) → id_of (id_code i) ≡ i
id_of_code none = refl
id_of_code (some n) = refl

role_of_code : (r : Option UserRole) → role_of (role_code r) ≡ r
role_of_code none = refl
role_of_code (some UserRole.admin) = refl
role_of_code (some UserRole.treasury_manager) = refl
role_of_code (some UserRole.compliance_officer) = refl
role_of_code (some UserRole.auditor) = refl

pub plain_payload-plain :
    (now : ℕ) (p : Payload) → plain_payload now (plain p) ≡ (if leb now p.exp then some p else none)
plain_payload-plain now p =
    let rebuilt : (t : Option TokenType) → (s e : Option ℕ) → Option UserRole → Payload =
      λ t s e r. record p { type = t; sub = s; enterprise_id = e; role = r } in
    let whole : rebuilt (type_of (type_code p.type)) (id_of (id_code p.sub))
          (id_of (id_code p.enterprise_id)) (role_of (role_code p.role))
        ≡ p =
      ground (
        arith,
        type_of_code p.type,
        id_of_code p.sub,
        id_of_code p.enterprise_id,
        role_of_code p.role,
      ) in
    ap (λ (q : Payload). if leb now p.exp then some q else none) whole
