-- ===== src/Shared/Tests.antt =====
-- Concrete entries and requests, on which the theorems on shared/infrastructure/ apply. The
-- hash of a text is the text itself.
use cadencia_platform.Base.{◌≡◌, refl, true, List, [], ◌∷◌, ok, Text, codes}
use cadencia_platform.Shared.Merkle.{compute_root, generate_proof, verify_proof}
use cadencia_platform.Shared.Merkle.Inclusion.{verify_proof-generate_proof}
use cadencia_platform.Shared.Limiter.{Request, requested, count_of, accepted, accepted_exact}

abbrev identity : Text → Text
identity t = t

abbrev entries : List Text
entries = codes "fund" ∷ codes "freeze" ∷ codes "release" ∷ []

verify_proof-generate_proof_example :
    (root : Text) × (proof : List Text) × (compute_root identity entries ≡ ok root)
    × (generate_proof identity entries 2 ≡ ok proof)
    × (verify_proof identity root (codes "release") proof 0 ≡ true)
verify_proof-generate_proof_example =
    verify_proof-generate_proof identity entries 2 (codes "release") 0 refl

abbrev requests : List Request
requests =
    record { enterprise_id = 7; now = 59 }
    ∷ record { enterprise_id = 7; now = 60 }
    ∷ record { enterprise_id = 7; now = 61 }
    ∷ record { enterprise_id = 8; now = 61 }
    ∷ record { enterprise_id = 7; now = 62 }
    ∷ []

accepted_exact_example : accepted 2 60 7 1 requests [] ≡ 2
unfolding requested count_of
accepted_exact_example = accepted_exact 2 60 7 1 requests []
