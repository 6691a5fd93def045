-- ===== src/Shared/Merkle/Inclusion.antt =====
-- The inclusion proofs of shared/infrastructure/merkle_service.py.
use cadencia_platform.Base.{
  ℕ, zero, suc, ◌+◌, ◌/◌, ◌<◌, ◌≤◌, ◌≡◌, refl, ◌∙◌, ap, true, some, List, [], ◌∷◌, ◌++◌, map, ltb,
  length, get_elem?, ok, Text, codes, text_eq_self, arith,
}
use cadencia_platform.Shared.Merkle.{
  sibling_pos, padded, side, hash_pair, next_layer, root_of, compute_root, step_at, proof_of,
  generate_proof, apply_step, climb, verify_proof,
}

sibling_pos_shift : (pos : ℕ) → sibling_pos (suc (suc pos)) ≡ suc (suc (sibling_pos pos))
unfolding sibling_pos
sibling_pos_shift pos = ground arith

half_shift : (pos : ℕ) → suc (suc pos) / 2 ≡ suc (pos / 2)
half_shift pos = omega arith

ltb_shift : (m n : ℕ) → ltb (suc (suc m)) (suc (suc n)) ≡ ltb m n
ltb_shift m n = ground arith

get_elem?-bound : (xs : List Text) (i : ℕ) (x : Text) → get_elem? xs i ≡ some x → i < length xs
get_elem?-bound [] i x h = absurd (ground arith)
get_elem?-bound (y ∷ ys) zero x h = omega arith
get_elem?-bound (y ∷ ys) (suc i) x h = omega (arith, get_elem?-bound ys i x h)

module _ (sha256 : Text → Text) where
  length-next_layer :
      (layer : List Text)
      → length (next_layer sha256 layer) + length (next_layer sha256 layer) ≤ length layer + 1
  unfolding next_layer
  length-next_layer [] = ground arith
  length-next_layer (a ∷ []) = ground arith
  length-next_layer (a ∷ b ∷ layer) = omega (arith, length-next_layer layer)

  step_at_shift :
      (a b : Text) (layer : List Text) (pos : ℕ)
      → step_at sha256 (a ∷ b ∷ layer) (suc (suc pos)) ≡ step_at sha256 layer pos
  unfolding step_at padded
  step_at_shift a b layer pos =
      ground (arith, sibling_pos_shift pos, ltb_shift pos (sibling_pos pos))

  -- A step taken from a layer leads from the hash at a position to its parent's, at half the position.
  step_up :
      (layer : List Text) (pos : ℕ) (h : Text)
      → get_elem? layer pos ≡ some h
      → (step : Text) × (p : Text) × (step_at sha256 layer pos ≡ some step)
        × (apply_step sha256 h step ≡ some p)
        × (get_elem? (next_layer sha256 layer) (pos / 2) ≡ some p)
  unfolding step_at padded sibling_pos apply_step next_layer side
  step_up [] pos h e = absurd (ground arith)
  step_up (a ∷ []) zero h e = (codes "R:" ++ a, hash_pair sha256 a a, refl, ground arith, refl)
  step_up (a ∷ []) (suc pos) h e = absurd (ground arith)
  step_up (a ∷ b ∷ layer) zero h e =
      (codes "R:" ++ b, hash_pair sha256 a b, refl, ground arith, refl)
  step_up (a ∷ b ∷ layer) (suc zero) h e =
      (codes "L:" ++ a, hash_pair sha256 a b, refl, ground arith, refl)
  step_up (a ∷ b ∷ layer) (suc (suc pos)) h e =
      let (step, p, x, y, z) = step_up layer pos h e in
      (step, p, step_at_shift a b layer pos ∙ x, y, rw (half_shift pos) z)

  climb_step :
      (current step parent : Text) (proof : List Text)
      → apply_step sha256 current step ≡ some parent
      → climb sha256 current (step ∷ proof) ≡ climb sha256 parent proof
  unfolding climb
  climb_step current step parent proof h = ground arith

  -- With as much fuel as there are hashes, a layer has a root, each of its positions a proof, and the
  -- proof leads from the hash at the position to the root.
  pub climb_up :
      (fuel : ℕ) (layer : List Text) (pos : ℕ) (h : Text)
      → length layer ≤ suc fuel
      → get_elem? layer pos ≡ some h
      → (root : Text) × (proof : List Text) × (root_of sha256 fuel layer ≡ some root)
        × (proof_of sha256 fuel layer pos ≡ some proof)
        × (climb sha256 h proof ≡ some root)
  unfolding root_of proof_of climb
  climb_up fuel [] pos h enough e = absurd (ground arith)
  climb_up fuel (a ∷ []) zero h enough e = (a, [], refl, refl, ground arith)
  climb_up fuel (a ∷ []) (suc pos) h enough e = absurd (ground arith)
  climb_up zero (a ∷ b ∷ layer) pos h enough e = absurd (omega arith)
  climb_up (suc fuel) (a ∷ b ∷ layer) pos h enough e =
      let (step, p, x, y, z) = step_up (a ∷ b ∷ layer) pos h e in
      let (root, proof, u, v, w) =
        climb_up fuel (next_layer sha256 (a ∷ b ∷ layer)) (pos / 2) p
          (omega (arith, length-next_layer (a ∷ b ∷ layer))) z in
      (root, step ∷ proof, u, ground (arith, x, v), climb_step h step p proof y ∙ w)

  pub get_elem?-map :
      (xs : List Text) (i : ℕ) (x : Text)
      → get_elem? xs i ≡ some x
      → get_elem? (map sha256 xs) i ≡ some (sha256 x)
  get_elem?-map [] i x h = absurd (ground arith)
  get_elem?-map (y ∷ ys) zero x h = ground arith
  get_elem?-map (y ∷ ys) (suc i) x h = get_elem?-map ys i x h

  pub length-map : (xs : List Text) → length (map sha256 xs) ≡ length xs
  length-map [] = refl
  length-map (x ∷ xs) = ap suc (length-map xs)

  -- Every entry of a list can be proved to be in it: the root is computed, the proof of the entry's
  -- index is generated, and the proof is accepted against the root, at whatever index it is checked.
  pub verify_proof-generate_proof :
      (entries : List Text) (index : ℕ) (entry : Text) (claimed : ℕ)
      → get_elem? entries index ≡ some entry
      → (root : Text) × (proof : List Text) × (compute_root sha256 entries ≡ ok root)
        × (generate_proof sha256 entries index ≡ ok proof)
        × (verify_proof sha256 root entry proof claimed ≡ true)
  unfolding compute_root generate_proof verify_proof
  verify_proof-generate_proof [] index entry claimed h = absurd (ground arith)
  verify_proof-generate_proof (e ∷ entries) index entry claimed h =
      let (root, proof, u, v, w) =
        climb_up (length (e ∷ entries)) (map sha256 (e ∷ entries)) index (sha256 entry)
          (omega (arith, length-map (e ∷ entries))) (get_elem?-map (e ∷ entries) index entry h) in
      (
        root,
        proof,
        ground (arith, u),
        ground (arith, v, get_elem?-bound (e ∷ entries) index entry h),
        ground (arith, w, text_eq_self root),
      )
