-- ===== src/Shared/Merkle.antt =====
-- `MerkleService` of shared/infrastructure/merkle_service.py, over the hexadecimal SHA-256 of a text,
-- which is an argument. A layer is a list, and its loops are recursions on fuel: a layer's length is
-- enough, since each round halves it.
pub mod Inclusion
pub mod Ordering
use cadencia_platform.Base.{
  ℕ, zero, suc, ◌+◌, ◌-◌, ◌/◌, ◌%◌, Bool, true, false, ◌&&◌, Option, none, some, List, [], ◌∷◌,
  ◌++◌, map, ltb, ◌==◌, if◌then◌else◌, length, get_elem?, Result, ok, err, validation_error,
  internal_error, Text, codes, text_eq, text_lt,
}

-- `pos ^ 1`.
unfoldable pub sibling_pos : ℕ → ℕ
sibling_pos pos = if pos % 2 == 0 then pos + 1 else pos - 1

-- A layer of odd length repeats its last hash.
unfoldable pub padded : List Text → List Text
padded [] = []
padded (a ∷ []) = a ∷ a ∷ []
padded (a ∷ b ∷ layer) = a ∷ b ∷ padded layer

-- The side and the hash of a step of a proof, `"R:..."` or `"L:..."`; `true` is the right.
unfoldable pub side : Text → Option (Bool × Text)
side [] = none
side (c ∷ []) = none
side (c ∷ d ∷ sibling) =
    if c == 82 && d == 58
    then some (true, sibling)
    else if c == 76 && d == 58
    then some (false, sibling)
    else none

module _ (sha256 : Text → Text) where
  -- `_hash_pair`: the smaller hash first.
  unfoldable pub hash_pair : (left right : Text) → Text
  hash_pair left right =
      sha256 (
        (if text_lt right left then right else left)
        ++ (if text_lt left right then right else left))

  -- One round of the loop: the hashes of the pairs of the padded layer.
  unfoldable pub next_layer : List Text → List Text
  unfolding hash_pair
  next_layer [] = []
  next_layer (a ∷ []) = hash_pair a a ∷ []
  next_layer (a ∷ b ∷ layer) = hash_pair a b ∷ next_layer layer

  -- `while len(layer) > 1`, then `layer[0]`.
  unfoldable pub root_of : ℕ → List Text → Option Text
  unfolding next_layer
  root_of fuel [] = none
  root_of fuel (a ∷ []) = some a
  root_of zero (a ∷ b ∷ layer) = none
  root_of (suc fuel) (a ∷ b ∷ layer) = root_of fuel (next_layer (a ∷ b ∷ layer))

  abbrev leaves : List Text → List Text
  leaves entries = map sha256 entries

  unfoldable pub compute_root : List Text → Result Text
  unfolding root_of
  compute_root [] = err validation_error
  compute_root (e ∷ entries) = elim (root_of (length (e ∷ entries)) (leaves (e ∷ entries))) [
    | none ↦ err internal_error
    | some root ↦ ok root
  ]

  -- The step of a proof at one layer: the sibling, with its side.
  unfoldable pub step_at : List Text → ℕ → Option Text
  unfolding padded sibling_pos
  step_at layer pos = elim (get_elem? (padded layer) (sibling_pos pos)) [
    | none ↦ none
    | some h ↦ some (if ltb pos (sibling_pos pos) then codes "R:" ++ h else codes "L:" ++ h)
  ]

  abbrev pub prepend : Option Text → Option (List Text) → Option (List Text)
  prepend none proof = none
  prepend (some step) none = none
  prepend (some step) (some proof) = some (step ∷ proof)

  -- The loop of `generate_proof`.
  unfoldable pub proof_of : ℕ → List Text → ℕ → Option (List Text)
  unfolding step_at next_layer
  proof_of fuel [] pos = some []
  proof_of fuel (a ∷ []) pos = some []
  proof_of zero (a ∷ b ∷ layer) pos = none
  proof_of (suc fuel) (a ∷ b ∷ layer) pos =
      prepend (step_at (a ∷ b ∷ layer) pos) (proof_of fuel (next_layer (a ∷ b ∷ layer)) (pos / 2))

  -- The index of the source is an integer; a negative one is rejected as one past the end is.
  unfoldable pub generate_proof : List Text → ℕ → Result (List Text)
  unfolding proof_of
  generate_proof [] index = err validation_error
  generate_proof (e ∷ entries) index =
      if ltb index (length (e ∷ entries))
      then elim (proof_of (length (e ∷ entries)) (leaves (e ∷ entries)) index) [
        | none ↦ err internal_error
        | some proof ↦ ok proof
      ]
      else err validation_error

  -- One step of the check; `none` is a step of neither form.
  unfoldable pub apply_step : Text → Text → Option Text
  unfolding side hash_pair
  apply_step current step = elim (side step) [
    | none ↦ none
    | some (true, sibling) ↦ some (hash_pair current sibling)
    | some (false, sibling) ↦ some (hash_pair sibling current)
  ]

  -- The loop of `verify_proof`.
  unfoldable pub climb : Text → List Text → Option Text
  unfolding apply_step
  climb current [] = some current
  climb current (step ∷ proof) = elim (apply_step current step) [
    | none ↦ none
    | some parent ↦ climb parent proof
  ]

  unfoldable pub verify_proof : (root entry : Text) → List Text → (index : ℕ) → Bool
  unfolding climb text_eq
  verify_proof root entry proof index = elim (climb (sha256 entry) proof) [
    | none ↦ false
    | some current ↦ text_eq current root
  ]
