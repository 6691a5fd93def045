-- ===== src/Shared/Merkle/Ordering.antt =====
-- What the root of shared/infrastructure/merkle_service.py does not bind.
use cadencia_platform.Base.{
  ℕ, zero, suc, ◌≡◌, refl, some, List, [], ◌∷◌, map, length, Text, text_lt_flip, text_lt_asym,
  arith, ◌≤◌,
}
use cadencia_platform.Shared.Merkle.Inclusion.{climb_up, length-map}
use cadencia_platform.Shared.Merkle.{padded, hash_pair, next_layer, root_of, compute_root}

module _ (sha256 : Text → Text) where
  hash_pair_comm : (l r : Text) → hash_pair sha256 l r ≡ hash_pair sha256 r l
  unfolding hash_pair
  hash_pair_comm l r = ground (arith, text_lt_flip l r, text_lt_asym l r, text_lt_asym r l)

  -- The two entries of each pair swapped.
  abbrev pub swapped : List Text → List Text
  swapped [] = []
  swapped (a ∷ []) = a ∷ []
  swapped (a ∷ b ∷ entries) = b ∷ a ∷ swapped entries

  next_layer-swapped :
      (entries : List Text)
      → next_layer sha256 (map sha256 (swapped entries)) ≡ next_layer sha256 (map sha256 entries)
  unfolding next_layer
  next_layer-swapped [] = refl
  next_layer-swapped (a ∷ []) = refl
  next_layer-swapped (a ∷ b ∷ entries) =
      ground (arith, hash_pair_comm (sha256 a) (sha256 b), next_layer-swapped entries)

  length-swapped : (entries : List Text) → length (swapped entries) ≡ length entries
  length-swapped [] = refl
  length-swapped (a ∷ []) = refl
  length-swapped (a ∷ b ∷ entries) = ground (arith, length-swapped entries)

  -- Whatever the hash is, reordering the entries of the pairs leaves the root as it was.
  compute_root-swapped :
      (entries : List Text) → compute_root sha256 (swapped entries) ≡ compute_root sha256 entries
  unfolding compute_root root_of
  compute_root-swapped [] = refl
  compute_root-swapped (a ∷ []) = refl
  compute_root-swapped (a ∷ b ∷ entries) =
      ground (arith, next_layer-swapped (a ∷ b ∷ entries), length-swapped entries)

  padded-map : (entries : List Text) → map sha256 (padded entries) ≡ padded (map sha256 entries)
  unfolding padded
  padded-map [] = refl
  padded-map (a ∷ []) = refl
  padded-map (a ∷ b ∷ entries) = ground (arith, padded-map entries)

  next_layer-padded :
      (layer : List Text) → next_layer sha256 (padded layer) ≡ next_layer sha256 layer
  unfolding next_layer padded
  next_layer-padded [] = refl
  next_layer-padded (a ∷ []) = refl
  next_layer-padded (a ∷ b ∷ layer) = ground (arith, next_layer-padded layer)

  length-padded : (layer : List Text) → length layer ≤ length (padded layer)
  unfolding padded
  length-padded [] = omega arith
  length-padded (a ∷ []) = omega arith
  length-padded (a ∷ b ∷ layer) = omega (arith, length-padded layer)

  root_of_more_fuel :
      (m n : ℕ) (layer : List Text) (root : Text)
      → m ≤ n
      → root_of sha256 m layer ≡ some root
      → root_of sha256 n layer ≡ some root
  unfolding root_of
  root_of_more_fuel m n [] root le h = absurd (ground arith)
  root_of_more_fuel zero zero (a ∷ []) root le h = h
  root_of_more_fuel zero (suc n) (a ∷ []) root le h = h
  root_of_more_fuel (suc m) zero (a ∷ []) root le h = h
  root_of_more_fuel (suc m) (suc n) (a ∷ []) root le h = h
  root_of_more_fuel zero n (a ∷ b ∷ layer) root le h = absurd (ground arith)
  root_of_more_fuel (suc m) zero (a ∷ b ∷ layer) root le h = absurd (omega arith)
  root_of_more_fuel (suc m) (suc n) (a ∷ b ∷ layer) root le h =
      root_of_more_fuel m n (next_layer sha256 (a ∷ b ∷ layer)) root (omega arith) h

  -- Whatever the hash is, a list of at least two entries has the root of the same list with its last
  -- entry repeated to an even length.
  compute_root-padded :
      (a b : Text) (entries : List Text)
      → compute_root sha256 (padded (a ∷ b ∷ entries)) ≡ compute_root sha256 (a ∷ b ∷ entries)
  unfolding compute_root root_of padded
  compute_root-padded a b entries =
      let (root, proof, u, v, w) =
        climb_up sha256 (length (a ∷ b ∷ entries)) (map sha256 (a ∷ b ∷ entries)) zero (sha256 a)
          (omega (arith, length-map sha256 (a ∷ b ∷ entries))) refl in
      let below : root_of sha256 (suc (length (padded entries)))
            (next_layer sha256 (map sha256 (a ∷ b ∷ entries)))
          ≡ some root =
        root_of_more_fuel (suc (length entries)) (suc (length (padded entries)))
          (next_layer sha256 (map sha256 (a ∷ b ∷ entries))) root
          (omega (arith, length-padded entries)) u in
      ground (arith, u, below, padded-map entries, next_layer-padded (map sha256 (a ∷ b ∷ entries)))
