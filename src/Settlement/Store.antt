-- ===== src/Settlement/Store.antt =====
-- The escrow repository of settlement/infrastructure/repositories.py: rows found by primary key or by session and
-- read back, and `merge`, which replaces the row of the same key or adds one. The address of an application is
-- computed by the Algorand SDK.
use cadencia_platform.Base.{
  ℕ, ◌≡◌, refl, Option, none, some, List, [], ◌∷◌, arith, ◌==◌, if◌then◌else◌, ℤ, pos, negsuc, Text,
}
use cadencia_platform.Settlement.Escrow.{Escrow}
use cadencia_platform.Settlement.Rows.{Row, escrow_to_model, load_row}

pub record Repository : Type 0 where
  pub get_application_address : ℕ → Text
  pub rows : List Row

-- The amount of a row, which is positive in every row that is written.
abbrev amount_of : ℤ → ℕ
amount_of (pos n) = n
amount_of (negsuc n) = 0

-- `_model_to_escrow` of a row with a positive amount.
unfoldable pub read : (ℕ → Text) → Option Row → Option Escrow
unfolding load_row
read address_of none = none
read address_of (some row) = some (load_row address_of row (amount_of row.amount_microalgo))

-- The row that an escrow is stored as; for the database's clock stand the times of the escrow.
unfoldable pub row_of : Escrow → Row
unfolding escrow_to_model
row_of e = escrow_to_model e.created_at e.updated_at e

unfoldable pub row_by_id : ℕ → List Row → Option Row
row_by_id i [] = none
row_by_id i (m ∷ ms) = if m.id == i then some m else row_by_id i ms

unfoldable pub row_by_session : ℕ → List Row → Option Row
row_by_session s [] = none
row_by_session s (m ∷ ms) = if m.session_id == s then some m else row_by_session s ms

unfoldable pub merge : Row → List Row → List Row
merge m [] = m ∷ []
merge m (k ∷ ks) = if k.id == m.id then m ∷ ks else k ∷ merge m ks

-- `get_by_id`.
unfoldable pub find : ℕ → Repository → Option Escrow
unfolding row_by_id read
find i r = read r.get_application_address (row_by_id i r.rows)

-- `get_by_session_id`; the column is unique.
unfoldable pub find_session : ℕ → Repository → Option Escrow
unfolding row_by_session read
find_session s r = read r.get_application_address (row_by_session s r.rows)

-- `save` of a new escrow, and `update`.
unfoldable pub put : Escrow → Repository → Repository
unfolding row_of merge
put e r = record r { rows = merge (row_of e) r.rows }

row_by_id-merge :
    (i : ℕ) (m : Row) (ms : List Row)
    → row_by_id i (merge m ms) ≡ (if m.id == i then some m else row_by_id i ms)
unfolding row_by_id merge
row_by_id-merge i m [] = refl
row_by_id-merge i m (k ∷ ks) = ground (arith, row_by_id-merge i m ks)

merge-merge : (m m' : Row) (ms : List Row) → m'.id ≡ m.id → merge m' (merge m ms) ≡ merge m' ms
unfolding merge
merge-merge m m' [] h = ground arith
merge-merge m m' (k ∷ ks) h = ground (arith, merge-merge m m' ks h)

row_by_session-merge_new :
    (m : Row) (ms : List Row)
    → row_by_id m.id ms ≡ none
    → row_by_session m.session_id ms ≡ none
    → row_by_session m.session_id (merge m ms) ≡ some m
unfolding row_by_id row_by_session merge
row_by_session-merge_new m [] h k = ground arith
row_by_session-merge_new m (x ∷ xs) h k = ground (arith, row_by_session-merge_new m xs)

row_by_id_lem : (i : ℕ) (ms : List Row) (m : Row) → row_by_id i ms ≡ some m → m.id ≡ i
unfolding row_by_id
row_by_id_lem i [] m h = cc
row_by_id_lem i (k ∷ ks) m h = ground (arith, row_by_id_lem i ks m)

-- The escrow that a stored one is read back as.
abbrev pub read_back : (ℕ → Text) → Escrow → Option Escrow
read_back address_of e = read address_of (some (row_of e))

pub find-put :
    (i : ℕ) (e : Escrow) (r : Repository)
    → find i (put e r) ≡ (if e.id == i then read_back r.get_application_address e else find i r)
unfolding find put read row_of escrow_to_model
find-put i e r = let at = row_by_id-merge i (row_of e) r.rows in ground arith

pub put-put : (e e' : Escrow) (r : Repository) → e'.id ≡ e.id → put e' (put e r) ≡ put e' r
unfolding put row_of escrow_to_model
put-put e e' r h = let twice = merge-merge (row_of e) (row_of e') r.rows h in ground arith

-- A new escrow for a session that has none is the one found for it.
pub find_session-put_new :
    (e : Escrow) (r : Repository)
    → find e.id r ≡ none
    → find_session e.session_id r ≡ none
    → find_session e.session_id (put e r) ≡ read_back r.get_application_address e
unfolding find find_session put read row_of escrow_to_model
find_session-put_new e r h k =
    let stored = row_by_session-merge_new (row_of e) r.rows (ground arith) (ground arith) in
    ground arith

pub find_id : (i : ℕ) (r : Repository) (e : Escrow) → find i r ≡ some e → e.id ≡ i
unfolding find read load_row
find_id i r e h = grind (arith, row_by_id_lem)
