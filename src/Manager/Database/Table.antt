-- ===== src/Manager/Database/Table.antt =====
-- A table of the database (the SQL statements of oathgate/src/database/): a list of rows with an id,
-- in the order in which they were inserted.
pub mod Laws
pub mod Queries
use oathgate.Common.{
  ℕ, Bool, true, false, ◌&&◌, ◌||◌, List, [], ◌∷◌, ◌==◌, if◌then◌else◌, Option, none, some,
}

-- Two texts, by their bytes.
unfoldable pub same : List ℕ → List ℕ → Bool
same [] [] = true
same (a ∷ as') (b ∷ bs) = a == b && same as' bs
same _ _ = false

module _ {A : Type 0} (id : A → ℕ) where
  -- `INSERT … ON CONFLICT(id) DO UPDATE SET` of every column.
  unfoldable pub upsert : A → List A → List A
  upsert r [] = r ∷ []
  upsert r (x ∷ xs) = let rest = upsert r xs in if id x == id r then r ∷ xs else x ∷ rest

  -- `DELETE … WHERE id = ?1`
  unfoldable pub delete : ℕ → List A → List A
  delete key [] = []
  delete key (x ∷ xs) = let rest = delete key xs in if id x == key then rest else x ∷ rest

  unfoldable pub has_id : ℕ → List A → Bool
  has_id key [] = false
  has_id key (x ∷ xs) = id x == key || has_id key xs

  -- Whether another row has the same text in a column that is UNIQUE.
  unfoldable pub is_taken : (A → List ℕ) → A → List A → Bool
  unfolding same
  is_taken column r [] = false
  is_taken column r (x ∷ xs) =
      let rest = is_taken column r xs in
      if id x == id r then rest else same (column x) (column r) || rest

module _ {A B : Type 0} where
  -- `query_row` takes the first row that is selected.
  unfoldable pub query_row : (A → Option B) → List A → Option B
  query_row select [] = none
  query_row select (x ∷ xs) =
      let rest = query_row select xs in elim (select x) [ none ↦ rest | some b ↦ some b ]

  -- `query_map` with `filter_map` leaves out what cannot be read.
  unfoldable pub query_map : (A → Option B) → List A → List B
  query_map select [] = []
  query_map select (x ∷ xs) =
      let rest = query_map select xs in elim (select x) [ none ↦ rest | some b ↦ b ∷ rest ]
