-- ===== src/Manager/Database/Table/Queries.antt =====
-- What queries give from a table (oathgate/src/database/) after a row was saved.
use oathgate.Common.{
  ℕ, ◌≡◌, ◌≢◌, refl, sym, ap, ◌∙◌, ◌⊎◌, inl, inr, arith, false, List, [], ◌∷◌, ◌==◌, if◌then◌else◌,
  Option, none, some, All,
}
use oathgate.Manager.Database.Table.{same, upsert, query_row}
use oathgate.Manager.Database.Table.Laws.{same_sym, Pairwise, IsKeyed, Fits, All-imp}

module _ {A : Type 0} where
  abbrev pub Any : (A → Type 0) → List A → Type 0
  Any P [] = ⊥
  Any P (x ∷ xs) = P x ⊎ Any P xs

  pub Any-imp : (P Q : A → Type 0) (f : (x : A) → P x → Q x) (xs : List A) → Any P xs → Any Q xs
  Any-imp P Q f [] h = absurd h
  Any-imp P Q f (x ∷ xs) (inl h) = inl (f x h)
  Any-imp P Q f (x ∷ xs) (inr h) = inr (Any-imp P Q f xs h)

  All-Any : (P Q : A → Type 0) (xs : List A) → All P xs → Any Q xs → (x : A) × P x × Q x
  All-Any P Q [] h q = absurd q
  All-Any P Q (x ∷ xs) h (inl q) = (x, h.0, q)
  All-Any P Q (x ∷ xs) h (inr q) = All-Any P Q xs h.1 q

module _ {A B : Type 0} (select : A → Option B) where
  -- The row that a query gives is in the table.
  pub query_row-Any :
      (xs : List A) (b : B) → query_row select xs ≡ some b → Any (λ x. select x ≡ some b) xs
  unfolding query_row
  query_row-Any [] b e = absurd (ground (arith, e))
  query_row-Any (x ∷ xs) b e = by_row (query_row-Any xs b) (select x) refl e
    where
      by_row :
          (query_row select xs ≡ some b → Any (λ y. select y ≡ some b) xs)
          → (o : Option B) → select x ≡ o
          → (elim o [ none ↦ query_row select xs | some c ↦ some c ]) ≡ some b
          → (select x ≡ some b) ⊎ Any (λ y. select y ≡ some b) xs
      by_row rest none h k = inr (rest k)
      by_row rest (some c) h k = inl (h ∙ k)

module _ {A : Type 0} (id : A → ℕ) where
  -- A row with the id and the text of one in the table fits the others, where these texts differ.
  pub member-Fits :
      (column : A → List ℕ) (r : A) (xs : List A)
      → Any (λ x. (id x ≡ id r) × (column x ≡ column r)) xs
      → Pairwise (λ x y. same (column x) (column y) ≡ false) xs
      → All (Fits id (λ x y. same (column x) (column y) ≡ false) r) xs
  member-Fits column r [] m h = absurd m
  member-Fits column r (x ∷ xs) (inl m) h = (
    (λ ne. absurd (ne m.0)),
    All-imp
        (λ y d _.
          let d' = ap (λ c. same c (column y)) (sym m.1) ∙ d in
          (d', same_sym (column y) (column r) ∙ d'))
        xs h.0,
  )
  member-Fits column r (x ∷ xs) (inr m) h = (
    (λ _.
        let (y, d, (same_id, same_column)) =
          All-Any (λ y. same (column x) (column y) ≡ false)
            (λ y. (id y ≡ id r) × (column y ≡ column r)) xs h.0 m in
        let d' = ap (λ c. same (column x) c) (sym same_column) ∙ d in
        (same_sym (column r) (column x) ∙ d', d')),
    member-Fits column r xs m h.1,
  )

module _ {A B : Type 0} (id : A → ℕ) (select : A → Option B) where
  -- The only row that is selected is found.
  pub query_row-upsert_only :
      (r : A) (b : B) (xs : List A)
      → All (λ x. select x ≡ none) xs
      → select r ≡ some b
      → query_row select (upsert id r xs) ≡ some b
  unfolding upsert query_row
  query_row-upsert_only r b [] h e = ground (arith, e)
  query_row-upsert_only r b (x ∷ xs) h e =
      ground (arith, e, h.0, query_row-upsert_only r b xs h.1 e)

  query_row-id_ne :
      (key : B → ℕ) (k : ℕ) (b : B) (xs : List A)
      (keeps : (x : A) (c : B) → select x ≡ some c → key c ≡ id x)
      → All (λ y. id y ≢ k) xs
      → query_row select xs ≡ some b
      → key b ≢ k
  query_row-id_ne key k b xs keeps all found q =
      let (y, ne, selected) =
        All-Any (λ y. id y ≢ k) (λ y. select y ≡ some b) xs all (query_row-Any select xs b found) in
      ne (sym (keeps y b selected) ∙ q)

  -- A row that is saved in place of one that a query gives is given by it.
  pub query_row-upsert :
      (key : B → ℕ) (r : A) (b b' : B) (xs : List A)
      (keeps : (x : A) (c : B) → select x ≡ some c → key c ≡ id x)
      → IsKeyed id xs
      → query_row select xs ≡ some b
      → key b ≡ id r
      → select r ≡ some b'
      → query_row select (upsert id r xs) ≡ some b'
  unfolding upsert query_row
  query_row-upsert key r b b' [] keeps keyed e same_id selected = absurd (ground (arith, e))
  query_row-upsert key r b b' (x ∷ xs) keeps keyed e same_id selected =
      let rest = query_row-upsert key r b b' xs keeps keyed.1 in
      let later = query_row-id_ne key (id x) b xs keeps keyed.0 in
      by_row rest later (select x) refl e
    where
      by_row :
          (query_row select xs ≡ some b
            → key b ≡ id r
            → select r ≡ some b'
            → query_row select (upsert id r xs) ≡ some b')
          → (query_row select xs ≡ some b → key b ≢ id x)
          → (o : Option B) → select x ≡ o
          → (elim o [ none ↦ query_row select xs | some c ↦ some c ]) ≡ some b
          → query_row select (if id x == id r then r ∷ xs else x ∷ upsert id r xs) ≡ some b'
      by_row rest later none h k =
          let ne = later k in
          let found = rest k same_id selected in ground (arith, h, ne, same_id, selected, found)
      by_row rest later (some c) h k =
          let i = keeps x c h in
          let j : key c ≡ key b = ground (arith, k) in ground (arith, h, i, j, same_id, selected)

module _ {A : Type 0} (id : A → ℕ) where
  -- A row of a table is found by its id.
  pub query_row-id :
      (x : A) (xs : List A)
      → IsKeyed id xs
      → Any (λ y. y ≡ x) xs
      → query_row (λ y. if id y == id x then some y else none) xs ≡ some x
  unfolding query_row
  query_row-id x [] keyed m = absurd m
  query_row-id x (y ∷ ys) keyed (inl e) =
      let same_id : id y ≡ id x = ap id e in ground (arith, same_id, e)
  query_row-id x (y ∷ ys) keyed (inr m) =
      let (z, ne, same_row) = All-Any (λ z. id z ≢ id y) (λ z. z ≡ x) ys keyed.0 m in
      let differ : id y ≢ id x = λ q. ne (ap id same_row ∙ sym q) in
      let rest = query_row-id x ys keyed.1 m in ground (arith, differ, rest)
