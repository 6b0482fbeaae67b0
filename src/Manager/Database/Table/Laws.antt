-- ===== src/Manager/Database/Table/Laws.antt =====
-- What holds of every two rows of a table (oathgate/src/database/) stays so when a row is saved or
-- deleted, and a row that was saved is found again.
use oathgate.Common.{
  ℕ, ◌≡◌, ◌≢◌, refl, sym, ap, ◌∙◌, arith, ◌||◌, true, false, List, [], ◌∷◌, ◌==◌, ==_iff, map,
  if◌then◌else◌, All,
}
use oathgate.Manager.Database.Table.{same, upsert, delete, is_taken}

pub same_refl : (a : List ℕ) → same a a ≡ true
unfolding same
same_refl [] = refl
same_refl (x ∷ xs) = ground (arith, same_refl xs)

pub same_sym : (a b : List ℕ) → same a b ≡ same b a
unfolding same
same_sym [] [] = refl
same_sym [] (y ∷ ys) = refl
same_sym (x ∷ xs) [] = refl
same_sym (x ∷ xs) (y ∷ ys) = ground (arith, same_sym xs ys)

pub same_sound : (a b : List ℕ) → same a b ≡ true → a ≡ b
unfolding same
same_sound [] [] e = refl
same_sound [] (y ∷ ys) e = absurd (ground (arith, e))
same_sound (x ∷ xs) [] e = absurd (ground (arith, e))
same_sound (x ∷ xs) (y ∷ ys) e =
    let head : x ≡ y = ground (arith, e) in
    let tail : same xs ys ≡ true = ground (arith, e) in
    ap (λ z. z ∷ xs) head ∙ ap (◌∷◌ y) (same_sound xs ys tail)

module _ {A : Type 0} where
  -- A relation between each row and those after it.
  abbrev pub Pairwise : (A → A → Type 0) → List A → Type 0
  Pairwise R [] = Unit {0}
  Pairwise R (x ∷ xs) = All (R x) xs × Pairwise R xs

  pub All-imp : {P Q : A → Type 0} (f : (x : A) → P x → Q x) (xs : List A) → All P xs → All Q xs
  All-imp f [] h = tt
  All-imp f (x ∷ xs) h = (f x h.0, All-imp f xs h.1)

  pub All-zip :
      {P Q S : A → Type 0} (f : (x : A) → P x → Q x → S x) (xs : List A)
      → All P xs
      → All Q xs
      → All S xs
  All-zip f [] h k = tt
  All-zip f (x ∷ xs) h k = (f x h.0 k.0, All-zip f xs h.1 k.1)

  pub All-map :
      (P : A → Type 0) (f : A → A) (xs : List A) → All (λ x. P (f x)) xs → All P (map f xs)
  All-map P f [] h = tt
  All-map P f (x ∷ xs) h = (h.0, All-map P f xs h.1)

  pub Pairwise-map :
      (R S : A → A → Type 0) (f : A → A) (h : (x y : A) → R x y → S (f x) (f y)) (xs : List A)
      → Pairwise R xs
      → Pairwise S (map f xs)
  Pairwise-map R S f h [] p = tt
  Pairwise-map R S f h (x ∷ xs) p =
      (All-map (S (f x)) f xs (All-imp (λ y. h x y) xs p.0), Pairwise-map R S f h xs p.1)

-- `R` holds between `r` and `x`, in both orders, unless they have the same id.
module _ {A : Type 0} (id : A → ℕ) where
  abbrev pub IsKeyed : List A → Type 0
  IsKeyed = Pairwise (λ x y. id y ≢ id x)

  abbrev pub Fits : (A → A → Type 0) → A → A → Type 0
  Fits R r x = id x ≢ id r → R r x × R x r

  All-upsert : (P : A → Type 0) (r : A) (xs : List A) → P r → All P xs → All P (upsert id r xs)
  unfolding upsert
  All-upsert P r [] pr h = (pr, tt)
  All-upsert P r (x ∷ xs) pr h =
      elim (id x == id r) as (λ b. All P (if b then r ∷ xs else x ∷ upsert id r xs)) [
        | true ↦ (pr, h.1)
        | false ↦ (h.0, All-upsert P r xs pr h.1)
      ]

  pub upsert-Pairwise :
      (R : A → A → Type 0) (r : A) (xs : List A)
      → All (Fits R r) xs
      → IsKeyed xs
      → Pairwise R xs
      → Pairwise R (upsert id r xs)
  unfolding upsert
  upsert-Pairwise R r [] fits keyed h = (tt, tt)
  upsert-Pairwise R r (x ∷ xs) fits keyed h =
      elim (id x == id r)
          as (λ b. (id x == id r) ≡ b → Pairwise R (if b then r ∷ xs else x ∷ upsert id r xs)) [
            | true ↦ λ e.
                let hit = (==_iff (id x) (id r)).0 e in
                (All-zip (λ y ne fit. (fit (λ q. ne (q ∙ sym hit))).0) xs keyed.0 fits.1, h.1)
            | false ↦ λ e.
                let miss : id x ≢ id r = λ q. absurd (ground (arith, e, q)) in
                (
                  All-upsert (R x) r xs (fits.0 miss).1 h.0,
                  upsert-Pairwise R r xs fits.1 keyed.1 h.1,
                )
          ]
        refl

  pub upsert-IsKeyed : (r : A) (xs : List A) → IsKeyed xs → IsKeyed (upsert id r xs)
  upsert-IsKeyed r xs h = upsert-Pairwise (λ x y. id y ≢ id x) r xs (fits xs) h h
    where
      fits : (ys : List A) → All (Fits (λ x y. id y ≢ id x) r) ys
      fits [] = tt
      fits (y ∷ ys) = ((λ ne. (ne, λ q. ne (sym q))), fits ys)

  All-delete : (P : A → Type 0) (key : ℕ) (xs : List A) → All P xs → All P (delete id key xs)
  unfolding delete
  All-delete P key [] h = tt
  All-delete P key (x ∷ xs) h =
      elim (id x == key) as (λ b. All P (if b then delete id key xs else x ∷ delete id key xs)) [
        | true ↦ All-delete P key xs h.1
        | false ↦ (h.0, All-delete P key xs h.1)
      ]

  pub delete-Pairwise :
      (R : A → A → Type 0) (key : ℕ) (xs : List A) → Pairwise R xs → Pairwise R (delete id key xs)
  unfolding delete
  delete-Pairwise R key [] h = tt
  delete-Pairwise R key (x ∷ xs) h =
      elim (id x == key)
        as (λ b. Pairwise R (if b then delete id key xs else x ∷ delete id key xs)) [
          | true ↦ delete-Pairwise R key xs h.1
          | false ↦ (All-delete (R x) key xs h.0, delete-Pairwise R key xs h.1)
        ]

  -- The columns of the other rows differ from that of a row whose text is not taken.
  pub is_taken-Fits :
      (column : A → List ℕ) (r : A) (xs : List A)
      → is_taken id column r xs ≡ false
      → All (Fits (λ x y. same (column x) (column y) ≡ false) r) xs
  unfolding is_taken
  is_taken-Fits column r [] e = tt
  is_taken-Fits column r (x ∷ xs) e =
      let rest : is_taken id column r xs ≡ false = ground (arith, e) in
      (
        (λ ne.
            let d : same (column x) (column r) ≡ false = ground (arith, e, ne) in
            (same_sym (column r) (column x) ∙ d, d)),
        is_taken-Fits column r xs rest,
      )

  -- A row that is in the table already does not take its own text.
  pub Fits-is_taken :
      (column : A → List ℕ) (r : A) (xs : List A)
      → All (Fits (λ x y. same (column x) (column y) ≡ false) r) xs
      → is_taken id column r xs ≡ false
  unfolding is_taken
  Fits-is_taken column r [] h = refl
  Fits-is_taken column r (x ∷ xs) h =
      elim (id x == id r)
          as (λ b.
            (id x == id r) ≡ b
            → (if b
                then is_taken id column r xs
                else same (column x) (column r) || is_taken id column r xs)
              ≡ false) [
                | true ↦ λ e. Fits-is_taken column r xs h.1
                | false ↦ λ e.
                    let miss : id x ≢ id r = λ q. absurd (ground (arith, e, q)) in
                    let differ = (h.0 miss).1 in
                    let rest = Fits-is_taken column r xs h.1 in ground (arith, differ, rest)
              ]
        refl
