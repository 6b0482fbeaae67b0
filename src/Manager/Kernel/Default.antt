-- ===== src/Manager/Kernel/Default.antt =====
-- The default kernel (oathgate/src/database/kernel.rs): there is one at most, whatever is saved, and
-- the one that was set is the one that is found.
use oathgate.Common.{
  ℕ, ◌≡◌, ◌≢◌, refl, sym, ap, subst, ◌∙◌, arith, Bool, true, false, ◌&&◌, ◌||◌, List, [], ◌∷◌, ◌==◌,
  if◌then◌else◌, Option, none, some, ok, err, All, ok_or,
}
use oathgate.Manager.Database.{
  Kernel, Database, no_rows, unique, read, lift, transaction, finish, continue, ◌>>=◌,
}
use oathgate.Manager.Database.Table.{same, upsert, has_id, is_taken, query_row}
use oathgate.Manager.Database.Table.Laws.{
  Pairwise, Pairwise-map, IsKeyed, Fits, upsert-Pairwise, upsert-IsKeyed, is_taken-Fits,
  Fits-is_taken,
}
use oathgate.Manager.Database.Table.Queries.{
  Any, Any-imp, query_row-Any, member-Fits, query_row-upsert_only,
}
use oathgate.Manager.Kernel.{
  id_of, hash_of, clear_default, enforce_default, save_row, named, is_default, set_default, get,
  get_default, kernel_set_default, save,
}

abbrev pub Differ : Kernel → Kernel → Type 0
Differ x y = same x.hash y.hash ≡ false

abbrev pub NotBoth : Kernel → Kernel → Type 0
NotBoth x y = (x.default && y.default) ≡ false

-- Ids and hashes differ, and one kernel at most is the default.
abbrev pub IsKernels : List Kernel → Type 0
IsKernels ks = IsKeyed id_of ks × Pairwise Differ ks × Pairwise NotBoth ks

clear_default-IsKernels : (ks : List Kernel) → IsKernels ks → IsKernels (clear_default ks)
unfolding clear_default
clear_default-IsKernels ks h = (
  Pairwise-map (λ x y. id_of y ≢ id_of x) (λ x y. id_of y ≢ id_of x) _ (λ x y r. r) ks h.0,
  Pairwise-map Differ Differ _ (λ x y r. r) ks h.1,
  Pairwise-map NotBoth NotBoth _ (λ x y r. refl) ks h.2,
)

enforce_default-IsKernels :
    (k : Kernel) (ks : List Kernel) → IsKernels ks → IsKernels (enforce_default k ks)
unfolding enforce_default
enforce_default-IsKernels k ks h =
    elim k.default as (λ b. IsKernels (if b then clear_default ks else ks)) [
      | true ↦ clear_default-IsKernels ks h
      | false ↦ h
    ]

clear_default-none : (ks : List Kernel) → All (λ x. x.default ≡ false) (clear_default ks)
unfolding clear_default
clear_default-none [] = tt
clear_default-none (x ∷ xs) = (refl, clear_default-none xs)

clear_default_twice : (ks : List Kernel) → clear_default (clear_default ks) ≡ clear_default ks
unfolding clear_default
clear_default_twice [] = refl
clear_default_twice (x ∷ xs) = ap (◌∷◌ (record x { default = false })) (clear_default_twice xs)

-- The second trigger changes nothing.
updated_lem :
    (k : Kernel) (ks : List Kernel) (b : Bool)
    → (if b then enforce_default k (enforce_default k ks) else enforce_default k ks)
      ≡ enforce_default k ks
unfolding enforce_default
updated_lem k ks true = ground (arith, clear_default_twice ks)
updated_lem k ks false = refl

-- What `save` leaves, with one trigger.
save_row_lem :
    (k : Kernel) (ks : List Kernel)
    → save_row k ks ≡ (
        if is_taken id_of hash_of k (enforce_default k ks)
        then err unique
        else ok (upsert id_of k (enforce_default k ks)))
unfolding save_row
save_row_lem k ks =
    ap (λ us. if is_taken id_of hash_of k us then err unique else ok (upsert id_of k us))
      (updated_lem k ks (has_id id_of k.id (enforce_default k ks)))

enforce_default-Fits :
    (k : Kernel) (ks : List Kernel) → All (Fits id_of NotBoth k) (enforce_default k ks)
unfolding enforce_default clear_default
enforce_default-Fits k ks = by_default k.default refl
  where
    cleared : (xs : List Kernel) → All (Fits id_of NotBoth k) (clear_default xs)
    cleared [] = tt
    cleared (x ∷ xs) = ((λ ne. (ground arith, refl)), cleared xs)

    kept : (xs : List Kernel) → k.default ≡ false → All (Fits id_of NotBoth k) xs
    kept [] e = tt
    kept (x ∷ xs) e = ((λ ne. (ground (arith, e), ground (arith, e))), kept xs e)

    by_default :
        (b : Bool) → k.default ≡ b → All (Fits id_of NotBoth k) (if b then clear_default ks else ks)
    by_default true e = cleared ks
    by_default false e = kept ks e

-- Whatever kernel is saved, if it is saved, ids and hashes still differ and there is still one
-- default at most.
pub save_row-IsKernels :
    (k : Kernel) (ks ks' : List Kernel) → IsKernels ks → save_row k ks ≡ ok ks' → IsKernels ks'
save_row-IsKernels k ks ks' h e =
    by_taken (is_taken id_of hash_of k us) refl (sym (save_row_lem k ks) ∙ e)
  where
    us : List Kernel
    us = enforce_default k ks

    by_taken :
        (b : Bool)
        → is_taken id_of hash_of k us ≡ b
        → (if b then err unique else ok (upsert id_of k us)) ≡ ok ks'
        → IsKernels ks'
    by_taken true t q = absurd (ground (arith, q))
    by_taken false t q =
        let hu = enforce_default-IsKernels k ks h in
        let same_rows : upsert id_of k us ≡ ks' = ground (arith, q) in
        subst IsKernels same_rows (
          upsert-IsKeyed id_of k us hu.0,
          upsert-Pairwise id_of Differ k us (is_taken-Fits id_of hash_of k us t) hu.0 hu.1,
          upsert-Pairwise id_of NotBoth k us (enforce_default-Fits k ks) hu.0 hu.2,
        )

named-Any :
    (name : List ℕ) (k : Kernel) (ks : List Kernel)
    → query_row (named name) ks ≡ some k
    → Any (λ (x : Kernel). (x.id ≡ k.id) × (x.hash ≡ k.hash)) ks
unfolding named
named-Any name k ks e =
    Any-imp (λ (x : Kernel). named name x ≡ some k)
      (λ (x : Kernel). (x.id ≡ k.id) × (x.hash ≡ k.hash))
      (λ x h. let q : x ≡ k = ground (arith, h) in (ap id_of q, ap hash_of q)) ks
      (query_row-Any (named name) ks k e)

-- Clearing the default takes no hash and frees none.
is_taken-clear_default :
    (k : Kernel) (ks : List Kernel)
    → is_taken id_of hash_of k (clear_default ks) ≡ is_taken id_of hash_of k ks
unfolding is_taken clear_default
is_taken-clear_default k [] = refl
is_taken-clear_default k (x ∷ xs) =
    ap (λ r. if x.id == k.id then r else same x.hash k.hash || r) (is_taken-clear_default k xs)

-- The statement succeeds for a kernel of the table that is made the default.
save_row-set_default :
    (k : Kernel) (ks : List Kernel)
    → is_taken id_of hash_of (set_default k) ks ≡ false
    → save_row (set_default k) ks ≡ ok (upsert id_of (set_default k) (clear_default ks))
unfolding set_default enforce_default
save_row-set_default k ks e =
    let free = is_taken-clear_default (set_default k) ks ∙ e in
    save_row_lem (set_default k) ks
    ∙ ap (λ b. if b then err unique else ok (upsert id_of (set_default k) (clear_default ks))) free

no_default : (ks : List Kernel) → All (λ (x : Kernel). is_default x ≡ none) (clear_default ks)
unfolding is_default clear_default
no_default [] = tt
no_default (x ∷ xs) = (refl, no_default xs)

named-get :
    (name : List ℕ) (k : Kernel) (db : Database)
    → get name db ≡ (ok k, db)
    → query_row (named name) db.kernels ≡ some k
unfolding get read lift
named-get name k db e = by_row (query_row (named name) db.kernels) refl (ap (λ r. r.0) e)
  where
    by_row :
        (o : Option Kernel)
        → query_row (named name) db.kernels ≡ o
        → ok_or o no_rows ≡ ok k
        → query_row (named name) db.kernels ≡ some k
    by_row none h q = absurd (ground (arith, q))
    by_row (some x) h q = let same_row : x ≡ k = ground (arith, q) in h ∙ ap some same_row

-- When a kernel is found by its name in a table where ids and hashes differ and one kernel at most is
-- the default, making it the default succeeds: it is then the default that is found, and still the
-- only one.
pub kernel_set_default-get_default :
    (name : List ℕ) (k : Kernel) (db : Database)
    → IsKernels db.kernels
    → get name db ≡ (ok k, db)
    → (db' : Database) × (kernel_set_default name db ≡ (ok tt, db'))
      × (get_default db' ≡ (ok (set_default k), db'))
      × IsKernels db'.kernels
unfolding kernel_set_default save get_default transaction finish read lift continue ◌>>=◌
    set_default is_default
kernel_set_default-get_default name k db h e =
    let found = named-get name k db e in
    let free = Fits-is_taken id_of hash_of (set_default k) db.kernels (
      member-Fits id_of hash_of (set_default k) db.kernels (named-Any name k db.kernels found)
        h.1) in
    let ks' = upsert id_of (set_default k) (clear_default db.kernels) in
    let saved = save_row-set_default k db.kernels free in
    let default =
      query_row-upsert_only id_of is_default (set_default k) (set_default k)
        (clear_default db.kernels) (no_default db.kernels) refl in
    (
      record db { kernels = ks' },
      ground (arith, e, saved),
      ground (arith, default),
      save_row-IsKernels (set_default k) db.kernels ks' h saved,
    )
