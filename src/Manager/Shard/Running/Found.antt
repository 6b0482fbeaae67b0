-- ===== src/Manager/Shard/Running/Found.antt =====
-- A shard that was found by its name (oathgate/src/database/shard.rs) is found again when it is saved
-- with another state.
use oathgate.Common.{
  ℕ, ◌≡◌, refl, sym, ap, subst, ◌∙◌, arith, Bool, true, false, List, [], ◌∷◌, inl, inr,
  if◌then◌else◌, Option, none, some, Outcome, ok, err, panic, ok_or,
}
use oathgate.Common
use oathgate.Manager.Process.{ProcessState, optional}
use oathgate.Manager.Database.{
  Kernel, ImageRow, Row, Database, Error, shard_not_found, lift, read, continue, ◌>>=◌, transaction,
  finish,
}
use oathgate.Manager.Database.Table.{same, query_row}
use oathgate.Manager.Database.Table.Laws.{IsKeyed}
use oathgate.Manager.Database.Table.Queries.{query_row-Any, query_row-upsert, Any}
use oathgate.Manager.State.{Name, State}
use oathgate.Manager.Image.{DiskImage}
use oathgate.Manager.Image
use oathgate.Manager.Shard.{
  Shard, Joined, id_of, to_row, state_of, kernel_with, image_with, join, from_row, named, get_row,
  get, save,
}
use oathgate.Manager.Shard.Commands.{get_shard}

Any-const :
    {A : Type 0} (P : A → Type 0) (Q : Type 0) (f : (x : A) → P x → Q) (xs : List A) → Any P xs → Q
Any-const P Q f [] h = absurd h
Any-const P Q f (x ∷ xs) (inl h) = f x h
Any-const P Q f (x ∷ xs) (inr h) = Any-const P Q f xs h

kernel_with-id : (id : ℕ) (x k : Kernel) → kernel_with id x ≡ some k → k.id ≡ id
unfolding kernel_with
kernel_with-id id x k e = ground (arith, e)

image_with-id : (id : ℕ) (x i : ImageRow) → image_with id x ≡ some i → i.id ≡ id
unfolding image_with
image_with-id id x i e = ground (arith, e)

-- What the join of a row gives.
record Joins (db : Database) (r : Row) (j : Joined) : Type 0 where
  row : j.0 ≡ r
  kernel : query_row (kernel_with r.kernel) db.kernels ≡ some j.1
  image : query_row (image_with r.boot_disk) db.images ≡ some j.2

join-Joins : (db : Database) (r : Row) (j : Joined) → join db r ≡ some j → Joins db r j
unfolding join
join-Joins db r j e =
    by_rows (query_row (kernel_with r.kernel) db.kernels) refl
      (query_row (image_with r.boot_disk) db.images) refl e
  where
    by_rows :
        (k : Option Kernel)
        → query_row (kernel_with r.kernel) db.kernels ≡ k
        → (i : Option ImageRow) → query_row (image_with r.boot_disk) db.images ≡ i
        → (elim k [ none ↦ none | some k' ↦ elim i [ none ↦ none | some i' ↦ some (r, k', i') ] ])
          ≡ some j
        → Joins db r j
    by_rows none hk i hi h = absurd (ground (arith, h))
    by_rows (some k) hk none hi h = absurd (ground (arith, h))
    by_rows (some k) hk (some i) hi h =
        let q : (r, k, i) ≡ j = ground (arith, h) in
        record {
          row = ap (λ (x : Joined). x.0) (sym q);
          kernel = hk ∙ ap (λ (x : Joined). some x.1) q;
          image = hi ∙ ap (λ (x : Joined). some x.2) q;
        }

-- A row with the same kernel and the same image joins with them.
join-found :
    (db : Database) (r r' : Row) (j : Joined)
    → Joins db r j
    → r'.kernel ≡ r.kernel
    → r'.boot_disk ≡ r.boot_disk
    → join db r' ≡ some (r', j.1, j.2)
unfolding join
join-found db r r' j h same_kernel same_disk =
    let k = ap (λ id. query_row (kernel_with id) db.kernels) same_kernel ∙ h.kernel in
    let i = ap (λ id. query_row (image_with id) db.images) same_disk ∙ h.image in
    ground (arith, k, i)

-- What a row of the join has in common with the shard that is read from it.
record Reads (j : Joined) (x : Shard) : Type 0 where
  id : x.id ≡ j.0.id
  name : x.name ≡ j.0.name
  kernel : x.kernel ≡ j.1
  image : Image.from_row j.2 ≡ ok x.boot_disk

from_row-Reads : (s : State) (j : Joined) (x : Shard) → from_row s j ≡ ok x → Reads j x
unfolding from_row
from_row-Reads s j x e = by_parts (state_of s.probe j.0.pid) (Image.from_row j.2) refl e
  where
    by_parts :
        (state : Outcome Error ProcessState) (image : Outcome Error DiskImage)
        → Image.from_row j.2 ≡ image
        → Common.◌>>=◌ state (λ st. Common.◌>>=◌ image λ d. ok (record {
          id = j.0.id;
          cid = j.0.cid;
          name = j.0.name;
          state = st;
          cpu = j.0.cpu;
          memory = j.0.memory;
          kernel = j.1;
          boot_disk = d;
        }))
          ≡ ok x
        → Reads j x
    by_parts (ok st) (ok d) hd h = record {
      id = ground (arith, h);
      name = ground (arith, h);
      kernel = ground (arith, h);
      image = ground (arith, h, hd);
    }
    by_parts (ok st) (err y) hd h = absurd (ground (arith, h))
    by_parts (ok st) panic hd h = absurd (ground (arith, h))
    by_parts (err y) image hd h = absurd (ground (arith, h))
    by_parts panic image hd h = absurd (ground (arith, h))

-- The id of an image is that of its row.
pub from_row-id : (i : ImageRow) (d : DiskImage) → Image.from_row i ≡ ok d → d.id ≡ i.id
unfolding Image.from_row
from_row-id i d e = ground (arith, e)

named-Joins :
    (name : Name) (db : Database) (r : Row) (j : Joined)
    → named name db r ≡ some j
    → (same j.0.name name ≡ true) × Joins db j.0 j
unfolding named
named-Joins name db r j e = by_name (same r.name name) refl e
  where
    by_name :
        (b : Bool)
        → same r.name name ≡ b
        → (if b then join db r else none) ≡ some j
        → (same j.0.name name ≡ true) × Joins db j.0 j
    by_name true hn h =
        let joins = join-Joins db r j h in
        (
          ap (λ (y : Row). same y.name name) joins.row ∙ hn,
          subst (λ y. Joins db y j) (sym joins.row) joins,
        )
    by_name false hn h = absurd (ground (arith, h))

named-id :
    (name : Name) (db : Database) (r : Row) (j : Joined) → named name db r ≡ some j → j.0.id ≡ r.id
unfolding named
named-id name db r j e = by_name (same r.name name) e
  where
    by_name : (b : Bool) → (if b then join db r else none) ≡ some j → j.0.id ≡ r.id
    by_name true h = ap id_of (join-Joins db r j h).row
    by_name false h = absurd (ground (arith, h))

get_shard-row :
    (s : State) (name : Name) (db db' : Database) (x : Shard)
    → get_shard s name db ≡ (ok x, db')
    → (j : Joined) × (query_row (named name db) db.shards ≡ some j) × (from_row s j ≡ ok x)
unfolding get_shard get read lift continue ◌>>=◌ get_row
get_shard-row s name db db' x e = by_row (query_row (named name db) db.shards) refl e
  where
    shard_of :
        (o : Outcome Error Shard)
        → (y : Shard)
        → continue (λ d. lift (ok_or d shard_not_found)) (Common.◌>>=◌ o (λ z. ok (some z)), db)
          ≡ (ok y, db')
        → o ≡ ok y
    shard_of (ok z) y h = ground (arith, h)
    shard_of (err z) y h = absurd (ground (arith, h))
    shard_of panic y h = absurd (ground (arith, h))

    by_row :
        (o : Option Joined)
        → query_row (named name db) db.shards ≡ o
        → continue (λ d. lift (ok_or d shard_not_found)) (get_row s o, db) ≡ (ok x, db')
        → (j : Joined) × (query_row (named name db) db.shards ≡ some j) × (from_row s j ≡ ok x)
    by_row none hq h = absurd (ground (arith, h))
    by_row (some j) hq h = (j, hq, shard_of (from_row s j) x h)

pub get_shard-reads : (s : State) (name : Name) (db : Database) → (get_shard s name db).1 ≡ db
unfolding get_shard get read lift continue ◌>>=◌
get_shard-reads s name db = by_result (get s name db).0
  where
    by_result :
        (r : Outcome Error (Option Shard))
        → (continue (λ d. lift (ok_or d shard_not_found)) (r, db)).1 ≡ db
    by_result (ok x) = refl
    by_result (err x) = refl
    by_result panic = refl

-- The row of a shard in another state is read back as the shard in that state.
from_row-to_row :
    (later : State) (x : Shard) (state : ProcessState) (j : Joined)
    → Reads j x
    → state_of later.probe (optional state) ≡ ok state
    → from_row later (to_row (record x { state = state }), j.1, j.2)
      ≡ ok (record x { state = state })
unfolding from_row to_row
from_row-to_row later x state j h e =
    ap (λ k. from_row later (to_row (record x { state = state }), k, j.2)) (sym h.kernel)
    ∙ ground (arith, e, h.image)

-- A shard that was found by the name and is saved in a state that is read back is found in that
-- state.
pub get_shard-save :
    (s later : State) (name : Name) (x : Shard) (state : ProcessState) (db : Database)
    → IsKeyed id_of db.shards
    → get_shard s name db ≡ (ok x, db)
    → state_of later.probe (optional state) ≡ ok state
    → get_shard later name (save (record x { state = state }) db).1
      ≡ (ok (record x { state = state }), (save (record x { state = state }) db).1)
unfolding get_shard get read lift continue ◌>>=◌ get_row save transaction finish named to_row
get_shard-save s later name x state db keyed found e =
    let (j, selected, from) = get_shard-row s name db db x found in
    let reads = from_row-Reads s j x from in
    let (same_name, joins) =
      Any-const (λ r. named name db r ≡ some j) ((same j.0.name name ≡ true) × Joins db j.0 j)
        (λ r. named-Joins name db r j) db.shards
        (query_row-Any (named name db) db.shards j selected) in
    let r' = to_row (record x { state = state }) in
    let joined =
      join-found db j.0 r' j joins
        (ap (λ (k : Kernel). k.id) reads.kernel
          ∙ Any-const (λ k. kernel_with j.0.kernel k ≡ some j.1) (j.1.id ≡ j.0.kernel)
              (λ k. kernel_with-id j.0.kernel k j.1) db.kernels
              (query_row-Any (kernel_with j.0.kernel) db.kernels j.1 joins.kernel))
        (from_row-id j.2 x.boot_disk reads.image
          ∙ Any-const (λ i. image_with j.0.boot_disk i ≡ some j.2) (j.2.id ≡ j.0.boot_disk)
              (λ i. image_with-id j.0.boot_disk i j.2) db.images
              (query_row-Any (image_with j.0.boot_disk) db.images j.2 joins.image)) in
    let named_as : same x.name name ≡ true = ap (λ n. same n name) reads.name ∙ same_name in
    let chosen : named name db r' ≡ some (r', j.1, j.2) = ground (arith, named_as, joined) in
    let again =
      query_row-upsert id_of (named name db) (λ (k : Joined). k.0.id) r' j (r', j.1, j.2) db.shards
        (named-id name db) keyed selected (sym reads.id) chosen in
    let back = from_row-to_row later x state j reads e in ground (arith, again, back)
