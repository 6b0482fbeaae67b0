-- ===== src/Manager/Shard/Deployed.antt =====
-- What deploying a shard leaves in the database (oathgate/src/cmd/shard.rs).
use oathgate.Common.{
  ℕ, ◌≡◌, refl, sym, ap, subst, ◌∙◌, arith, true, false, List, [], ◌∷◌, ◌==◌, if◌then◌else◌, Option,
  none, some, Outcome, ok, ok_or, All,
}
use oathgate.Manager.Process.{stopped}
use oathgate.Manager.Database.{
  Kernel, ImageRow, Row, Database, Error, no_rows, lift, read, continue, ◌>>=◌, ◌>>◌, transaction,
  finish,
}
use oathgate.Manager.Database.Runs.{bind_ok}
use oathgate.Manager.Database.Table.{same, query_row}
use oathgate.Manager.Database.Table.Laws.{same_refl, IsKeyed}
use oathgate.Manager.Database.Table.Queries.{
  Any, Any-imp, query_row-Any, query_row-upsert_only, query_row-id,
}
use oathgate.Manager.State.{Name, State, ask_deploy, confirm, name_or}
use oathgate.Manager.Kernel
use oathgate.Manager.Image.{DiskImage}
use oathgate.Manager.Image
use oathgate.Manager.Device
use oathgate.Manager.Shard.{
  Shard, ShardBuilder, id_of, to_row, build, join, kernel_with, image_with, named, from_row, get,
  get_row, save, deploy, state_of,
}
use oathgate.Manager.Shard.Running.Found.{from_row-id}
use oathgate.Manager.Shard.Commands.{DeployOpts, get_shard, kernel_or, shard_deploy}

kernel_or-reads : (name : Option Name) (db : Database) → (kernel_or name db).1 ≡ db
unfolding kernel_or Kernel.get Kernel.get_default read lift
kernel_or-reads none db = refl
kernel_or-reads (some name) db = refl

selected-Any :
    {A : Type 0} (select : A → Option A) (keeps : (x y : A) → select x ≡ some y → x ≡ y)
    (xs : List A) (y : A)
    → query_row select xs ≡ some y
    → Any (λ x. x ≡ y) xs
selected-Any select keeps xs y e =
    Any-imp (λ x. select x ≡ some y) (λ x. x ≡ y) (λ x h. keeps x y h) xs
      (query_row-Any select xs y e)

row_of : {A : Type 0} (o : Option A) {y : A} → ok_or o no_rows ≡ ok y → o ≡ some y
row_of none e = absurd (ground (arith, e))
row_of (some x) e = ground (arith, e)

-- A kernel that is chosen is in the table.
kernel_or-Any :
    (name : Option Name) (db : Database) (k : Kernel)
    → (kernel_or name db).0 ≡ ok k
    → Any (λ (x : Kernel). x ≡ k) db.kernels
unfolding kernel_or Kernel.get Kernel.get_default read lift Kernel.named Kernel.is_default
kernel_or-Any none db k e =
    selected-Any Kernel.is_default (λ x y h. ground (arith, h)) db.kernels k
      (row_of (query_row Kernel.is_default db.kernels) e)
kernel_or-Any (some name) db k e =
    selected-Any (Kernel.named name) (λ x y h. ground (arith, h)) db.kernels k
      (row_of (query_row (Kernel.named name) db.kernels) e)

-- So is the row of an image.
image-row :
    (name : Name) (db : Database) (i : DiskImage)
    → (Image.get name db).0 ≡ ok i
    → (r : ImageRow) × Any (λ (x : ImageRow). x ≡ r) db.images × (Image.from_row r ≡ ok i)
unfolding Image.get read lift Image.get_row Image.named
image-row name db i e = by_row (query_row (Image.named name) db.images) refl e
  where
    by_row :
        (o : Option ImageRow)
        → query_row (Image.named name) db.images ≡ o
        → Image.get_row o ≡ ok i
        → (r : ImageRow) × Any (λ (x : ImageRow). x ≡ r) db.images × (Image.from_row r ≡ ok i)
    by_row none h q = absurd (ground (arith, q))
    by_row (some r) h q =
        (r, selected-Any (Image.named name) (λ x y k. ground (arith, k)) db.images r h, q)

-- The kernel and the image of a new row are those that were chosen.
join_new :
    (db : Database) (x : Shard) (i : ImageRow)
    → IsKeyed Kernel.id_of db.kernels
    → IsKeyed Image.id_of db.images
    → Any (λ (k : Kernel). k ≡ x.kernel) db.kernels
    → Any (λ (r : ImageRow). r ≡ i) db.images
    → x.boot_disk.id ≡ i.id
    → join db (to_row x) ≡ some (to_row x, x.kernel, i)
unfolding join to_row kernel_with image_with
join_new db x i keyed_kernels keyed_images has_kernel has_image same_id =
    let k = query_row-id Kernel.id_of x.kernel db.kernels keyed_kernels has_kernel in
    let at_id =
      λ (id : ℕ). query_row (λ (y : ImageRow). if y.id == id then some y else none) db.images in
    let r = ap at_id same_id ∙ query_row-id Image.id_of i db.images keyed_images has_image in
    ground (arith, k, r)

unnamed :
    (name : Name) (db : Database) (rows : List Row)
    → All (λ (r : Row). same r.name name ≡ false) rows
    → All (λ (r : Row). named name db r ≡ none) rows
unfolding named
unnamed name db [] all = tt
unnamed name db (r ∷ rows) all = (ground (arith, all.0), unnamed name db rows all.1)

-- A stopped shard of a new name is found once it is saved.
get_shard-new :
    (later : State) (db : Database) (x : Shard) (i : ImageRow)
    → All (λ (r : Row). same r.name x.name ≡ false) db.shards
    → join db (to_row x) ≡ some (to_row x, x.kernel, i)
    → Image.from_row i ≡ ok x.boot_disk
    → x.state ≡ stopped
    → get_shard later x.name (save x db).1 ≡ (ok x, (save x db).1)
unfolding get_shard get read lift continue ◌>>=◌ get_row save transaction finish named to_row
    from_row state_of
get_shard-new later db x i fresh joined image is_stopped =
    let self : same x.name x.name ≡ true = same_refl x.name in
    let chosen : named x.name db (to_row x) ≡ some (to_row x, x.kernel, i) =
      ground (arith, self, joined) in
    let found =
      query_row-upsert_only id_of (named x.name db) (to_row x) (to_row x, x.kernel, i) db.shards
        (unnamed x.name db db.shards fresh) chosen in
    let here : ◌≡◌ {A = Outcome Error Shard} (from_row later (to_row x, x.kernel, i)) (ok x) =
      ground (arith, image, is_stopped) in
    ground (arith, found, here)

-- What the builder makes of the options.
record Built (s : State) (n : Name) (opts : DeployOpts) (k : Kernel) (i : DiskImage) (x : Shard)
    : Type 0 where
  name : x.name ≡ n
  kernel : x.kernel ≡ k
  boot_disk : x.boot_disk ≡ i
  state : x.state ≡ stopped
  memory : x.memory ≡ opts.memory

abbrev builder_of : Name → DeployOpts → Kernel → DiskImage → ShardBuilder
builder_of name opts k i = record {
  name = some name;
  cpu = some opts.cpu;
  memory = some opts.memory;
  kernel = some k;
  boot_disk = some i;
}

build-Built :
    (s : State) (name : Name) (opts : DeployOpts) (k : Kernel) (i : DiskImage) (x : Shard)
    → build s (builder_of name opts k i) ≡ ok x
    → Built s name opts k i x
unfolding build
build-Built s name opts k i x e = record {
  name = ground (arith, e);
  kernel = ground (arith, e);
  boot_disk = ground (arith, e);
  state = ground (arith, e);
  memory = ground (arith, e);
}

-- When a shard is deployed by a name that no shard has, it is then found by the name: stopped, with the
-- memory that was asked for, and with the kernel and the image that were found for it. This for tables
-- of kernels and of images whose ids differ.
pub shard_deploy-get_shard :
    (s later : State) (opts : DeployOpts) (name : Name) (db db' : Database)
    → IsKeyed Kernel.id_of db.kernels
    → IsKeyed Image.id_of db.images
    → All (λ (r : Row). same r.name name ≡ false) db.shards
    → opts.name ≡ some name
    → shard_deploy s opts db ≡ (ok tt, db')
    → (x : Shard) × (get_shard later name db' ≡ (ok x, db'))
      × (x.state ≡ stopped)
      × (x.memory ≡ opts.memory)
      × ((kernel_or opts.kernel db).0 ≡ ok x.kernel)
      × ((Image.get opts.image db).0 ≡ ok x.boot_disk)
unfolding shard_deploy lift name_or Image.get Device.get_many read save transaction finish
shard_deploy-get_shard s later opts name db db' keyed_kernels keyed_images fresh asked e =
    let (n, named_as, e1) = bind_ok (lift (name_or s opts.name)) _ db e in
    let (i, image, e2) = bind_ok (Image.get opts.image) _ db e1 in
    let (k, kernel, e3) = bind_ok (kernel_or opts.kernel) _ db e2 in
    let at = (kernel_or opts.kernel db).1 in
    let (_, _, e4) = bind_ok (Device.get_many s opts.network) _ at e3 in
    let (_, _, e5) = bind_ok (lift (confirm s ask_deploy)) _ at e4 in
    let (x, built, e6) =
      bind_ok (lift (build s (builder_of n opts k i))) (λ x. save x >> lift (deploy s x)) at e5 in
    let (_, _, e7) = bind_ok (save x) (λ _. lift (deploy s x)) at e6 in
    let is = build-Built s n opts k i x built in
    let same_name : n ≡ name = ground (arith, named_as, asked) in
    let called = is.name ∙ same_name in
    let table : (save x db).1 ≡ db' =
      ap (λ y. (save x y).1) (sym (kernel_or-reads opts.kernel db)) ∙ ap (λ r. r.1) e7 in
    let (row, there, from) = image-row opts.image db i image in
    let kernel_is = kernel ∙ ap ok (sym is.kernel) in
    let image_is = from ∙ ap ok (sym is.boot_disk) in
    let joined =
      join_new db x row keyed_kernels keyed_images (kernel_or-Any opts.kernel db x.kernel kernel_is)
        there (from_row-id row x.boot_disk image_is) in
    let unused =
      subst (λ m. All (λ (r : Row). same r.name m ≡ false) db.shards) (sym called) fresh in
    let found = get_shard-new later db x row unused joined image_is is.state in
    (
      x,
      subst (λ m. get_shard later m db' ≡ (ok x, db')) called
          (subst (λ y. get_shard later x.name y ≡ (ok x, y)) table found),
      is.state,
      is.memory,
      kernel_is,
      image ∙ ap ok (sym is.boot_disk),
    )
