-- ===== src/Manager/Commands/Tables.antt =====
-- What saving and deleting rows keep true of the database (oathgate/src/database/).
use oathgate.Common.{
  ℕ, ◌≡◌, ◌≢◌, refl, sym, ap, subst, ◌∙◌, arith, Bool, true, false, List, [], ◌∷◌, if◌then◌else◌,
  Option, none, some, Outcome, ok, err, panic,
}
use oathgate.Common
use oathgate.Manager.Database.{
  Kernel, ImageRow, DeviceRow, Row, Database, Error, Action, pure, lift, read, transaction, ◌>>=◌,
}
use oathgate.Manager.Database
use oathgate.Manager.Database.Keeps.{Keeps, keeps_rules, transaction-Keeps}
use oathgate.Manager.Database.Table.{same, upsert, is_taken}
use oathgate.Manager.Database.Table.Laws.{
  Pairwise, IsKeyed, upsert-Pairwise, upsert-IsKeyed, delete-Pairwise, is_taken-Fits,
}
use oathgate.Manager.Kernel
use oathgate.Manager.Kernel.Default.{IsKernels, save_row-IsKernels}
use oathgate.Manager.Image
use oathgate.Manager.Image.{DiskImage}
use oathgate.Manager.Device
use oathgate.Manager.Device.{Device}
use oathgate.Manager.Shard
use oathgate.Manager.Shard.{Shard}

abbrev pub IsImages : List ImageRow → Type 0
IsImages rows = IsKeyed Image.id_of rows × Pairwise (λ x y. same x.hash y.hash ≡ false) rows

-- In each table ids differ, the hashes of kernels differ and those of images, and one kernel at most
-- is the default.
pub record IsDatabase (db : Database) : Type 0 where
  pub kernels : IsKernels db.kernels
  pub images : IsImages db.images
  pub devices : IsKeyed Device.id_of db.devices
  pub shards : IsKeyed Shard.id_of db.shards

save_row-IsImages :
    (r : ImageRow) (rows rows' : List ImageRow)
    → IsImages rows
    → Image.save_row r rows ≡ ok rows'
    → IsImages rows'
unfolding Image.save_row
save_row-IsImages r rows rows' h e = by_taken (is_taken Image.id_of Image.hash_of r rows) refl e
  where
    by_taken :
        (b : Bool)
        → is_taken Image.id_of Image.hash_of r rows ≡ b
        → (if b then err Database.unique else ok (upsert Image.id_of r rows)) ≡ ok rows'
        → IsImages rows'
    by_taken true t q = absurd (ground (arith, q))
    by_taken false t q =
        let same_rows : upsert Image.id_of r rows ≡ rows' = ground (arith, q) in
        subst IsImages same_rows (
          upsert-IsKeyed Image.id_of r rows h.0,
          upsert-Pairwise Image.id_of (λ x y. same x.hash y.hash ≡ false) r rows
              (is_taken-Fits Image.id_of Image.hash_of r rows t) h.0 h.1,
        )

pub save_kernel-Keeps : (k : Kernel) → Keeps IsDatabase (Kernel.save k)
unfolding Kernel.save
save_kernel-Keeps k =
    transaction-Keeps _ (λ db db' a h e. by_row db db' h (Kernel.save_row k db.kernels) refl e)
  where
    by_row :
        (db db' : Database)
        → IsDatabase db
        → (r : Outcome Error (List Kernel)) → Kernel.save_row k db.kernels ≡ r
        → Common.◌>>=◌ {B = Unit {0} × Database} r (λ ks. ok (tt, record db { kernels = ks }))
          ≡ ok (tt, db')
        → IsDatabase db'
    by_row db db' h (ok ks) q e =
        let left : record db { kernels = ks } ≡ db' = ground (arith, e) in
        subst IsDatabase left (record {
          kernels = save_row-IsKernels k db.kernels ks h.kernels q;
          images = h.images;
          devices = h.devices;
          shards = h.shards;
        })
    by_row db db' h (err x) q e = absurd (ground (arith, e))
    by_row db db' h panic q e = absurd (ground (arith, e))

pub save_image-Keeps : (i : DiskImage) → Keeps IsDatabase (Image.save i)
unfolding Image.save
save_image-Keeps i =
    transaction-Keeps _
      (λ db db' a h e. by_row db db' h (Image.save_row (Image.to_row i) db.images) refl e)
  where
    by_row :
        (db db' : Database)
        → IsDatabase db
        → (r : Outcome Error (List ImageRow)) → Image.save_row (Image.to_row i) db.images ≡ r
        → Common.◌>>=◌ {B = Unit {0} × Database} r (λ rows. ok (tt, record db { images = rows }))
          ≡ ok (tt, db')
        → IsDatabase db'
    by_row db db' h (ok rows) q e =
        let left : record db { images = rows } ≡ db' = ground (arith, e) in
        subst IsDatabase left (record {
          kernels = h.kernels;
          images = save_row-IsImages (Image.to_row i) db.images rows h.images q;
          devices = h.devices;
          shards = h.shards;
        })
    by_row db db' h (err x) q e = absurd (ground (arith, e))
    by_row db db' h panic q e = absurd (ground (arith, e))

-- A transaction that changes one table, and cannot fail.
devices-Keeps :
    (f : List DeviceRow → List DeviceRow)
    → ((rows : List DeviceRow) → IsKeyed Device.id_of rows → IsKeyed Device.id_of (f rows))
    → Keeps IsDatabase (transaction λ db. ok (tt, record db { devices = f db.devices }))
devices-Keeps f keeps = transaction-Keeps _ λ db db' a h e.
    let left : record db { devices = f db.devices } ≡ db' = ground (arith, e) in
    subst IsDatabase left (record {
      kernels = h.kernels;
      images = h.images;
      devices = keeps db.devices h.devices;
      shards = h.shards;
    })

shards-Keeps :
    (f : List Row → List Row)
    → ((rows : List Row) → IsKeyed Shard.id_of rows → IsKeyed Shard.id_of (f rows))
    → Keeps IsDatabase (transaction λ db. ok (tt, record db { shards = f db.shards }))
shards-Keeps f keeps = transaction-Keeps _ λ db db' a h e.
    let left : record db { shards = f db.shards } ≡ db' = ground (arith, e) in
    subst IsDatabase left (record {
      kernels = h.kernels;
      images = h.images;
      devices = h.devices;
      shards = keeps db.shards h.shards;
    })

pub save_device-Keeps : (d : Device) → Keeps IsDatabase (Device.save d)
unfolding Device.save
save_device-Keeps d = devices-Keeps _ (upsert-IsKeyed Device.id_of (Device.to_row d))

pub delete_device-Keeps : (d : Device) → Keeps IsDatabase (Device.delete d)
unfolding Device.delete
delete_device-Keeps d = devices-Keeps _ (delete-Pairwise Device.id_of _ d.id)

pub save_shard-Keeps : (x : Shard) → Keeps IsDatabase (Shard.save x)
unfolding Shard.save
save_shard-Keeps x = shards-Keeps _ (upsert-IsKeyed Shard.id_of (Shard.to_row x))

pub delete_shard-Keeps : (id : ℕ) → Keeps IsDatabase (Shard.delete id)
unfolding Shard.delete
delete_shard-Keeps id = shards-Keeps _ (delete-Pairwise Shard.id_of _ id)

pub ruleset saves_rules = (
  keeps_rules, save_kernel-Keeps, save_image-Keeps, save_device-Keeps, delete_device-Keeps,
  save_shard-Keeps, delete_shard-Keeps,
)
