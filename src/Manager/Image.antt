-- ===== src/Manager/Image.antt =====
-- oathgate/src/database/image.rs and oathgate/src/cmd/image.rs: installed disk images.
pub mod Format
use oathgate.Common.{
  ℕ, Bool, true, false, List, [], ◌∷◌, map, if◌then◌else◌, Option, none, some, Outcome, ok, err,
  panic,
}
use oathgate.Common
use oathgate.Manager.Database.{
  ImageRow, Database, Error, Action, no_rows, unique, lift, read, transaction, pure, ◌>>=◌, ◌>>◌,
}
use oathgate.Manager.Database.Table.{same, upsert, is_taken, query_row, query_map}
use oathgate.Manager.State.{
  Name, PathBuf, State, open_file, create, copy, name_or, run_file, hash_file, with_extension,
  image_dir,
}
use oathgate.Manager.Image.Format.{DiskFormat, raw, qcow2, to_string, from_str}

pub record DiskImage : Type 0 where
  pub id : ℕ
  pub hash : List ℕ
  pub name : List ℕ
  pub format : DiskFormat
  pub root : Option ℕ

abbrev pub id_of : ImageRow → ℕ
id_of r = r.id

abbrev pub hash_of : ImageRow → List ℕ
hash_of r = r.hash

unfoldable pub to_row : DiskImage → ImageRow
unfolding to_string
to_row i = record {
  id = i.id;
  hash = i.hash;
  name = i.name;
  format = to_string i.format;
  root = i.root;
}

unfoldable pub from_row : ImageRow → Outcome Error DiskImage
unfolding from_str
from_row r = Common.◌>>=◌ (from_str r.format) λ format.
    ok (record { id = r.id; hash = r.hash; name = r.name; format = format; root = r.root })

-- The statement of `save`, with the constraint on the hash.
unfoldable pub save_row : ImageRow → List ImageRow → Outcome Error (List ImageRow)
unfolding upsert is_taken
save_row r rows = if is_taken id_of hash_of r rows then err unique else ok (upsert id_of r rows)

unfoldable pub save : DiskImage → Action (Unit {0})
unfolding to_row save_row transaction
save i =
    transaction λ db.
      Common.◌>>=◌ (save_row (to_row i) db.images) λ rows. ok (tt, record db { images = rows })

-- `WHERE name = ?1`
unfoldable pub named : Name → ImageRow → Option ImageRow
unfolding same
named name r = if same r.name name then some r else none

-- The first row of that name is read; without one, or if it cannot be read, this is an error.
unfoldable pub get_row : Option ImageRow → Outcome Error DiskImage
unfolding from_row
get_row none = err no_rows
get_row (some r) = from_row r

unfoldable pub get : Name → Action DiskImage
unfolding named query_row get_row read
get name = read λ db. get_row (query_row (named name) db.images)

-- A row that can be read.
unfoldable pub readable : ImageRow → Option DiskImage
unfolding from_row
readable r = elim (from_row r) [ ok i ↦ some i | err e ↦ none | panic ↦ none ]

unfoldable pub get_all : Action (List DiskImage)
unfolding readable query_map read
get_all = read λ db. ok (query_map readable db.images)

unfoldable pub path : State → DiskImage → PathBuf
unfolding with_extension image_dir
path s i = with_extension (image_dir s) i.hash (105 ∷ 109 ∷ 103 ∷ [])

-- `application/x-qemu-disk`
abbrev pub qemu_disk : List ℕ
qemu_disk =
    97 ∷ 112 ∷ 112 ∷ 108 ∷ 105 ∷ 99 ∷ 97 ∷ 116 ∷ 105 ∷ 111 ∷ 110 ∷ 47 ∷ 120 ∷ 45 ∷ 113 ∷ 101 ∷ 109
    ∷ 117 ∷ 45 ∷ 100 ∷ 105 ∷ 115 ∷ 107 ∷ []

-- What is not known to be a qcow2 disk is taken as raw.
unfoldable pub format_of_mime : List ℕ → DiskFormat
unfolding same
format_of_mime mime = if same mime qemu_disk then qcow2 else raw

-- `mime` is what libmagic says of the file.
unfoldable pub image_install :
    State
    → (digest : List ℕ → List ℕ) (source : PathBuf) (content : Outcome Error (List ℕ)) → Option Name
    → (mime : Outcome Error (List ℕ)) → Option ℕ
    → Action (Unit {0})
unfolding name_or run_file hash_file format_of_mime path save lift ◌>>=◌
image_install s digest source content name mime root = do
  name ← lift (name_or s name)
  mime ← lift mime
  lift (run_file s (open_file source))
  hash ← lift (hash_file digest content)
  let i : DiskImage = record {
    id = s.next_id;
    hash = hash;
    name = name;
    format = format_of_mime mime;
    root = root;
  }
  lift (run_file s (create (path s i)))
  lift (run_file s (copy source (path s i)))
  save i
