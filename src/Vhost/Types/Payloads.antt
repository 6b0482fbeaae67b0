-- ===== src/Vhost/Types/Payloads.antt =====
-- Reading the payloads of oathgate-vhost/src/types.rs from the bytes that a front end writes.
use oathgate.Common.{
  ℕ, suc, ◌+◌, ◌*◌, ◌^◌, ◌<◌, ◌≡◌, refl, subst, ◌∙◌, arith, List, [], ◌∷◌, ◌++◌, length, All,
  length-append, take-append, drop-append, ok,
}
use mathlib.Core.List.{append_assoc}
use oathgate.Common.Bytes.{slice, le_at, to_le, from_le-to_le, length-to_le, IsU32, IsU64}
use oathgate.Vhost.Types.{
  MemoryRegionDescription, read_addr, read_region, read_regions, read_regions_from, VRingDescriptor,
  descriptor_bytes, read_descriptor,
}

module _ {E : Type 0} where
  pub slice_mid :
      (pre mid post : List ℕ) (start end : ℕ)
      → length pre ≡ start
      → start + length mid ≡ end
      → slice {E = E} (pre ++ (mid ++ post)) start end ≡ ok mid
  slice_mid pre mid post start end hs he = ground (
    arith,
    length-append pre (mid ++ post),
    length-append mid post,
    drop-append pre (mid ++ post),
    take-append mid post,
  )

  pub le_at_mid :
      (k n : ℕ) (pre post : List ℕ) (i : ℕ)
      → length pre ≡ i
      → n < 256 ^ k
      → le_at {E = E} k (pre ++ (to_le k n ++ post)) i ≡ ok n
  unfolding le_at
  le_at_mid k n pre post i hp hn =
      ground
        (arith, slice_mid pre (to_le k n) post i (i + k) hp, length-to_le k n, from_le-to_le k n hn)

-- The bytes of a region's description, lowest first.
pub region_bytes : MemoryRegionDescription → List ℕ
unfolding to_le
region_bytes r =
    to_le 8 r.guest_address ++ (to_le 8 r.size ++ (to_le 8 r.user_address ++ to_le 8 r.mmap_offset))

pub record IsRegion (r : MemoryRegionDescription) : Type 0 where
  pub guest_address-IsU64 : IsU64 r.guest_address
  pub size-IsU64 : IsU64 r.size
  pub user_address-IsU64 : IsU64 r.user_address
  pub mmap_offset-IsU64 : IsU64 r.mmap_offset

length-region_bytes : (r : MemoryRegionDescription) → length (region_bytes r) ≡ 32
unfolding region_bytes
length-region_bytes r = refl

read_region-bytes : (r : MemoryRegionDescription) → IsRegion r → read_region (region_bytes r) ≡ ok r
unfolding read_region le_at region_bytes
read_region-bytes r v = ground (
  arith,
  from_le-to_le 8 r.guest_address v.guest_address-IsU64,
  from_le-to_le 8 r.size v.size-IsU64,
  from_le-to_le 8 r.user_address v.user_address-IsU64,
  from_le-to_le 8 r.mmap_offset v.mmap_offset-IsU64,
)

-- The bytes of all regions, one after the other.
pub regions_bytes : List MemoryRegionDescription → List ℕ
unfolding region_bytes
regions_bytes [] = []
regions_bytes (r ∷ rs) = region_bytes r ++ regions_bytes rs

length-regions_bytes :
    (rs : List MemoryRegionDescription) → length (regions_bytes rs) ≡ length rs * 32
unfolding regions_bytes
length-regions_bytes [] = refl
length-regions_bytes (r ∷ rs) = omega (
  arith,
  length-append (region_bytes r) (regions_bytes rs),
  length-region_bytes r,
  length-regions_bytes rs,
)

-- One round of the loop: the region's bytes stand behind the bytes already read.
read_regions_step :
    (n i : ℕ) (pre w rest : List ℕ) (r : MemoryRegionDescription)
    (rs : List MemoryRegionDescription)
    → length pre ≡ i * 32 + 8
    → length w ≡ 32
    → read_region w ≡ ok r
    → read_regions_from n (i + 1) (pre ++ (w ++ rest)) ≡ ok rs
    → read_regions_from (suc n) i (pre ++ (w ++ rest)) ≡ ok (r ∷ rs)
unfolding read_regions_from
read_regions_step n i pre w rest r rs hp hw hr h =
    rw (slice_mid pre w rest (i * 32 + 8) (i * 32 + 8 + 32) hp (omega arith), hr, h) refl

read_regions_from-bytes :
    (rs : List MemoryRegionDescription) (i : ℕ) (pre : List ℕ)
    → All IsRegion rs
    → length pre ≡ i * 32 + 8
    → read_regions_from (length rs) i (pre ++ regions_bytes rs) ≡ ok rs
unfolding regions_bytes read_regions_from
read_regions_from-bytes [] i pre v h = refl
read_regions_from-bytes (r ∷ rs) i pre v h =
    read_regions_step (length rs) i pre (region_bytes r) (regions_bytes rs) r rs h
      (length-region_bytes r) (read_region-bytes r v.0)
      (subst (λ (bytes : List ℕ). read_regions_from (length rs) (i + 1) bytes ≡ ok rs)
        (append_assoc pre (region_bytes r) (regions_bytes rs))
        (read_regions_from-bytes rs (i + 1) (pre ++ region_bytes r) v.1
          (omega (arith, length-append pre (region_bytes r), length-region_bytes r))))

-- A memory table: the number of its regions, padding, and the regions.
abbrev pub table_bytes : List MemoryRegionDescription → List ℕ
table_bytes rs = to_le 4 (length rs) ++ to_le 4 0 ++ regions_bytes rs

read_table :
    (n : ℕ) (body : List ℕ)
    → 0 < n
    → IsU32 n
    → length body ≡ n * 32
    → read_regions (to_le 4 n ++ to_le 4 0 ++ body)
      ≡ read_regions_from n 0 (to_le 4 n ++ to_le 4 0 ++ body)
unfolding read_regions le_at to_le
read_table n body h u l = ground (arith, from_le-to_le 4 n u)

-- A memory table of at least one region and fewer than 2 ^ 32, with fields of 64 bits, is read as
-- the regions it was written from, in their order.
pub read_regions-bytes :
    (r : MemoryRegionDescription) (rs : List MemoryRegionDescription)
    → All IsRegion (r ∷ rs)
    → IsU32 (length (r ∷ rs))
    → read_regions (table_bytes (r ∷ rs)) ≡ ok (r ∷ rs)
read_regions-bytes r rs v h =
    read_table (length (r ∷ rs)) (regions_bytes (r ∷ rs)) (omega arith) h
      (length-regions_bytes (r ∷ rs))
    ∙ read_regions_from-bytes (r ∷ rs) 0 (to_le 4 (length (r ∷ rs)) ++ to_le 4 0) v (
        omega (
          arith,
          length-append (to_le 4 (length (r ∷ rs))) (to_le 4 0),
          length-to_le 4 (length (r ∷ rs)),
          length-to_le 4 0,
        ))

-- The description of a ring's addresses is read from its six fields, lowest byte first, of 32 and
-- 64 bits, whatever follows.
pub read_addr-bytes :
    (index flags desc used avail log : ℕ) (post : List ℕ)
    → IsU32 index
    → IsU32 flags
    → IsU64 desc
    → IsU64 used
    → IsU64 avail
    → IsU64 log
    → read_addr (
        to_le 4 index
        ++ to_le 4 flags
        ++ to_le 8 desc
        ++ to_le 8 used
        ++ to_le 8 avail
        ++ to_le 8 log
        ++ post)
      ≡ ok (record {
        index = index;
        flags = flags;
        desc_user_addr = desc;
        used_user_addr = used;
        avail_user_addr = avail;
        log_guest_addr = log;
      })
unfolding read_addr le_at to_le
read_addr-bytes index flags desc used avail log post hi hf hd hu ha hl = ground (
  arith,
  from_le-to_le 4 index hi,
  from_le-to_le 4 flags hf,
  from_le-to_le 8 desc hd,
  from_le-to_le 8 used hu,
  from_le-to_le 8 avail ha,
  from_le-to_le 8 log hl,
)

-- A queue's next index is written as a zero, whatever it is; its number is kept.
pub read_descriptor-bytes :
    (d : VRingDescriptor)
    → IsU32 d.index
    → read_descriptor (descriptor_bytes d) ≡ ok (record { index = d.index; avail = 0 })
unfolding read_descriptor le_at descriptor_bytes to_le
read_descriptor-bytes d h = ground (arith, from_le-to_le 4 d.index h, from_le-to_le 4 0)
