-- ===== src/Zip/Archive.antt =====
-- An archive that stays in memory while files are taken out of it.
use bboot.Base.{
  ℕ, ◌+◌, ◌≤◌, ◌<◌, ◌≢◌, List, [], ◌∷◌, ◌≡◌, refl, ap, ◌∙◌, some, Bytes, length, word, arith,
  bytes_eq, Bool-cases, inl, inr, zero, suc, sym,
}
use mathlib.Core.Path.{subst}
use mathlib.Core.Option.{some-injective}
use bboot.Memory.{Mem, read16, read32, le16, le32, load_bytes}
use bboot.Zip.{
  Zip, z_ok, Puff, sizeof_end, sizeof_global, end_record, zip_file_find, zip_file_uncompressed_size,
  zip_file_extract,
}
use bboot.Zip.Find.{
  Entry, past, IsHeader, IsDirectory, directory_size, locate, Finds, zip_file_find-locate,
}

-- Two memories that agree from an address on, below another.
abbrev pub SameWithin : ℕ → ℕ → Mem → Mem → Type 0
SameWithin low high m m' = (b : ℕ) → low ≤ b → b < high → m' b ≡ m b

pub read16-SameWithin :
    (low high a : ℕ) (m m' : Mem)
    → SameWithin low high m m'
    → low ≤ a
    → a + 2 ≤ high
    → read16 m' a ≡ read16 m a
unfolding read16
read16-SameWithin low high a m m' h below above = omega (arith, h a, h (a + 1))

pub read32-SameWithin :
    (low high a : ℕ) (m m' : Mem)
    → SameWithin low high m m'
    → low ≤ a
    → a + 4 ≤ high
    → read32 m' a ≡ read32 m a
unfolding read32
read32-SameWithin low high a m m' h below above =
    omega (arith, h a, h (a + 1), h (a + 2), h (a + 3))

pub load_bytes-SameWithin :
    (low high a n : ℕ) (m m' : Mem)
    → SameWithin low high m m'
    → low ≤ a
    → a + n ≤ high
    → load_bytes m' a n ≡ load_bytes m a n
unfolding load_bytes
load_bytes-SameWithin low high a zero m m' h below above = refl
load_bytes-SameWithin low high a (suc n) m m' h below above = rw (
  h a below (omega arith),
  load_bytes-SameWithin low high (a + 1) n m m' h (omega arith) (omega arith),
)

IsHeader-SameWithin :
    (low high a : ℕ) (e : Entry) (m m' : Mem)
    → SameWithin low high m m'
    → low ≤ a
    → past a e ≤ high
    → IsHeader m a e
    → IsHeader m' a e
IsHeader-SameWithin low high a e m m' h below above k = record {
  signature = read32-SameWithin low high a m m' h below (omega arith) ∙ k.signature;
  name_length =
      rw (read16-SameWithin low high (a + 28) m m' h (omega arith) (omega arith)) k.name_length;
  extra_length =
      rw (read16-SameWithin low high (a + 30) m m' h (omega arith) (omega arith)) k.extra_length;
  name_bytes =
      load_bytes-SameWithin low high (a + sizeof_global) (length e.name) m m' h (omega arith)
        (omega arith)
      ∙ k.name_bytes;
  short = k.short;
}

IsDirectory-SameWithin :
    (low high a : ℕ) (es : List Entry) (m m' : Mem)
    → SameWithin low high m m'
    → low ≤ a
    → a + directory_size es ≤ high
    → IsDirectory m a es
    → IsDirectory m' a es
IsDirectory-SameWithin low high a [] m m' h below above d = tt
IsDirectory-SameWithin low high a (e ∷ es) m m' h below above d = (
  IsHeader-SameWithin low high a e m m' h below (omega arith) d.0,
  IsDirectory-SameWithin low high (past a e) es m m' h (omega arith) (omega arith) d.1,
)

-- An archive at `z.base`, whose end record at `z.er` states a directory of these files at the offset
-- `dir`. What header is current does not matter.
pub record IsArchive (m : Mem) (z : Zip) (dir : ℕ) (es : List Entry) : Type 0 where
  pub base : 0 < z.base
  pub small : z.len < word
  pub low : z.base ≤ z.er
  pub high : z.er + sizeof_end ≤ z.base + z.len
  pub count : le16 (end_record m z.er).num_entries ≡ length es
  pub offset : le32 (end_record m z.er).central_directory_offset ≡ dir
  pub fits : dir + directory_size es ≤ z.len
  pub directory : IsDirectory m (z.base + dir) es

-- Nothing has written to the archive.
abbrev pub IsUntouched : Zip → Mem → Mem → Type 0
IsUntouched z m m' = SameWithin z.base (z.base + z.len) m m'

pub IsArchive-IsUntouched :
    (m m' : Mem) (z : Zip) (dir : ℕ) (es : List Entry)
    → IsArchive m z dir es
    → IsUntouched z m m'
    → IsArchive m' z dir es
IsArchive-IsUntouched m m' z dir es k h =
    let top = z.base + z.len in
    record {
      base = k.base;
      small = k.small;
      low = k.low;
      high = k.high;
      count =
          rw
            (read16-SameWithin z.base top (z.er + 10) m m' h (omega (arith, k.low))
              (omega (arith, k.high)))
            k.count;
      offset =
          rw
            (read32-SameWithin z.base top (z.er + 16) m m' h (omega (arith, k.low))
              (omega (arith, k.high)))
            k.offset;
      fits = k.fits;
      directory =
          IsDirectory-SameWithin z.base top (z.base + dir) es m m' h (omega arith)
            (omega (arith, k.fits)) k.directory;
    }

pub zip_file_find-IsArchive :
    (m : Mem) (z : Zip) (dir : ℕ) (es : List Entry) (name : Bytes) (a g : ℕ)
    → IsArchive m z dir es
    → locate (z.base + dir) es name ≡ some a
    → zip_file_find m (record z { gfh = g }) name ≡ (z_ok, record z { gfh = a })
zip_file_find-IsArchive m z dir es name a g k e =
    let z' = record z { gfh = g } in
    let start = le32 (end_record m z.er).central_directory_offset in
    let is : locate (z.base + start) es name ≡ some a = rw k.offset e in
    subst (λ x. Finds z' x (zip_file_find m z' name)) is
      (zip_file_find-locate es m z' name k.base (omega (arith, k.base, k.low)) k.small k.count
        (omega (arith, k.offset, k.fits))
        (subst (λ d. IsDirectory m (z.base + d) es) (sym k.offset) k.directory))

-- A header that the directory lists lies in the directory.
pub locate-inside :
    (a b : ℕ) (es : List Entry) (name : Bytes)
    → locate a es name ≡ some b
    → (a ≤ b) × (b + sizeof_global ≤ a + directory_size es)
unfolding locate
locate-inside a b [] name h = cc
locate-inside a b (e ∷ es) name h = elim (Bool-cases (bytes_eq e.name name)) [
  | inl same ↦ let is : a ≡ b = some-injective a b (rw same at h) in (omega arith, omega arith)
  | inr other ↦
      let rest = locate-inside (past a e) b es name (rw other at h) in
      (omega (arith, rest), omega (arith, rest))
]

-- A file of the archive, that can be taken out to anywhere but NULL while the archive is untouched.
pub record IsFile (puff : Puff) (m : Mem) (z : Zip) (dir : ℕ) (es : List Entry) (path : Bytes)
    (a size : ℕ) : Type 0 where
  pub found : locate (z.base + dir) es path ≡ some a
  pub long : zip_file_uncompressed_size m (record z { gfh = a }) ≡ size
  pub unpacks :
      (m' : Mem) (buffer : ℕ)
      → IsUntouched z m m'
      → buffer ≢ 0
      → (zip_file_extract puff m' (record z { gfh = a }) buffer).0 ≡ z_ok

pub size-IsUntouched :
    (m m' : Mem) (z : Zip) (dir a : ℕ) (es : List Entry) (name : Bytes)
    → IsArchive m z dir es
    → locate (z.base + dir) es name ≡ some a
    → IsUntouched z m m'
    → zip_file_uncompressed_size m' (record z { gfh = a })
      ≡ zip_file_uncompressed_size m (record z { gfh = a })
unfolding zip_file_uncompressed_size
size-IsUntouched m m' z dir a es name k e h =
    let inside = locate-inside (z.base + dir) a es name e in
    ap le32 (
      read32-SameWithin z.base (z.base + z.len) (a + 24) m m' h (omega (arith, inside))
        (omega (arith, inside, k.fits)))
