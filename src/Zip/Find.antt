-- ===== src/Zip/Find.antt =====
-- `zip_file_find` against the directory that memory holds.
use bboot.Base.{
  ℕ, suc, ◌+◌, ◌≤◌, ◌<◌, ◌≢◌, false, List, [], ◌∷◌, ◌++◌, ◌≡◌, refl, Option, none, some,
  if◌then◌else◌, Bytes, length, word, arith, bytes_eq, ltb, ==_ne, Bool-cases, inl, inr,
}
use bboot.Memory.{Mem, read16, read32, le16, le32, load_bytes}
use bboot.Zip.{
  Zip, Status, z_ok, z_error, sizeof_global, next_offset, zip_readdir, zip_num_entries, find_entry,
  zip_file_find, zip_file_file_name_length, zip_file_get_name, name_matches, same_string,
  end_record,
}

-- A file of the archive: its name, and how long the extra field behind the name is.
pub record Entry : Type 0 where
  pub name : Bytes
  pub extra : ℕ

-- The address behind an entry's header, name and extra field.
abbrev pub past : ℕ → Entry → ℕ
past a e = a + sizeof_global + length e.name + e.extra

-- What memory holds where the central directory lists these files, with no comments.
pub record IsHeader (m : Mem) (a : ℕ) (e : Entry) : Type 0 where
  pub signature : read32 m a ≡ 0x504b0102
  pub name_length : le16 (read16 m (a + 28)) ≡ length e.name
  pub extra_length : le16 (read16 m (a + 30)) ≡ e.extra
  pub name_bytes : load_bytes m (a + sizeof_global) (length e.name) ≡ e.name
  pub short : length e.name ≤ 255

abbrev pub IsDirectory : Mem → ℕ → List Entry → Type 0
IsDirectory m a [] = Unit {0}
IsDirectory m a (e ∷ es) = IsHeader m a e × IsDirectory m (past a e) es

abbrev pub directory_size : List Entry → ℕ
directory_size [] = 0
directory_size (e ∷ es) = sizeof_global + length e.name + e.extra + directory_size es

-- The specification: the address of the first header with the name.
unfoldable pub locate : ℕ → List Entry → Bytes → Option ℕ
locate a [] name = none
locate a (e ∷ es) name = if bytes_eq e.name name then some a else locate (past a e) es name

same_string-bytes_eq :
    (n name : Bytes) → length n ≡ length name → same_string (n ++ (0 ∷ [])) name ≡ bytes_eq n name
unfolding same_string bytes_eq
same_string-bytes_eq [] [] h = refl
same_string-bytes_eq [] (d ∷ name) h = absurd (omega arith)
same_string-bytes_eq (c ∷ n) [] h = absurd (omega arith)
same_string-bytes_eq (c ∷ n) (d ∷ name) h = ground (arith, same_string-bytes_eq n name)

bytes_eq-length : (n name : Bytes) → length n ≢ length name → bytes_eq n name ≡ false
unfolding bytes_eq
bytes_eq-length [] [] h = absurd (h refl)
bytes_eq-length [] (d ∷ name) h = refl
bytes_eq-length (c ∷ n) [] h = refl
bytes_eq-length (c ∷ n) (d ∷ name) h = ground (arith, bytes_eq-length n name)

-- The test of one entry compares its whole name.
name_matches-bytes_eq :
    (m : Mem) (z : Zip) (e : Entry) (name : Bytes)
    → IsHeader m z.gfh e
    → z.gfh ≢ 0
    → name_matches m z name ≡ bytes_eq e.name name
unfolding name_matches zip_file_get_name zip_file_file_name_length
name_matches-bytes_eq m z e name h ne =
    ground (arith, same_string-bytes_eq e.name name, bytes_eq-length e.name name)

file_name_length-entry :
    (m : Mem) (z : Zip) (e : Entry)
    → IsHeader m z.gfh e
    → ltb 255 (zip_file_file_name_length m z) ≡ false
unfolding zip_file_file_name_length
file_name_length-entry m z e h = ground arith

-- The cursor stands before the header at offset `offs`, which is the address `a`.
zip_readdir-entry :
    (m : Mem) (z : Zip) (e : Entry) (offs a : ℕ)
    → a ≡ z.base + offs
    → z.er ≢ 0
    → next_offset m z ≡ offs
    → offs < z.len
    → IsHeader m a e
    → zip_readdir m z ≡ (z_ok, record z { gfh = a })
unfolding zip_readdir
zip_readdir-entry m z e offs a is er at inside h = ground arith

pub next_offset-entry :
    (m : Mem) (z : Zip) (e : Entry) (offs a : ℕ)
    → a ≡ z.base + offs
    → 0 < z.base
    → offs + sizeof_global + length e.name + e.extra < word
    → IsHeader m a e
    → next_offset m (record z { gfh = a }) ≡ offs + sizeof_global + length e.name + e.extra
unfolding next_offset
next_offset-entry m z e offs a is b fits h = ground arith

-- What the search leaves for a location.
abbrev pub Finds : Zip → Option ℕ → Status × Zip → Type 0
Finds z none r = r.0 ≡ z_error
Finds z (some a) r = r ≡ (z_ok, record z { gfh = a })

-- One round of the search on an entry.
find_entry-entry :
    (n : ℕ) (m : Mem) (z : Zip) (e : Entry) (offs a : ℕ) (name : Bytes)
    → a ≡ z.base + offs
    → 0 < z.base
    → z.er ≢ 0
    → next_offset m z ≡ offs
    → offs < z.len
    → IsHeader m a e
    → find_entry (suc n) m z name ≡ (
        if bytes_eq e.name name
        then (z_ok, record z { gfh = a })
        else find_entry n m (record z { gfh = a }) name)
unfolding find_entry
find_entry-entry n m z e offs a name is b er at inside h = ground (
  arith,
  zip_readdir-entry m z e offs a is er at inside h,
  file_name_length-entry m (record z { gfh = a }) e h,
  name_matches-bytes_eq m (record z { gfh = a }) e name h,
)

find_entry-locate :
    (es : List Entry) (m : Mem) (z : Zip) (offs a : ℕ) (name : Bytes)
    → a ≡ z.base + offs
    → 0 < z.base
    → z.er ≢ 0
    → z.len < word
    → next_offset m z ≡ offs
    → offs + directory_size es ≤ z.len
    → IsDirectory m a es
    → Finds z (locate a es name) (find_entry (length es) m z name)
unfolding locate
find_entry-locate [] m z offs a name is b er small at fits d = unfold find_entry in refl
find_entry-locate (e ∷ es) m z offs a name is b er small at fits (h, d) =
    let z' = record z { gfh = a } in
    let step = find_entry-entry (length es) m z e offs a name is b er at (omega arith) h in
    let next = next_offset-entry m z e offs a is b (omega arith) h in
    let rest =
      find_entry-locate es m z' (offs + sizeof_global + length e.name + e.extra) (past a e) name
        (omega arith) b er small next (omega arith) d in
    elim (Bool-cases (bytes_eq e.name name)) [
      | inl same ↦ rw (same, step, same)
      | inr other ↦ rw (other, step, other) rest
    ]

-- Let memory hold a directory of files with names of at most 255 bytes and no comments, inside an
-- archive that is not at address 0, and let the end record state its place and number of entries.
-- Then `zip_file_find` finds the first header with the whole name, whatever header was current before,
-- and fails if there is none.
pub zip_file_find-locate :
    (es : List Entry) (m : Mem) (z : Zip) (name : Bytes)
    → 0 < z.base
    → z.er ≢ 0
    → z.len < word
    → le16 (end_record m z.er).num_entries ≡ length es
    → le32 (end_record m z.er).central_directory_offset + directory_size es ≤ z.len
    → IsDirectory m (z.base + le32 (end_record m z.er).central_directory_offset) es
    → Finds z
        (locate (z.base + le32 (end_record m z.er).central_directory_offset) es name)
        (zip_file_find m z name)
unfolding zip_file_find zip_num_entries
zip_file_find-locate es m z name b er small count fits d =
    rw (==_ne z.er 0 er, count)
      (find_entry-locate es m (record z { gfh = 0 }) _ _ name refl b er small start fits d)
  where
    start : next_offset m (record z { gfh = 0 }) ≡ le32 (end_record m z.er).central_directory_offset
    start = unfold next_offset in refl
