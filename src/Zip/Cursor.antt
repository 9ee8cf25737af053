-- ===== src/Zip/Cursor.antt =====
-- The cursor of the directory walk, and where the walk loses its way.
use bboot.Base.{ℕ, zero, suc, ◌+◌, ◌≤◌, ◌<◌, ◌≢◌, ◌⊎◌, ◌≡◌, refl, arith, word, inl, Bytes, length}
use bboot.Memory.{Mem, read32, le16}
use bboot.Zip.{
  Zip, z_error, zip_readdir, find_entry, zip_num_entries, zip_file_find, global_header,
  sizeof_global,
}
use bboot.Zip.Find.{Entry, IsHeader, past, next_offset-entry}

-- No header is current, or one whose first byte is inside the archive and that has its signature; the rest of it
-- may lie behind the end, which the source does not test.
abbrev pub IsCursor : Mem → Zip → Type 0
IsCursor m z =
    (z.gfh ≡ 0) ⊎ (z.base ≤ z.gfh) × (z.gfh < z.base + z.len) × (read32 m z.gfh ≡ 0x504b0102)

-- The archive that a step works on stays the same.
abbrev pub SameArchive : Zip → Zip → Type 0
SameArchive z z' = (z'.base ≡ z.base) × (z'.len ≡ z.len) × (z'.er ≡ z.er)

pub zip_readdir-IsCursor :
    (m : Mem) (z : Zip)
    → IsCursor m z
    → IsCursor m (zip_readdir m z).1 × SameArchive z (zip_readdir m z).1
unfolding zip_readdir
zip_readdir-IsCursor m z c = ground arith

find_entry-IsCursor :
    (n : ℕ) (m : Mem) (z : Zip) (name : Bytes)
    → IsCursor m z
    → IsCursor m (find_entry n m z name).1 × SameArchive z (find_entry n m z name).1
unfolding find_entry
find_entry-IsCursor zero m z name c = ground arith
find_entry-IsCursor (suc n) m z name c =
    let step = zip_readdir-IsCursor m z c in
    ground (arith, step, find_entry-IsCursor n m (zip_readdir m z).1 name step.0)

-- Where no header is current, or one whose first byte is inside the archive and that has its signature, the same holds
-- behind `zip_file_find`, whatever the directory holds; where the archive is and how long, and its end
-- record, stay the same.
pub zip_file_find-IsCursor :
    (m : Mem) (z : Zip) (name : Bytes)
    → IsCursor m z
    → IsCursor m (zip_file_find m z name).1 × SameArchive z (zip_file_find m z name).1
unfolding zip_file_find
zip_file_find-IsCursor m z name c =
    ground
      (arith, find_entry-IsCursor (zip_num_entries m z) m (record z { gfh = 0 }) name (inl refl))

-- A file comment is not stepped over: if the comment of the current entry does not itself look like a
-- header, `zip_readdir` fails, although the next header may stand right behind the comment.
pub zip_readdir_comment :
    (m : Mem) (z : Zip) (e next : Entry) (offs : ℕ)
    → 0 < z.base
    → z.gfh ≡ z.base + offs
    → IsHeader m z.gfh e
    → 0 < le16 (global_header m z.gfh).file_comment_length
    → IsHeader m (past z.gfh e + le16 (global_header m z.gfh).file_comment_length) next
    → offs + sizeof_global + length e.name + e.extra < word
    → read32 m (past z.gfh e) ≢ 0x504b0102
    → (zip_readdir m z).0 ≡ z_error
unfolding zip_readdir
zip_readdir_comment m z e next offs b at h comment behind fits other =
    ground (arith, next_offset-entry m z e offs z.gfh at b fits h)
