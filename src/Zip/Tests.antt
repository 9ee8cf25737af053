-- ===== src/Zip/Tests.antt =====
-- Runs of zip.c on a small archive, and the theorems at it.
use bboot.Base.{
  ◌==◌, ℕ, ◌+◌, ◌-◌, ◌≤◌, ◌<◌, inl, inr, false, [], ◌∷◌, ◌≡◌, refl, some, Bytes, codes, arith,
  get_or, ltb, if◌then◌else◌,
}
use bboot.Memory.{memcpy, Mem, read16, read32, le16, le32, bswap16, bswap32, memcpy, load_bytes}
use bboot.Zip.{
  Zip, z_ok, z_error, Puff, zip_open_buffer, zip_find_len, zip_file_find, zip_readdir,
  zip_file_extract, start_er, single_disk, find_er, find_end, zip_num_entries, find_entry,
  next_offset, name_matches, zip_file_get_name, zip_file_file_name_length, same_string,
  zip_file_uncompressed_size, sizeof_end, sizeof_local,
}
use bboot.Zip.Find.{Entry, locate, Finds, zip_file_find-locate}
use bboot.Zip.Open.{IsOpened, HasEndAt, zip_open_buffer-IsOpened, zip_find_len-open}
use bboot.Zip.Extract.{zip_file_extract_frame}
use bboot.Zip.Cursor.{IsCursor, SameArchive, zip_file_find-IsCursor, zip_readdir_comment}

-- The files K/a, which holds "xyz", and K/bc, which holds "12", both stored.
abbrev archive : Bytes
archive =
    80 ∷ 75 ∷ 3 ∷ 4 ∷ 20 ∷ 0 ∷ 0 ∷ 0 ∷ 0 ∷ 0 ∷ 0 ∷ 0 ∷ 33 ∷ 40 ∷ 103 ∷ 186 ∷ 142 ∷ 235 ∷ 3 ∷ 0 ∷ 0
    ∷ 0 ∷ 3 ∷ 0 ∷ 0 ∷ 0 ∷ 3 ∷ 0 ∷ 0 ∷ 0 ∷ 75 ∷ 47 ∷ 97 ∷ 120 ∷ 121 ∷ 122 ∷ 80 ∷ 75 ∷ 3 ∷ 4 ∷ 20 ∷ 0
    ∷ 0 ∷ 0 ∷ 0 ∷ 0 ∷ 0 ∷ 0 ∷ 33 ∷ 40 ∷ 205 ∷ 68 ∷ 83 ∷ 79 ∷ 2 ∷ 0 ∷ 0 ∷ 0 ∷ 2 ∷ 0 ∷ 0 ∷ 0 ∷ 4 ∷ 0
    ∷ 0 ∷ 0 ∷ 75 ∷ 47 ∷ 98 ∷ 99 ∷ 49 ∷ 50 ∷ 80 ∷ 75 ∷ 1 ∷ 2 ∷ 20 ∷ 3 ∷ 20 ∷ 0 ∷ 0 ∷ 0 ∷ 0 ∷ 0 ∷ 0
    ∷ 0 ∷ 33 ∷ 40 ∷ 103 ∷ 186 ∷ 142 ∷ 235 ∷ 3 ∷ 0 ∷ 0 ∷ 0 ∷ 3 ∷ 0 ∷ 0 ∷ 0 ∷ 3 ∷ 0 ∷ 0 ∷ 0 ∷ 0 ∷ 0
    ∷ 0 ∷ 0 ∷ 0 ∷ 0 ∷ 0 ∷ 0 ∷ 128 ∷ 1 ∷ 0 ∷ 0 ∷ 0 ∷ 0 ∷ 75 ∷ 47 ∷ 97 ∷ 80 ∷ 75 ∷ 1 ∷ 2 ∷ 20 ∷ 3 ∷ 20
    ∷ 0 ∷ 0 ∷ 0 ∷ 0 ∷ 0 ∷ 0 ∷ 0 ∷ 33 ∷ 40 ∷ 205 ∷ 68 ∷ 83 ∷ 79 ∷ 2 ∷ 0 ∷ 0 ∷ 0 ∷ 2 ∷ 0 ∷ 0 ∷ 0 ∷ 4
    ∷ 0 ∷ 0 ∷ 0 ∷ 0 ∷ 0 ∷ 0 ∷ 0 ∷ 0 ∷ 0 ∷ 0 ∷ 0 ∷ 128 ∷ 1 ∷ 36 ∷ 0 ∷ 0 ∷ 0 ∷ 75 ∷ 47 ∷ 98 ∷ 99 ∷ 80
    ∷ 75 ∷ 5 ∷ 6 ∷ 0 ∷ 0 ∷ 0 ∷ 0 ∷ 2 ∷ 0 ∷ 2 ∷ 0 ∷ 99 ∷ 0 ∷ 0 ∷ 0 ∷ 72 ∷ 0 ∷ 0 ∷ 0 ∷ 0 ∷ 0 ∷ []

-- An archive at address 1000, in front of zeros.
unfoldable pub memory : Mem
memory a = if ltb a 1000 then 0 else get_or archive (a - 1000) 0

abbrev pub opened : Zip
opened = record { base = 1000; len = 193; er = 1171; gfh = 0 }

open_archive : zip_open_buffer memory 1000 193 ≡ some opened
unfolding zip_open_buffer start_er find_er single_disk memory read32 read16
open_archive = refl

-- The same archive, with the comment "note" on the first file.
abbrev commented : Bytes
commented =
    80 ∷ 75 ∷ 3 ∷ 4 ∷ 20 ∷ 0 ∷ 0 ∷ 0 ∷ 0 ∷ 0 ∷ 0 ∷ 0 ∷ 33 ∷ 40 ∷ 103 ∷ 186 ∷ 142 ∷ 235 ∷ 3 ∷ 0 ∷ 0
    ∷ 0 ∷ 3 ∷ 0 ∷ 0 ∷ 0 ∷ 3 ∷ 0 ∷ 0 ∷ 0 ∷ 75 ∷ 47 ∷ 97 ∷ 120 ∷ 121 ∷ 122 ∷ 80 ∷ 75 ∷ 3 ∷ 4 ∷ 20 ∷ 0
    ∷ 0 ∷ 0 ∷ 0 ∷ 0 ∷ 0 ∷ 0 ∷ 33 ∷ 40 ∷ 205 ∷ 68 ∷ 83 ∷ 79 ∷ 2 ∷ 0 ∷ 0 ∷ 0 ∷ 2 ∷ 0 ∷ 0 ∷ 0 ∷ 4 ∷ 0
    ∷ 0 ∷ 0 ∷ 75 ∷ 47 ∷ 98 ∷ 99 ∷ 49 ∷ 50 ∷ 80 ∷ 75 ∷ 1 ∷ 2 ∷ 20 ∷ 3 ∷ 20 ∷ 0 ∷ 0 ∷ 0 ∷ 0 ∷ 0 ∷ 0
    ∷ 0 ∷ 33 ∷ 40 ∷ 103 ∷ 186 ∷ 142 ∷ 235 ∷ 3 ∷ 0 ∷ 0 ∷ 0 ∷ 3 ∷ 0 ∷ 0 ∷ 0 ∷ 3 ∷ 0 ∷ 0 ∷ 0 ∷ 4 ∷ 0
    ∷ 0 ∷ 0 ∷ 0 ∷ 0 ∷ 0 ∷ 0 ∷ 128 ∷ 1 ∷ 0 ∷ 0 ∷ 0 ∷ 0 ∷ 75 ∷ 47 ∷ 97 ∷ 110 ∷ 111 ∷ 116 ∷ 101 ∷ 80
    ∷ 75 ∷ 1 ∷ 2 ∷ 20 ∷ 3 ∷ 20 ∷ 0 ∷ 0 ∷ 0 ∷ 0 ∷ 0 ∷ 0 ∷ 0 ∷ 33 ∷ 40 ∷ 205 ∷ 68 ∷ 83 ∷ 79 ∷ 2 ∷ 0
    ∷ 0 ∷ 0 ∷ 2 ∷ 0 ∷ 0 ∷ 0 ∷ 4 ∷ 0 ∷ 0 ∷ 0 ∷ 0 ∷ 0 ∷ 0 ∷ 0 ∷ 0 ∷ 0 ∷ 0 ∷ 0 ∷ 128 ∷ 1 ∷ 36 ∷ 0 ∷ 0
    ∷ 0 ∷ 75 ∷ 47 ∷ 98 ∷ 99 ∷ 80 ∷ 75 ∷ 5 ∷ 6 ∷ 0 ∷ 0 ∷ 0 ∷ 0 ∷ 2 ∷ 0 ∷ 2 ∷ 0 ∷ 103 ∷ 0 ∷ 0 ∷ 0 ∷ 72
    ∷ 0 ∷ 0 ∷ 0 ∷ 0 ∷ 0 ∷ []

commented_memory : Mem
commented_memory a = if ltb a 1000 then 0 else get_or commented (a - 1000) 0

abbrev at_first : Zip
at_first = record { base = 1000; len = 197; er = 1175; gfh = 1072 }

abbrev first : Entry
first = record { name = codes "K/a"; extra = 0 }

abbrev second : Entry
second = record { name = codes "K/bc"; extra = 0 }

abbrev pub at_second : Zip
at_second = record opened { gfh = 1121 }

-- An inflater that always fails.
unfoldable pub no_puff : Puff
no_puff m dst dstlen src srclen = (false, m)

find_second : zip_file_find memory opened (codes "K/bc") ≡ (z_ok, at_second)
unfolding zip_file_find find_entry zip_num_entries zip_readdir next_offset name_matches
    zip_file_get_name zip_file_file_name_length same_string memory read32 read16 le16 le32 bswap16
    bswap32 load_bytes
find_second = refl

find_commented :
    (zip_file_find commented_memory (record at_first { gfh = 0 }) (codes "K/bc")).0 ≡ z_error
unfolding zip_file_find find_entry zip_num_entries zip_readdir next_offset name_matches
    zip_file_get_name zip_file_file_name_length same_string commented_memory read32 read16 le16 le32
    bswap16 bswap32 load_bytes
find_commented = refl

extract_second : (zip_file_extract no_puff memory at_second 5000).1 5001 ≡ b'2'
unfolding zip_file_extract memory read32 read16 le16 le32 bswap16 bswap32 memcpy
extract_second = refl

zip_open_buffer-IsOpened_example : IsOpened memory 1000 193 opened
zip_open_buffer-IsOpened_example = zip_open_buffer-IsOpened memory 1000 193 open_archive

zip_find_len-open_example :
    (1171 + sizeof_end ≡ 1000 + zip_find_len memory 1000 300)
    × HasEndAt memory 1171
    × ((a : ℕ) → 1000 + sizeof_local ≤ a → a < 1171 → ¬ (HasEndAt memory a))
unfolding zip_find_len find_end zip_open_buffer start_er find_er single_disk memory read32 read16
zip_find_len-open_example = zip_find_len-open memory 1000 300 {z = opened} (omega arith) refl

zip_file_find-locate_example :
    Finds opened
      (locate 1072 (first ∷ second ∷ []) (codes "K/bc"))
      (zip_file_find memory opened (codes "K/bc"))
unfolding memory read32 read16 le16 le32 bswap16 bswap32 load_bytes
zip_file_find-locate_example =
    zip_file_find-locate (first ∷ second ∷ []) memory opened (codes "K/bc") (omega arith)
      (omega arith) (omega arith) refl (omega arith)
      (
        record {
          signature = refl;
          name_length = refl;
          extra_length = refl;
          name_bytes = refl;
          short = omega arith;
        },
        (
          record {
            signature = refl;
            name_length = refl;
            extra_length = refl;
            name_bytes = refl;
            short = omega arith;
          },
          tt,
        ),
      )

zip_file_find-IsCursor_example :
    IsCursor memory (zip_file_find memory opened (codes "K/bc")).1
    × SameArchive opened (zip_file_find memory opened (codes "K/bc")).1
zip_file_find-IsCursor_example = zip_file_find-IsCursor memory opened (codes "K/bc") (inl refl)

zip_file_extract_frame_example :
    (zip_file_extract no_puff memory at_second 5000).1 5002 ≡ memory 5002
unfolding no_puff zip_file_uncompressed_size memory read32 read16 le32 bswap32
zip_file_extract_frame_example =
    zip_file_extract_frame no_puff (λ m dst dstlen src srclen b out. refl) memory at_second 5000
      5002 (inr (omega arith))

zip_readdir_comment_example : (zip_readdir commented_memory at_first).0 ≡ z_error
unfolding commented_memory read32 read16 le16 le32 bswap16 bswap32 load_bytes
zip_readdir_comment_example =
    zip_readdir_comment commented_memory at_first first second 72 (omega arith) refl
      (record {
        signature = refl;
        name_length = refl;
        extra_length = refl;
        name_bytes = refl;
        short = omega arith;
      })
      (omega arith)
      (record {
        signature = refl;
        name_length = refl;
        extra_length = refl;
        name_bytes = refl;
        short = omega arith;
      })
      (omega arith) (omega arith)

-- The archive with a disk number in its end record.
split_memory : Mem
split_memory a = if a == 1175 then 1 else memory a
