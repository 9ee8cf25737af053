-- ===== src/Zip/Extract.antt =====
-- What `zip_file_extract` writes, and where.
use bboot.Base.{ℕ, ◌+◌, ◌≤◌, ◌<◌, ◌≢◌, ◌⊎◌, Bool, true, false, ◌≡◌, refl, arith}
use bboot.Memory.{Mem, le16, le32}
use bboot.Memory.Laws.{memcpy_inside, memcpy_outside}
use bboot.Zip.{
  Zip, z_ok, Puff, inflated, zip_file_extract, zip_file_uncompressed_size, local_header,
  global_header, sizeof_local,
}

-- The local header of the current entry, and its first data byte.
abbrev pub local_at : Mem → Zip → ℕ
local_at m z = z.base + le32 (global_header m z.gfh).relative_offset_of_local_header

abbrev pub data_at : Mem → Zip → ℕ
data_at m z =
    local_at m z
    + sizeof_local
    + le16 (local_header m (local_at m z)).file_name_length
    + le16 (local_header m (local_at m z)).extra_field_length

-- What puff.c documents of its output: nothing outside the `destlen` bytes of the buffer is written.
abbrev pub WritesOutputOnly : Puff → Type 0
WritesOutputOnly puff =
    (m : Mem) (dst dstlen src srclen b : ℕ)
    → (b < dst) ⊎ (dst + dstlen ≤ b)
    → (puff m dst dstlen src srclen).1 b ≡ m b

inflated_mem : (r : Bool × Mem) → (inflated r).1 ≡ r.1
inflated_mem (true, m) = refl
inflated_mem (false, m) = refl

inflated-ok : (r : Bool × Mem) → (inflated r).0 ≡ z_ok → r ≡ (true, (inflated r).1)
inflated-ok (true, m) h = refl
inflated-ok (false, m) h = cc

-- Whatever it answers, `zip_file_extract` changes no byte outside the `zip_file_uncompressedSize` bytes
-- from the buffer on.
pub zip_file_extract_frame :
    (puff : Puff)
    → WritesOutputOnly puff
    → (m : Mem) (z : Zip) (buffer b : ℕ)
    → (b < buffer) ⊎ (buffer + zip_file_uncompressed_size m z ≤ b)
    → (zip_file_extract puff m z buffer).1 b ≡ m b
unfolding zip_file_extract zip_file_uncompressed_size
zip_file_extract_frame puff law m z buffer b out = ground (
  arith,
  memcpy_outside m buffer (data_at m z) (le32 (global_header m z.gfh).uncompressed_size) b,
  inflated_mem (puff m buffer usize (data_at m z) csize),
  law m buffer usize (data_at m z) csize b,
)
  where
    usize : ℕ
    usize = le32 (global_header m z.gfh).uncompressed_size

    csize : ℕ
    csize = le32 (global_header m z.gfh).compressed_size

-- A stored entry is extracted byte by byte from behind its local header, if its two sizes agree.
pub zip_file_extract_stored :
    (puff : Puff) (m : Mem) (z : Zip) (buffer i : ℕ)
    → z.gfh ≢ 0
    → buffer ≢ 0
    → (local_header m (local_at m z)).signature ≡ 0x504b0304
    → le16 (local_header m (local_at m z)).compression_method ≡ 0
    → (global_header m z.gfh).compressed_size ≡ (global_header m z.gfh).uncompressed_size
    → i < zip_file_uncompressed_size m z
    → ((zip_file_extract puff m z buffer).0 ≡ z_ok)
      × ((zip_file_extract puff m z buffer).1 (buffer + i) ≡ m (data_at m z + i))
unfolding zip_file_extract zip_file_uncompressed_size
zip_file_extract_stored puff m z buffer i g b sig stored sizes lt =
    ground (
      arith,
      memcpy_inside m buffer (data_at m z) (le32 (global_header m z.gfh).uncompressed_size) i,
    )
