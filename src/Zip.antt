-- ===== src/Zip.antt =====
-- The zip reader of zip/zip.c over the flat memory, with the packed headers of zip/junzip.h. A pointer
-- is an address and NULL is 0. The functions' NULL checks of the `zip_t` itself cannot fire, since every
-- caller passes the address of a local: they are not modelled. `puff` (zip/puff.c, a vendored library)
-- is a parameter.
pub mod Find
pub mod Archive
pub mod Stored
pub mod Open
pub mod Extract
pub mod Cursor
pub mod Tests
use bboot.Base.{
  ℕ, zero, suc, ◌+◌, ◌-◌, ◌^◌, Bool, true, false, not, ◌&&◌, ◌||◌, [], ◌∷◌, ◌++◌, Option, none,
  some, ltb, leb, ◌==◌, if◌then◌else◌, Bytes, length, add32, sub32,
}
use bboot.Memory.{Mem, read16, read32, le16, le32, memcpy, load_bytes}

-- The fields of a header, as the big-endian machine loads them.
pub record JzLocalFileHeader : Type 0 where
  pub signature : ℕ
  pub version_needed_to_extract : ℕ
  pub general_purpose_bit_flag : ℕ
  pub compression_method : ℕ
  pub last_mod_file_time : ℕ
  pub last_mod_file_date : ℕ
  pub crc32 : ℕ
  pub compressed_size : ℕ
  pub uncompressed_size : ℕ
  pub file_name_length : ℕ
  pub extra_field_length : ℕ

pub record JzGlobalFileHeader : Type 0 where
  pub signature : ℕ
  pub version_made_by : ℕ
  pub version_needed_to_extract : ℕ
  pub general_purpose_bit_flag : ℕ
  pub compression_method : ℕ
  pub last_mod_file_time : ℕ
  pub last_mod_file_date : ℕ
  pub crc32 : ℕ
  pub compressed_size : ℕ
  pub uncompressed_size : ℕ
  pub file_name_length : ℕ
  pub extra_field_length : ℕ
  pub file_comment_length : ℕ
  pub disk_number_start : ℕ
  pub internal_file_attributes : ℕ
  pub external_file_attributes : ℕ
  pub relative_offset_of_local_header : ℕ

pub record JzEndRecord : Type 0 where
  pub signature : ℕ
  pub disk_number : ℕ
  pub central_directory_disk_number : ℕ
  pub num_entries_this_disk : ℕ
  pub num_entries : ℕ
  pub central_directory_size : ℕ
  pub central_directory_offset : ℕ
  pub zip_comment_length : ℕ

abbrev pub sizeof_local : ℕ
sizeof_local = 30

abbrev pub sizeof_global : ℕ
sizeof_global = 46

abbrev pub sizeof_end : ℕ
sizeof_end = 22

abbrev pub local_header : Mem → ℕ → JzLocalFileHeader
local_header m a = record {
  signature = read32 m a;
  version_needed_to_extract = read16 m (a + 4);
  general_purpose_bit_flag = read16 m (a + 6);
  compression_method = read16 m (a + 8);
  last_mod_file_time = read16 m (a + 10);
  last_mod_file_date = read16 m (a + 12);
  crc32 = read32 m (a + 14);
  compressed_size = read32 m (a + 18);
  uncompressed_size = read32 m (a + 22);
  file_name_length = read16 m (a + 26);
  extra_field_length = read16 m (a + 28);
}

abbrev pub global_header : Mem → ℕ → JzGlobalFileHeader
global_header m a = record {
  signature = read32 m a;
  version_made_by = read16 m (a + 4);
  version_needed_to_extract = read16 m (a + 6);
  general_purpose_bit_flag = read16 m (a + 8);
  compression_method = read16 m (a + 10);
  last_mod_file_time = read16 m (a + 12);
  last_mod_file_date = read16 m (a + 14);
  crc32 = read32 m (a + 16);
  compressed_size = read32 m (a + 20);
  uncompressed_size = read32 m (a + 24);
  file_name_length = read16 m (a + 28);
  extra_field_length = read16 m (a + 30);
  file_comment_length = read16 m (a + 32);
  disk_number_start = read16 m (a + 34);
  internal_file_attributes = read16 m (a + 36);
  external_file_attributes = read32 m (a + 38);
  relative_offset_of_local_header = read32 m (a + 42);
}

abbrev pub end_record : Mem → ℕ → JzEndRecord
end_record m a = record {
  signature = read32 m a;
  disk_number = read16 m (a + 4);
  central_directory_disk_number = read16 m (a + 6);
  num_entries_this_disk = read16 m (a + 8);
  num_entries = read16 m (a + 10);
  central_directory_size = read32 m (a + 12);
  central_directory_offset = read32 m (a + 16);
  zip_comment_length = read16 m (a + 20);
}

-- `zip_t`
pub record Zip : Type 0 where
  pub base : ℕ
  pub len : ℕ
  pub er : ℕ
  pub gfh : ℕ

pub data Status : Type 0 where
  z_ok z_error : Status

-- The loop of `zip_findLen`, over the rounds left: the offset of the end record's signature.
unfoldable pub find_end : Mem → ℕ → ℕ → ℕ → Option ℕ
find_end m zipdata i zero = none
find_end m zipdata i (suc rounds) = elim (read32 m (zipdata + i) == 0x504b0506) [
  | true ↦ some i
  | false ↦ find_end m zipdata (i + 1) rounds
]

unfoldable pub zip_find_len : Mem → ℕ → ℕ → ℕ
unfolding find_end
zip_find_len m zipdata maxlen =
    if not (zipdata == 0) && read32 m zipdata == 0x504b0304
    then elim (find_end m zipdata sizeof_local (maxlen - sizeof_local)) [
      | none ↦ 0
      | some i ↦ add32 i sizeof_end
    ]
    else 0

-- `for (i = ziplen - sizeof(JZEndRecord); i >= 0; i--)`, the record's offset.
unfoldable pub find_er : Mem → ℕ → ℕ → Option ℕ
find_er m zipdata zero = if read32 m zipdata == 0x504b0506 then some 0 else none
find_er m zipdata (suc i) = elim (read32 m (zipdata + suc i) == 0x504b0506) [
  | true ↦ some (suc i)
  | false ↦ find_er m zipdata i
]

-- The offset in a signed `long`: with a file of 2 GB and more the loop is not entered.
unfoldable pub start_er : Mem → ℕ → ℕ → Option ℕ
unfolding find_er
start_er m zipdata i = if ltb i (2 ^ 31) then find_er m zipdata i else none

-- The disk checks; raw values are compared, as in the source.
unfoldable pub single_disk : JzEndRecord → Bool
single_disk er =
    er.disk_number == 0
    && er.central_directory_disk_number == 0
    && er.num_entries == er.num_entries_this_disk

-- `none` is `Z_ERROR`; then the `zip_t` is not written.
unfoldable pub zip_open_buffer : Mem → ℕ → ℕ → Option Zip
zip_open_buffer m zipdata ziplen =
    if leb ziplen sizeof_end then none else elim (start_er m zipdata (ziplen - sizeof_end)) [
      | none ↦ none
      | some i ↦
          if single_disk (end_record m (zipdata + i))
          then some (record { base = zipdata; len = ziplen; er = zipdata + i; gfh = 0 })
          else none
    ]

unfoldable pub zip_num_entries : Mem → Zip → ℕ
zip_num_entries m z = le16 (end_record m z.er).num_entries

-- The offset of the next central directory header.
unfoldable pub next_offset : Mem → Zip → ℕ
next_offset m z =
    if z.gfh == 0
    then le32 (end_record m z.er).central_directory_offset
    else let h = global_header m z.gfh in
      add32 (add32 (add32 (sub32 z.gfh z.base) sizeof_global) (le16 h.file_name_length))
        (le16 h.extra_field_length)

unfoldable pub zip_readdir : Mem → Zip → Status × Zip
zip_readdir m z =
    let offs = next_offset m z in
    if z.er == 0
    then (z_error, z)
    else if leb z.len offs
    then (z_error, z)
    else if (global_header m (z.base + offs)).signature == 0x504b0102
    then (z_ok, record z { gfh = z.base + offs })
    else (z_error, record z { gfh = 0 })

unfoldable pub zip_file_compressed_size : Mem → Zip → ℕ
zip_file_compressed_size m z = le32 (global_header m z.gfh).compressed_size

unfoldable pub zip_file_uncompressed_size : Mem → Zip → ℕ
zip_file_uncompressed_size m z = le32 (global_header m z.gfh).uncompressed_size

unfoldable pub zip_file_file_name_length : Mem → Zip → ℕ
zip_file_file_name_length m z = le16 (global_header m z.gfh).file_name_length

-- What is put into `buf`; `none` is `Z_ERROR`.
unfoldable pub zip_file_get_name : Mem → Zip → Option Bytes
zip_file_get_name m z =
    if z.gfh == 0
    then none
    else some (load_bytes m (z.gfh + sizeof_global) (zip_file_file_name_length m z) ++ (0 ∷ []))

-- `!strcmp(fnbuf, name)` for a name given by its bytes, none of which is 0.
unfoldable pub same_string : Bytes → Bytes → Bool
same_string [] name = false
same_string (c ∷ buf) [] = c == 0
same_string (c ∷ buf) (d ∷ name) = c == d && same_string buf name

-- `fnbuf` holds the name of the current header. The failure of `zip_file_get_name` is not tested.
unfoldable pub name_matches : Mem → Zip → Bytes → Bool
name_matches m z name =
    if zip_file_file_name_length m z == length name
    then elim (zip_file_get_name m z) [ none ↦ false | some buf ↦ same_string buf name ]
    else false

-- The loop of `zip_file_find`, over the entries left.
unfoldable pub find_entry : ℕ → Mem → Zip → Bytes → Status × Zip
find_entry zero m z name = (z_error, z)
find_entry (suc n) m z name =
    let (s, z') = zip_readdir m z in
    elim s [
      | z_error ↦ (z_error, z')
      | z_ok ↦ elim (ltb 255 (zip_file_file_name_length m z')) [
        | true ↦ (z_error, z')
        | false ↦ elim (name_matches m z' name) [
          | true ↦ (z_ok, z')
          | false ↦ find_entry n m z' name
        ]
      ]
    ]

unfoldable pub zip_file_find : Mem → Zip → Bytes → Status × Zip
zip_file_find m z name =
    if z.er == 0
    then (z_error, z)
    else find_entry (zip_num_entries m z) m (record z { gfh = 0 }) name

-- `puff(dest, &destlen, source, &sourcelen)`: its result, as 0 or not 0, and the memory it leaves.
abbrev pub Puff : Type 0
Puff = Mem → ℕ → ℕ → ℕ → ℕ → Bool × Mem

-- `if (puff(…)) return Z_ERROR;`
abbrev pub inflated : Bool × Mem → Status × Mem
inflated (true, m) = (z_ok, m)
inflated (false, m) = (z_error, m)

unfoldable pub zip_file_extract : Puff → Mem → Zip → ℕ → Status × Mem
zip_file_extract puff m z buffer =
    let gfh = global_header m z.gfh in
    let at = z.base + le32 gfh.relative_offset_of_local_header in
    let lfh = local_header m at in
    let bits = at + sizeof_local + le16 lfh.file_name_length + le16 lfh.extra_field_length in
    if z.gfh == 0 || buffer == 0
    then (z_error, m)
    else if not (lfh.signature == 0x504b0304)
    then (z_error, m)
    else if le16 lfh.compression_method == 0
    then if not (gfh.compressed_size == gfh.uncompressed_size)
      then (z_error, m)
      else (z_ok, memcpy m buffer bits (le32 gfh.uncompressed_size))
    else if le16 lfh.compression_method == 8
    then inflated (puff m buffer (le32 gfh.uncompressed_size) bits (le32 gfh.compressed_size))
    else (z_error, m)
