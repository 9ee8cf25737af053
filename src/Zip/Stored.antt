-- ===== src/Zip/Stored.antt =====
-- Stored files: what is taken out of the archive is what it holds.
use bboot.Base.{
  ℕ, zero, suc, ◌+◌, ◌≤◌, ◌<◌, ◌≢◌, List, ◌∷◌, ◌≡◌, refl, ap, ◌∙◌, some, Bytes, arith, ==_ne,
  ==_refl,
}
use bboot.Memory.{Mem, read16, read32, le16, le32, load_bytes}
use bboot.Zip.{
  Zip, z_ok, Puff, sizeof_local, sizeof_global, zip_file_uncompressed_size, zip_file_extract,
  local_header, global_header,
}
use bboot.Zip.Find.{Entry, locate}
use bboot.Zip.Extract.{local_at, data_at, zip_file_extract_stored}
use bboot.Zip.Archive.{
  IsArchive, IsFile, IsUntouched, locate-inside, read16-SameWithin, read32-SameWithin,
  size-IsUntouched,
}

abbrev pub at_header : Zip → ℕ → Zip
at_header z a = record z { gfh = a }

-- The entry at `a` is stored; its local header and its bytes lie in the archive.
pub record IsStored (m : Mem) (z : Zip) (a : ℕ) : Type 0 where
  pub inside :
      data_at m (at_header z a) + zip_file_uncompressed_size m (at_header z a) ≤ z.base + z.len
  pub signature : (local_header m (local_at m (at_header z a))).signature ≡ 0x504b0304
  pub method : le16 (local_header m (local_at m (at_header z a))).compression_method ≡ 0
  pub sizes : (global_header m a).compressed_size ≡ (global_header m a).uncompressed_size

module _ (m m' : Mem) (z : Zip) (dir a : ℕ) (es : List Entry) (name : Bytes)
    (k : IsArchive m z dir es) (found : locate (z.base + dir) es name ≡ some a)
    (h : IsUntouched z m m') where
  inside_header : (z.base ≤ a) × (a + sizeof_global ≤ z.base + z.len)
  inside_header =
      let within = locate-inside (z.base + dir) a es name found in
      (omega (arith, within), omega (arith, within, k.fits))

  field : (at : ℕ) → z.base ≤ at → at + 4 ≤ z.base + z.len → read32 m' at ≡ read32 m at
  field at below above = read32-SameWithin z.base (z.base + z.len) at m m' h below above

  local_at_same : local_at m' (at_header z a) ≡ local_at m (at_header z a)
  local_at_same =
      ap (λ x. z.base + le32 x)
        (field (a + 42) (omega (arith, inside_header)) (omega (arith, inside_header)))

  module _ (stored : IsStored m z a) where
    half :
        (n : ℕ)
        → n + 2 ≤ sizeof_local
        → read16 m' (local_at m (at_header z a) + n) ≡ read16 m (local_at m (at_header z a) + n)
    half n fits =
        read16-SameWithin z.base (z.base + z.len) (local_at m (at_header z a) + n) m m' h
          (omega arith) (omega (arith, stored.inside, fits))

    data_at_same : data_at m' (at_header z a) ≡ data_at m (at_header z a)
    data_at_same = rw (local_at_same, half 26 (omega arith), half 28 (omega arith)) refl

    pub IsStored-IsUntouched : IsStored m' z a
    IsStored-IsUntouched = record {
      inside = rw (data_at_same, size-IsUntouched m m' z dir a es name k found h) stored.inside;
      signature =
          rw
            (
              local_at_same,
              field (local_at m (at_header z a)) (omega arith) (omega (arith, stored.inside)),
            )
            stored.signature;
      method = rw (local_at_same, half 8 (omega arith)) stored.method;
      sizes =
          rw
            (
              field (a + 20) (omega (arith, inside_header)) (omega (arith, inside_header)),
              field (a + 24) (omega (arith, inside_header)) (omega (arith, inside_header)),
            )
            stored.sizes;
    }

    -- Byte by byte, what is taken out is what stands in the archive.
    pub stored_byte :
        (puff : Puff) (buffer i : ℕ)
        → buffer ≢ 0
        → i < zip_file_uncompressed_size m (at_header z a)
        → (zip_file_extract puff m' (at_header z a) buffer).1 (buffer + i)
          ≡ m (data_at m (at_header z a) + i)
    stored_byte puff buffer i nonzero lt =
        let there = IsStored-IsUntouched in
        let size = size-IsUntouched m m' z dir a es name k found h in
        (zip_file_extract_stored puff m' (at_header z a) buffer i
          (omega (arith, inside_header, k.base)) nonzero there.signature there.method there.sizes
          (omega (arith, size, lt))).1
        ∙ ap (λ x. m' (x + i)) data_at_same
        ∙ h (data_at m (at_header z a) + i) (omega arith) (omega (arith, stored.inside, lt))

load_bytes_moved :
    (m m' : Mem) (a b n : ℕ)
    → ((i : ℕ) → i < n → m' (b + i) ≡ m (a + i))
    → load_bytes m' b n ≡ load_bytes m a n
unfolding load_bytes
load_bytes_moved m m' a b zero h = refl
load_bytes_moved m m' a b (suc n) h =
    let here : m' b ≡ m a = ap m' (omega arith) ∙ h 0 (omega arith) ∙ ap m (omega arith) in
    let rest =
      load_bytes_moved m m' (a + 1) (b + 1) n
        (λ i lt. ap m' (omega arith) ∙ h (i + 1) (omega arith) ∙ ap m (omega arith)) in
    ap (λ (c : ℕ). c ∷ load_bytes m' (b + 1) n) here ∙ ap (λ (t : Bytes). m a ∷ t) rest

module _ (puff : Puff) (m : Mem) (z : Zip) (dir a : ℕ) (es : List Entry) (name : Bytes)
    (k : IsArchive m z dir es) (found : locate (z.base + dir) es name ≡ some a)
    (stored : IsStored m z a) where
  extract-ok :
      (m' : Mem) (buffer : ℕ)
      → IsUntouched z m m'
      → buffer ≢ 0
      → (zip_file_extract puff m' (at_header z a) buffer).0 ≡ z_ok
  unfolding zip_file_extract
  extract-ok m' buffer h nonzero =
      let there = IsStored-IsUntouched m m' z dir a es name k found h stored in
      let inside = locate-inside (z.base + dir) a es name found in
      let current = ==_ne a 0 (omega (arith, inside, k.base)) in
      let given = ==_ne buffer 0 nonzero in
      let equal = ==_refl (read32 m' (a + 24)) in
      rw (current, given, there.signature, there.method, there.sizes, equal) refl

  -- A stored file can be taken out by any inflater, as often as the archive is untouched.
  pub IsStored-IsFile : IsFile puff m z dir es name a (zip_file_uncompressed_size m (at_header z a))
  IsStored-IsFile = record { found = found; long = refl; unpacks = extract-ok }

  pub IsStored-content :
      (m' : Mem) (buffer : ℕ)
      → IsUntouched z m m'
      → buffer ≢ 0
      → load_bytes
          (zip_file_extract puff m' (at_header z a) buffer).1
          buffer
          (zip_file_uncompressed_size m (at_header z a))
        ≡ load_bytes m (data_at m (at_header z a)) (zip_file_uncompressed_size m (at_header z a))
  IsStored-content m' buffer h nonzero =
      load_bytes_moved m (zip_file_extract puff m' (at_header z a) buffer).1
        (data_at m (at_header z a)) buffer (zip_file_uncompressed_size m (at_header z a))
        (λ i lt. stored_byte m m' z dir a es name k found h stored puff buffer i nonzero lt)
