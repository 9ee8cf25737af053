-- ===== src/Kick/Supply.antt =====
-- The loads of files that an archive supplies, on a board that grants what is claimed.
use bboot.Base.{ℕ, ◌+◌, ◌≤◌, ◌≢◌, ◌⊎◌, List, ◌≡◌, ap, ◌∙◌, sym, Bytes, length, word}
use bboot.Memory.{Mem, load_bytes}
use bboot.Zip.{Zip, Puff, Status, z_ok, zip_file_find, zip_file_uncompressed_size, zip_file_extract}
use bboot.Zip.Find.{Entry}
use bboot.Zip.Archive.{
  IsArchive, IsFile, IsUntouched, IsArchive-IsUntouched, zip_file_find-IsArchive, size-IsUntouched,
}
use bboot.Action.{Machine, Result, ok, err, Action, after}
use bboot.Layout.{base_name}
use bboot.Kick.{Board}
use bboot.Kick.Kicklist.{IsKicklist}
use bboot.Kick.Filled.{IsModule}
use bboot.Kick.Listed.{IsLoad}

-- A file to load: its path, where its header is, its size, and its bytes.
pub record ModuleFile : Type 0 where
  pub path : Bytes
  pub at : ℕ
  pub size : ℕ
  pub bytes : Bytes

abbrev pub name_length : ModuleFile → ℕ
name_length f = length (base_name f.path)

-- The board grants every claim of memory that ends at `top` or below it.
abbrev pub Grants {ℓ} : {S : Type ℓ} → Board S → ℕ → Type ℓ
Grants {S} board top = (a n : ℕ) (s : S) → a ≢ 0 → a + n ≤ top → (board.claim a n s).0 ≡ a

-- The archive has the file, under a name that is not empty, and gives its bytes wherever it is taken out to;
-- its size does not wrap.
pub record IsLoadable (puff : Puff) (m : Mem) (z : Zip) (dir : ℕ) (es : List Entry) (f : ModuleFile)
    : Type 0 where
  pub file : IsFile puff m z dir es f.path f.at f.size
  pub named : name_length f ≢ 0
  pub small : f.size + name_length f + 104 ≤ word
  pub content :
      (m' : Mem) (buffer : ℕ)
      → IsUntouched z m m'
      → buffer ≢ 0
      → load_bytes (zip_file_extract puff m' (record z { gfh = f.at }) buffer).1 buffer f.size
        ≡ f.bytes

-- A module at `n` for the file, with the file's bytes at `data_`.
pub record IsHeld (m : Mem) (n data_ : ℕ) (f : ModuleFile) : Type 0 where
  pub structure : IsModule m n data_ f.size (base_name f.path)
  pub contents : load_bytes m data_ f.size ≡ f.bytes

pub IsLoad-map {ℓ} :
    {S : Type ℓ} {P Q : ℕ → Machine S → Type 0} (status : Status)
    → ((inc : ℕ) (m : Machine S) → P inc m → Q inc m)
    → (r : Result ℕ × Machine S) → IsLoad status P r
    → IsLoad status Q r
IsLoad-map status h (ok inc, m) p = h inc m p
IsLoad-map status h (err e, m) p = p

-- What follows a load whose extraction succeeds.
pub IsLoad-after {ℓ} :
    {S : Type ℓ} {B : Type 0} {P : ℕ → Machine S → Type 0} (status : Status)
    (Q : Result B × Machine S → Type 0) (f : ℕ → Action S B) (r : Result ℕ × Machine S)
    → IsLoad status P r
    → status ≡ z_ok
    → ((inc : ℕ) (m : Machine S) → P inc m → Q (f inc m))
    → Q (after f r)
IsLoad-after status Q f (ok inc, m) p s h = h inc m p
IsLoad-after status Q f (err e, m) p s h = absurd (cc (sym p.1 ∙ s))

module _ {ℓ} {S : Type ℓ} (board : Board S) (puff : Puff) (start : Mem) (z : Zip) (dir : ℕ)
    (es : List Entry) (top : ℕ) where
  -- The machine reads the archive, as it was at the start.
  pub record Reads (m : Machine S) : Type 0 where
    pub untouched : IsUntouched z start m.mem
    pub current : ℕ
    pub archive : m.zip ≡ record z { gfh = current }

  -- The archive is clear of the memory from the list on.
  abbrev pub IsClear : ℕ → Type 0
  IsClear l = (z.base + z.len ≤ l) ⊎ (top ≤ z.base)

  -- What a load leaves: the list, with memory free from `next` on, and the file's module.
  pub record IsNext (f : ModuleFile) (l next : ℕ) (ns : List ℕ) (n data_ : ℕ) (m : Machine S)
      : Type 0 where
    pub reads : Reads m
    pub held : IsHeld m.mem n data_ f
    pub list : IsKicklist m.mem l next ns

  module _ (archive : IsArchive start z dir es) {path : Bytes} {at size : ℕ}
      (file : IsFile puff start z dir es path at size) (m : Machine S) (reads : Reads m) where
    pub found : zip_file_find m.mem m.zip path ≡ (z_ok, record z { gfh = at })
    found =
        ap (λ x. zip_file_find m.mem x path) reads.archive
        ∙ zip_file_find-IsArchive m.mem z dir es path at reads.current
            (IsArchive-IsUntouched start m.mem z dir es archive reads.untouched) file.found

    pub sized : zip_file_uncompressed_size m.mem (record z { gfh = at }) ≡ size
    sized =
        size-IsUntouched start m.mem z dir at es path archive file.found reads.untouched ∙ file.long

    pub extracts :
        (buffer : ℕ)
        → buffer ≢ 0
        → (zip_file_extract puff m.mem (record z { gfh = at }) buffer).0 ≡ z_ok
    extracts buffer nonzero = file.unpacks m.mem buffer reads.untouched nonzero

  pub granted :
      (grants : Grants board top) (a n : ℕ) (s : S)
      → a ≢ 0
      → a + n ≤ top
      → board.claim a n s ≡ (a, (board.claim a n s).1)
  granted grants a n s nonzero fits =
      ap (λ x. (x, (board.claim a n s).1)) (grants a n s nonzero fits)

  -- The archive's files have their sizes wherever nothing has written to it.
  pub sized_untouched :
      (m : Mem) (f : ModuleFile)
      → IsArchive start z dir es
      → IsLoadable puff start z dir es f
      → IsUntouched z start m
      → zip_file_uncompressed_size m (record z { gfh = f.at }) ≡ f.size
  sized_untouched m f archive loadable h =
      size-IsUntouched start m z dir f.at es f.path archive loadable.file.found h
      ∙ loadable.file.long
