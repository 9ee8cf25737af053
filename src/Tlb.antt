-- ===== src/Tlb.antt =====
-- The address translation that brd_sam460.c programs: `tlbtab`, and `setup_tlb` as the sequence of
-- its calls of `write_tlb`, which is a handful of privileged instructions.
pub mod Pages
mod Tests
use bboot.Base.{
  ℕ, zero, suc, ◌+◌, ◌-◌, ◌*◌, ◌/◌, ◌^◌, List, [], ◌∷◌, ◌++◌, map, ltb, ◌==◌, if◌then◌else◌, add32,
  bit_or, length,
}

abbrev pub tlb_valid : ℕ
tlb_valid = 0x200

abbrev pub tlb_1k : ℕ
tlb_1k = 0

abbrev pub tlb_16k : ℕ
tlb_16k = 0x20

abbrev pub tlb_1m : ℕ
tlb_1m = 0x50

abbrev pub tlb_16m : ℕ
tlb_16m = 0x70

abbrev pub tlb_256m : ℕ
tlb_256m = 0x90

abbrev pub sa_i : ℕ
sa_i = 0x400

abbrev pub sa_g : ℕ
sa_g = 0x100

abbrev pub ac_x : ℕ
ac_x = 0x24

abbrev pub ac_w : ℕ
ac_w = 0x12

abbrev pub ac_r : ℕ
ac_r = 0x9

abbrev pub ac_rw : ℕ
ac_rw = bit_or ac_r ac_w

abbrev pub ac_rwx : ℕ
ac_rwx = bit_or (bit_or ac_r ac_w) ac_x

pub record TlbRow : Type 0 where
  pub epn : ℕ
  pub size : ℕ
  pub rpn : ℕ
  pub erpn : ℕ
  pub attr : ℕ

abbrev row : ℕ → ℕ → ℕ → ℕ → ℕ → TlbRow
row epn size rpn erpn attr = record { epn = epn; size = size; rpn = rpn; erpn = erpn; attr = attr }

abbrev pub tlbtab : List TlbRow
tlbtab =
    row 0xf0000000 tlb_256m 0xf0000000 0x4 (bit_or ac_rwx sa_g)
    ∷ row 0xd0000000 tlb_256m 0x00000000 0xc (bit_or (bit_or ac_rw sa_g) sa_i)
    ∷ row 0x80000000 tlb_256m 0x80000000 0xc (bit_or (bit_or ac_rw sa_g) sa_i)
    ∷ row 0x90000000 tlb_256m 0x90000000 0xc (bit_or (bit_or ac_rw sa_g) sa_i)
    ∷ row 0xa0000000 tlb_256m 0xa0000000 0xd (bit_or (bit_or ac_rw sa_g) sa_i)
    ∷ row 0xb0000000 tlb_256m 0xb0000000 0xd (bit_or (bit_or ac_rw sa_g) sa_i)
    ∷ row 0xc0000000 tlb_256m 0xc0000000 0xd (bit_or (bit_or ac_rw sa_g) sa_i)
    ∷ row 0xe0000000 tlb_16m 0x00000000 0xd (bit_or (bit_or ac_rw sa_g) sa_i)
    ∷ row 0xe1000000 tlb_16m 0x20000000 0xd (bit_or (bit_or ac_rw sa_g) sa_i)
    ∷ row 0xe3000000 tlb_1k 0x10000000 0xd (bit_or (bit_or ac_rw sa_g) sa_i)
    ∷ row 0xe3001000 tlb_1k 0x30000000 0xd (bit_or (bit_or ac_rw sa_g) sa_i)
    ∷ row 0xe4000000 tlb_16k 0x08010000 0xc (bit_or (bit_or ac_rw sa_g) sa_i)
    ∷ row 0xe5000000 tlb_1m 0x00000000 0x4 (bit_or ac_rwx sa_i)
    ∷ row 0xef000000 tlb_16m 0xef000000 0x4 (bit_or (bit_or ac_rwx sa_g) sa_i)
    ∷ row 0xe2000000 tlb_1m 0xbff00000 0x4 (bit_or (bit_or ac_rwx sa_g) sa_i)
    ∷ []

-- The arguments of one call of `write_tlb`.
pub record TlbWrite : Type 0 where
  pub index : ℕ
  pub w0 : ℕ
  pub w1 : ℕ
  pub w2 : ℕ

abbrev pub rows : ℕ
rows = 15

-- `pages` as the loops find it.
unfoldable pub ram_pages : ℕ → ℕ
ram_pages memsize =
    let pages = add32 memsize 0xfffffff / 2 ^ 28 in
    let some_pages = if pages == 0 then 1 else pages in
    if ltb (64 - rows) some_pages then 64 - rows else some_pages

-- The body of the loop over the pages of memory.
unfoldable pub ram_write : ℕ → TlbWrite
ram_write i = record {
  index = rows + i;
  w0 = bit_or (bit_or (i * 2 ^ 28) tlb_valid) tlb_256m;
  w1 = i * 2 ^ 28;
  w2 = bit_or ac_rwx sa_i;
}

-- That loop, from `i` on, with the rounds left.
unfoldable pub ram_writes : ℕ → ℕ → List TlbWrite
ram_writes i zero = []
ram_writes i (suc rounds) = ram_write i ∷ ram_writes (i + 1) rounds

-- The loop over `tlbtab`, from `i` on.
unfoldable pub row_writes : ℕ → List TlbRow → List TlbWrite
row_writes i [] = []
row_writes i (r ∷ rest) =
    record {
      index = i;
      w0 = bit_or (bit_or r.epn tlb_valid) r.size;
      w1 = bit_or r.rpn r.erpn;
      w2 = r.attr;
    }
    ∷ row_writes (i + 1) rest

unfoldable pub setup_tlb : ℕ → List TlbWrite
setup_tlb memsize = ram_writes 0 (ram_pages memsize) ++ row_writes 0 tlbtab
