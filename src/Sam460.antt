-- ===== src/Sam460.antt =====
-- What `sam460_init` of brd_sam460.c takes from the device tree, and what it sets in `brd` and in the
-- board information, with `no_claim` and the inbound window of `setup_pom`. The pointers to functions and
-- to the board information itself are left out.
pub mod Stack
pub mod Pci
pub mod Init
pub mod Tree
mod Tests
use bboot.Base.{
  ℕ, ◌+◌, ◌-◌, ◌*◌, ◌/◌, ◌≤◌, Bool, true, false, Option, none, some, [], ◌==◌, ltb, leb,
  if◌then◌else◌, Bytes, codes, length, add32, sub32, bit_and, bit_or,
}
use bboot.Memory.{Mem}
use bboot.Fdt.{fdt_check, fdt_get_prop_u32, fdt_get_prop_u32_idx, fdt_get_prop_str}

-- The value of a variable after `fdt_get_prop_u32` or `fdt_get_prop_u32_idx`.
abbrev pub or_kept : Option ℕ → ℕ → ℕ
or_kept none old = old
or_kept (some v) old = v

-- `memsize`, `brd.initrd_start`, `brd.initrd_end` and the text at `brd.bootargs`, NULL as `none`.
pub record Handed : Type 0 where
  pub memsize : ℕ
  pub initrd_start : ℕ
  pub initrd_end : ℕ
  pub bootargs : Option Bytes

-- `fdt_get_prop_str(…) > 0`
abbrev pub nonempty : Option Bytes → Option Bytes
nonempty none = none
nonempty (some []) = none
nonempty (some s) = some s

abbrev pub default_memsize : ℕ
default_memsize = 512 * 1024 * 1024

-- The fuel is that of the walks over the device tree.
unfoldable pub read_fdt : ℕ → Mem → ℕ → Handed
read_fdt fuel m fdt =
    if fdt_check m fdt
    then record {
      memsize =
          or_kept (fdt_get_prop_u32_idx fuel m fdt (codes "memory") (codes "reg") 2)
            default_memsize;
      initrd_start =
          or_kept (fdt_get_prop_u32 fuel m fdt (codes "chosen") (codes "linux,initrd-start")) 0;
      initrd_end =
          or_kept (fdt_get_prop_u32 fuel m fdt (codes "chosen") (codes "linux,initrd-end")) 0;
      bootargs = nonempty (fdt_get_prop_str fuel m fdt (codes "chosen") (codes "bootargs") 256);
    }
    else record { memsize = default_memsize; initrd_start = 0; initrd_end = 0; bootargs = none }

-- `brd.stack_top`
unfoldable pub stack_top : ℕ → ℕ
stack_top memsize =
    let ram_top = if ltb 0x80000000 memsize then 0x80000000 else memsize in
    bit_and (sub32 ram_top 0x100000) 0xfffffff0

-- `no_claim`: the address, or 0 for NULL.
unfoldable pub no_claim : ℕ → ℕ → ℕ → ℕ
no_claim memsize addr size = if ltb (add32 addr size) memsize then addr else 0

-- `(~(bd.bi_memsize - 1)) | 3`, what `setup_pom` stores in PIM0SAL
unfoldable pub pim0sal : ℕ → ℕ
pim0sal memsize = bit_or (sub32 (sub32 0 1) (sub32 memsize 1)) 3
