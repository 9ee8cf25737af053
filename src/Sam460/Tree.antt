-- ===== src/Sam460/Tree.antt =====
-- What `sam460_init` takes from a blob, on the tree that the blob holds.
use bboot.Base.{ℕ, Bool, true, not, ◌&&◌, ◌==◌, Option, ◌≡◌, refl, Bytes, [], ◌∷◌, codes, arith}
use bboot.Memory.{Mem}
use bboot.Fdt.{fdt_check}
use bboot.Fdt.Tokens.{NoNul}
use bboot.Fdt.Tree.{Tree, IsBlob, tree_tokens, lookup_device}
use bboot.Fdt.Get.{
  Fits, cell_of, text_of, fdt_get_prop_u32-cell_of, fdt_get_prop_u32_idx-cell_of,
  fdt_get_prop_str-text_of,
}
use bboot.Sam460.{Handed, read_fdt, or_kept, nonempty, default_memsize}

unfoldable pub no_nul : Bytes → Bool
no_nul [] = true
no_nul (c ∷ s) = not (c == 0) && no_nul s

no_nul-NoNul : (s : Bytes) → no_nul s ≡ true → NoNul s
unfolding no_nul
no_nul-NoNul [] e = tt
no_nul-NoNul (c ∷ s) e = (ground (arith, e), no_nul-NoNul s (ground (arith, e)))

-- The properties that are read, and what is made of them.
abbrev pub prop : Tree → Bytes → Bytes → Option Bytes
prop t node name = lookup_device t.nodes node name

unfoldable pub handed_of : Tree → Handed
handed_of t = record {
  memsize = or_kept (cell_of 2 (prop t (codes "memory") (codes "reg"))) default_memsize;
  initrd_start = or_kept (cell_of 0 (prop t (codes "chosen") (codes "linux,initrd-start"))) 0;
  initrd_end = or_kept (cell_of 0 (prop t (codes "chosen") (codes "linux,initrd-end"))) 0;
  bootargs = nonempty (text_of 256 (prop t (codes "chosen") (codes "bootargs")));
}

-- Each of them is shorter than 2 GiB.
pub record AllFit (t : Tree) : Type 0 where
  pub reg : Fits (prop t (codes "memory") (codes "reg"))
  pub start : Fits (prop t (codes "chosen") (codes "linux,initrd-start"))
  pub end : Fits (prop t (codes "chosen") (codes "linux,initrd-end"))
  pub args : Fits (prop t (codes "chosen") (codes "bootargs"))

-- On a blob that has the right magic number and holds a tree without NOPs, the properties of each node in front of
-- its children, with fuel for it, `sam460_init` takes the memory size from the third cell of reg in
-- memory, the initial ram disk from chosen and the arguments from bootargs in chosen, cut to 255 bytes, and keeps
-- the defaults for what the search does not find. A property that such a node lacks is searched for in its first
-- child, that one's first child and so on, and then in the next node of that name. The properties are shorter
-- than 2 GiB.
pub read_fdt-tree :
    (m : Mem) (fdt fuel : ℕ) (t : Tree)
    → fdt_check m fdt ≡ true
    → IsBlob m fdt fuel (tree_tokens t)
    → AllFit t
    → read_fdt fuel m fdt ≡ handed_of t
unfolding read_fdt handed_of no_nul
read_fdt-tree m fdt fuel t c blob fit =
    let memory = no_nul-NoNul (codes "memory") refl in
    let chosen = no_nul-NoNul (codes "chosen") refl in
    rw
      (
        c,
        fdt_get_prop_u32_idx-cell_of m fdt fuel t (codes "memory") (codes "reg") blob memory
            (no_nul-NoNul (codes "reg") refl) fit.reg 2,
        fdt_get_prop_u32-cell_of m fdt fuel t (codes "chosen") (codes "linux,initrd-start") blob
            chosen (no_nul-NoNul (codes "linux,initrd-start") refl) fit.start,
        fdt_get_prop_u32-cell_of m fdt fuel t (codes "chosen") (codes "linux,initrd-end") blob
            chosen (no_nul-NoNul (codes "linux,initrd-end") refl) fit.end,
        fdt_get_prop_str-text_of m fdt fuel t (codes "chosen") (codes "bootargs") blob chosen
            (no_nul-NoNul (codes "bootargs") refl) fit.args 256 (omega arith),
      )
      refl
