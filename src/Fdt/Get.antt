-- ===== src/Fdt/Get.antt =====
-- The results of fdt.c's three exported readers, on a blob that holds a tree.
use bboot.Base.{
  ℕ, zero, suc, ◌+◌, ◌-◌, ◌*◌, ◌^◌, ◌≤◌, ◌<◌, ◌∷◌, ◌≡◌, refl, ap, Option, none, some, ltb, ◌==◌,
  if◌then◌else◌, Bytes, length, arith, get_or, take, ◌∙◌,
}
use native.Mathlib.Nat.{add_assoc, add-zero}
use bboot.Memory.{Mem, read32, load_bytes}
use bboot.Fdt.{fdt_find_prop, fdt_get_prop_u32, fdt_get_prop_u32_idx, fdt_get_prop_str, int_lt}
use bboot.Fdt.Tokens.{Answers, NoNul}
use bboot.Fdt.Tree.{Tree, IsBlob, tree_tokens, lookup_device, fdt_find_prop-tree}

-- The big-endian number at an index of a property's data.
unfoldable pub be32_at : Bytes → ℕ → ℕ
be32_at d i =
    get_or d i 0 * 16777216
    + get_or d (i + 1) 0 * 65536
    + get_or d (i + 2) 0 * 256
    + get_or d (i + 3) 0

get_or-load_bytes : (m : Mem) (p n i : ℕ) → i < n → get_or (load_bytes m p n) i 0 ≡ m (p + i)
unfolding load_bytes
get_or-load_bytes m p zero i h = absurd (omega arith)
get_or-load_bytes m p (suc n) zero h = ap m (omega arith)
get_or-load_bytes m p (suc n) (suc i) h =
    let e : p + 1 + i ≡ p + suc i = omega arith in
    get_or-load_bytes m (p + 1) n i (omega arith) ∙ ap m e

take-load_bytes : (m : Mem) (p n k : ℕ) → k ≤ n → load_bytes m p k ≡ take k (load_bytes m p n)
unfolding load_bytes
take-load_bytes m p n zero h = refl
take-load_bytes m p zero (suc k) h = absurd (omega arith)
take-load_bytes m p (suc n) (suc k) h = ap (◌∷◌ (m p)) (take-load_bytes m (p + 1) n k (omega arith))

read32-load_bytes :
    (m : Mem) (p n i : ℕ) → i + 4 ≤ n → read32 m (p + i) ≡ be32_at (load_bytes m p n) i
unfolding read32 be32_at
read32-load_bytes m p n i h = ground (
  arith,
  get_or-load_bytes m p n i,
  get_or-load_bytes m p n (i + 1),
  get_or-load_bytes m p n (i + 2),
  get_or-load_bytes m p n (i + 3),
  add_assoc p i 1,
  add_assoc p i 2,
  add_assoc p i 3,
)

data-be32_at :
    (m : Mem) (p i : ℕ) (d : Bytes)
    → load_bytes m p (length d) ≡ d
    → i + 4 ≤ length d
    → read32 m (p + i) ≡ be32_at d i
data-be32_at m p i d is h = read32-load_bytes m p (length d) i h ∙ ap (λ x. be32_at x i) is

-- The specifications, on the property that the tree has.
unfoldable pub cell_of : ℕ → Option Bytes → Option ℕ
cell_of idx none = none
cell_of idx (some d) = if ltb (length d) ((idx + 1) * 4) then none else some (be32_at d (idx * 4))

unfoldable pub text_of : ℕ → Option Bytes → Option Bytes
text_of buflen none = none
text_of buflen (some d) =
    if length d == 0 then none else some (if ltb (length d) buflen then d else take (buflen - 1) d)

-- A property has less than 2 GB.
abbrev pub Fits : Option Bytes → Type 0
Fits none = Unit {0}
Fits (some d) = length d < 2 ^ 31

module _ (m : Mem) (fdt fuel : ℕ) (t : Tree) (node name : Bytes)
    (blob : IsBlob m fdt fuel (tree_tokens t)) (node_NoNul : NoNul node) (name_NoNul : NoNul name)
    (fits : Fits (lookup_device t.nodes node name)) where
  answer : Answers m (lookup_device t.nodes node name) (fdt_find_prop fuel m fdt node name)
  answer = fdt_find_prop-tree m fdt fuel t node name blob node_NoNul name_NoNul

  -- On a blob that holds a tree, with fuel for it and data shorter than 2 GiB, `fdt_get_prop_u32_idx`
  -- answers the big-endian cell of that index, and fails where the search finds no property or its
  -- data ends before the cell does.
  pub fdt_get_prop_u32_idx-cell_of :
      (idx : ℕ)
      → fdt_get_prop_u32_idx fuel m fdt node name idx
        ≡ cell_of idx (lookup_device t.nodes node name)
  unfolding fdt_get_prop_u32_idx cell_of int_lt
  fdt_get_prop_u32_idx-cell_of idx = go (lookup_device t.nodes node name) fits answer
    where
      go :
          (o : Option Bytes)
          → Fits o
          → Answers m o (fdt_find_prop fuel m fdt node name)
          → fdt_get_prop_u32_idx fuel m fdt node name idx ≡ cell_of idx o
      go none f e = ground (arith, e)
      go (some d) f (p, e, is) = ground (arith, e, data-be32_at m p (idx * 4) d is)

  -- On such a blob, with fuel for it and data shorter than 2 GiB, `fdt_get_prop_u32` answers the first
  -- big-endian cell, and fails where the search finds no property or its data has no four bytes.
  pub fdt_get_prop_u32-cell_of :
      fdt_get_prop_u32 fuel m fdt node name ≡ cell_of 0 (lookup_device t.nodes node name)
  unfolding fdt_get_prop_u32 cell_of int_lt
  fdt_get_prop_u32-cell_of = go (lookup_device t.nodes node name) fits answer
    where
      go :
          (o : Option Bytes)
          → Fits o
          → Answers m o (fdt_find_prop fuel m fdt node name)
          → fdt_get_prop_u32 fuel m fdt node name ≡ cell_of 0 o
      go none f e = ground (arith, e)
      go (some d) f (p, e, is) = ground (arith, e, add-zero p, data-be32_at m p 0 d is)

  -- On such a blob, with fuel for it and data shorter than 2 GiB, `fdt_get_prop_str` answers the data, cut
  -- to a buffer of one byte or more with room for a NUL, and fails where the search finds no property
  -- or it is empty.
  pub fdt_get_prop_str-text_of :
      (buflen : ℕ)
      → 0 < buflen
      → fdt_get_prop_str fuel m fdt node name buflen
        ≡ text_of buflen (lookup_device t.nodes node name)
  unfolding fdt_get_prop_str text_of int_lt
  fdt_get_prop_str-text_of buflen room = go (lookup_device t.nodes node name) fits answer
    where
      go :
          (o : Option Bytes)
          → Fits o
          → Answers m o (fdt_find_prop fuel m fdt node name)
          → fdt_get_prop_str fuel m fdt node name buflen ≡ text_of buflen o
      go none f e = ground (arith, e)
      go (some d) f (p, e, is) = ground (arith, e, is, take-load_bytes m p (length d) (buflen - 1))
