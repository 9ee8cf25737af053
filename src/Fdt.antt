-- ===== src/Fdt.antt =====
-- The flattened device tree reader of fdt.c over the flat memory. Node and property names that the
-- callers give are literals, given by their bytes. The walk of `fdt_find_prop` has no bound in C; here
-- it takes fuel for its rounds, and so does the search for the NUL of a node's name.
pub mod Tokens
pub mod Tree
pub mod Get
pub mod Tests
use bboot.Base.{
  ℕ, zero, suc, ◌+◌, ◌-◌, ◌*◌, ◌/◌, ◌^◌, ◌≤◌, ◌<◌, Bool, true, false, not, ◌&&◌, ◌||◌, List, [],
  ◌∷◌, ◌++◌, ◌≡◌, Option, none, some, ltb, leb, ◌==◌, if◌then◌else◌, Bytes, length, add32,
}
use bboot.Memory.{Mem, read32, load_bytes, str_eq, strlen}

abbrev pub fdt_magic : ℕ
fdt_magic = 0xd00dfeed

-- `ALIGN4`
unfoldable pub align4 : ℕ → ℕ
align4 x = add32 x 3 / 4 * 4

pub record FdtHeader : Type 0 where
  pub magic : ℕ
  pub totalsize : ℕ
  pub off_dt_struct : ℕ
  pub off_dt_strings : ℕ
  pub off_mem_rsvmap : ℕ
  pub version : ℕ
  pub last_comp_version : ℕ
  pub boot_cpuid_phys : ℕ
  pub size_dt_strings : ℕ
  pub size_dt_struct : ℕ

-- `fdt32`; every field is read by it.
abbrev pub fdt32 : Mem → ℕ → ℕ
fdt32 = read32

abbrev pub fdt_header : Mem → ℕ → FdtHeader
fdt_header m fdt = record {
  magic = fdt32 m fdt;
  totalsize = fdt32 m (fdt + 4);
  off_dt_struct = fdt32 m (fdt + 8);
  off_dt_strings = fdt32 m (fdt + 12);
  off_mem_rsvmap = fdt32 m (fdt + 16);
  version = fdt32 m (fdt + 20);
  last_comp_version = fdt32 m (fdt + 24);
  boot_cpuid_phys = fdt32 m (fdt + 28);
  size_dt_strings = fdt32 m (fdt + 32);
  size_dt_struct = fdt32 m (fdt + 36);
}

-- 0 is `true`, -1 is `false`.
unfoldable pub fdt_check : Mem → ℕ → Bool
fdt_check m fdt = fdt32 m fdt == fdt_magic

-- The answer of `fdt_find_prop`: the property's data and length, NULL, or that the fuel ran out.
pub data Found : Type 0 where
  found : ℕ → ℕ → Found
  null : Found
  out_of_fuel : Found

-- The local variables of the walk.
pub record Walk : Type 0 where
  pub p : ℕ
  pub depth : ℕ
  pub in_target : Bool

-- What one round of the loop does: go on, or return.
pub data Next : Type 0 where
  go_on : Walk → Next
  return : Found → Next

-- `case FDT_BEGIN_NODE`, behind the tag; `nlen` is the length of the name at `p`.
unfoldable pub begin_node : Mem → Bytes → Walk → Option ℕ → Next
begin_node m node_name w none = return out_of_fuel
begin_node m node_name w (some nlen) = go_on (record {
  p = w.p + align4 (nlen + 1);
  depth = w.depth + 1;
  in_target = w.depth + 1 == 2 && str_eq m w.p node_name || w.in_target;
})

-- `case FDT_END_NODE`. The depth is never negative: the walk returns where it would become so.
unfoldable pub end_node : Walk → Next
end_node w =
    if w.depth == 2 && w.in_target
    then return null
    else if w.depth == 0
    then return null
    else go_on (record w { depth = w.depth - 1; in_target = false })

-- `case FDT_PROP`, behind the tag
unfoldable pub property : Mem → ℕ → Bytes → Walk → Next
property m strings prop_name w =
    let len = fdt32 m w.p in
    let nameoff = fdt32 m (w.p + 4) in
    if w.in_target && str_eq m (strings + nameoff) prop_name
    then return (found (w.p + 8) len)
    else go_on (record w { p = w.p + 8 + align4 len })

module _ (limit : ℕ) (m : Mem) (strings : ℕ) (node_name prop_name : Bytes) where
  -- One round of `while (1)`.
  unfoldable pub round : Walk → Next
  round w =
      let tag = fdt32 m w.p in
      let w' = record w { p = w.p + 4 } in
      if tag == 1
      then begin_node m node_name w' (strlen limit m w'.p)
      else if tag == 2
      then end_node w'
      else if tag == 3
      then property m strings prop_name w'
      else if tag == 4
      then go_on w'
      else return null

  unfoldable pub walk : ℕ → Walk → Found
  walk zero w = out_of_fuel
  walk (suc fuel) w = elim (round w) [ go_on w' ↦ walk fuel w' | return r ↦ r ]

-- The fuel bounds the rounds and the length of each name.
unfoldable pub fdt_find_prop : ℕ → Mem → ℕ → Bytes → Bytes → Found
fdt_find_prop fuel m fdt node_name prop_name =
    walk fuel m (fdt + (fdt_header m fdt).off_dt_strings) node_name prop_name fuel
      (record { p = fdt + (fdt_header m fdt).off_dt_struct; depth = 0; in_target = false })

-- `len < n` on a length that C holds in an `int`.
unfoldable pub int_lt : ℕ → ℕ → Bool
int_lt len n = ltb len n || leb (2 ^ 31) len

-- The results of the three callers; `none` is -1, and then the output is not written.
unfoldable pub fdt_get_prop_u32 : ℕ → Mem → ℕ → Bytes → Bytes → Option ℕ
fdt_get_prop_u32 fuel m fdt node_name prop_name =
    elim (fdt_find_prop fuel m fdt node_name prop_name) [
      | found p len ↦ if int_lt len 4 then none else some (fdt32 m p)
      | _ ↦ none
    ]

unfoldable pub fdt_get_prop_u32_idx : ℕ → Mem → ℕ → Bytes → Bytes → ℕ → Option ℕ
fdt_get_prop_u32_idx fuel m fdt node_name prop_name idx =
    elim (fdt_find_prop fuel m fdt node_name prop_name) [
      | found p len ↦ if int_lt len ((idx + 1) * 4) then none else some (fdt32 m (p + idx * 4))
      | _ ↦ none
    ]

-- What `buf` holds in front of the final NUL; its length is the result.
unfoldable pub fdt_get_prop_str : ℕ → Mem → ℕ → Bytes → Bytes → ℕ → Option Bytes
fdt_get_prop_str fuel m fdt node_name prop_name buflen =
    elim (fdt_find_prop fuel m fdt node_name prop_name) [
      | found p len ↦
          if int_lt len 1
          then none
          else some (load_bytes m p (if ltb len buflen then len else buflen - 1))
      | _ ↦ none
    ]
