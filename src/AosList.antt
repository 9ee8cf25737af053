-- ===== src/AosList.antt =====
-- The doubly linked lists of include/aoslist.h, in the loader's memory.
pub mod Chain
pub mod Frame
mod Tests
use bboot.Base.{ℕ, ◌+◌}
use bboot.Memory.{Mem, read32, write32}

-- The addresses of the fields of `node_t` and `list_t`.
abbrev pub n_succ : ℕ → ℕ
n_succ n = n

abbrev pub n_pred : ℕ → ℕ
n_pred n = n + 4

abbrev pub l_head : ℕ → ℕ
l_head l = l

abbrev pub l_tail : ℕ → ℕ
l_tail l = l + 4

abbrev pub l_tailpred : ℕ → ℕ
l_tailpred l = l + 8

unfoldable pub alist_init : Mem → ℕ → Mem
alist_init m l =
    let m1 = write32 m (l_head l) (l_tail l) in
    let m2 = write32 m1 (l_tail l) 0 in write32 m2 (l_tailpred l) l

unfoldable pub alist_add_tail : Mem → ℕ → ℕ → Mem
alist_add_tail m l n =
    let m1 = write32 m (n_succ n) (l_tail l) in
    let m2 = write32 m1 (n_pred n) (read32 m1 (l_tailpred l)) in
    let m3 = write32 m2 (n_succ (read32 m2 (l_tailpred l))) n in write32 m3 (l_tailpred l) n
