-- ===== src/AosList/Tests.antt =====
-- A run of the list code, and its theorems at concrete addresses.
use bboot.Base.{inl, inr, [], ◌∷◌, ◌≡◌, refl, arith}
use bboot.Memory.{Mem, read32, write32}
use bboot.AosList.{alist_init, alist_add_tail}
use bboot.AosList.Chain.{IsAosList, alist_add_tail-IsAosList}

abbrev clean : Mem
clean a = 0

abbrev one_node : Mem
one_node = alist_add_tail (alist_init clean 1000) 1000 2000

first_succ : read32 one_node 1000 ≡ 2000
unfolding alist_init alist_add_tail read32 write32
first_succ = refl

alist_add_tail-IsAosList_example :
    IsAosList (alist_add_tail one_node 1000 1500) 1000 (2000 ∷ 1500 ∷ [])
unfolding alist_init alist_add_tail read32 write32
alist_add_tail-IsAosList_example =
    alist_add_tail-IsAosList one_node 1000 1500 (2000 ∷ []) (omega arith) (omega arith)
      (inr (omega arith)) (inl (omega arith), tt) (omega arith, inr (omega arith), tt, tt)
      (refl, (refl, refl, (refl, refl)))
