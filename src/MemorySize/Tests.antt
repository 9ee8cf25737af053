-- ===== src/MemorySize/Tests.antt =====
-- Memory from 0 on, and the theorems at some sizes of it.
use mathlib.Core.Option
use bboot.Base.{ℕ, ◌≤◌, ◌<◌, ◌≡◌, refl, ltb, lt→ltb, ge→ltb, some, none, if◌then◌else◌, arith}
use bboot.MemorySize.{Bus, halve, look_above, find_memory_size}
use bboot.MemorySize.Banks.{HasMemory, NoMemory, find_memory_size-bank, find_memory_size_endless}

-- The store made last: its address and its value. Where there is no memory, a load
-- finds all ones.
abbrev Cell : Type 0
Cell = ℕ × ℕ

abbrev ram : ℕ → Bus Cell
ram size = record { load = λ p s. if ltb p size then s.1 else 0xffffffff; store = λ p v s. (p, v) }

quarter :
    Option.map (λ (r : ℕ × Cell). r.0) (find_memory_size (ram 0x10000000) 1 0 (0, 0))
    ≡ some 0x10000000
unfolding find_memory_size look_above halve
quarter = refl

half_more :
    Option.map (λ (r : ℕ × Cell). r.0) (find_memory_size (ram 0x30000000) 2 0 (0, 0))
    ≡ some 0x30000000
unfolding find_memory_size look_above halve
half_more = refl

-- 896 MiB, from the call for all of it.
three_banks : find_memory_size (ram 0x38000000) 7 0 (0, 0) ≡ none
unfolding find_memory_size look_above halve
three_banks = refl

ram-HasMemory : (size p : ℕ) → p < size → HasMemory (ram size) p
ram-HasMemory size p h v s = rw (lt→ltb p size h)

ram-NoMemory : (size p : ℕ) → size ≤ p → NoMemory (ram size) p
ram-NoMemory size p h s = rw (ge→ltb p size h) (omega arith)

find_memory_size-bank_example :
    Option.map (λ (r : ℕ × Cell). r.0) (find_memory_size (ram 0x10000000) 1 0 (0, 0))
    ≡ some 0x10000000
find_memory_size-bank_example =
    find_memory_size-bank (ram 0x10000000) 0x10000000 3 0 (0, 0) (omega arith) (omega arith) refl
      (ram-HasMemory 0x10000000 0x0ffffffc (omega arith)) (ram-NoMemory 0x10000000)

find_memory_size_endless_example : find_memory_size (ram 0x38000000) 100 0x10000000 (0, 0) ≡ none
find_memory_size_endless_example =
    find_memory_size_endless (ram 0x38000000) 0x10000000 100 (0, 0) (omega arith) (omega arith)
      (ram-HasMemory 0x38000000 0x1ffffffc (omega arith))
      (ram-HasMemory 0x38000000 0x20008000 (omega arith))
