-- ===== src/Kick/Module.antt =====
-- Where a module's data, its structure and its name go in the memory that is claimed for it.
use bboot.Base.{ℕ, ◌+◌, ◌%◌, ◌≤◌, ◌≡◌, refl, word, arith, add32}
use bboot.Window.{round_up}
use bboot.Window.Grant.{IsSize, round_up-least}
use bboot.Kick.{data_room, module_room, sizeof_module}

size_4 : IsSize 4
size_4 = record { log = 2; rest = 30; power = refl; cofactor = refl; small = omega arith }

pub size_32 : IsSize 32
size_32 = record { log = 5; rest = 27; power = refl; cofactor = refl; small = omega arith }

-- The structure of a module starts on a multiple of 4 behind its data, and it and the name, NUL
-- included, end inside the memory that is claimed from `avail` on; so the next module starts behind all
-- of it, on a multiple of 32 where this one does. At most 34 bytes are left over. The file, the name and what
-- is rounded up fit a word.
pub module_room-fits :
    (size nlen : ℕ)
    → size + nlen + 104 ≤ word
    → (size ≤ data_room size)
      × (data_room size % 4 ≡ 0)
      × (data_room size + (sizeof_module + nlen + 1) ≤ module_room size nlen)
      × (module_room size nlen % 32 ≡ 0)
      × (module_room size nlen ≤ size + (sizeof_module + nlen + 1) + 34)
unfolding data_room module_room
module_room-fits size nlen h =
    let data_ = round_up-least size 4 size_4 (omega arith) in
    let whole =
      round_up-least (add32 (round_up size 4) (sizeof_module + nlen + 1)) 32 size_32
        (omega (arith, data_)) in
    let sum : add32 (round_up size 4) (sizeof_module + nlen + 1)
        ≡ round_up size 4 + (sizeof_module + nlen + 1) =
      omega (arith, data_) in
    (data_.0, data_.2, omega (arith, whole.0, sum), whole.2, omega (arith, data_.1, whole.1, sum))
