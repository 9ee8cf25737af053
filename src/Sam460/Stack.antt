-- ===== src/Sam460/Stack.antt =====
-- Where the stack that is handed to the kernel loader lies.
use bboot.Base.{ℕ, ◌+◌, ◌-◌, ◌*◌, ◌/◌, ◌%◌, ◌≤◌, ◌<◌, ◌≡◌, arith, sub32, bit_and, word, min, ◌∙◌}
use bboot.Base.Bits.{bit_and-high}
use bboot.Sam460.{stack_top}

aligned-below :
    (top : ℕ)
    → 0x100000 ≤ top
    → top ≤ 0x80000000
    → (bit_and (sub32 top 0x100000) 0xfffffff0 % 16 ≡ 0)
      × (bit_and (sub32 top 0x100000) 0xfffffff0 + 0x100000 ≤ top)
      × (top < bit_and (sub32 top 0x100000) 0xfffffff0 + 0x100010)
aligned-below top h1 h2 =
    let is : bit_and (sub32 top 0x100000) 0xfffffff0 ≡ (top - 0x100000) / 16 * 16 =
      bit_and-high 4 28 (sub32 top 0x100000) (omega arith) ∙ omega arith in
    (omega (arith, is), omega (arith, is), omega (arith, is))

-- With 1 MiB of memory or more, the stack starts at a multiple of 16, and 1 MiB and less than 16 bytes
-- below the end of memory or, where this is lower, below 2 GiB.
pub stack_top-bounds :
    (memsize : ℕ)
    → 0x100000 ≤ memsize
    → memsize < word
    → (stack_top memsize % 16 ≡ 0)
      × (stack_top memsize + 0x100000 ≤ min memsize 0x80000000)
      × (min memsize 0x80000000 < stack_top memsize + 0x100010)
unfolding stack_top
stack_top-bounds memsize h1 h2 =
    ground (arith, aligned-below memsize, aligned-below 0x80000000 (omega arith) (omega arith))
