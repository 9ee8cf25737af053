-- ===== src/Memory.antt =====
-- The flat memory of the machine (big-endian PowerPC, 32-bit addresses), with the byte-order macros
-- of include/bboot.h and the memory and string functions of libc/string_ppc.S that the loader calls.
-- An address is a number; NULL is 0. An object does not wrap round the top of the address space, so
-- a field's address is the object's address plus its offset.
pub mod Laws
use mathlib.Core.Option
use bboot.Base.{
  ℕ, zero, suc, ◌+◌, ◌-◌, ◌*◌, ◌/◌, ◌%◌, ◌<◌, Bool, true, false, ◌&&◌, List, [], ◌∷◌, ◌≡◌, ltb, leb,
  ◌==◌, if◌then◌else◌, Bytes, Option, none, some,
}

abbrev pub Mem : Type 0
Mem = ℕ → ℕ

-- Every cell holds a byte.
abbrev pub IsMem : Mem → Type 0
IsMem m = (a : ℕ) → m a < 256

unfoldable pub bswap16 : ℕ → ℕ
bswap16 x = x % 256 * 256 + x / 256 % 256

unfoldable pub bswap32 : ℕ → ℕ
bswap32 x = x % 256 * 16777216 + x / 256 % 256 * 65536 + x / 65536 % 256 * 256 + x / 16777216 % 256

-- Loads of the big-endian machine.
unfoldable pub read16 : Mem → ℕ → ℕ
read16 m a = m a * 256 + m (a + 1)

unfoldable pub read32 : Mem → ℕ → ℕ
read32 m a = m a * 16777216 + m (a + 1) * 65536 + m (a + 2) * 256 + m (a + 3)

-- `LE16` and `LE32` of include/bboot.h on this machine; `BE16` and `BE32` do nothing.
unfoldable pub le16 : ℕ → ℕ
le16 = bswap16

unfoldable pub le32 : ℕ → ℕ
le32 = bswap32

unfoldable pub write8 : Mem → ℕ → ℕ → Mem
write8 m a v b = if b == a then v else m b

unfoldable pub write16 : Mem → ℕ → ℕ → Mem
write16 m a v = write8 (write8 m a (v / 256 % 256)) (a + 1) (v % 256)

unfoldable pub write32 : Mem → ℕ → ℕ → Mem
write32 m a v b =
    if b == a
    then v / 16777216 % 256
    else if b == a + 1
    then v / 65536 % 256
    else if b == a + 2
    then v / 256 % 256
    else if b == a + 3
    then v % 256
    else m b

-- `memcpy`
unfoldable pub memcpy : Mem → ℕ → ℕ → ℕ → Mem
memcpy m dst src n b = if leb dst b && ltb b (dst + n) then m (src + (b - dst)) else m b

-- The `n` bytes from an address on.
unfoldable pub load_bytes : Mem → ℕ → ℕ → Bytes
load_bytes m a zero = []
load_bytes m a (suc n) = m a ∷ load_bytes m (a + 1) n

-- `strcpy` of a string given by its bytes, the final NUL included.
unfoldable pub strcpy : Mem → ℕ → Bytes → Mem
strcpy m a [] = write8 m a 0
strcpy m a (c ∷ s) = strcpy (write8 m a c) (a + 1) s

-- `!strcmp(p, s)` for a string `s` given by its bytes, none of which is 0.
unfoldable pub str_eq : Mem → ℕ → Bytes → Bool
str_eq m a [] = m a == 0
str_eq m a (c ∷ s) = m a == c && str_eq m (a + 1) s

-- `strlen` over at most `fuel` cells; `none` where no NUL is among them.
unfoldable pub strlen : ℕ → Mem → ℕ → Option ℕ
strlen zero m a = none
strlen (suc fuel) m a = elim (m a == 0) [
  | true ↦ some 0
  | false ↦ Option.map suc (strlen fuel m (a + 1))
]
