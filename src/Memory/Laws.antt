-- ===== src/Memory/Laws.antt =====
-- What a store changes and what it leaves, and the little-endian reading of a field.
use bboot.Base.{ℕ, ◌+◌, ◌*◌, ◌≤◌, ◌<◌, ◌⊎◌, ◌≡◌, arith, word}
use bboot.Memory.{Mem, IsMem, bswap16, bswap32, read16, read32, le16, le32, write32, memcpy}

pub le16-read16 : {m : Mem} → IsMem m → (a : ℕ) → le16 (read16 m a) ≡ m a + 256 * m (a + 1)
unfolding le16 bswap16 read16
le16-read16 {m} h a = omega (arith, h a, h (a + 1))

pub le32-read32 :
    {m : Mem}
    → IsMem m
    → (a : ℕ) → le32 (read32 m a) ≡ m a + 256 * m (a + 1) + 65536 * m (a + 2) + 16777216 * m (a + 3)
unfolding le32 bswap32 read32
le32-read32 {m} h a = omega (arith, h a, h (a + 1), h (a + 2), h (a + 3))

pub le16-lt : (x : ℕ) → le16 x < 65536
unfolding le16 bswap16
le16-lt x = omega arith

pub le32-lt : (x : ℕ) → le32 x < word
unfolding le32 bswap32
le32-lt x = omega arith

pub read32-write32 : (m : Mem) (a v : ℕ) → v < word → read32 (write32 m a v) a ≡ v
unfolding read32 write32
read32-write32 m a v h = ground arith

-- A 32-bit store leaves the cells outside its four alone.
pub write32_other : (m : Mem) (a v b : ℕ) → (b < a) ⊎ (a + 4 ≤ b) → write32 m a v b ≡ m b
unfolding write32
write32_other m a v b h = ground arith

pub read32-write32_other :
    (m : Mem) (a v b : ℕ) → (b + 4 ≤ a) ⊎ (a + 4 ≤ b) → read32 (write32 m a v) b ≡ read32 m b
unfolding read32
read32-write32_other m a v b h = ground (
  arith,
  write32_other m a v b,
  write32_other m a v (b + 1),
  write32_other m a v (b + 2),
  write32_other m a v (b + 3),
)

pub memcpy_inside : (m : Mem) (dst src n i : ℕ) → i < n → memcpy m dst src n (dst + i) ≡ m (src + i)
unfolding memcpy
memcpy_inside m dst src n i h = ground arith

pub memcpy_outside :
    (m : Mem) (dst src n b : ℕ) → (b < dst) ⊎ (dst + n ≤ b) → memcpy m dst src n b ≡ m b
unfolding memcpy
memcpy_outside m dst src n b h = ground arith
