-- ===== src/Base/Bits.antt =====
-- Laws of `bit_and` and `bit_or` at variables: masks, disjoint fields and single bits.
use Prim.Native.Nat.{
  ℕ, zero, suc, ◌+◌, ◌-◌, ◌*◌, ◌/◌, ◌%◌, ◌^◌, ◌<◌, ◌≤◌, min, max, digits, bit_and, bit_or,
  bit_and-bitwise, bit_or-bitwise,
}
use mathlib.Core.Path.{◌≡◌, refl, ap}
use native.Mathlib.Nat.{pow-suc, one-le-pow, div-lt_iff_lt-mul}
use native.Mathlib.Omega.{arith}

-- Any two amounts of fuel that reach the end of the first number give the same digits.
module _ (rest : ℕ → ℕ) (digit : ℕ → ℕ → ℕ) where
  enough_fuel : (k l a b : ℕ) → a ≤ k → a ≤ l → digits rest digit k a b ≡ digits rest digit l a b
  enough_fuel zero zero zero b p q = refl
  enough_fuel zero (suc l) zero b p q = refl
  enough_fuel (suc k) zero zero b p q = refl
  enough_fuel (suc k) (suc l) zero b p q = refl
  enough_fuel zero l (suc a) b p q = absurd (omega arith)
  enough_fuel (suc k) zero (suc a) b p q = absurd (omega arith)
  enough_fuel (suc k) (suc l) (suc a) b p q =
      omega (arith, enough_fuel k l (suc a / 2) (b / 2) (omega arith) (omega arith))

pub bit_and-zero_left : (b : ℕ) → bit_and 0 b ≡ 0
bit_and-zero_left b = bit_and-bitwise 0 b

bit_or-zero_left : (b : ℕ) → bit_or 0 b ≡ b
bit_or-zero_left b = bit_or-bitwise 0 b

-- The recursion on the lowest digit.
pub bit_and-halves : (a b : ℕ) → bit_and a b ≡ 2 * bit_and (a / 2) (b / 2) + min (a % 2) (b % 2)
bit_and-halves zero b = omega (arith, bit_and-zero_left b, bit_and-zero_left (b / 2))
bit_and-halves (suc a) b = omega (
  arith,
  bit_and-bitwise (suc a) b,
  bit_and-bitwise (suc a / 2) (b / 2),
  enough_fuel (λ y. 0) min a (suc a / 2) (suc a / 2) (b / 2) (omega arith) (omega arith),
)

pub bit_or-halves : (a b : ℕ) → bit_or a b ≡ 2 * bit_or (a / 2) (b / 2) + max (a % 2) (b % 2)
bit_or-halves zero b = omega (arith, bit_or-zero_left b, bit_or-zero_left (b / 2))
bit_or-halves (suc a) b = omega (
  arith,
  bit_or-bitwise (suc a) b,
  bit_or-bitwise (suc a / 2) (b / 2),
  enough_fuel (λ y. y) max a (suc a / 2) (suc a / 2) (b / 2) (omega arith) (omega arith),
)

two_pow-suc : (k : ℕ) → 2 ^ suc k ≡ 2 * 2 ^ k
two_pow-suc k = omega (arith, pow-suc 2 k)

bit_and-zero_below : (n a : ℕ) → a < n → bit_and a 0 ≡ 0
bit_and-zero_below zero a h = absurd (omega arith)
bit_and-zero_below (suc n) zero h = bit_and-zero_left 0
bit_and-zero_below (suc n) (suc a) h =
    omega (arith, bit_and-halves (suc a) 0, bit_and-zero_below n (suc a / 2) (omega arith))

pub bit_and-zero : (a : ℕ) → bit_and a 0 ≡ 0
bit_and-zero a = bit_and-zero_below (suc a) a (omega arith)

bit_or-zero_below : (n a : ℕ) → a < n → bit_or a 0 ≡ a
bit_or-zero_below zero a h = absurd (omega arith)
bit_or-zero_below (suc n) zero h = bit_or-zero_left 0
bit_or-zero_below (suc n) (suc a) h =
    omega (arith, bit_or-halves (suc a) 0, bit_or-zero_below n (suc a / 2) (omega arith))

pub bit_or-zero : (a : ℕ) → bit_or a 0 ≡ a
bit_or-zero a = bit_or-zero_below (suc a) a (omega arith)

-- The four laws below take a number apart as `q * 2 ^ k + r`.
mul-two_pow-suc : (q k : ℕ) → q * 2 ^ suc k ≡ 2 * (q * 2 ^ k)
mul-two_pow-suc q k = omega (arith, ap (λ (t : ℕ). q * t) (two_pow-suc k))

low_fields : (k q r : ℕ) → r < 2 ^ k → bit_and (q * 2 ^ k + r) (2 ^ k - 1) ≡ r
low_fields zero q r h = omega (arith, bit_and-zero (q * 2 ^ 0 + r))
low_fields (suc k) q r h = ground (
  arith,
  bit_and-halves (q * 2 ^ suc k + r) (2 ^ suc k - 1),
  mul-two_pow-suc q k,
  two_pow-suc k,
  one-le-pow k 2,
  low_fields k q (r / 2) (omega (arith, two_pow-suc k)),
)

high_fields :
    (k j q r : ℕ)
    → r < 2 ^ k
    → q < 2 ^ j
    → bit_and (q * 2 ^ k + r) (2 ^ j * 2 ^ k - 2 ^ k) ≡ q * 2 ^ k
high_fields zero j q r h b = ground (arith, low_fields j 0 q b)
high_fields (suc k) j q r h b = ground (
  arith,
  bit_and-halves (q * 2 ^ suc k + r) (2 ^ j * 2 ^ suc k - 2 ^ suc k),
  mul-two_pow-suc q k,
  mul-two_pow-suc (2 ^ j) k,
  two_pow-suc k,
  high_fields k j q (r / 2) (omega (arith, two_pow-suc k)) b,
)

bit_fields : (k q r : ℕ) → r < 2 ^ k → bit_and (q * 2 ^ k + r) (2 ^ k) ≡ q % 2 * 2 ^ k
bit_fields zero q r h =
    ground (arith, bit_and-halves (q * 2 ^ 0 + r) 1, bit_and-zero ((q * 2 ^ 0 + r) / 2))
bit_fields (suc k) q r h = ground (
  arith,
  bit_and-halves (q * 2 ^ suc k + r) (2 ^ suc k),
  mul-two_pow-suc q k,
  mul-two_pow-suc (q % 2) k,
  two_pow-suc k,
  bit_fields k q (r / 2) (omega (arith, two_pow-suc k)),
)

-- `|` of disjoint fields is their sum.
pub bit_or-fields : (k q r : ℕ) → r < 2 ^ k → bit_or (q * 2 ^ k) r ≡ q * 2 ^ k + r
bit_or-fields zero q r h = ground (arith, bit_or-zero (q * 2 ^ 0))
bit_or-fields (suc k) q r h = ground (
  arith,
  bit_or-halves (q * 2 ^ suc k) r,
  mul-two_pow-suc q k,
  bit_or-fields k q (r / 2) (omega (arith, two_pow-suc k)),
)

-- A mask of `k` low ones is the remainder by `2 ^ k`.
pub bit_and-low : (k a : ℕ) → bit_and a (2 ^ k - 1) ≡ a % 2 ^ k
bit_and-low k a = ground (arith, one-le-pow k 2, low_fields k (a / 2 ^ k) (a % 2 ^ k))

-- A mask of the ones from bit `k` up to bit `k + j` keeps those bits.
pub bit_and-high :
    (k j a : ℕ) → a < 2 ^ j * 2 ^ k → bit_and a (2 ^ j * 2 ^ k - 2 ^ k) ≡ a / 2 ^ k * 2 ^ k
bit_and-high k j a h = ground (
  arith,
  one-le-pow k 2,
  (div-lt_iff_lt-mul {x = a} {y = 2 ^ j} (one-le-pow k 2 (omega arith))).1 h,
  high_fields k j (a / 2 ^ k) (a % 2 ^ k),
)

-- A mask of one bit.
pub bit_and-bit : (k a : ℕ) → bit_and a (2 ^ k) ≡ a / 2 ^ k % 2 * 2 ^ k
bit_and-bit k a = ground (arith, one-le-pow k 2, bit_fields k (a / 2 ^ k) (a % 2 ^ k))

-- The two parts of a number above and below bit `k` do not meet.
pub bit_and-parts :
    (k q r p s : ℕ)
    → r < 2 ^ k
    → s < 2 ^ k
    → bit_and (q * 2 ^ k + r) (p * 2 ^ k + s) ≡ bit_and q p * 2 ^ k + bit_and r s
bit_and-parts zero q r p s h h' =
    let r0 : r ≡ 0 = omega arith in
    let s0 : s ≡ 0 = omega arith in
    let q0 : q * 2 ^ 0 + 0 ≡ q = omega arith in
    let p0 : p * 2 ^ 0 + 0 ≡ p = omega arith in rw (r0, s0, q0, p0) (omega (arith, bit_and-zero 0))
bit_and-parts (suc k) q r p s h h' =
    let x : (q * 2 ^ suc k + r) / 2 ≡ q * 2 ^ k + r / 2 = omega (arith, mul-two_pow-suc q k) in
    let y : (p * 2 ^ suc k + s) / 2 ≡ p * 2 ^ k + s / 2 = omega (arith, mul-two_pow-suc p k) in
    let halves = bit_and-halves (q * 2 ^ suc k + r) (p * 2 ^ suc k + s) in
    let rest =
      bit_and-parts k q (r / 2) p (s / 2) (omega (arith, two_pow-suc k))
        (omega (arith, two_pow-suc k)) in
    omega (
      arith,
      rw (x, y, rest) at halves,
      bit_and-halves r s,
      mul-two_pow-suc q k,
      mul-two_pow-suc p k,
      mul-two_pow-suc (bit_and q p) k,
    )

-- A word without its bit 24.
pub bit_and-without_24 : (x : ℕ) → x < 2 ^ 32 → bit_and x 0xfeffffff ≡ x - x / 2 ^ 24 % 2 * 2 ^ 24
bit_and-without_24 x h =
    let is : x / 2 ^ 24 * 2 ^ 24 + x % 2 ^ 24 ≡ x = omega arith in
    let parts =
      bit_and-parts 24 (x / 2 ^ 24) (x % 2 ^ 24) 0xfe 0xffffff (omega arith) (omega arith) in
    omega (
      arith,
      rw is at parts,
      bit_and-high 1 7 (x / 2 ^ 24) (omega arith),
      bit_and-low 24 (x % 2 ^ 24),
    )
