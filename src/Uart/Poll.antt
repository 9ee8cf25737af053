-- ===== src/Uart/Poll.antt =====
-- How long the driver waits, and what it does when the wait is over.
use bboot.Base.{
  ℕ, zero, suc, ◌+◌, ◌-◌, ◌*◌, ◌/◌, ◌%◌, ◌≤◌, ◌<◌, ◌≢◌, inl, inr, Bool, true, false, ◌≡◌, refl, ap,
  ◌∙◌, ==_ne, word, arith,
}
use mathlib.Core.Path.{ap₂}
use native.Mathlib.Nat.{div-le_self, mod-eq_of_lt, eq-or-lt_of_le}
use bboot.Pci.{Mmio}
use bboot.Uart.{
  uart_baudrate_divisor, poll, single_char_timeout, status_bit, uart8250_mem_can_tx_byte,
  uart8250_mem_tx_byte, uart8250_mem_can_rx_byte, uart8250_mem_rx_byte, uart_tx_byte, uart_rx_byte,
}

-- Half a quotient, rounded up.
nearest :
    (d v q x : ℕ)
    → q ≤ 2 * v
    → 2 * v ≤ q + 1
    → d * q ≤ x
    → x < d * q + d
    → (2 * (d * v) ≤ x + d) × (x < 2 * (d * v) + d)
nearest d v q x h1 h2 h3 h4 =
    let even : d * (2 * v) ≡ 2 * (d * v) = omega arith in
    let odd : d * (q + 1) ≡ d * q + d = omega arith in
    elim (eq-or-lt_of_le h1) [
      | inl e ↦
          let at : d * q ≡ d * (2 * v) = ap (λ (t : ℕ). d * t) e in
          (omega (arith, at, even, h3), omega (arith, at, even, h4))
      | inr l ↦
          let at : d * (q + 1) ≡ d * (2 * v) = ap (λ (t : ℕ). d * t) (omega (arith, l, h2)) in
          (omega (arith, at, even, odd, h3), omega (arith, at, even, odd, h4))
    ]

-- The divisor is the nearest whole number to the quotient of the clocks: it is off by at most half
-- of the rate. The rate is not 0, and neither it nor twice the reference clock wraps.
pub uart_baudrate_divisor-nearest :
    (baudrate refclk oversample : ℕ)
    → 1 ≤ baudrate * oversample
    → 2 * refclk < word - 1
    → baudrate * oversample < word
    → (2 * (baudrate * oversample * uart_baudrate_divisor baudrate refclk oversample)
        ≤ 2 * refclk + baudrate * oversample)
      × (2 * refclk
          < 2 * (baudrate * oversample * uart_baudrate_divisor baudrate refclk oversample)
            + baudrate * oversample)
unfolding uart_baudrate_divisor
uart_baudrate_divisor-nearest baudrate refclk oversample h1 h2 h3 =
    let d = baudrate * oversample in
    let q = 2 * refclk / d in
    let v = uart_baudrate_divisor baudrate refclk oversample in
    let q_le : q ≤ 2 * refclk = div-le_self (2 * refclk) d in
    let same : v ≡ (1 + q) / 2 =
      ap₂ (λ (x y : ℕ). (1 + x / y) % word / 2) (mod-eq_of_lt (omega (arith, h2))) (mod-eq_of_lt h3)
      ∙ ap (λ (x : ℕ). x / 2) (mod-eq_of_lt (omega (arith, q_le, h2))) in
    nearest d v q (2 * refclk) (omega (arith, same)) (omega (arith, same)) (ground (arith, h1))
      (ground (arith, h1))

module _ {ℓ} {S : Type ℓ} (ready : S → Bool × S) where
  -- The state after some reads of the status.
  unfoldable pub after_reads : ℕ → S → S
  after_reads zero s = s
  after_reads (suc k) s = after_reads k (ready s).1

  poll_first :
      (k i n : ℕ) (s : S)
      → n ≡ suc (k + i)
      → ((j : ℕ) → j < k → (ready (after_reads j s)).0 ≡ false)
      → (ready (after_reads k s)).0 ≡ true
      → poll ready n s ≡ (i, after_reads (suc k) s)
  unfolding poll after_reads
  poll_first k i zero s e h t = absurd (omega arith)
  poll_first zero i (suc n) s e h t =
      let same : n ≡ i = omega arith in rw t (ap (λ (v : ℕ). (v, (ready s).1)) same)
  poll_first (suc k) i (suc n) s e h t =
      let busy : (ready s).0 ≡ false = h 0 (omega arith) in
      rw busy (poll_first k i n (ready s).1 (omega arith) (λ j l. h (suc j) (omega arith)) t)

  poll_never :
      (i : ℕ) (s : S)
      → ((j : ℕ) → j < i → (ready (after_reads j s)).0 ≡ false)
      → poll ready i s ≡ (word - 1, after_reads i s)
  unfolding poll after_reads
  poll_never zero s h = refl
  poll_never (suc i) s h =
      let busy : (ready s).0 ≡ false = h 0 (omega arith) in
      rw busy (poll_never i (ready s).1 (λ j l. h (suc j) (omega arith)))

-- A byte is stored right after the first read of the status that finds the transmitter free, where
-- one of the first 50000 reads does.
pub uart_tx_byte-ready {ℓ} :
    {S : Type ℓ} (io : Mmio S) (base byte k : ℕ) (s : S)
    → base ≢ 0
    → k < single_char_timeout
    → ((j : ℕ)
        → j < k
        → (status_bit io 0x20 base (after_reads (status_bit io 0x20 base) j s)).0 ≡ false)
    → (status_bit io 0x20 base (after_reads (status_bit io 0x20 base) k s)).0 ≡ true
    → uart_tx_byte io base byte s
      ≡ io.write8 base byte (after_reads (status_bit io 0x20 base) (suc k) s)
unfolding uart_tx_byte uart8250_mem_tx_byte uart8250_mem_can_tx_byte
uart_tx_byte-ready io base byte k s h l before first = rw (==_ne base 0 h) (
    ap (λ (r : ℕ × _). io.write8 base byte r.1)
      (poll_first (status_bit io 0x20 base) k (single_char_timeout - suc k) single_char_timeout s
        (omega arith) before first))

-- Where no data arrives in 50000 reads of the status, the receiver's byte is not 0 but what the
-- empty receive register holds: the count of the reads wraps below 0.
pub uart_rx_byte_timeout {ℓ} :
    {S : Type ℓ} (io : Mmio S) (base : ℕ) (s : S)
    → base ≢ 0
    → ((j : ℕ)
        → j < single_char_timeout
        → (status_bit io 1 base (after_reads (status_bit io 1 base) j s)).0 ≡ false)
    → uart_rx_byte io base s
      ≡ io.read8 base (after_reads (status_bit io 1 base) single_char_timeout s)
unfolding uart_rx_byte uart8250_mem_rx_byte uart8250_mem_can_rx_byte
uart_rx_byte_timeout io base s h never =
    rw (==_ne base 0 h, poll_never (status_bit io 1 base) single_char_timeout s never)
