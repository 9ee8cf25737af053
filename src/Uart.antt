-- ===== src/Uart.antt =====
-- The serial port of drivers/uart8250mem.c, with the registers of drivers/uart8250reg.h. The loads and
-- stores are those of the hardware that `Mmio` stands for; `udelay` is nothing in the source.
pub mod Poll
mod Tests
use bboot.Base.{
  ℕ, zero, suc, ◌+◌, ◌-◌, ◌*◌, ◌/◌, ◌%◌, Bool, true, false, not, ◌==◌, if◌then◌else◌, word, bit_and,
  bit_or,
}
use bboot.Pci.{Mmio}

abbrev pub default_baudrate : ℕ
default_baudrate = 115200

abbrev pub uart_platform_refclk : ℕ
uart_platform_refclk = 115200

-- On `unsigned int`
unfoldable pub uart_baudrate_divisor : ℕ → ℕ → ℕ → ℕ
uart_baudrate_divisor baudrate refclk oversample =
    (1 + 2 * refclk % word / (baudrate * oversample % word)) % word / 2

abbrev pub single_char_timeout : ℕ
single_char_timeout = 50 * 1000

abbrev pub fifo_timeout : ℕ
fifo_timeout = 16 * single_char_timeout

-- `while (i-- && !ready())`: the last value of `i`, which wraps where the loop runs out.
unfoldable pub poll {ℓ} : {S : Type ℓ} → (S → Bool × S) → ℕ → S → ℕ × S
poll ready zero s = (word - 1, s)
poll ready (suc i) s =
    let read = ready s in let rest = poll ready i read.1 in if read.0 then (i, read.1) else rest

module _ {ℓ} {S : Type ℓ} (io : Mmio S) where
  -- A bit of the line status register.
  unfoldable pub status_bit : ℕ → ℕ → S → Bool × S
  status_bit bit base_port s =
      let lsr = io.read8 (base_port + 5) s in (not (bit_and lsr.0 bit == 0), lsr.1)

  unfoldable pub uart8250_mem_can_tx_byte : ℕ → S → Bool × S
  uart8250_mem_can_tx_byte = status_bit 0x20

  unfoldable pub uart8250_mem_tx_byte : ℕ → ℕ → S → S
  uart8250_mem_tx_byte base_port byte s =
      io.write8 base_port byte (poll (uart8250_mem_can_tx_byte base_port) single_char_timeout s).1

  unfoldable pub uart8250_mem_tx_flush : ℕ → S → S
  uart8250_mem_tx_flush base_port s = (poll (status_bit 0x40 base_port) fifo_timeout s).1

  unfoldable pub uart8250_mem_can_rx_byte : ℕ → S → Bool × S
  uart8250_mem_can_rx_byte = status_bit 1

  unfoldable pub uart8250_mem_rx_byte : ℕ → S → ℕ × S
  uart8250_mem_rx_byte base_port s =
      let waited = poll (uart8250_mem_can_rx_byte base_port) single_char_timeout s in
      if waited.0 == 0 then (0, waited.1) else io.read8 base_port waited.1

  unfoldable pub uart8250_mem_init : ℕ → ℕ → S → S
  uart8250_mem_init base_port divisor s =
      let s1 = io.write8 (base_port + 1) 0 s in
      let s2 = io.write8 (base_port + 2) 1 s1 in
      let s3 = io.write8 (base_port + 4) (bit_or 1 2) s2 in
      let s4 = io.write8 (base_port + 3) (bit_or 0x80 3) s3 in
      let s5 = io.write8 base_port (bit_and divisor 0xff) s4 in
      let s6 = io.write8 (base_port + 1) (bit_and (divisor / 256) 0xff) s5 in
      io.write8 (base_port + 3) 3 s6

  unfoldable pub uart_init : ℕ → S → S
  uart_init base s =
      if base == 0
      then s
      else uart8250_mem_init base (uart_baudrate_divisor default_baudrate uart_platform_refclk 1) s

  unfoldable pub uart_tx_byte : ℕ → ℕ → S → S
  uart_tx_byte base byte s = if base == 0 then s else uart8250_mem_tx_byte base byte s

  unfoldable pub uart_rx_byte : ℕ → S → ℕ × S
  uart_rx_byte base s = if base == 0 then (0xff, s) else uart8250_mem_rx_byte base s

  unfoldable pub uart_tx_flush : ℕ → S → S
  uart_tx_flush base s = if base == 0 then s else uart8250_mem_tx_flush base s
