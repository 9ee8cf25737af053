-- ===== src/Uart/Tests.antt =====
-- Two serial ports, one that becomes free and one that never does, and the theorems at them.
use bboot.Base.{ℕ, zero, suc, ◌+◌, ◌<◌, List, [], ◌∷◌, ◌≡◌, refl, false, ◌==◌, if◌then◌else◌, arith}
use bboot.Base.Bits.{bit_and-zero_left}
use bboot.Pci.{Mmio}
use bboot.Uart.{single_char_timeout, status_bit, uart_rx_byte}
use bboot.Uart.Poll.{after_reads, uart_rx_byte_timeout}

-- How often the port was read, and the stores, last one first.
abbrev Port : Type 0
Port = ℕ × List (ℕ × ℕ)

-- The status of the first two reads is busy, and that of the third free.
abbrev port : Mmio Port
port = record {
  read8 = λ a s. (if s.0 == 2 then 0x60 else 0, (s.0 + 1, s.1));
  read16_le = λ a s. (0, s);
  read32_le = λ a s. (0, s);
  write8 = λ a v s. (s.0, (a, v) ∷ s.1);
  write16_le = λ a v s. s;
  write32_le = λ a v s. s;
}

abbrev stuck : Mmio Port
stuck = record port { read8 = λ a s. (if a == 1000 then 77 else 0, (s.0 + 1, s.1)) }

two_busy :
    (j : ℕ)
    → j < 2
    → (status_bit port 0x20 1000 (after_reads (status_bit port 0x20 1000) j (0, []))).0 ≡ false
unfolding status_bit after_reads
two_busy zero l = refl
two_busy (suc zero) l = refl
two_busy (suc (suc j)) l = absurd (omega arith)

stuck_busy :
    (bit j : ℕ)
    → j < single_char_timeout
    → (status_bit stuck bit 1000 (after_reads (status_bit stuck bit 1000) j (0, []))).0 ≡ false
unfolding status_bit
stuck_busy bit j l = ground (arith, bit_and-zero_left bit)

uart_rx_byte_timeout_example :
    uart_rx_byte stuck 1000 (0, [])
    ≡ stuck.read8 1000 (after_reads (status_bit stuck 1 1000) single_char_timeout (0, []))
uart_rx_byte_timeout_example = uart_rx_byte_timeout stuck 1000 (0, []) (omega arith) (stuck_busy 1)
