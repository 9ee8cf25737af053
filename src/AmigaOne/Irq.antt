-- ===== src/AmigaOne/Irq.antt =====
-- The interrupts and the windows of the devices.
use bboot.Base.{
  ℕ, zero, suc, sym, ◌∙◌, lt→ltb, ==_ne, ◌+◌, ◌-◌, ◌%◌, ◌≤◌, ◌<◌, ◌≢◌, ◌⊎◌, inl, inr, ◌≡◌, refl,
  ◌==◌, if◌then◌else◌, arith, Bool-cases,
}
use bboot.Pci.{Mmio, pci_read_config32}
use bboot.Window.{Windows, amigaone_windows}
use bboot.Device.{World, reg_vendor_id}
use bboot.Device.Registers.{IsWindows, addr_for_bar-IsWindows, map_bars-keeps, setup_bus-keeps}
use bboot.AmigaOne.{
  ports, irq_of, map_irq, Chip, ready, further, finish_device, setup_pci_device, amigaone_setup,
}

irq_of-cases :
    (n : ℕ)
    → n < 4
    → ((n ≡ 0) × (irq_of n ≡ 9))
      ⊎ ((n ≡ 1) × (irq_of n ≡ 10))
      ⊎ ((n ≡ 2) × (irq_of n ≡ 11))
      ⊎ ((n ≡ 3) × (irq_of n ≡ 7))
irq_of-cases zero h = inl (refl, refl)
irq_of-cases (suc zero) h = inr (inl (refl, refl))
irq_of-cases (suc (suc zero)) h = inr (inr (inl (refl, refl)))
irq_of-cases (suc (suc (suc zero))) h = inr (inr (inr (refl, refl)))
irq_of-cases (suc (suc (suc (suc n)))) h = absurd (omega (arith, h))

irq_of-different : (m n : ℕ) → m < 4 → n < 4 → irq_of m ≡ irq_of n → m ≡ n
irq_of-different m n a b e = ground (arith, irq_of-cases m a, irq_of-cases n b)

-- The entry of the map for a pin.
abbrev index : ℕ → ℕ → ℕ
index slot pin = if slot == 7 then pin - 1 else (slot + pin - 1) % 4

map_irq-index :
    (slot pin : ℕ) → slot ≢ 6 → 1 ≤ pin → pin ≤ 4 → map_irq slot pin 0xff ≡ irq_of (index slot pin)
unfolding map_irq
map_irq-index slot pin s a b =
    rw (lt→ltb 0 pin (omega arith), lt→ltb pin 5 (omega arith), ==_ne slot 6 s)
      (elim (Bool-cases (slot == 7)) [ inl e ↦ rw e refl | inr e ↦ rw e refl ])

index-lt : (slot pin : ℕ) → 1 ≤ pin → pin ≤ 4 → index slot pin < 4
index-lt slot pin a b = ground arith

index-different :
    (slot pin other : ℕ)
    → 1 ≤ pin
    → pin ≤ 4
    → 1 ≤ other
    → other ≤ 4
    → index slot pin ≡ index slot other
    → pin ≡ other
index-different slot pin other a b c d e = elim (Bool-cases (slot == 7)) [
  | inl t ↦ ground (arith, e, t)
  | inr t ↦ ground (arith, e, t)
]

-- The four interrupt pins of a device get four different interrupts, unless it is in the slot 6.
pub map_irq-different :
    (slot pin other : ℕ)
    → slot ≢ 6
    → 1 ≤ pin
    → pin ≤ 4
    → 1 ≤ other
    → other ≤ 4
    → pin ≢ other
    → map_irq slot pin 0xff ≢ map_irq slot other 0xff
unfolding map_irq
map_irq-different slot pin other s a b c d e same = e (
    index-different slot pin other a b c d (
      irq_of-different (index slot pin) (index slot other) (index-lt slot pin a b)
        (index-lt slot other c d)
        (sym (map_irq-index slot pin s a b) ∙ same ∙ map_irq-index slot other s c d)))

module _ {ℓ} {S : Type ℓ} (io : Mmio S) where
  finish_device-IsWindows :
      (devfn cmd : ℕ) (w : Windows) (chip : Chip S)
      → IsWindows w
      → IsWindows (finish_device io devfn cmd w chip).windows
  unfolding finish_device
  finish_device-IsWindows devfn cmd w (ready s) h = h
  finish_device-IsWindows devfn cmd w (further latency_timer irq s) h =
      map_bars-keeps io ports IsWindows addr_for_bar-IsWindows devfn latency_timer cmd _ h

  setup_pci_device-IsWindows :
      (devfn : ℕ) (w : World S)
      → IsWindows w.windows
      → IsWindows (setup_pci_device io devfn w).windows
  unfolding setup_pci_device
  setup_pci_device-IsWindows devfn w h =
      elim (Bool-cases
        ((pci_read_config32 io ports devfn reg_vendor_id w.hardware).0 == 0xffffffff)) [
          | inl e ↦ rw e h
          | inr e ↦ rw e (finish_device-IsWindows devfn _ w.windows _ h)
        ]

  -- Whatever the hardware answers, the set-up of the devices leaves what is free of each window at or below
  -- the window's end.
  pub amigaone_setup-IsWindows : (s : S) → IsWindows (amigaone_setup io s).windows
  unfolding amigaone_setup
  amigaone_setup-IsWindows s =
      setup_bus-keeps io ports IsWindows (setup_pci_device io) setup_pci_device-IsWindows
        (record { windows = amigaone_windows; hardware = s })
        (record { ports = omega arith; memory = omega arith })
