-- ===== src/Sam460/Pci.antt =====
-- The PCI bridge of brd_sam460.c: `setup_pom`, `setup_pci_device` and `sam460_setup`. The windows are in
-- Window, the loops over registers and devices in Device.
use bboot.Base.{
  ℕ, ◌+◌, ◌-◌, ◌/◌, ◌%◌, ◌^◌, [], ◌∷◌, ◌==◌, ltb, ◌&&◌, ◌||◌, if◌then◌else◌, arith, Bytes, get_or,
  bit_and, Bool-cases, inl, inr,
}
use bboot.Pci.{Mmio, Ports, pci_set_addr, pci_slot, pci_read_config8, pci_read_config32}
use bboot.Window.{sam460_windows}
use bboot.Device.{reg_vendor_id, reg_interrupt_pin, World, map_bars, quiet, set_irq, setup_bus}
use bboot.Device.Registers.{IsWindows, addr_for_bar-IsWindows, map_bars-keeps, setup_bus-keeps}
use bboot.Sam460.{pim0sal}

abbrev pub pci_irq_map : Bytes
pci_irq_map = 32 ∷ 32 ∷ 32 ∷ 32 ∷ []

-- The ports of `setup_pci_params`
abbrev pub ports : Ports
ports = pci_set_addr 0xdec00000 0xdec00004

abbrev pub pcix_reg_base : ℕ
pcix_reg_base = 0xdec80000

abbrev pub pom0lal : ℕ
pom0lal = pcix_reg_base + 0x68

abbrev pub pom0lah : ℕ
pom0lah = pcix_reg_base + 0x6c

abbrev pub pom0sa : ℕ
pom0sa = pcix_reg_base + 0x70

abbrev pub pom0pcial : ℕ
pom0pcial = pcix_reg_base + 0x74

abbrev pub pom0pciah : ℕ
pom0pciah = pcix_reg_base + 0x78

abbrev pub pom1lal : ℕ
pom1lal = pcix_reg_base + 0x7c

abbrev pub pom1lah : ℕ
pom1lah = pcix_reg_base + 0x80

abbrev pub pom1sa : ℕ
pom1sa = pcix_reg_base + 0x84

abbrev pub pom1pcial : ℕ
pom1pcial = pcix_reg_base + 0x88

abbrev pub pom1pciah : ℕ
pom1pciah = pcix_reg_base + 0x8c

abbrev pub pim0sal_at : ℕ
pim0sal_at = pcix_reg_base + 0x98

abbrev pub pim0lal : ℕ
pim0lal = pcix_reg_base + 0x9c

abbrev pub pim0lah : ℕ
pim0lah = pcix_reg_base + 0xa0

-- `irq` for what a device says it is, its slot and its pin.
unfoldable pub map_irq : ℕ → ℕ → ℕ → ℕ
map_irq vendev slot pin =
    if ltb 0 pin && ltb pin 5
    then (if bit_and vendev 0xffff == 0x126f && vendev / 2 ^ 16 == 0x0501
        then 116
        else get_or pci_irq_map ((slot + pin - 1) % 4) 0)
    else 0xff

module _ {ℓ} {S : Type ℓ} (io : Mmio S) where
  unfoldable pub setup_pom : ℕ → S → S
  setup_pom memsize s =
      let s1 = io.write32_le pom0sa 0 s in
      let s2 = io.write32_le pom1sa 0 s1 in
      let s3 = io.write32_le pom0lal 0x80000000 s2 in
      let s4 = io.write32_le pom0lah 0x0000000c s3 in
      let s5 = io.write32_le pom0pcial 0x80000000 s4 in
      let s6 = io.write32_le pom0pciah 0 s5 in
      let s7 = io.write32_le pom0sa 0xf0000001 s6 in
      let s8 = io.write32_le pom1lal 0x90000000 s7 in
      let s9 = io.write32_le pom1lah 0x0000000c s8 in
      let s10 = io.write32_le pom1pcial 0x90000000 s9 in
      let s11 = io.write32_le pom1pciah 0 s10 in
      let s12 = io.write32_le pom1sa 0xf0000001 s11 in
      let s13 = io.write32_le pim0lal 0 s12 in
      let s14 = io.write32_le pim0lah 0 s13 in io.write32_le pim0sal_at (pim0sal memsize) s14

  -- What follows once there is a device, which answers `vendev`.
  unfoldable pub setup_present : ℕ → ℕ → World S → World S
  setup_present devfn vendev w =
      let (cmd, s1) = quiet io ports devfn w.hardware in
      let (pin, s2) = pci_read_config8 io ports devfn reg_interrupt_pin s1 in
      let s3 = set_irq io ports devfn (map_irq vendev (pci_slot devfn) pin) s2 in
      map_bars io ports devfn 0x80 cmd (record w { hardware = s3 })

  unfoldable pub setup_pci_device : ℕ → World S → World S
  setup_pci_device devfn w =
      let (vendev, s1) = pci_read_config32 io ports devfn reg_vendor_id w.hardware in
      if vendev == 0xffffffff || vendev == 0
      then record w { hardware = s1 }
      else setup_present devfn vendev (record w { hardware = s1 })

  -- `sam460_setup`, whatever the windows were before.
  unfoldable pub sam460_setup : ℕ → S → World S
  sam460_setup memsize s =
      setup_bus io ports setup_pci_device
        (record { windows = sam460_windows; hardware = setup_pom memsize s })

  setup_pci_device-IsWindows :
      (devfn : ℕ) (w : World S) → IsWindows w.windows → IsWindows (setup_pci_device devfn w).windows
  unfolding setup_pci_device setup_present
  setup_pci_device-IsWindows devfn w h =
      let vendev = (pci_read_config32 io ports devfn reg_vendor_id w.hardware).0 in
      elim (Bool-cases (vendev == 0xffffffff || vendev == 0)) [
        | inl e ↦ rw e h
        | inr e ↦ rw e (map_bars-keeps io ports IsWindows addr_for_bar-IsWindows devfn 0x80 _ _ h)
      ]

  -- Whatever the hardware answers, the set-up of the devices leaves what is free of each window at or below
  -- the window's end.
  pub sam460_setup-IsWindows : (memsize : ℕ) (s : S) → IsWindows (sam460_setup memsize s).windows
  unfolding sam460_setup
  sam460_setup-IsWindows memsize s =
      setup_bus-keeps io ports IsWindows setup_pci_device setup_pci_device-IsWindows
        (record { windows = sam460_windows; hardware = setup_pom memsize s })
        (record { ports = omega arith; memory = omega arith })
