-- ===== src/AmigaOne.antt =====
-- brd_amigaone.c: the set-up of the PCI devices, `no_claim` and `amigaone_init`. The windows are in
-- Window, the loops over registers and devices in Device, `find_memory_size` in MemorySize.
pub mod Irq
pub mod Claim
mod Tests
use mathlib.Core.Option
use bboot.Base.{
  ℕ, ◌+◌, ◌-◌, ◌*◌, ◌%◌, ◌^◌, Bool, Option, [], ◌∷◌, ◌==◌, ltb, ◌&&◌, ◌||◌, if◌then◌else◌, Bytes,
  get_or, add32, bit_and, bit_or,
}
use bboot.Pci.{
  Mmio, Ports, pci_set_addr, pci_slot, pci_func, pci_read_config8, pci_read_config32,
  pci_write_config8,
}
use bboot.Window.{Windows, amigaone_windows}
use bboot.Device.{
  reg_vendor_id, reg_command, reg_prog_if, reg_interrupt_pin, reg_interrupt_line, reg_latency_timer,
  World, map_bars, quiet, set_irq, setup_bus,
}
use bboot.MemorySize.{Bus, find_memory_size}

abbrev pub pci_irq_map : Bytes
pci_irq_map = 9 ∷ 10 ∷ 11 ∷ 7 ∷ []

abbrev pub irq_of : ℕ → ℕ
irq_of n = get_or pci_irq_map n 0

-- The ports of `setup_pci_params`
abbrev pub ports : Ports
ports = pci_set_addr 0xfec00cf8 0xfee00cfc

-- How a function of the south bridge is left: it needs nothing else, or its registers are set up with a
-- latency timer and an interrupt.
pub data Chip {ℓ} (S : Type ℓ) : Type ℓ where
  ready : S → Chip S
  further : ℕ → ℕ → S → Chip S

-- `irq` for a slot and a pin.
unfoldable pub map_irq : ℕ → ℕ → ℕ → ℕ
map_irq slot pin irq =
    if ltb 0 pin && ltb pin 5 && irq == 0xff
    then (if slot == 6
        then irq_of 3
        else if slot == 7
        then irq_of (pin - 1)
        else irq_of ((slot + pin - 1) % 4))
    else irq

module _ {ℓ} {S : Type ℓ} (io : Mmio S) where
  unfoldable pub setup_isa : ℕ → S → S
  setup_isa devfn s =
      let s1 = pci_write_config8 io ports devfn 0x4a 0x04 s in
      let s2 = pci_write_config8 io ports devfn 0x50 0x0e s1 in
      let s3 = pci_write_config8 io ports devfn 0x51 0x76 s2 in
      let s4 = pci_write_config8 io ports devfn 0x52 0x34 s3 in
      let s5 = pci_write_config8 io ports devfn 0x54 0x00 s4 in
      let s6 = pci_write_config8 io ports devfn 0x55 (irq_of 0 * 2 ^ 4) s5 in
      let s7 = pci_write_config8 io ports devfn 0x56 (bit_or (irq_of 2 * 2 ^ 4) (irq_of 1)) s6 in
      pci_write_config8 io ports devfn 0x57 (irq_of 3 * 2 ^ 4) s7

  unfoldable pub setup_fdc : ℕ → ℕ → S → S
  setup_fdc iobase devfn s =
      let s1 = pci_write_config8 io ports devfn 0x85 3 s in
      let s2 = io.write8 (add32 iobase 0x3f0) 0xe3 s1 in
      let s3 = io.write8 (add32 iobase 0x3f1) (0x3f * 2 ^ 2) s2 in
      let s4 = io.write8 (add32 iobase 0x3f0) 0xe2 s3 in
      let (c, s5) = io.read8 (add32 iobase 0x3f1) s4 in
      let s6 = io.write8 (add32 iobase 0x3f0) 0xe2 s5 in
      let s7 = io.write8 (add32 iobase 0x3f1) (bit_or c 0x10) s6 in
      pci_write_config8 io ports devfn 0x85 1 s7

  unfoldable pub setup_ide : ℕ → S → S
  setup_ide devfn s =
      let s1 = pci_write_config8 io ports devfn 0x40 0x03 s in
      let s2 = pci_write_config8 io ports devfn reg_command 0x07 s1 in
      let s3 = pci_write_config8 io ports devfn reg_prog_if 0x8a s2 in
      let s4 = pci_write_config8 io ports devfn reg_interrupt_pin 0x00 s3 in
      let s5 = pci_write_config8 io ports devfn reg_interrupt_line 0xff s4 in
      pci_write_config8 io ports devfn reg_latency_timer 0x20 s5

  -- The stores for the USB controller's functions.
  unfoldable pub setup_usb : ℕ → S → S
  setup_usb devfn s =
      let s1 = pci_write_config8 io ports devfn 0x05 0x17 s in
      let s2 = pci_write_config8 io ports devfn 0x06 0x01 s1 in
      let s3 = pci_write_config8 io ports devfn 0x41 0x12 s2 in
      pci_write_config8 io ports devfn 0x42 0x03 s3

  -- The `switch` over the functions of the slot 7.
  unfoldable pub setup_south : ℕ → ℕ → S → Chip S
  setup_south iobase devfn s =
      let fn = pci_func devfn in
      if fn == 0
      then ready (setup_fdc iobase devfn (setup_isa devfn s))
      else if fn == 1
      then ready (setup_ide devfn s)
      else if fn == 2 || fn == 3
      then further 0x40 5 (setup_usb devfn s)
      else if fn == 4 || fn == 6
      then ready s
      else further 0x80 0xff s

  unfoldable pub setup_chip : ℕ → ℕ → S → Chip S
  setup_chip iobase devfn s =
      if pci_slot devfn == 7 then setup_south iobase devfn s else further 0x80 0xff s

  -- The interrupt and the registers, with what the south bridge asked for.
  unfoldable pub finish_device : ℕ → ℕ → Windows → Chip S → World S
  finish_device devfn cmd windows (ready s) = record { windows = windows; hardware = s }
  finish_device devfn cmd windows (further latency_timer irq s) =
      let (pin, s1) = pci_read_config8 io ports devfn reg_interrupt_pin s in
      let s2 = set_irq io ports devfn (map_irq (pci_slot devfn) pin irq) s1 in
      map_bars io ports devfn latency_timer cmd (record { windows = windows; hardware = s2 })

  unfoldable pub setup_pci_device : ℕ → World S → World S
  setup_pci_device devfn w =
      let (vendev, s1) = pci_read_config32 io ports devfn reg_vendor_id w.hardware in
      let (cmd, s2) = quiet io ports devfn s1 in
      if vendev == 0xffffffff
      then record w { hardware = s1 }
      else finish_device devfn cmd w.windows (setup_chip w.windows.iobase devfn s2)

  -- `amigaone_setup`, whatever the windows were before.
  unfoldable pub amigaone_setup : S → World S
  amigaone_setup s =
      setup_bus io ports setup_pci_device (record { windows = amigaone_windows; hardware = s })

-- `no_claim`: the address, or 0 for NULL.
unfoldable pub no_claim : ℕ → ℕ → ℕ → ℕ
no_claim memsize addr size = if ltb (add32 addr size) memsize then addr else 0

-- `bd_t`, the fields that are set; the others are 0.
pub record BdInfo : Type 0 where
  pub bi_memsize : ℕ
  pub bi_flashstart : ℕ
  pub bi_flashsize : ℕ
  pub bi_bootflags : ℕ
  pub bi_intfreq : ℕ
  pub bi_busfreq : ℕ
  pub bi_baudrate : ℕ

-- The memory size under TARGET_G5 or without it.
unfoldable pub reported : Bool → ℕ → ℕ
reported target_g5 memsize = if target_g5 && ltb 0x40000000 memsize then 0x40000000 else memsize

unfoldable pub bd_of : Bool → ℕ → BdInfo
bd_of target_g5 memsize = record {
  bi_memsize = reported target_g5 memsize;
  bi_flashstart = 0xfff00000;
  bi_flashsize = 1;
  bi_bootflags = 1;
  bi_intfreq = 1150000000;
  bi_busfreq = 100000000;
  bi_baudrate = 115200;
}

abbrev pub amigaone_exec_addr : ℕ
amigaone_exec_addr = 0x1000000

abbrev pub amigaone_serial_base : ℕ
amigaone_serial_base = 0xfe0003f8

-- `amigaone_init`: the board information, and the memory as the search leaves it; `none` where the search
-- takes more calls than the fuel.
unfoldable pub amigaone_init {ℓ} : {S : Type ℓ} → Bus S → Bool → ℕ → S → Option (BdInfo × S)
amigaone_init bus target_g5 fuel s =
    Option.map (λ (r : ℕ × _). (bd_of target_g5 r.0, r.1)) (find_memory_size bus fuel 0 s)
