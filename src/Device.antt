-- ===== src/Device.antt =====
-- What the functions `setup_pci_device` of brd_amigaone.c and brd_sam460.c have in common, with the registers
-- that drivers/pci.h names: the loop over the address registers of a device, and the loops of
-- `amigaone_setup` and `sam460_setup` over the devices of the bus. The calls of `printf` are output, but
-- their arguments read registers; these reads are made in the order of the text.
pub mod Registers
pub mod Requests
pub mod Stored
mod Tests
use bboot.Base.{
  ℕ, zero, suc, ◌+◌, ◌*◌, Bool, ◌==◌, ltb, not, if◌then◌else◌, List, [], ◌∷◌, sub32, bit_and,
  bit_or,
}
use bboot.Pci.{
  Mmio, Ports, pci_dev, pci_read_config8, pci_read_config16, pci_read_config32, pci_write_config8,
  pci_write_config16, pci_write_config32,
}
use bboot.Window.{Windows, addr_for_bar, decode_bar}

abbrev pub reg_vendor_id : ℕ
reg_vendor_id = 0x00

abbrev pub reg_command : ℕ
reg_command = 0x04

abbrev pub reg_revision_id : ℕ
reg_revision_id = 0x08

abbrev pub reg_prog_if : ℕ
reg_prog_if = 0x09

abbrev pub reg_cache_line_size : ℕ
reg_cache_line_size = 0x0c

abbrev pub reg_latency_timer : ℕ
reg_latency_timer = 0x0d

abbrev pub reg_header_type : ℕ
reg_header_type = 0x0e

abbrev pub reg_interrupt_line : ℕ
reg_interrupt_line = 0x3c

abbrev pub reg_interrupt_pin : ℕ
reg_interrupt_pin = 0x3d

-- `PCI_BAR`
abbrev pub pci_bar : ℕ → ℕ
pci_bar bar = 0x10 + 4 * bar

abbrev pub reg_command_io : ℕ
reg_command_io = 1

abbrev pub reg_command_mem : ℕ
reg_command_mem = 2

abbrev pub reg_command_bm : ℕ
reg_command_bm = 4

abbrev pub header_type_multifunction : ℕ
header_type_multifunction = 0x80

abbrev pub bar_mem_limit_64 : ℕ
bar_mem_limit_64 = 4

-- `cmd &= ~(REG_COMMAND_BM | REG_COMMAND_MEM | REG_COMMAND_IO);`
unfoldable pub command_off : ℕ → ℕ
command_off cmd = bit_and cmd (sub32 (sub32 0 1) 7)

-- `cmd |= REG_COMMAND_IO;` or `cmd |= REG_COMMAND_MEM;`
unfoldable pub command_for : ℕ → ℕ → ℕ
command_for bar cmd =
    bit_or cmd (if not (bit_and bar 1 == 0) then reg_command_io else reg_command_mem)

-- The hardware, and the variables of the file.
pub record World {ℓ} (S : Type ℓ) : Type ℓ where
  pub windows : Windows
  pub hardware : S

-- Where the loop over the registers stands.
pub record Bars {ℓ} (S : Type ℓ) : Type ℓ where
  pub index : ℕ
  pub cmd : ℕ
  pub world : World S

module _ {ℓ} {S : Type ℓ} (io : Mmio S) (p : Ports) (devfn : ℕ) where
  -- All ones to a register, and what it then reads as.
  unfoldable pub size_bar : ℕ → S → ℕ × S
  size_bar i s =
      pci_read_config32 io p devfn (pci_bar i)
        (pci_write_config32 io p devfn (pci_bar i) 0xffffffff s)

  -- The four stores for a register that gets an address.
  unfoldable pub enable_bar : ℕ → ℕ → ℕ → ℕ → S → S
  enable_bar i value cmd latency_timer s =
      let s1 = pci_write_config32 io p devfn (pci_bar i) value s in
      let s2 = pci_write_config16 io p devfn reg_command (bit_or cmd reg_command_bm) s1 in
      let s3 = pci_write_config8 io p devfn reg_cache_line_size 8 s2 in
      pci_write_config8 io p devfn reg_latency_timer latency_timer s3

  -- The loop's body for a register that is there: `bar` is what it reads as.
  unfoldable pub place_bar : ℕ → ℕ → Bars S → Bars S
  place_bar latency_timer bar k =
      let (type, size) = decode_bar bar in
      let cmd = command_for bar k.cmd in
      let (base, windows) = addr_for_bar type size k.world.windows in
      let s = k.world.hardware in
      record {
        index = if bit_and type bar_mem_limit_64 == 0 then k.index + 1 else k.index + 2;
        cmd = cmd;
        world = record {
          windows = windows;
          hardware =
              if base == 0 then s else enable_bar k.index (bit_or base type) cmd latency_timer s;
        };
      }

  -- The body of the loop.
  unfoldable pub bar_step : ℕ → Bars S → Bars S
  bar_step latency_timer k =
      let (bar, s) = size_bar k.index k.world.hardware in
      let sized : Bars S = record k { world = record k.world { hardware = s } } in
      if bar == 0 then record sized { index = k.index + 1 } else place_bar latency_timer bar sized

  -- The loop, over the rounds left: each takes at least one of the six registers.
  unfoldable pub bar_rounds : ℕ → ℕ → Bars S → Bars S
  bar_rounds zero latency_timer k = k
  bar_rounds (suc n) latency_timer k =
      bar_rounds n latency_timer (if ltb k.index 6 then bar_step latency_timer k else k)

  unfoldable pub map_bars : ℕ → ℕ → World S → World S
  map_bars latency_timer cmd w =
      (bar_rounds 6 latency_timer (record { index = 0; cmd = cmd; world = w })).world

  -- The reads of `setup_pci_device` for its `printf`, and the command register that is switched off.
  unfoldable pub quiet : S → ℕ × S
  quiet s =
      let (old, s1) = pci_read_config16 io p devfn reg_command s in
      let (_, s2) = pci_read_config32 io p devfn reg_revision_id s1 in
      let (_, s3) = pci_read_config16 io p devfn reg_interrupt_line s2 in
      let cmd = command_off old in (cmd, pci_write_config16 io p devfn reg_command cmd s3)

  -- `if (irq != 0xff) pci_write_config8(devfn, REG_INTERRUPT_LINE, irq);`
  unfoldable pub set_irq : ℕ → S → S
  set_irq irq s = if irq == 0xff then s else pci_write_config8 io p devfn reg_interrupt_line irq s

module _ {ℓ} {S : Type ℓ} (io : Mmio S) (p : Ports) (setup_pci_device : ℕ → World S → World S) where
  -- The inner loop over the functions of the slot `i`, from `j` on.
  unfoldable pub setup_functions : ℕ → ℕ → ℕ → World S → World S
  setup_functions i zero j w = w
  setup_functions i (suc n) j w = setup_functions i n (j + 1) (setup_pci_device (pci_dev 0 i j) w)

  unfoldable pub setup_slot : ℕ → World S → World S
  setup_slot i w =
      let w1 = setup_pci_device (pci_dev 0 i 0) w in
      let (header, s) = pci_read_config8 io p (pci_dev 0 i 0) reg_header_type w1.hardware in
      let w2 : World S = record w1 { hardware = s } in
      if bit_and header header_type_multifunction == 0 then w2 else setup_functions i 7 1 w2

  -- The outer loop, over the slots left, from `i` on.
  unfoldable pub setup_slots : ℕ → ℕ → World S → World S
  setup_slots zero i w = w
  setup_slots (suc n) i w = setup_slots n (i + 1) (setup_slot i w)

  unfoldable pub setup_bus : World S → World S
  setup_bus = setup_slots 32 0
