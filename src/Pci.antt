-- ===== src/Pci.antt =====
-- PCI configuration space: drivers/pci.c, and the macros of drivers/pci.h that name a device. The
-- loads and stores of include/ppc-mmio.h are single instructions on device registers, so they are
-- operations on a state that the hardware keeps: a parameter of the functions here.
pub mod Lanes
mod Tests
use bboot.Base.{ℕ, ◌+◌, ◌*◌, ◌/◌, ◌^◌, ◌≤◌, ◌<◌, sub32, bit_and, bit_or, List, []}

pub record Mmio {ℓ} (S : Type ℓ) : Type ℓ where
  pub read8 : ℕ → S → ℕ × S
  pub read16_le : ℕ → S → ℕ × S
  pub read32_le : ℕ → S → ℕ × S
  pub write8 : ℕ → ℕ → S → S
  pub write16_le : ℕ → ℕ → S → S
  pub write32_le : ℕ → ℕ → S → S

-- `PCI_DEV`, `PCI_BUS`, `PCI_SLOT` and `PCI_FUNC`
unfoldable pub pci_dev : ℕ → ℕ → ℕ → ℕ
pci_dev bus dev fn = bit_or (bit_or (bit_or 0x80000000 (bus * 2 ^ 16)) (dev * 2 ^ 11)) (fn * 2 ^ 8)

unfoldable pub pci_bus : ℕ → ℕ
pci_bus d = bit_and (d / 2 ^ 16) 0xff

unfoldable pub pci_slot : ℕ → ℕ
pci_slot d = bit_and (d / 2 ^ 11) 0x1f

unfoldable pub pci_func : ℕ → ℕ
pci_func d = bit_and (d / 2 ^ 8) 7

-- The two ports that `pci_set_addr` keeps.
pub record Ports : Type 0 where
  pub pci_conf_addr : ℕ
  pub pci_data_addr : ℕ

abbrev pub pci_set_addr : ℕ → ℕ → Ports
pci_set_addr conf_addr data_addr = record { pci_conf_addr = conf_addr; pci_data_addr = data_addr }

-- `device | (reg & ~3) | (1UL << 31)`
unfoldable pub conf_value : ℕ → ℕ → ℕ
conf_value device reg = bit_or (bit_or device (bit_and reg (sub32 (sub32 0 1) 3))) (2 ^ 31)

module _ {ℓ} {S : Type ℓ} (io : Mmio S) (p : Ports) where
  unfoldable pub pci_set_conf_addr : ℕ → ℕ → S → S
  pci_set_conf_addr device reg s = io.write32_le p.pci_conf_addr (conf_value device reg) s

  unfoldable pub pci_read_config8 : ℕ → ℕ → S → ℕ × S
  pci_read_config8 device reg s =
      io.read8 (p.pci_data_addr + bit_and reg 3) (pci_set_conf_addr device reg s)

  unfoldable pub pci_read_config16 : ℕ → ℕ → S → ℕ × S
  pci_read_config16 device reg s =
      io.read16_le (p.pci_data_addr + bit_and reg 2) (pci_set_conf_addr device reg s)

  unfoldable pub pci_read_config32 : ℕ → ℕ → S → ℕ × S
  pci_read_config32 device reg s = io.read32_le p.pci_data_addr (pci_set_conf_addr device reg s)

  unfoldable pub pci_write_config8 : ℕ → ℕ → ℕ → S → S
  pci_write_config8 device reg val s =
      io.write8 (p.pci_data_addr + bit_and reg 3) val (pci_set_conf_addr device reg s)

  unfoldable pub pci_write_config16 : ℕ → ℕ → ℕ → S → S
  pci_write_config16 device reg val s =
      io.write16_le (p.pci_data_addr + bit_and reg 2) val (pci_set_conf_addr device reg s)

  unfoldable pub pci_write_config32 : ℕ → ℕ → ℕ → S → S
  pci_write_config32 device reg val s =
      io.write32_le p.pci_data_addr val (pci_set_conf_addr device reg s)
