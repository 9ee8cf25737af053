-- ===== src/Sam460/Tests.antt =====
-- The stack of a board with 512 MiB, and what is handed over without a device tree.
use bboot.Base.{bytes_eq, ℕ, ◌+◌, ◌≡◌, refl, none, arith}
use bboot.Memory.{Mem, read32}
use bboot.Fdt.{fdt_check}
use bboot.Sam460.{read_fdt, default_memsize, pim0sal}
use bboot.Pci.{Mmio}
use bboot.Sam460.Pci
use bboot.Sam460.Tree.{handed_of, read_fdt-tree}
use bboot.Fdt.Tests as Blob
use bboot.Fdt.Tree.{lookup_device, lookup_prop}

abbrev clean : Mem
clean a = 0

without_tree :
    read_fdt 10 clean 4096
    ≡ record { memsize = default_memsize; initrd_start = 0; initrd_end = 0; bootargs = none }
unfolding read_fdt fdt_check read32
without_tree = refl

window_of_half : pim0sal 0x20000000 ≡ 0xe0000003
unfolding pim0sal
window_of_half = refl

-- The interrupts of the graphics chip and of another device.
chip_irq : Pci.map_irq 0x0501126f 6 1 ≡ 116
unfolding Pci.map_irq
chip_irq = refl

card_irq : Pci.map_irq 0x813910ec 4 2 ≡ 32
unfolding Pci.map_irq
card_irq = refl

-- A bridge without devices.
abbrev empty : Mmio ℕ
empty = record {
  read8 = λ a s. (0xff, s);
  read16_le = λ a s. (0xffff, s);
  read32_le = λ a s. (0xffffffff, s);
  write8 = λ a v s. s;
  write16_le = λ a v s. s;
  write32_le = λ a v s. s + 1;
}

pom_stores : Pci.setup_pom empty 0x20000000 0 ≡ 15
unfolding Pci.setup_pom
pom_stores = refl

-- The blob of 512 MiB in the tests of the reader.
read_fdt-tree_example : read_fdt 20 Blob.memory 4096 ≡ handed_of Blob.tree
unfolding lookup_device lookup_prop bytes_eq
read_fdt-tree_example =
    read_fdt-tree Blob.memory 4096 20 Blob.tree Blob.checked Blob.memory-IsBlob
      (record { reg = omega arith; start = tt; end = tt; args = tt })
