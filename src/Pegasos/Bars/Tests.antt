-- ===== src/Pegasos/Bars/Tests.antt =====
-- The addresses of a card with a 64 bit register and a ROM, and the theorem at them.
use bboot.Base.{ℕ, ◌%◌, ◌==◌, if◌then◌else◌, none, word}
use bboot.Pci.{Mmio, pci_set_addr}
use bboot.Prom.{Client}
use bboot.Pegasos.{Vars, Ram}
use bboot.Pegasos.Nodes.{Node}

-- Memory by words, and a bridge whose registers read as 0.
abbrev Words : Type 0
Words = ℕ → ℕ

abbrev ram : Ram Words
ram = record {
  load = λ a s. s a % word;
  store = λ a v s b. if b == a then v else s b;
  cells = 1000;
  name = 0;
  vendor_id = 0;
  device_id = 0;
  class_code = 0;
  rtas = 0;
}

abbrev idle : Mmio Words
idle = record {
  read8 = λ a s. (0, s);
  read16_le = λ a s. (0, s);
  read32_le = λ a s. (0, s);
  write8 = λ a v s. s;
  write16_le = λ a v s. s;
  write32_le = λ a v s. s;
}

abbrev client : Client Words
client = record { prom = none; prom_chosen = 0; prom_options = 0 }

abbrev vars : Vars
vars = record {
  iobase = 0xfe000000;
  iolen = 0x10000;
  membase = 0x80000000;
  memlen = 0x40000000;
  ioresavail = 0x1000;
  ioavail = 0x1200;
  memavail = 0x80000010;
  ports = pci_set_addr 0xf1000c78 0xf1000c7c;
}

abbrev card : Node
card = record { handle = 1; vendor = 0x1002; device = 0x5960; devfn = 0x1800; vendev = 0x59601002 }

abbrev words : Words
words a = if a == 1000 then 0xc3001810 else if a == 1020 then 0x82001828 else 0
