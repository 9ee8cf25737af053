-- ===== src/Pegasos/Tests.antt =====
-- Registers on the first bus of Pegasos II, a claim that fails, and the theorems at them.
use bboot.Base.{
  ℕ, ◌+◌, ◌-◌, ◌≡◌, ◌≢◌, ◌⊎◌, refl, arith, word, false, some, List, [], ◌∷◌, bytes_eq, codes,
  if◌then◌else◌, ◌==◌,
}
use bboot.Zip.{Puff}
use bboot.Pci.{pci_set_addr, pci_bus, pci_slot, Mmio}
use bboot.Window.{round_up, round_down}
use bboot.Window.Grant.{IsSize}
use bboot.Action.{Machine}
use bboot.Prom.{Client, call_prom, Cell, number, PromEntry, prom_peer, prom_child}
use bboot.Pegasos.{
  Vars, rewind, port_for_bar, io_for_bar, mem_for_bar, addr_for_bar, phys_hi_type, is_reserved, Ram,
}
use bboot.Pegasos.Grant.{Inside, HasRoom, addr_for_bar-Inside}
use bboot.Pegasos.Nodes
use bboot.Pegasos.Walk.{check_all, check_one_bus-check_all}

abbrev vars : Vars
vars = record {
  iobase = 0xfe000000;
  iolen = 0x10000;
  membase = 0x80000000;
  memlen = 0x40000000;
  ioresavail = 0x1000;
  ioavail = 0x1200;
  memavail = 0x80000010;
  ports = pci_set_addr 0xf1000c78 0xf1000c7c;
}

-- A memory register of 64 KiB in the slot 3.
memory_bar : (addr_for_bar 0x82001810 0x10000 vars).0 ≡ 0x80010000
unfolding addr_for_bar mem_for_bar io_for_bar port_for_bar rewind round_up round_down phys_hi_type
    is_reserved pci_bus pci_slot
memory_bar = refl

-- The last reserved ports are followed by those from 0x1030 on.
rewound :
    (addr_for_bar 0x81006010 0x100 (record vars { ioresavail = 0x1100 })).1.ioresavail ≡ 0x1030
unfolding addr_for_bar mem_for_bar io_for_bar port_for_bar rewind round_up round_down phys_hi_type
    is_reserved pci_bus pci_slot
rewound = refl

size_64k : IsSize 0x10000
size_64k = record { log = 16; rest = 16; power = refl; cofactor = refl; small = omega arith }

room : HasRoom vars 0x10000
room = record {
  ports = omega arith;
  memory = omega arith;
  low = omega arith;
  reserved_room = omega arith;
  port_room = omega arith;
  memory_room = omega arith;
}

addr_for_bar-Inside_example :
    ((addr_for_bar 0x82001810 0x10000 vars).0 ≡ 0)
    ⊎ ((phys_hi_type 0x82001810 ≡ 1)
        × Inside 0xfe000000 0x10000 0x10000 (addr_for_bar 0x82001810 0x10000 vars).0)
    ⊎ ((phys_hi_type 0x82001810 ≢ 1)
        × Inside 0x80000000 0x40000000 0x10000 (addr_for_bar 0x82001810 0x10000 vars).0)
addr_for_bar-Inside_example = addr_for_bar-Inside 0x82001810 0x10000 vars size_64k room

-- A firmware that refuses everything.
abbrev client : Client ℕ
client = record { prom = some (λ a s. (word - 1, s + 1)); prom_chosen = 1; prom_options = word - 1 }

puff : Puff
puff m dst dstlen src srclen = (false, m)

abbrev machine : Machine ℕ
machine = record { mem = λ a. 0; zip = record { base = 0; len = 0; er = 0; gfh = 0 }; firmware = 0 }

-- A firmware whose bus 1 has the nodes 2 and 3, which have no properties.
abbrev peer_of : ℕ → ℕ
peer_of n = if n == 2 then 3 else 0

abbrev answer : List Cell → ℕ
answer (number n ∷ []) = peer_of n
answer _ = word - 1

abbrev entry : PromEntry ℕ
entry a s =
    if bytes_eq a.service (codes "child")
    then (2, s + 1)
    else if bytes_eq a.service (codes "peer")
    then (answer a.args, s + 1)
    else (word - 1, s + 1)

abbrev tree : Client ℕ
tree = record { prom = some entry; prom_chosen = 1; prom_options = word - 1 }

abbrev idle : Mmio ℕ
idle = record {
  read8 = λ a s. (0xff, s);
  read16_le = λ a s. (0xffff, s);
  read32_le = λ a s. (0xffffffff, s);
  write8 = λ a v s. s;
  write16_le = λ a v s. s;
  write32_le = λ a v s. s;
}

abbrev ram : Ram ℕ
ram = record {
  load = λ a s. 0;
  store = λ a v s. s;
  cells = 0x3000;
  name = 0x3100;
  vendor_id = 0x3200;
  device_id = 0x3204;
  class_code = 0x3208;
  rtas = 0x3300;
}

abbrev bus : Nodes.Board ℕ
bus = record { vars = vars; machine = 0 }

check_one_bus-check_all_example :
    Nodes.check_one_bus idle ram tree 5 1 bus
    ≡ some (check_all idle ram tree (2 ∷ 3 ∷ []) (record bus { machine = 1 }))
unfolding prom_peer prom_child call_prom bytes_eq
check_one_bus-check_all_example =
    check_one_bus-check_all idle ram tree peer_of 2 5 1 (2 ∷ 3 ∷ []) bus (λ n s. refl) (λ s. refl)
      (refl, omega arith, (refl, omega arith, refl)) (omega arith)
