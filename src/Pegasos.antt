-- ===== src/Pegasos.antt =====
-- brd_pegasos2.c: the addresses of registers, the windows of a bus, and `of_claim`. The variables of
-- the file are one record, with the ports that `pci_set_addr` keeps. What is printed is output and is left out.
-- The array `cells` is in the memory of the firmware's state.
pub mod Nodes
pub mod Grant
pub mod Claim
pub mod Walk
pub mod Bars
mod Tests
use bboot.Base.{
  ℕ, zero, suc, ◌+◌, ◌*◌, ◌/◌, ◌%◌, ◌^◌, Bool, true, false, ◌&&◌, ◌||◌, not, ◌==◌, ltb, leb,
  if◌then◌else◌, codes, add32, sub32, bit_and, bit_or,
}
use bboot.Pci.{Ports, pci_set_addr, pci_bus, pci_slot}
use bboot.Window.{round_up}
use bboot.Prom.{Client, prom_getprop, prom_claim}

-- `PHYS_HI_PREFETCH` and `PHYS_HI_TYPE`
abbrev pub phys_hi_prefetch : ℕ
phys_hi_prefetch = 2 ^ 30

unfoldable pub phys_hi_type : ℕ → ℕ
phys_hi_type x = bit_and (x / 2 ^ 24) 3

abbrev pub iores_start : ℕ
iores_start = 0x1000

abbrev pub iores_top : ℕ
iores_top = 0x1200

abbrev pub mv64361_base : ℕ
mv64361_base = 0xf1000000

pub record Vars : Type 0 where
  pub iobase : ℕ
  pub iolen : ℕ
  pub membase : ℕ
  pub memlen : ℕ
  pub ioresavail : ℕ
  pub ioavail : ℕ
  pub memavail : ℕ
  pub ports : Ports

-- The functions of the south bridge, whose ports are reserved.
unfoldable pub is_reserved : ℕ → Bool
is_reserved physhi = pci_bus physhi == 0 && pci_slot physhi == 0xc

-- The hack that goes back to the start of the reserved ports.
unfoldable pub rewind : ℕ → ℕ
rewind avail = if leb iores_top avail then iores_start + 0x30 else avail

-- A place for a register among the ports from `avail` on: its address, and what is free then; `next`
-- has the last word on it where there is a place.
unfoldable pub port_for_bar : ℕ → ℕ → (ℕ → ℕ) → ℕ → ℕ → ℕ × ℕ
port_for_bar iobase iolen next avail size =
    let start = round_up avail size in
    if ltb iolen (add32 start size)
    then (0, start)
    else (add32 iobase start, next (add32 start size))

unfoldable pub io_for_bar : ℕ → ℕ → Vars → ℕ × Vars
io_for_bar physhi size v =
    let reserved = port_for_bar v.iobase v.iolen rewind v.ioresavail size in
    let other = port_for_bar v.iobase v.iolen (λ a. a) v.ioavail size in
    if is_reserved physhi
    then (reserved.0, record v { ioresavail = reserved.1 })
    else (other.0, record v { ioavail = other.1 })

unfoldable pub mem_for_bar : ℕ → Vars → ℕ × Vars
mem_for_bar size v =
    let start = round_up v.memavail size in
    if ltb v.memlen (add32 (sub32 start v.membase) size)
    then (0, record v { memavail = start })
    else (start, record v { memavail = add32 start size })

unfoldable pub addr_for_bar : ℕ → ℕ → Vars → ℕ × Vars
addr_for_bar physhi size v =
    if size == 0
    then (0, v)
    else if phys_hi_type physhi == 1
    then io_for_bar physhi size v
    else if phys_hi_type physhi == 0
    then (0, v)
    else mem_for_bar size v

-- Memory as the processor sees it, and where the variables are that the firmware stores to.
pub record Ram {ℓ} (S : Type ℓ) : Type ℓ where
  pub load : ℕ → S → ℕ
  pub store : ℕ → ℕ → S → S
  pub cells : ℕ
  pub name : ℕ
  pub vendor_id : ℕ
  pub device_id : ℕ
  pub class_code : ℕ
  pub rtas : ℕ

abbrev pub negative : ℕ → Bool
negative r = leb 0x80000000 r

abbrev pub sizeof_cells : ℕ
sizeof_cells = 140

module _ {ℓ} {S : Type ℓ} (ram : Ram S) where
  unfoldable pub cell : ℕ → S → ℕ
  cell i s = ram.load (ram.cells + 4 * i) s

  unfoldable pub set_cell : ℕ → ℕ → S → S
  set_cell i v s = ram.store (ram.cells + 4 * i) v s

  -- The loop over the ranges, over the rounds left, from the cell `i` on.
  unfoldable pub read_ranges : ℕ → ℕ → ℕ → S → Vars → Vars
  read_ranges zero i n s v = v
  read_ranges (suc rounds) i n s v =
      let type = phys_hi_type (cell i s) in
      let io : Vars = record v { iobase = cell (i + 3) s; iolen = cell (i + 5) s } in
      let mem : Vars = record v { membase = cell (i + 3) s; memlen = cell (i + 5) s } in
      let v' = if type == 1 then io else if type == 2 then mem else v in
      if ltb i n then read_ranges rounds (i + 6) n s v' else v

  -- The two buses, by their memory: what is free at first, and the ports of the host bridge.
  unfoldable pub known_bus : Vars → Bool × Vars
  known_bus v =
      let w : Vars = record v { memavail = v.membase } in
      if v.membase == 0x80000000
      then (
        true,
        record w {
          ioresavail = iores_start;
          ioavail = iores_top;
          ports = pci_set_addr (mv64361_base + 0xc78) (mv64361_base + 0xc7c);
        },
      )
      else if v.membase == 0xc0000000
      then (
        true,
        record w {
          ioresavail = v.iolen;
          ioavail = iores_start;
          ports = pci_set_addr (mv64361_base + 0xcf8) (mv64361_base + 0xcfc);
        },
      )
      else (false, w)

  -- The windows of a bus once its ranges are in `cells`, `n` of them.
  unfoldable pub bases_from : ℕ → S → Vars → Bool × Vars
  bases_from n s v =
      let w = read_ranges n 0 n s v in
      if w.iobase == 0 || w.iolen == 0 || w.membase == 0 || w.memlen == 0
      then (false, w)
      else known_bus w

  unfoldable pub bases_for_bus : Client S → ℕ → Vars → S → Bool × (Vars × S)
  bases_for_bus c ph v s =
      let (n, s1) = prom_getprop c ph (codes "ranges") ram.cells sizeof_cells s in
      let (known, w) = bases_from (n / 4) s1 v in
      if negative n || n == 0 then (false, (v, s1)) else (known, (w, s1))

-- `of_claim`
unfoldable pub of_claim {ℓ} : {S : Type ℓ} → Client S → ℕ → ℕ → S → ℕ × S
of_claim c addr size = prom_claim c addr size 0

-- What `pegasos2_init` sets in `brd`, but for its pointers.
abbrev pub pegasos2_exec_addr : ℕ
pegasos2_exec_addr = 0x400000

abbrev pub pegasos2_serial_base : ℕ
pegasos2_serial_base = 0xfe0002f8
