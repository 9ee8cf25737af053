-- ===== src/Pegasos/Nodes.antt =====
-- `check_one_bus` of brd_pegasos2.c, which goes over the nodes below a bus, and `pegasos2_setup`. The calls of
-- `printf` are output, but their arguments read registers; these reads are made in the order of the text.
use mathlib.Core.Option
use bboot.Base.{
  ℕ, zero, suc, ◌+◌, ◌-◌, ◌*◌, ◌/◌, ◌^◌, Bool, true, false, ◌&&◌, ◌||◌, not, ◌==◌, ltb,
  if◌then◌else◌, Option, none, some, codes, ◌%◌, add32, sub32, word, bit_and, bit_or,
}
use bboot.Pci.{
  Mmio, Ports, pci_bus, pci_slot, pci_func, pci_read_config8, pci_read_config16, pci_read_config32,
  pci_write_config8, pci_write_config16, pci_write_config32,
}
use bboot.Device.{reg_vendor_id, reg_command, reg_interrupt_line}
use bboot.Prom.{Client, prom_child, prom_peer, prom_getprop, prom_setprop, prom_finddevice}
use bboot.Pegasos.{
  Vars, Ram, cell, set_cell, sizeof_cells, negative, addr_for_bar, phys_hi_type, phys_hi_prefetch,
  bases_for_bus,
}

-- The variables and the machine.
pub record Board {ℓ} (S : Type ℓ) : Type ℓ where
  pub vars : Vars
  pub machine : S

-- What is known of a device: the IDs of its node, its address, and the IDs that it answers.
pub record Node : Type 0 where
  pub handle : ℕ
  pub vendor : ℕ
  pub device : ℕ
  pub devfn : ℕ
  pub vendev : ℕ

-- `vendev == (device_id << 16 | vendor_id)`
unfoldable pub answers : Node → Bool
answers d = d.vendev == bit_or (d.device * 2 ^ 16 % word) d.vendor

-- `vendor_id`, `device_id` and `class_code` once they are read, or `none` where the node is passed over.
abbrev pub Ids : Type 0
Ids = Option (ℕ × ℕ)

-- `cells[i]` with a 64 bit register made one of 32 bits, and the register of a ROM corrected.
abbrev pub narrow : ℕ → ℕ
narrow hi = if phys_hi_type hi == 3 then bit_and hi (sub32 (sub32 0 1) (2 ^ 24)) else hi

abbrev pub fix_rom : ℕ → ℕ
fix_rom hi = if bit_and hi 0xff == 0x28 then add32 hi 8 else hi

module _ {ℓ} {S : Type ℓ} (io : Mmio S) (ram : Ram S) (c : Client S) where
  -- The three properties of four bytes; the first that is not there ends it.
  unfoldable pub read_ids : ℕ → S → Ids × S
  read_ids ph s =
      let (r1, s1) = prom_getprop c ph (codes "vendor-id") ram.vendor_id 4 s in
      let (r2, s2) = prom_getprop c ph (codes "device-id") ram.device_id 4 s1 in
      let (r3, s3) = prom_getprop c ph (codes "class-code") ram.class_code 4 s2 in
      if not (r1 == 4)
      then (none, s1)
      else if not (r2 == 4)
      then (none, s2)
      else if not (r3 == 4)
      then (none, s3)
      else (some (ram.load ram.vendor_id s3, ram.load ram.device_id s3), s3)

  unfoldable pub enable : Bool → Ports → ℕ → S → S
  enable b p devfn s = if b then pci_write_config16 io p devfn reg_command 7 s else s

  -- The interrupt controller, the USB functions and the SCSI cards, and the reads for `printf`.
  unfoldable pub fix_device : Vars → Node → S → S
  fix_device v d s =
      let p = v.ports in
      let isa = io.write8 (add32 v.iobase 0x4d1) 0xe (io.write8 (add32 v.iobase 0x4d0) 0xa4 s) in
      let s1 = if d.vendev == 0x82311106 then isa else s in
      let fn = pci_func d.devfn in
      let s2 =
        enable (pci_bus d.devfn == 0 && pci_slot d.devfn == 0xc && (fn == 2 || fn == 3)) p d.devfn
          s1 in
      let s3 = enable (d.vendor == 0x1000 && ltb d.device 0x14) p d.devfn s2 in
      let (_, s4) = pci_read_config16 io p d.devfn reg_interrupt_line s3 in
      let (_, s5) = pci_read_config16 io p d.devfn reg_command s4 in s5

  -- `memcpy(&cells[i], &cells[i + 5], 5 * sizeof(cells[9]));`
  unfoldable pub move_cells : ℕ → ℕ → S → S
  move_cells i zero s = s
  move_cells i (suc n) s = move_cells (i + 1) n (set_cell ram i (cell ram (i + 5) s) s)

  -- The loop that assigns addresses, over the rounds left, from the cell `i` on, below `top`; `i` where it
  -- ends comes first.
  unfoldable pub assign : ℕ → ℕ → ℕ → Board S → ℕ × Board S
  assign zero i top b = (i, b)
  assign (suc rounds) i top b =
      let s1 = move_cells i 5 b.machine in
      let (base, v) = addr_for_bar (cell ram i s1) (cell ram (i + 4) s1) b.vars in
      let next : Board S = record { vars = v; machine = set_cell ram (i + 2) base s1 } in
      let rest = assign rounds (i + 5) top next in if ltb i top then rest else (i, b)

  -- The interrupt of a device that has none, with the read for `printf`.
  unfoldable pub assign_irq : Ports → Node → S → S
  assign_irq p d s =
      let (int_line, s1) = pci_read_config8 io p d.devfn reg_interrupt_line s in
      let s2 = pci_write_config8 io p d.devfn reg_interrupt_line 9 s1 in
      let (_, s3) = pci_read_config16 io p d.devfn reg_interrupt_line s2 in
      if (int_line == 0 || int_line == 0xff) && answers d then s3 else s1

  -- `val`, from the first cell of a register, its address, and what the register reads as.
  unfoldable pub bar_value : ℕ → ℕ → ℕ → ℕ → ℕ
  bar_value iobase hi address reg =
      let v1 = if phys_hi_type hi == 1 then bit_or (sub32 address iobase) 1 else address in
      let v2 = if bit_and hi phys_hi_prefetch == 0 then v1 else bit_or v1 8 in
      if bit_and reg 4 == 0 then v2 else bit_or v2 4

  -- The body of the last loop, at the cell `i`, with `setprop`.
  unfoldable pub check_bar : Vars → Node → ℕ → Bool × S → Bool × S
  check_bar v d i (setprop, s) =
      let hi = cell ram i s in
      let fixed = fix_rom (narrow hi) in
      let s1 = if fixed == hi then s else set_cell ram i fixed s in
      let reg_at = bit_and (cell ram i s1) 0xff in
      let (reg, s2) = pci_read_config32 io v.ports d.devfn reg_at s1 in
      let val = bar_value v.iobase fixed (cell ram (i + 2) s1) reg in
      let s3 = pci_write_config32 io v.ports d.devfn reg_at val s2 in
      (setprop || not (fixed == hi), if not (reg == val) && answers d then s3 else s2)

  unfoldable pub check_bars : ℕ → ℕ → ℕ → Vars → Node → Bool × S → Bool × S
  check_bars zero i n v d x = x
  check_bars (suc rounds) i n v d x =
      let rest = check_bars rounds (i + 5) n v d (check_bar v d i x) in if ltb i n then rest else x

  unfoldable pub set_addresses : Node → ℕ → S → S
  set_addresses d size s = (prom_setprop c d.handle (codes "assigned-addresses") ram.cells size s).1

  -- From `n = ret / sizeof(cells[0])` on.
  unfoldable pub finish_node : Node → ℕ → Bool → Board S → Board S
  finish_node d ret setprop b =
      let n = ret / 4 in
      let (changed, s) = check_bars n 0 n b.vars d (setprop, b.machine) in
      record b { machine = if changed then set_addresses d (4 * n) s else s }

  -- From the reading of the addresses on, for a node with `n` cells in its `reg`.
  unfoldable pub check_addresses : Node → ℕ → Board S → Board S
  check_addresses d n b =
      let (ret, s) =
        prom_getprop c d.handle (codes "assigned-addresses") ram.cells sizeof_cells b.machine in
      let read : Board S = record b { machine = s } in
      let (i, assigned) = assign n 0 (n - 5) read in
      let irq = assign_irq assigned.vars.ports d assigned.machine in
      if not (negative ret)
      then finish_node d ret false read
      else if ltb n 6
      then record b { machine = set_addresses d 0 s }
      else finish_node d (4 * i) true (record assigned { machine = irq })

  -- A node whose IDs are known.
  unfoldable pub check_device : ℕ → ℕ × ℕ → Board S → Board S
  check_device ph (vendor, device) b =
      let (ret, s1) = prom_getprop c ph (codes "reg") ram.cells sizeof_cells b.machine in
      let devfn = cell ram 0 s1 in
      let (vendev, s2) = pci_read_config32 io b.vars.ports devfn reg_vendor_id s1 in
      let d : Node = record {
        handle = ph;
        vendor = vendor;
        device = device;
        devfn = devfn;
        vendev = vendev;
      } in
      if negative ret || ltb ret 5
      then record b { machine = s1 }
      else check_addresses d (ret / 4) (record b { machine = fix_device b.vars d s2 })

  -- The body of the loop over the nodes.
  unfoldable pub check_node : ℕ → Board S → Board S
  check_node ph b =
      let (ret, s1) = prom_getprop c ph (codes "name") ram.name 64 b.machine in
      let (ids, s2) = read_ids ph s1 in
      if negative ret then record b { machine = s1 } else elim ids [
        | none ↦ record b { machine = s2 }
        | some i ↦ check_device ph i (record b { machine = s2 })
      ]

  -- The loop over the nodes, from the node `ph` on; `none` where there are more of them than the fuel.
  unfoldable pub check_nodes : ℕ → ℕ → Board S → Option (Board S)
  check_nodes zero ph b = none
  check_nodes (suc fuel) ph b =
      let done = check_node ph b in
      let (peer, s) = prom_peer c ph done.machine in
      let rest = check_nodes fuel peer (record done { machine = s }) in
      if ph == 0 then some b else rest

  unfoldable pub check_one_bus : ℕ → ℕ → Board S → Option (Board S)
  check_one_bus fuel ph b =
      let (child, s) = prom_child c ph b.machine in
      check_nodes fuel child (record b { machine = s })

  -- `if (ph && bases_for_bus(ph)) check_one_bus(ph);`
  unfoldable pub setup_one_bus : ℕ → ℕ → Board S → Option (Board S)
  setup_one_bus fuel ph b =
      let (known, (v, s)) = bases_for_bus ram c ph b.vars b.machine in
      let read : Board S = record { vars = v; machine = s } in
      let checked = check_one_bus fuel ph read in
      if ph == 0 then some b else if known then checked else some read

  -- The name of the node /rtas.
  unfoldable pub name_rtas : Board S → Board S
  name_rtas b =
      let (ph, s) = prom_finddevice c (codes "/rtas") b.machine in
      record b { machine = (prom_setprop c ph (codes "name") ram.rtas 5 s).1 }

  -- The second bus, which is the peer of the first, and what follows.
  unfoldable pub setup_peer : ℕ → ℕ → Board S → Option (Board S)
  setup_peer fuel ph b =
      let (peer, s) = prom_peer c ph b.machine in
      Option.map name_rtas (setup_one_bus fuel peer (record b { machine = s }))

  unfoldable pub pegasos2_setup : ℕ → Board S → Option (Board S)
  pegasos2_setup fuel b =
      let (ph, s) = prom_finddevice c (codes "/pci") b.machine in
      elim (setup_one_bus fuel ph (record b { machine = s })) [
        | none ↦ none
        | some b1 ↦ setup_peer fuel ph b1
      ]
