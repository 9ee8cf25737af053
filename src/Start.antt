-- ===== src/Start.antt =====
-- `start` of bboot.c: the choice of the machine, the console, the set-up of its devices, the initial ram disk, the
-- arguments, and the start of the kernel's loader. What the other files do is an interface, `Parts`,
-- since each of their models has a state of its own; the options, the console and the firmware's
-- client are those of Cfg, Console and Prom.
pub mod Handover
pub mod Archive
mod Tests
use mathlib.Core.Option
use bboot.Base.{
  ℕ, zero, suc, ◌+◌, ◌-◌, Bool, true, false, ◌&&◌, ◌||◌, not, ◌==◌, ltb, leb, if◌then◌else◌, Option,
  none, some, List, [], ◌∷◌, Bytes, codes, bytes_eq, length, get_or, add32, sub32,
}
use bboot.Cfg.{cfg_is_option, cfg_get_option}
use bboot.Console.{Driver, console_add_output_driver, putchar, puts}
use bboot.Prom.{
  Client, failed, prom_invalid_handle, prom_finddevice, prom_getprop, prom_getproplen,
  prom_get_chosen, prom_puts, prom_write, prom_exit,
}

-- The arguments of `start`.
pub record Regs : Type 0 where
  pub r3 : ℕ
  pub r4 : ℕ
  pub r5 : ℕ
  pub r6 : ℕ
  pub r7 : ℕ
  pub r8 : ℕ

-- A pointer to text: a literal or a buffer of the program by its bytes, or an address.
pub data Text : Type 0 where
  bytes : Bytes → Text
  address : ℕ → Text

-- `brd_t`; a pointer that is NULL is 0 or `none`.
pub record Brd {ℓ} (S : Type ℓ) : Type ℓ where
  pub claim : ℕ → ℕ → S → ℕ × S
  pub setup : Option (S → S)
  pub info : ℕ
  pub exec_addr : ℕ
  pub serial_base : ℕ
  pub initrd_start : ℕ
  pub initrd_end : ℕ
  pub bootargs : Option Bytes
  pub stack_top : ℕ

-- What the loader is called with; a stack of 0 is the one in use.
pub record Call : Type 0 where
  pub fn : ℕ
  pub stack : ℕ
  pub kicklist : ℕ
  pub info : ℕ
  pub args : Text

-- How `start` ends: in a call of the loader that does not return, behind one that did, or without one.
pub data Outcome : Type 0 where
  started : Call → Outcome
  came_back : Call → Outcome
  returned : Outcome

-- The machine: `of`, with the firmware's client, and `brd`; or one that is not known.
pub data Machine {ℓ} (S : Type ℓ) : Type ℓ where
  known : Option (Client S) → Brd S → Machine S
  unknown : Client S → Machine S

-- The functions that `start` calls, and its memory: the loads and stores of the variables that the firmware
-- stores to, where these are, and the text there. `loader` is the code that is called at `brd.exec_addr`:
-- `none` where it does not return.
pub record Parts {ℓ} (S : Type ℓ) : Type ℓ where
  pub sam460_init : ℕ → S → Brd S × S
  pub amigaone_init : S → Brd S × S
  pub prom_init : ℕ → S → Client S × S
  pub pegasos2_init : Client S → S → Brd S × S
  pub cfg_init : Option (Client S) → S → Bytes × S
  pub uart_init : ℕ → S → S
  pub uart_tx_byte : ℕ → ℕ → S → S
  pub boot_aos_zipkick : Brd S → ℕ → ℕ → ℕ → S → Option (ℕ × ℕ) × S
  pub loader : Call → S → Option S
  pub load : ℕ → S → ℕ
  pub store : ℕ → ℕ → S → S
  pub clear : ℕ → ℕ → S → S
  pub string : ℕ → S → Bytes
  pub prom_stdout : ℕ
  pub model : ℕ
  pub initrd_addr : ℕ
  pub initrd_len : ℕ
  pub version : Bytes

-- `brd.initrd_start` and the registers, where there is no firmware: the address and the length.
unfoldable pub given_initrd : ℕ → ℕ → ℕ → ℕ → ℕ × ℕ
given_initrd start end r4 r5 =
    if not (start == 0)
    then (start, if ltb start end then end - start else 0)
    else if not (r4 == 0)
    then (r4, if ltb r4 r5 then r5 - r4 else 0)
    else (0, 0)

-- `if (!initrd_addr)`
unfoldable pub or_default : ℕ × ℕ → ℕ × ℕ
or_default (addr, len) = if addr == 0 then (0x600000, 0) else (addr, len)

-- The verbosity, from the text behind `V`, where it is a digit.
unfoldable pub verbosity : Bytes → ℕ
verbosity options = elim (cfg_get_option options b'V') [
  | none ↦ 0
  | some k ↦ let c = get_or options k 0 in if leb b'0' c && leb c b'9' then c - b'0' else 0
]

module _ {ℓ} {S : Type ℓ} (t : Parts S) where
  -- `serial_write` and `prom_write` as drivers.
  unfoldable pub serial_write : ℕ → Driver S
  serial_write base [] s = s
  serial_write base (c ∷ text) s = serial_write base text (t.uart_tx_byte base c s)

  unfoldable pub prom_driver : Option (Client S) → Driver S
  prom_driver none text s = s
  prom_driver (some c) text s = prom_write c (t.load t.prom_stdout s) text s

  -- The machine behind Open Firmware, by its model.
  unfoldable pub firmware_machine : ℕ → S → Machine S × S
  firmware_machine pe s =
      let (c, s1) = t.prom_init pe s in
      let (ph, s2) = prom_finddevice c (codes "/") s1 in
      let (_, s3) = prom_getprop c ph (codes "model") t.model 32 (t.clear t.model 32 s2) in
      let (brd, s4) = t.pegasos2_init c s3 in
      if bytes_eq (t.string t.model s3) (codes "Pegasos2")
      then (known (some c) brd, s4)
      else (unknown c, prom_puts c (t.load t.prom_stdout s3) (codes "Unknown machine") s3)

  unfoldable pub choose_machine : Regs → S → Machine S × S
  choose_machine r s =
      let (sam460, s1) = t.sam460_init r.r3 s in
      let (amigaone, s2) = t.amigaone_init s in
      if r.r6 == 0x45504150
      then (known none sam460, s1)
      else if r.r8 == 1024 || r.r5 == 0
      then (known none amigaone, s2)
      else firmware_machine r.r5 s

  -- The drivers that the options ask for.
  unfoldable pub open_console : Option (Client S) → Brd S → Bytes → S → List (Driver S) × S
  open_console of brd options s =
      let first =
        if cfg_is_option options b'O' b'f'
        then console_add_output_driver (prom_driver of) []
        else [] in
      if cfg_is_option options b'O' b's'
      then (
        console_add_output_driver (serial_write brd.serial_base) first,
        t.uart_init brd.serial_base s,
      )
      else (first, s)

  -- `VLVL(l, puts(text))`
  unfoldable pub note : List (Driver S) → ℕ → ℕ → Bytes → S → S
  note outs vlvl l text s = if leb l vlvl then (puts outs text s).1 else s

  unfoldable pub setup_devices : Brd S → Bytes → S → S
  setup_devices brd options s = elim brd.setup [
    | none ↦ s
    | some f ↦ if cfg_is_option options b'A' b'p' then f s else s
  ]

  -- The variable that a property of /chosen goes to, with the message where there is none.
  unfoldable pub read_chosen : List (Driver S) → ℕ → Client S → Bytes → ℕ → Bytes → S → S
  read_chosen outs vlvl c name at message s =
      let (r, s1) = prom_get_chosen c name at 4 s in
      if failed r then note outs vlvl 5 message s1 else s1

  unfoldable pub firmware_initrd : List (Driver S) → ℕ → Client S → Regs → S → (ℕ × ℕ) × S
  firmware_initrd outs vlvl c r s =
      let s1 = t.store t.initrd_len r.r4 (t.store t.initrd_addr 0 s) in
      let s2 =
        read_chosen outs vlvl c (codes "linux,initrd-start") t.initrd_addr
          (codes "Could not get initrd start") s1 in
      let s3 =
        read_chosen outs vlvl c (codes "linux,initrd-end") t.initrd_len
          (codes "Could not get initrd end") s2 in
      let addr = t.load t.initrd_addr s3 in
      let end = t.load t.initrd_len s3 in
      if r.r3 == 0 then ((addr, if end == 0 then 0 else sub32 end addr), s3) else ((r.r3, r.r4), s)

  unfoldable pub find_initrd :
      List (Driver S) → ℕ → Option (Client S) → Brd S → Regs → S → (ℕ × ℕ) × S
  find_initrd outs vlvl none brd r s =
      (or_default (given_initrd brd.initrd_start brd.initrd_end r.r4 r.r5), s)
  find_initrd outs vlvl (some c) brd r s =
      let (found, s1) = firmware_initrd outs vlvl c r s in (or_default found, s1)

  -- The node and the property that hold the arguments.
  unfoldable pub args_node : Client S → S → (ℕ × Bytes) × S
  args_node c s =
      let (options, s1) = prom_finddevice c (codes "/options") s in
      let (chosen, s2) = prom_finddevice c (codes "/chosen") s1 in
      if options == prom_invalid_handle
      then ((chosen, codes "bootargs"), s2)
      else ((options, codes "os4_commandline"), s1)

  unfoldable pub firmware_args : Client S → Brd S → ℕ → S → Text × S
  firmware_args c brd avail s =
      let ((ph, name), s1) = args_node c s in
      let (len, s2) = prom_getproplen c ph name s1 in
      let (buf, s3) = brd.claim avail len s2 in
      let (got, s4) = prom_getprop c ph name buf len s3 in
      if failed len
      then (bytes [], s2)
      else if buf == 0
      then (bytes [], s3)
      else (if got == len then address buf else bytes [], s4)

  unfoldable pub given_args : Brd S → Regs → Text
  given_args brd r = elim brd.bootargs [
    | some text ↦ bytes text
    | none ↦ if not (r.r6 == 0) && ltb r.r6 r.r7 then address r.r6 else bytes []
  ]

  unfoldable pub find_args : Option (Client S) → Brd S → Regs → ℕ → S → Text × S
  find_args none brd r avail s = (given_args brd r, s)
  find_args (some c) brd r avail s = firmware_args c brd avail s

  -- The end at `error`.
  unfoldable pub give_up : Outcome → Option (Client S) → S → Outcome × S
  give_up x none s = (x, s)
  give_up x (some c) s = (x, prom_exit c s)

  unfoldable pub boot_failed : Outcome → List (Driver S) → Option (Client S) → S → Outcome × S
  boot_failed x outs of s = give_up x of (puts outs (codes "Booting failed, exiting.") s).1

  -- What follows the call of the loader, which may return.
  unfoldable pub after_loader :
      List (Driver S) → Option (Client S) → Call → Option S → S → Outcome × S
  after_loader outs of call none s = (started call, s)
  after_loader outs of call (some s1) s = boot_failed (came_back call) outs of s1

  -- The call of the loader, on the stack that the call names. In the source only the branch on the stack in
  -- use is meant to return; what follows is the same for both.
  unfoldable pub hand_over : List (Driver S) → Option (Client S) → Call → S → Outcome × S
  hand_over outs of call s = after_loader outs of call (t.loader call s) s

  -- With the list that the archive gave, if any.
  unfoldable pub start_exec :
      List (Driver S) → ℕ → Option (Client S) → Brd S → Regs → Option (ℕ × ℕ) × S → Outcome × S
  start_exec outs vlvl of brd r (none, s) = give_up returned of s
  start_exec outs vlvl of brd r (some (kicklist, avail), s) =
      let (args, s1) = find_args of brd r avail s in
      hand_over outs of
        (record {
          fn = brd.exec_addr;
          stack = brd.stack_top;
          kicklist = kicklist;
          info = brd.info;
          args = args;
        })
        (note outs vlvl 3 (codes "Starting exec") s1)

  -- The branch of the option for booting.
  unfoldable pub boot : List (Driver S) → ℕ → Option (Client S) → Brd S → Regs → S → Outcome × S
  boot outs vlvl of brd r s =
      let ((addr, len), s1) = find_initrd outs vlvl of brd r s in
      start_exec outs vlvl of brd r (t.boot_aos_zipkick brd addr len 1 s1)

  unfoldable pub run : Regs → Option (Client S) → Brd S → S → Outcome × S
  run r of brd s =
      let (options, s1) = t.cfg_init of s in
      let (outs, s2) = open_console of brd options s1 in
      let (_, s3) = puts outs t.version (putchar outs 10 s2) in
      let s4 = setup_devices brd options s3 in
      if cfg_is_option options b'A' b'b'
      then boot outs (verbosity options) of brd r s4
      else boot_failed returned outs of s4

  unfoldable pub run_on : Regs → Machine S × S → Outcome × S
  run_on r (known of brd, s) = run r of brd s
  run_on r (unknown c, s) = give_up returned (some c) s

  unfoldable pub start : Regs → S → Outcome × S
  start r s = run_on r (choose_machine r s)
