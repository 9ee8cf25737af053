-- ===== src/Prom.antt =====
-- The Open Firmware client of drivers/prom.c. The firmware's entry point is a function on a state of
-- the machine, which includes the memory that pointers to buffers refer to; it answers the first return
-- cell. A pointer to text is the text's bytes.
pub mod Text
mod Tests
use mathlib.Core.Option
use bboot.Base.{
  ℕ, zero, suc, ◌+◌, ◌-◌, ◌≤◌, ◌%◌, Bool, true, false, ◌||◌, List, [], ◌∷◌, Option, none, some,
  ◌==◌, leb, if◌then◌else◌, Bytes, codes, length, word, add32,
}
use bboot.Console.{upto_newline}

pub data Cell : Type 0 where
  number : ℕ → Cell
  text : Bytes → Cell

-- `struct prom_args`, with the arguments that are in use
pub record PromArgs : Type 0 where
  pub service : Bytes
  pub nret : ℕ
  pub args : List Cell

abbrev pub PromEntry {ℓ} : Type ℓ → Type ℓ
PromEntry S = PromArgs → S → ℕ × S

abbrev pub prom_invalid_handle : ℕ
prom_invalid_handle = word - 1

-- The variables of the file, but for `prom_stdin`, which nothing sets, and `prom_stdout`, which the
-- firmware stores in memory.
pub record Client {ℓ} (S : Type ℓ) : Type ℓ where
  pub prom : Option (PromEntry S)
  pub prom_chosen : ℕ
  pub prom_options : ℕ

-- A result that is not positive as an `int`.
abbrev pub failed : ℕ → Bool
failed r = r == 0 || leb 0x80000000 r

module _ {ℓ} {S : Type ℓ} where
  abbrev pub prom_cientry : Client S → Option (PromEntry S)
  prom_cientry c = c.prom

  unfoldable pub call_prom : Client S → Bytes → List Cell → ℕ → S → ℕ × S
  call_prom c service args nret s = elim c.prom [
    | none ↦ (word - 1, s)
    | some prom ↦
        let r = prom (record { service = service; nret = nret; args = args }) s in
        if nret == 0 then (0, r.1) else r
  ]

  unfoldable pub prom_finddevice : Client S → Bytes → S → ℕ × S
  prom_finddevice c name = call_prom c (codes "finddevice") (text name ∷ []) 1

  unfoldable pub prom_findpackage : Client S → Bytes → S → ℕ × S
  prom_findpackage c path = call_prom c (codes "find-package") (text path ∷ []) 1

  unfoldable pub prom_child : Client S → ℕ → S → ℕ × S
  prom_child c parent = call_prom c (codes "child") (number parent ∷ []) 1

  unfoldable pub prom_parent : Client S → ℕ → S → ℕ × S
  prom_parent c child = call_prom c (codes "parent") (number child ∷ []) 1

  unfoldable pub prom_peer : Client S → ℕ → S → ℕ × S
  prom_peer c ph = call_prom c (codes "peer") (number ph ∷ []) 1

  unfoldable pub prom_nextprop : Client S → ℕ → Bytes → ℕ → S → ℕ × S
  prom_nextprop c pack name mem =
      call_prom c (codes "nextprop") (number pack ∷ text name ∷ number mem ∷ []) 1

  unfoldable pub prom_getprop : Client S → ℕ → Bytes → ℕ → ℕ → S → ℕ × S
  prom_getprop c pack name mem len =
      call_prom c (codes "getprop") (number pack ∷ text name ∷ number mem ∷ number len ∷ []) 1

  unfoldable pub prom_getproplen : Client S → ℕ → Bytes → S → ℕ × S
  prom_getproplen c pack name = call_prom c (codes "getproplen") (number pack ∷ text name ∷ []) 1

  unfoldable pub prom_setprop : Client S → ℕ → Bytes → ℕ → ℕ → S → ℕ × S
  prom_setprop c pack name mem len =
      call_prom c (codes "setprop") (number pack ∷ text name ∷ number mem ∷ number len ∷ []) 1

  unfoldable pub prom_package_to_path : Client S → ℕ → ℕ → ℕ → S → ℕ × S
  prom_package_to_path c pack mem len =
      call_prom c (codes "package-to-path") (number pack ∷ number mem ∷ number len ∷ []) 1

  unfoldable pub prom_get_chosen : Client S → Bytes → ℕ → ℕ → S → ℕ × S
  prom_get_chosen c name mem len = prom_getprop c c.prom_chosen name mem len

  unfoldable pub prom_get_options : Client S → Bytes → ℕ → ℕ → S → ℕ × S
  prom_get_options c name mem len s =
      if c.prom_options == prom_invalid_handle
      then (word - 1, s)
      else prom_getprop c c.prom_options name mem len s

  unfoldable pub prom_set_options : Client S → Bytes → ℕ → ℕ → S → ℕ × S
  prom_set_options c name mem len s =
      if c.prom_options == prom_invalid_handle
      then (word - 1, s)
      else prom_setprop c c.prom_options name mem len s

  -- `call_prom("write", 3, 1, file, p, n)` for the `n` bytes at `p`
  unfoldable pub prom_write_to : Client S → ℕ → Bytes → S → S
  prom_write_to c file p s =
      (call_prom c (codes "write") (number file ∷ text p ∷ number (length p) ∷ []) 1 s).1

  unfoldable pub write_part : Client S → ℕ → Bytes → S → S
  write_part c file [] s = s
  write_part c file (x ∷ p) s = prom_write_to c file (x ∷ p) s

  unfoldable pub end_part : Client S → ℕ → (Bytes → S → S) → Bytes → S → S
  end_part c file next [] s = s
  end_part c file next (x ∷ rest) s = next rest (prom_write_to c file (13 ∷ 10 ∷ []) s)

  -- The outer loop of `prom_puts`, over the rounds left.
  unfoldable pub prom_put_parts : Client S → ℕ → ℕ → Bytes → S → S
  prom_put_parts c file zero p s = s
  prom_put_parts c file (suc rounds) [] s = s
  prom_put_parts c file (suc rounds) (x ∷ p) s =
      let parts = upto_newline (x ∷ p) in
      end_part c file (prom_put_parts c file rounds) parts.1 (write_part c file parts.0 s)

  -- `prom_puts` of a string given by its bytes; a round takes at least one of them.
  unfoldable pub prom_puts : Client S → ℕ → Bytes → S → S
  prom_puts c file p s = prom_put_parts c file (length p) p s

  unfoldable pub prom_putchar : Client S → ℕ → ℕ → S → S
  prom_putchar c prom_stdout x s =
      if x == 10
      then prom_write_to c prom_stdout (13 ∷ 10 ∷ []) s
      else prom_write_to c prom_stdout (x ∷ []) s

  unfoldable pub prom_write : Client S → ℕ → Bytes → S → S
  prom_write c prom_stdout p s = prom_write_to c prom_stdout p s

  unfoldable pub prom_exit : Client S → S → S
  prom_exit c s = (call_prom c (codes "exit") [] 0 s).1

  unfoldable pub prom_open : Client S → Bytes → S → ℕ × S
  prom_open c spec = call_prom c (codes "open") (text spec ∷ []) 1

  unfoldable pub prom_close : Client S → ℕ → S → S
  prom_close c file s = (call_prom c (codes "close") (number file ∷ []) 0 s).1

  unfoldable pub prom_claim : Client S → ℕ → ℕ → ℕ → S → ℕ × S
  prom_claim c virt size align =
      call_prom c (codes "claim") (number virt ∷ number size ∷ number align ∷ []) 1

  unfoldable pub prom_release : Client S → ℕ → ℕ → S → ℕ × S
  prom_release c virt size = call_prom c (codes "release") (number virt ∷ number size ∷ []) 0

  -- `prom_getargs`, with its buffer at `args` and the store of a byte. A negative length, which says that
  -- there is no property, is not tested.
  unfoldable pub prom_getargs : (ℕ → ℕ → S → S) → ℕ → Client S → S → ℕ × S
  prom_getargs store8 args c s =
      let (l, s1) = prom_get_chosen c (codes "bootargs") args 255 s in
      (args, store8 (add32 args l) 0 s1)

  unfoldable pub prom_setargs : Client S → Bytes → S → ℕ × S
  prom_setargs c args =
      call_prom c (codes "setprop")
        (number c.prom_chosen ∷ text (codes "bootargs") ∷ text args ∷ number (length args + 1) ∷ [])
        1

  -- `prom_init` up to its last line: the variables, and the state. `prom_exit` is a call like the
  -- others: where the firmware returns from it, the code goes on.
  unfoldable pub prom_init_handles : ℕ → PromEntry S → S → Client S × S
  prom_init_handles stdout_at pe s =
      let c0 : Client S = record {
        prom = some pe;
        prom_chosen = 0;
        prom_options = prom_invalid_handle;
      } in
      let chosen = prom_finddevice c0 (codes "/chosen") s in
      let c1 : Client S = record c0 { prom_chosen = chosen.0 } in
      let s1 = if chosen.0 == word - 1 then prom_exit c1 chosen.1 else chosen.1 in
      let options = prom_finddevice c1 (codes "/options") s1 in
      let c2 : Client S = record c1 { prom_options = options.0 } in
      let got = prom_get_chosen c2 (codes "stdout") stdout_at 4 options.1 in
      (c2, (if failed got.0 then prom_exit c2 got.1 else got.1))

  -- `prom_init`; `load` reads the variable that the firmware has stored.
  unfoldable pub prom_init : (S → ℕ → ℕ) → ℕ → PromEntry S → S → Client S × S
  prom_init load stdout_at pe s =
      let (c, s1) = prom_init_handles stdout_at pe s in
      (c, prom_puts c (load s1 stdout_at) (10 ∷ codes "OF interface initialized") s1)
