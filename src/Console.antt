-- ===== src/Console.antt =====
-- The console of drivers/console.c. An output driver is what its `write` does to a state of the
-- machine; the linked list of drivers is a list, the driver that was added last at its head.
pub mod Lines
mod Tests
use bboot.Base.{
  ℕ, zero, suc, ◌+◌, ◌%◌, Bool, true, false, List, [], ◌∷◌, ◌==◌, if◌then◌else◌, Bytes, length,
}

-- The `write` of a `struct console_output_driver`, whose length argument is the bytes' own.
abbrev pub Driver {ℓ} : Type ℓ → Type ℓ
Driver S = Bytes → S → S

abbrev pub console_add_output_driver {ℓ} :
    {S : Type ℓ} → Driver S → List (Driver S) → List (Driver S)
console_add_output_driver out console_out = out ∷ console_out

-- The loop over the drivers that both functions below have.
unfoldable pub write_all {ℓ} : {S : Type ℓ} → List (Driver S) → Bytes → S → S
write_all [] text s = s
write_all (out ∷ outs) text s = write_all outs text (out text s)

-- `putchar`; the character that it returns is used nowhere.
unfoldable pub putchar {ℓ} : {S : Type ℓ} → List (Driver S) → ℕ → S → S
putchar outs c s =
    let cc = c % 256 in
    if cc == 10 then write_all outs (13 ∷ 10 ∷ []) s else write_all outs (cc ∷ []) s

-- The inner loop of `putchars`: the bytes before the first newline, and those from it on.
unfoldable pub upto_newline : Bytes → Bytes × Bytes
upto_newline [] = ([], [])
upto_newline (c ∷ text) =
    let rest = upto_newline text in if c == 10 then ([], c ∷ text) else (c ∷ rest.0, rest.1)

-- A write of a line, unless it is empty.
unfoldable pub write_line {ℓ} : {S : Type ℓ} → List (Driver S) → Bytes → S → S
write_line outs [] s = s
write_line outs (c ∷ line) s = write_all outs (c ∷ line) s

-- The end of a round: the newline, where one was found, and the rounds after it.
unfoldable pub after_line {ℓ} : {S : Type ℓ} → List (Driver S) → (Bytes → S → S) → Bytes → S → S
after_line outs next [] s = s
after_line outs next (c ∷ rest) s = next rest (putchar outs 10 s)

-- The outer loop of `putchars`, over the rounds left.
unfoldable pub put_lines {ℓ} : {S : Type ℓ} → List (Driver S) → ℕ → Bytes → S → S
put_lines outs zero text s = s
put_lines outs (suc rounds) [] s = s
put_lines outs (suc rounds) (c ∷ text) s =
    let parts = upto_newline (c ∷ text) in
    after_line outs (put_lines outs rounds) parts.1 (write_line outs parts.0 s)

-- `putchars(s, n)` on the `n` bytes at `s`; a round takes at least one of them.
unfoldable pub putchars {ℓ} : {S : Type ℓ} → List (Driver S) → Bytes → S → S
putchars outs text s = put_lines outs (length text) text s

-- `puts` of a string given by its bytes: the value it returns, and the state.
unfoldable pub puts {ℓ} : {S : Type ℓ} → List (Driver S) → Bytes → S → ℕ × S
puts outs text s = (length text + 1, putchar outs 10 (putchars outs text s))
