-- ===== src/Console/Tests.antt =====
-- A run of the console code on two devices, and its theorems there.
use bboot.Base.{[], ◌∷◌, ◌++◌, ◌≡◌, refl, Bytes}
use bboot.Console.{
  Driver, write_all, putchar, upto_newline, write_line, after_line, put_lines, putchars,
}

-- What a serial line and the firmware's screen were sent.
abbrev Devices : Type 0
Devices = Bytes × Bytes

abbrev serial : Driver Devices
serial text d = (d.0 ++ text, d.1)

abbrev screen : Driver Devices
screen text d = (d.0, d.1 ++ text)

two_lines :
    putchars (serial ∷ screen ∷ []) (65 ∷ 10 ∷ 10 ∷ 66 ∷ []) ([], [])
    ≡ ((65 ∷ 13 ∷ 10 ∷ 13 ∷ 10 ∷ 66 ∷ []), (65 ∷ 13 ∷ 10 ∷ 13 ∷ 10 ∷ 66 ∷ []))
unfolding putchars put_lines after_line write_line upto_newline putchar write_all
two_lines = refl
