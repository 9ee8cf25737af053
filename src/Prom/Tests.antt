-- ===== src/Prom/Tests.antt =====
-- A firmware that records what is written and finds no device, and the theorem at it.
use bboot.Base.{
  append-empty, append_assoc, ◌-◌, List, [], ◌∷◌, ◌++◌, ◌≡◌, refl, Bytes, length, codes, some, word,
  if◌then◌else◌, bytes_eq,
}
use bboot.Console.{upto_newline}
use bboot.Console.Lines.{crlf, IsStream}
use bboot.Prom.{
  Cell, number, text, PromEntry, Client, call_prom, prom_write_to, write_part, end_part,
  prom_put_parts, prom_puts,
}
use bboot.Prom.Text.{prom_puts-crlf}

-- The text of a write.
abbrev written : List Cell → Bytes
written (number file ∷ text p ∷ rest) = p
written _ = []

abbrev entry : PromEntry Bytes
entry a s =
    if bytes_eq a.service (codes "write") then (length s, s ++ written a.args) else (word - 1, s)

abbrev client : Client Bytes
client = record { prom = some entry; prom_chosen = 1; prom_options = word - 1 }

two_lines : prom_puts client 5 (65 ∷ 10 ∷ 66 ∷ []) [] ≡ (65 ∷ 13 ∷ 10 ∷ 66 ∷ [])
unfolding prom_puts prom_put_parts end_part write_part prom_write_to call_prom upto_newline bytes_eq
two_lines = refl

client-IsStream : IsStream (prom_write_to client 5)
unfolding prom_write_to call_prom bytes_eq
client-IsStream s = (append-empty s, append_assoc s)

prom_puts-crlf_example : prom_puts client 5 (65 ∷ 10 ∷ 66 ∷ []) [] ≡ (65 ∷ 13 ∷ 10 ∷ 66 ∷ [])
unfolding crlf prom_write_to call_prom bytes_eq
prom_puts-crlf_example = prom_puts-crlf client 5 (65 ∷ 10 ∷ 66 ∷ []) [] client-IsStream
