-- ===== src/Tlb/Pages.antt =====
-- Which entries `setup_tlb` writes, and what the entries for memory map.
use mathlib.Core.Option
use bboot.Base.{
  ℕ, zero, suc, ◌+◌, ◌*◌, ◌/◌, ◌^◌, ◌≤◌, ◌<◌, List, [], ◌∷◌, ◌++◌, map, ◌≡◌, refl, ap, ◌∙◌, some,
  get_elem?, arith, word, bit_or,
}
use bboot.Base.Bits.{bit_or-fields}
use native.Mathlib.Nat.{add-zero}
use bboot.Tlb.{TlbWrite, ram_pages, ram_write, ram_writes, row_writes, setup_tlb, tlbtab}

-- The numbers from one on.
unfoldable pub numbers : ℕ → ℕ → List ℕ
numbers i zero = []
numbers i (suc n) = i ∷ numbers (i + 1) n

abbrev index_of : TlbWrite → ℕ
index_of w = w.index

ram_writes-index : (i n : ℕ) → map index_of (ram_writes i n) ≡ numbers (15 + i) n
unfolding ram_writes ram_write numbers
ram_writes-index i zero = refl
ram_writes-index i (suc n) =
    ap (λ (t : List ℕ). (15 + i) ∷ t)
      (ram_writes-index (i + 1) n ∙ ap (λ (t : ℕ). numbers t n) (omega arith))

map-append : (a b : List TlbWrite) → map index_of (a ++ b) ≡ map index_of a ++ map index_of b
map-append [] b = refl
map-append (w ∷ a) b = ap (λ (t : List ℕ). w.index ∷ t) (map-append a b)

-- `setup_tlb` writes the entries for memory first, from 15 on, and then the fifteen of the table from
-- 0 on: no entry twice, and none past the last of the 64.
pub setup_tlb-index :
    (memsize : ℕ)
    → (map (λ (w : TlbWrite). w.index) (setup_tlb memsize)
        ≡ numbers 15 (ram_pages memsize) ++ numbers 0 15)
      × (1 ≤ ram_pages memsize)
      × (15 + ram_pages memsize ≤ 64)
unfolding setup_tlb ram_pages row_writes numbers
setup_tlb-index memsize = (
  map-append (ram_writes 0 (ram_pages memsize)) (row_writes 0 tlbtab)
      ∙ ap (λ (t : List ℕ). t ++ numbers 0 15) (ram_writes-index 0 (ram_pages memsize)),
  ground arith,
  ground arith,
)

ram_writes-at :
    (i n k : ℕ) (rest : List TlbWrite)
    → k < n
    → get_elem? (ram_writes i n ++ rest) k ≡ some (ram_write (k + i))
unfolding ram_writes
ram_writes-at i zero k rest h = absurd (omega arith)
ram_writes-at i (suc n) zero rest h = ap (λ (t : ℕ). some (ram_write t)) (omega arith)
ram_writes-at i (suc n) (suc k) rest h =
    ram_writes-at (i + 1) n k rest (omega arith) ∙ ap (λ (t : ℕ). some (ram_write t)) (omega arith)

ram_pages-ceiling :
    (memsize : ℕ)
    → 1 ≤ memsize
    → memsize + 0xfffffff < word
    → ram_pages memsize ≡ (memsize + 0xfffffff) / 268435456
unfolding ram_pages
ram_pages-ceiling memsize h1 h2 = ground arith

w0-sum : (i : ℕ) → bit_or (bit_or (i * 2 ^ 28) 0x200) 0x90 ≡ i * 268435456 + 0x290
w0-sum i =
    let set : i * 268435456 + 0x200 ≡ (i * 524288 + 1) * 512 = omega arith in
    ap (λ (t : ℕ). bit_or t 0x90) (bit_or-fields 28 i 0x200 (omega arith) ∙ set)
    ∙ bit_or-fields 9 (i * 524288 + 1) 0x90 (omega arith)
    ∙ omega arith

-- Every address of memory has an entry: a valid page of 256 MiB that starts at or below it and maps
-- to the same physical address. The size of memory rounds up to whole pages without a wrap.
pub setup_tlb-memory :
    (memsize a : ℕ)
    → memsize + 0xfffffff < word
    → a < memsize
    → get_elem? (setup_tlb memsize) (a / 268435456)
      ≡ some (record {
        index = 15 + a / 268435456;
        w0 = a / 268435456 * 268435456 + 0x290;
        w1 = a / 268435456 * 268435456;
        w2 = 0x43f;
      })
unfolding setup_tlb ram_write
setup_tlb-memory memsize a h1 h2 =
    ram_writes-at 0 (ram_pages memsize) (a / 268435456) (row_writes 0 tlbtab)
      (omega (arith, ram_pages-ceiling memsize (omega arith) h1))
    ∙ ap (λ (i : ℕ). some (ram_write i)) (add-zero (a / 268435456))
    ∙ ap
        (λ (v : ℕ). some (record {
          index = 15 + a / 268435456;
          w0 = v;
          w1 = a / 268435456 * 268435456;
          w2 = 0x43f;
        }))
        (w0-sum (a / 268435456))

ram_writes-after :
    (i n k p : ℕ) (rest : List TlbWrite)
    → p ≡ n + k
    → get_elem? (ram_writes i n ++ rest) p ≡ get_elem? rest k
unfolding ram_writes
ram_writes-after i zero k p rest h = ap (get_elem? rest) (omega (arith, h))
ram_writes-after i (suc n) k zero rest h = absurd (omega (arith, h))
ram_writes-after i (suc n) k (suc p) rest h = ram_writes-after (i + 1) n k p rest (omega (arith, h))

-- With more than 2 GiB of memory, `setup_tlb` writes two valid entries for the addresses from 0x80000000
-- on, a page of memory and the table's first window on PCI memory. The size of memory rounds up to
-- whole pages without a wrap.
pub setup_tlb_overlap :
    (memsize : ℕ)
    → memsize + 0xfffffff < word
    → 0x80000000 < memsize
    → (Option.map (λ (w : TlbWrite). w.w0) (get_elem? (setup_tlb memsize) 8) ≡ some 0x80000290)
      × (Option.map (λ (w : TlbWrite). w.w0) (get_elem? (setup_tlb memsize) (ram_pages memsize + 2))
          ≡ some 0x80000290)
unfolding setup_tlb row_writes
setup_tlb_overlap memsize h1 h2 = (
  ap (Option.map (λ (w : TlbWrite). w.w0)) (setup_tlb-memory memsize 0x80000000 h1 h2),
  ap (Option.map (λ (w : TlbWrite). w.w0))
      (ram_writes-after 0 (ram_pages memsize) 2 (ram_pages memsize + 2) (row_writes 0 tlbtab) refl),
)
