-- ===== src/AosList/Frame.antt =====
-- What an append to a list of include/aoslist.h leaves of the memory around the list.
use bboot.Base.{ℕ, ◌+◌, ◌≤◌, ◌<◌, ◌⊎◌, List, [], ◌∷◌, ◌++◌, ◌≡◌, ◌∙◌, arith}
use bboot.Memory.{Mem, read32, write32}
use bboot.Memory.Laws.{write32_other, read32-write32_other}
use bboot.AosList.{alist_init, alist_add_tail}
use bboot.AosList.Chain.{IsAosList, last_of, tailpred-last_of}

-- An address outside the cells from `low` on that end before `high`, and two memories that agree on all such.
abbrev pub Outside : ℕ → ℕ → ℕ → Type 0
Outside low high b = (b < low) ⊎ (high ≤ b)

abbrev pub SameOutside : ℕ → ℕ → Mem → Mem → Type 0
SameOutside low high m m' = (b : ℕ) → Outside low high b → m' b ≡ m b

-- Nodes at an address or above it.
abbrev pub AllFrom : ℕ → List ℕ → Type 0
AllFrom low [] = Unit {0}
AllFrom low (n ∷ ns) = (low ≤ n) × AllFrom low ns

-- Nodes that end at an address or below it.
abbrev pub AllBelow : ℕ → List ℕ → Type 0
AllBelow top [] = Unit {0}
AllBelow top (n ∷ ns) = (n + 8 ≤ top) × AllBelow top ns

-- An address in the links of none of the nodes.
abbrev pub AllOff : ℕ → List ℕ → Type 0
AllOff b [] = Unit {0}
AllOff b (n ∷ ns) = Outside n (n + 8) b × AllOff b ns

last_of-off :
    (b prev : ℕ) (ns : List ℕ)
    → Outside prev (prev + 4) b
    → AllOff b ns
    → Outside (last_of prev ns) (last_of prev ns + 4) b
last_of-off b prev [] h off = h
last_of-off b prev (n ∷ ns) h off = last_of-off b n ns (omega (arith, off.0)) off.1

-- Nothing has changed but the header of a list, the links of its nodes and the cells from `low` on that end
-- before `high`.
abbrev pub Kept : ℕ → ℕ → ℕ → List ℕ → Mem → Mem → Type 0
Kept l low high ns m m' =
    (b : ℕ) → Outside l (l + 12) b → Outside low high b → AllOff b ns → m' b ≡ m b

-- An append changes the new node's links, the old last node's and the header only.
pub alist_add_tail-Kept :
    (m : Mem) (l n : ℕ) (ns : List ℕ)
    → IsAosList m l ns
    → l + 12 ≤ n
    → Kept l n (n + 8) ns m (alist_add_tail m l n)
unfolding alist_add_tail
alist_add_tail-Kept m l n ns k h c header new off =
    let m1 = write32 m n (l + 4) in
    let last = read32 m1 (l + 8) in
    let is : last ≡ last_of l ns =
      read32-write32_other m n (l + 4) (l + 8) (omega arith) ∙ tailpred-last_of m l l ns k.1 in
    let m2 = write32 m1 (n + 4) last in
    let clear = last_of-off c l ns (omega (arith, header)) off in
    let kept : read32 m2 (l + 8) ≡ last =
      read32-write32_other m1 (n + 4) last (l + 8) (omega arith) in
    write32_other _ (l + 8) n c (omega (arith, header))
    ∙ write32_other m2 _ n c (omega (arith, clear, kept, is))
    ∙ write32_other m1 (n + 4) last c (omega (arith, new))
    ∙ write32_other m n (l + 4) c (omega (arith, new))

-- Nodes that lie below an address or above it.
pub AllOff-Outside :
    (low high b : ℕ) (ns : List ℕ)
    → Outside low high b
    → AllFrom low ns
    → AllBelow high ns
    → AllOff b ns
AllOff-Outside low high b [] out a below = tt
AllOff-Outside low high b (n ∷ ns) out a below =
    (omega (arith, out, a.0, below.0), AllOff-Outside low high b ns out a.1 below.1)

pub AllOff-append :
    (b n : ℕ) (ns : List ℕ) → AllOff b ns → Outside n (n + 8) b → AllOff b (ns ++ (n ∷ []))
AllOff-append b n [] off h = (h, tt)
AllOff-append b n (k ∷ ns) off h = (off.0, AllOff-append b n ns off.1 h)

pub Kept-trans :
    (l low mid high : ℕ) (n : ℕ) (ns : List ℕ) (m m' m'' : Mem)
    → low ≤ n
    → n + 8 ≤ mid
    → mid ≤ high
    → Kept l low mid ns m m'
    → Kept l mid high (ns ++ (n ∷ [])) m' m''
    → Kept l low high ns m m''
Kept-trans l low mid high n ns m m' m'' a b c k k' d header out off =
    k' d header (omega (arith, out)) (AllOff-append d n ns off (omega (arith, out)))
    ∙ k d header (omega (arith, out)) off

-- An initialisation changes the header only.
pub alist_init_frame : (m : Mem) (l : ℕ) → SameOutside l (l + 12) m (alist_init m l)
unfolding alist_init
alist_init_frame m l b out =
    write32_other _ (l + 8) l b (omega (arith, out))
    ∙ write32_other _ (l + 4) 0 b (omega (arith, out))
    ∙ write32_other m l (l + 4) b (omega (arith, out))
