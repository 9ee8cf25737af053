-- ===== src/Kick/Kicklist.antt =====
-- The list of modules in memory, and the memory that is free behind it.
use bboot.Base.{ℕ, ◌+◌, ◌≤◌, ◌<◌, inl, inr, List, [], ◌∷◌, ◌++◌, ◌≡◌, ◌∙◌, arith, word}
use bboot.Memory.{Mem, read32}
use bboot.AosList.{alist_add_tail}
use bboot.AosList.Chain.{Linked, IsAosList, AllApart, ArePlaced, alist_add_tail-IsAosList}
use bboot.AosList.Frame.{
  Outside, AllFrom, AllBelow, AllOff, AllOff-Outside, Kept, alist_add_tail-Kept,
}

-- Two memories that agree below an address.
abbrev pub SameBelow : ℕ → Mem → Mem → Type 0
SameBelow top m m' = (b : ℕ) → b < top → m' b ≡ m b

pub read32-SameBelow :
    (top a : ℕ) (m m' : Mem) → SameBelow top m m' → a + 4 ≤ top → read32 m' a ≡ read32 m a
unfolding read32
read32-SameBelow top a m m' h fits = omega (arith, h a, h (a + 1), h (a + 2), h (a + 3))

pub Linked-SameBelow :
    (top l prev : ℕ) (ns : List ℕ) (m m' : Mem)
    → SameBelow top m m'
    → l + 12 ≤ top
    → prev + 4 ≤ top
    → AllBelow top ns
    → Linked m l prev ns
    → Linked m' l prev ns
Linked-SameBelow top l prev [] m m' h hl hp a k = (
  read32-SameBelow top prev m m' h hp ∙ k.0,
  read32-SameBelow top (l + 8) m m' h (omega arith) ∙ k.1,
)
Linked-SameBelow top l prev (n ∷ ns) m m' h hl hp a k = (
  read32-SameBelow top prev m m' h hp ∙ k.0,
  read32-SameBelow top (n + 4) m m' h (omega (arith, a.0)) ∙ k.1,
  Linked-SameBelow top l n ns m m' h hl (omega (arith, a.0)) a.1 k.2,
)

pub AllBelow-more : (top more : ℕ) (ns : List ℕ) → top ≤ more → AllBelow top ns → AllBelow more ns
AllBelow-more top more [] h a = tt
AllBelow-more top more (n ∷ ns) h a = (omega (arith, a.0), AllBelow-more top more ns h a.1)

AllBelow-append :
    (top n : ℕ) (ns : List ℕ) → AllBelow top ns → n + 8 ≤ top → AllBelow top (ns ++ (n ∷ []))
AllBelow-append top n [] a h = (h, tt)
AllBelow-append top n (k ∷ ns) a h = (a.0, AllBelow-append top n ns a.1 h)

AllFrom-append : (low n : ℕ) (ns : List ℕ) → AllFrom low ns → low ≤ n → AllFrom low (ns ++ (n ∷ []))
AllFrom-append low n [] a h = (h, tt)
AllFrom-append low n (k ∷ ns) a h = (a.0, AllFrom-append low n ns a.1 h)

AllBelow-AllApart : (n : ℕ) (ns : List ℕ) → AllBelow n ns → AllApart n ns
AllBelow-AllApart n [] a = tt
AllBelow-AllApart n (k ∷ ns) a = (inr a.0, AllBelow-AllApart n ns a.1)

AllApart-append : (k n : ℕ) (ns : List ℕ) → AllApart k ns → k + 8 ≤ n → AllApart k (ns ++ (n ∷ []))
AllApart-append k n [] a h = (inl h, tt)
AllApart-append k n (j ∷ ns) a h = (a.0, AllApart-append k n ns a.1 h)

ArePlaced-append :
    (l n : ℕ) (ns : List ℕ)
    → n + 8 ≤ word
    → l + 12 ≤ n
    → AllBelow n ns
    → ArePlaced l ns
    → ArePlaced l (ns ++ (n ∷ []))
ArePlaced-append l n [] h c a p = (h, inr c, tt, tt)
ArePlaced-append l n (k ∷ ns) h c a p =
    (p.0, p.1, AllApart-append k n ns p.2 a.0, ArePlaced-append l n ns h c a.1 p.3)

-- A list with its modules, all of it below the memory that is free.
pub record IsKicklist (m : Mem) (l avail : ℕ) (ns : List ℕ) : Type 0 where
  pub header : l + 12 ≤ avail
  pub below : AllBelow avail ns
  pub above : AllFrom (l + 12) ns
  pub placed : ArePlaced l ns
  pub chain : IsAosList m l ns

pub alist_add_tail-IsKicklist :
    (m m' : Mem) (l avail n next : ℕ) (ns : List ℕ)
    → IsKicklist m l avail ns
    → SameBelow avail m m'
    → avail ≤ n
    → n + 8 ≤ next
    → next ≤ word
    → IsKicklist (alist_add_tail m' l n) l next (ns ++ (n ∷ []))
alist_add_tail-IsKicklist m m' l avail n next ns k same low high fits =
    let below = AllBelow-more avail n ns low k.below in
    record {
      header = omega (arith, k.header);
      below = AllBelow-append next n ns (AllBelow-more avail next ns (omega arith) k.below) high;
      above = AllFrom-append (l + 12) n ns k.above (omega (arith, k.header));
      placed = ArePlaced-append l n ns (omega arith) (omega (arith, k.header)) below k.placed;
      chain =
          alist_add_tail-IsAosList m' l n ns (omega (arith, k.header)) (omega arith)
            (inr (omega (arith, k.header))) (AllBelow-AllApart n ns below) k.placed
            (
              read32-SameBelow avail (l + 4) m m' same (omega (arith, k.header)) ∙ k.chain.0,
              Linked-SameBelow avail l l ns m m' same k.header (omega (arith, k.header)) k.below
                  k.chain.1,
            );
    }

pub IsKicklist-SameBelow :
    (m m' : Mem) (l avail : ℕ) (ns : List ℕ)
    → IsKicklist m l avail ns
    → SameBelow avail m m'
    → IsKicklist m' l avail ns
IsKicklist-SameBelow m m' l avail ns k same = record {
  header = k.header;
  below = k.below;
  above = k.above;
  placed = k.placed;
  chain = (
    read32-SameBelow avail (l + 4) m m' same (omega (arith, k.header)) ∙ k.chain.0,
    Linked-SameBelow avail l l ns m m' same k.header (omega (arith, k.header)) k.below k.chain.1,
  );
}

pub IsKicklist-more :
    (m : Mem) (l avail more : ℕ) (ns : List ℕ)
    → avail ≤ more
    → IsKicklist m l avail ns
    → IsKicklist m l more ns
IsKicklist-more m l avail more ns h k = record {
  header = omega (arith, k.header);
  below = AllBelow-more avail more ns h k.below;
  above = k.above;
  placed = k.placed;
  chain = k.chain;
}

-- An empty list is its header.
pub IsKicklist-header :
    (m m' : Mem) (l avail : ℕ)
    → IsKicklist m l avail []
    → ((b : ℕ) → l ≤ b → b < l + 12 → m' b ≡ m b)
    → IsKicklist m' l avail []
unfolding read32
IsKicklist-header m m' l avail k same = record {
  header = k.header;
  below = tt;
  above = tt;
  placed = tt;
  chain = (
    word_at (l + 4) (omega arith) (omega arith) ∙ k.chain.0,
    (
      word_at l (omega arith) (omega arith) ∙ k.chain.1.0,
      word_at (l + 8) (omega arith) (omega arith) ∙ k.chain.1.1,
    ),
  );
}
  where
    word_at : (a : ℕ) → l ≤ a → a + 4 ≤ l + 12 → read32 m' a ≡ read32 m a
    word_at a low high = omega (arith, same a, same (a + 1), same (a + 2), same (a + 3))

-- The bytes that an append to the list changes.
pub alist_add_tail-Kept_below :
    (m m' : Mem) (l avail n : ℕ) (ns : List ℕ)
    → IsKicklist m l avail ns
    → SameBelow avail m m'
    → avail ≤ n
    → Kept l n (n + 8) ns m' (alist_add_tail m' l n)
alist_add_tail-Kept_below m m' l avail n ns k same low =
    alist_add_tail-Kept m' l n ns (IsKicklist-SameBelow m m' l avail ns k same).chain
      (omega (arith, k.header))

-- An address outside the list and its modules is in no links.
pub IsKicklist-off :
    (m : Mem) (l avail b : ℕ) (ns : List ℕ)
    → IsKicklist m l avail ns
    → Outside (l + 12) avail b
    → AllOff b ns
IsKicklist-off m l avail b ns k out = AllOff-Outside (l + 12) avail b ns out k.above k.below
