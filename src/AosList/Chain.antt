-- ===== src/AosList/Chain.antt =====
-- What the list operations keep: a chain of nodes linked both ways, in the order of insertion.
use bboot.Base.{
  ℕ, ◌+◌, ◌≤◌, ◌<◌, ◌⊎◌, inl, inr, List, [], ◌∷◌, ◌++◌, ◌≡◌, refl, word, arith, ◌∙◌, sym,
}
use mathlib.Core.Path.{subst}
use bboot.Memory.{Mem, read32, write32}
use bboot.Memory.Laws.{read32-write32, read32-write32_other}
use bboot.AosList.{n_succ, n_pred, l_tail, l_tailpred, alist_init, alist_add_tail}

-- The nodes from `prev` on: each is the successor of the one before it and has it for
-- predecessor, and the last has the list's tail field for successor.
abbrev pub Linked : Mem → ℕ → ℕ → List ℕ → Type 0
Linked m l prev [] = (read32 m (n_succ prev) ≡ l_tail l) × (read32 m (l_tailpred l) ≡ prev)
Linked m l prev (n ∷ ns) =
    (read32 m (n_succ prev) ≡ n) × (read32 m (n_pred n) ≡ prev) × Linked m l n ns

-- A list at `l` with these nodes: the header acts as the node before the first, and the tail field
-- is 0, which is how the code tells a node from the end.
abbrev pub IsAosList : Mem → ℕ → List ℕ → Type 0
IsAosList m l ns = (read32 m (l_tail l) ≡ 0) × Linked m l l ns

-- Two nodes of eight bytes that do not overlap, and a node clear of a header of twelve.
abbrev pub Apart : ℕ → ℕ → Type 0
Apart n k = (n + 8 ≤ k) ⊎ (k + 8 ≤ n)

abbrev pub ClearOfHeader : ℕ → ℕ → Type 0
ClearOfHeader l n = (n + 8 ≤ l) ⊎ (l + 12 ≤ n)

abbrev pub AllApart : ℕ → List ℕ → Type 0
AllApart n [] = Unit {0}
AllApart n (k ∷ ns) = Apart n k × AllApart n ns

-- Nodes inside the address space, clear of the header and of each other.
abbrev pub ArePlaced : ℕ → List ℕ → Type 0
ArePlaced l [] = Unit {0}
ArePlaced l (n ∷ ns) = (n + 8 ≤ word) × ClearOfHeader l n × AllApart n ns × ArePlaced l ns

-- `alist_init` makes an empty list, wherever the header lies in the address space.
pub alist_init-IsAosList : (m : Mem) (l : ℕ) → l + 12 ≤ word → IsAosList (alist_init m l) l []
unfolding alist_init
alist_init-IsAosList m l h =
    let m1 = write32 m l (l + 4) in
    let m2 = write32 m1 (l + 4) 0 in
    ground (
      arith,
      read32-write32 m l (l + 4) (omega arith),
      read32-write32 m1 (l + 4) 0 (omega arith),
      read32-write32 m2 (l + 8) l (omega arith),
      read32-write32_other m1 (l + 4) 0 l (omega arith),
      read32-write32_other m2 (l + 8) l l (omega arith),
      read32-write32_other m2 (l + 8) l (l + 4) (omega arith),
    )

-- The last node, or the header of an empty list.
abbrev pub last_of : ℕ → List ℕ → ℕ
last_of prev [] = prev
last_of prev (n ∷ ns) = last_of n ns

pub tailpred-last_of :
    (m : Mem) (l prev : ℕ) (ns : List ℕ) → Linked m l prev ns → read32 m (l + 8) ≡ last_of prev ns
tailpred-last_of m l prev [] c = c.1
tailpred-last_of m l prev (n ∷ ns) c = tailpred-last_of m l n ns c.2

-- What one call stores: the node's two fields, the old last node's successor, and the header's
-- last field; every other field keeps its value.
record IsAppend (m r : Mem) (l n last : ℕ) : Type 0 where
  succ : read32 r n ≡ l + 4
  pred : read32 r (n + 4) ≡ last
  link : read32 r last ≡ n
  tailpred : read32 r (l + 8) ≡ n
  kept :
      (a : ℕ)
      → (a + 4 ≤ n) ⊎ (n + 8 ≤ a)
      → (a + 4 ≤ last) ⊎ (last + 4 ≤ a)
      → (a + 4 ≤ l + 8) ⊎ (l + 12 ≤ a)
      → read32 r a ≡ read32 m a

alist_add_tail-IsAppend :
    (m : Mem) (l n last : ℕ)
    → l + 12 ≤ word
    → n + 8 ≤ word
    → last < word
    → ClearOfHeader l n
    → (last + 4 ≤ n) ⊎ (n + 8 ≤ last)
    → (last ≡ l) ⊎ ClearOfHeader l last
    → read32 m (l + 8) ≡ last
    → IsAppend m (alist_add_tail m l n) l n last
unfolding alist_add_tail
alist_add_tail-IsAppend m l n last hl hn hlast c d e t =
    let m1 = write32 m n (l + 4) in
    let t1 : read32 m1 (l + 8) ≡ last =
      read32-write32_other m n (l + 4) (l + 8) (omega arith) ∙ t in
    let m2 = write32 m1 (n + 4) last in
    let t2 : read32 m2 (l + 8) ≡ last =
      read32-write32_other m1 (n + 4) last (l + 8) (omega arith) ∙ t1 in
    let m3 = write32 m2 last n in
    let is : alist_add_tail m l n ≡ write32 m3 (l + 8) n = rw (t1, t2) in
    subst (λ (r : Mem). IsAppend m r l n last) (sym is)
      (record {
        succ = ground (
          arith,
          read32-write32 m n (l + 4) (omega arith),
          read32-write32_other m1 (n + 4) last n (omega arith),
          read32-write32_other m2 last n n (omega arith),
          read32-write32_other m3 (l + 8) n n (omega arith),
        );
        pred = ground (
          arith,
          read32-write32 m1 (n + 4) last hlast,
          read32-write32_other m2 last n (n + 4) (omega arith),
          read32-write32_other m3 (l + 8) n (n + 4) (omega arith),
        );
        link = ground (
          arith,
          read32-write32 m2 last n (omega arith),
          read32-write32_other m3 (l + 8) n last (omega arith),
        );
        tailpred = read32-write32 m3 (l + 8) n (omega arith);
        kept = λ a h1 h2 h3. ground (
          arith,
          read32-write32_other m n (l + 4) a (omega arith),
          read32-write32_other m1 (n + 4) last a (omega arith),
          read32-write32_other m2 last n a (omega arith),
          read32-write32_other m3 (l + 8) n a (omega arith),
        );
      })

-- Four bytes from an address on that no node in a list covers.
abbrev AllClear : ℕ → List ℕ → Type 0
AllClear a [] = Unit {0}
AllClear a (k ∷ ns) = ((a + 4 ≤ k) ⊎ (k + 8 ≤ a)) × AllClear a ns

AllApart-AllClear : (n : ℕ) (ns : List ℕ) → AllApart n ns → AllClear n ns
AllApart-AllClear n [] h = tt
AllApart-AllClear n (k ∷ ns) h = (ground (arith, h.0), AllApart-AllClear n ns h.1)

AllClear-header : (l : ℕ) (ns : List ℕ) → ArePlaced l ns → AllClear l ns
AllClear-header l [] h = tt
AllClear-header l (k ∷ ns) h = (ground (arith, h.1), AllClear-header l ns h.3)

AllClear-last_of :
    (a k : ℕ) (ns : List ℕ) → AllClear a (k ∷ ns) → (a + 4 ≤ last_of k ns) ⊎ (last_of k ns + 8 ≤ a)
AllClear-last_of a k [] h = h.0
AllClear-last_of a k (j ∷ ns) h = AllClear-last_of a j ns h.1

-- The predecessor field of a node is clear of the last node's successor field.
AllApart-last_of :
    (k : ℕ) (ns : List ℕ)
    → AllApart k ns
    → (k + 8 ≤ last_of k ns) ⊎ (last_of k ns + 8 ≤ k) ⊎ (last_of k ns ≡ k)
AllApart-last_of k [] h = inr (inr refl)
AllApart-last_of k (j ∷ ns) h = ground (arith, go j ns h)
  where
    go :
        (j : ℕ) (ns : List ℕ)
        → AllApart k (j ∷ ns)
        → (k + 8 ≤ last_of j ns) ⊎ (last_of j ns + 8 ≤ k)
    go j [] h = h.0
    go j (i ∷ ns) h = go i ns h.1

Linked-append :
    (m r : Mem) (l n prev : ℕ) (ns : List ℕ)
    → IsAppend m r l n (last_of prev ns)
    → (prev + 4 ≤ n) ⊎ (n + 8 ≤ prev)
    → (prev + 4 ≤ l + 8) ⊎ (l + 12 ≤ prev)
    → AllClear prev ns
    → AllApart n ns
    → ArePlaced l ns
    → Linked m l prev ns
    → Linked r l prev (ns ++ (n ∷ []))
Linked-append m r l n prev [] i a b c d e k = (i.link, i.pred, (i.succ, i.tailpred))
Linked-append m r l n prev (j ∷ ns) i a b c d e k = (
  i.kept prev a (ground (arith, AllClear-last_of prev j ns c)) b ∙ k.0,
  i.kept (j + 4) (ground (arith, d.0)) (ground (arith, AllApart-last_of j ns e.2))
        (ground (arith, e.1))
      ∙ k.1,
  Linked-append m r l n j ns i (ground (arith, d.0)) (ground (arith, e.1))
      (AllApart-AllClear j ns e.2) d.1 e.3 k.2,
)

last_of-bounds :
    (l n : ℕ) (ns : List ℕ)
    → l + 12 ≤ word
    → ClearOfHeader l n
    → AllApart n ns
    → ArePlaced l ns
    → (last_of l ns < word)
      × ((last_of l ns + 4 ≤ n) ⊎ (n + 8 ≤ last_of l ns))
      × ((last_of l ns ≡ l) ⊎ ClearOfHeader l (last_of l ns))
last_of-bounds l n [] h c a p = (omega arith, ground (arith, c), inl refl)
last_of-bounds l n (k ∷ ns) h c a p = go k ns a p
  where
    go :
        (k : ℕ) (ns : List ℕ)
        → AllApart n (k ∷ ns)
        → ArePlaced l (k ∷ ns)
        → (last_of k ns < word)
          × ((last_of k ns + 4 ≤ n) ⊎ (n + 8 ≤ last_of k ns))
          × ((last_of k ns ≡ l) ⊎ ClearOfHeader l (last_of k ns))
    go k [] a p = (omega (arith, p.0), ground (arith, a.0), inr p.1)
    go k (j ∷ ns) a p = go j ns a.1 p.3

-- `alist_add_tail` puts a node behind the nodes of a list, and the list stays linked both ways, with
-- its tail field 0. The header, the nodes and the new node lie in the address space and do not overlap.
pub alist_add_tail-IsAosList :
    (m : Mem) (l n : ℕ) (ns : List ℕ)
    → l + 12 ≤ word
    → n + 8 ≤ word
    → ClearOfHeader l n
    → AllApart n ns
    → ArePlaced l ns
    → IsAosList m l ns
    → IsAosList (alist_add_tail m l n) l (ns ++ (n ∷ []))
alist_add_tail-IsAosList m l n ns hl hn c a p k =
    let bounds = last_of-bounds l n ns hl c a p in
    let i =
      alist_add_tail-IsAppend m l n (last_of l ns) hl hn bounds.0 c bounds.1 bounds.2
        (tailpred-last_of m l l ns k.1) in
    (
      i.kept (l + 4) (ground (arith, c)) (ground (arith, bounds.2)) (inl (omega arith)) ∙ k.0,
      Linked-append m (alist_add_tail m l n) l n l ns i (ground (arith, c)) (inl (omega arith))
          (AllClear-header l ns p) a p k.1,
    )
