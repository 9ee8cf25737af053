-- ===== src/Kick/Section.antt =====
-- What the lines of a configuration's section load, and where the modules go.
use bboot.Base.{
  ℕ, ◌+◌, ◌≤◌, ◌<◌, ◌≢◌, ◌⊎◌, inl, inr, true, false, List, [], ◌∷◌, ◌++◌, ◌≡◌, refl, ◌∙◌, ◌==◌,
  Bytes, codes, arith, word, add32, ==_ne, append_assoc, Bool-cases,
}
use mathlib.Core.List.{append-nil}
use bboot.Memory.{Mem, read32}
use bboot.Zip.{Zip, Puff, z_ok}
use bboot.Zip.Find.{Entry}
use bboot.Zip.Archive.{IsArchive, load_bytes-SameWithin}
use bboot.Zip.Extract.{WritesOutputOnly}
use bboot.Action.{Machine, Result, Action, after}
use bboot.AosList.Chain.{Linked}
use bboot.AosList.Frame.{Outside, AllFrom, AllOff, AllOff-append, Kept, Kept-trans}
use bboot.Layout.{skip_lead, trim_line, no_command, keyword, argument, base_name}
use bboot.Kick.{
  Board, Cursor, data_room, module_room, sizeof_module, is_empty_list, load_module_from_zip,
  load_at, module_line, load_line,
}
use bboot.Kick.Select.{finish, load_section}
use bboot.Kick.Kicklist.{IsKicklist, IsKicklist-off}
use bboot.Kick.Filled.{IsModule-SameWithin}
use bboot.Kick.Listed.{IsLoad}
use bboot.Kick.Module.{module_room-fits}
use bboot.Kick.Supply.{
  ModuleFile, name_length, Grants, IsLoadable, IsHeld, Reads, IsClear, IsNext, IsLoad-after,
}
use bboot.Kick.Plan.{
  commands, AreModules, module_nodes, free_after, free_after-grows, AllLoadable, AllHeld, HasList,
  HasList-map,
}
use bboot.Kick.Load.{load_module-IsListed}

-- A module outlives what changes neither its structure behind the links nor its bytes.
pub IsHeld-Kept :
    (m m' : Mem) (l low high n data_ : ℕ) (ns : List ℕ) (f : ModuleFile)
    → IsHeld m n data_ f
    → Kept l low high ns m m'
    → ((b : ℕ)
        → (data_ ≤ b) × (b < data_ + f.size)
          ⊎ (n + 8 ≤ b) × (b < n + (sizeof_module + name_length f + 1))
        → Outside l (l + 12) b × Outside low high b × AllOff b ns)
    → IsHeld m' n data_ f
IsHeld-Kept m m' l low high n data_ ns f held kept clear = record {
  structure =
      IsModule-SameWithin m m' n data_ f.size (base_name f.path) held.structure
        (λ b a c. let (x, y, w) = clear b (inr (a, c)) in kept b x y w);
  contents =
      load_bytes-SameWithin data_ (data_ + f.size) data_ f.size m m'
        (λ b a c. let (x, y, w) = clear b (inl (a, c)) in kept b x y w) (omega arith) (omega arith)
      ∙ held.contents;
}

-- `kicklist->l_head->n_succ` is NULL on an empty list only.
pub IsKicklist-empty : (m : Mem) (l avail : ℕ) → IsKicklist m l avail [] → is_empty_list l m ≡ true
unfolding is_empty_list
IsKicklist-empty m l avail k = rw (k.chain.1.0, k.chain.0) refl

pub IsKicklist-filled :
    (m : Mem) (l avail n : ℕ) (ns : List ℕ)
    → IsKicklist m l avail (n ∷ ns)
    → is_empty_list l m ≡ false
unfolding is_empty_list
IsKicklist-filled m l avail n ns k =
    rw k.chain.1.0 (==_ne (read32 m n) 0 (next ns k.chain.1.2 k.above.1))
  where
    next : (ks : List ℕ) → Linked m l n ks → AllFrom (l + 12) ks → read32 m n ≢ 0
    next [] h a = omega (arith, h.0)
    next (j ∷ ks) h a = omega (arith, h.0, a.0)

module _ {ℓ} {S : Type ℓ} (board : Board S) (puff : Puff) (start : Mem) (z : Zip) (dir : ℕ)
    (es : List Entry) (top : ℕ) where
  -- The turn of the loop behind a load.
  pub load_at-next :
      (path : Bytes) (data_ next room : ℕ) (k : Cursor) (m : Machine S) (R : Machine S → Type 0)
      (behind : Cursor → Action S (ℕ × ℕ)) (Q : Result (ℕ × ℕ) × Machine S → Type 0)
      → IsLoad z_ok
          (λ inc m'. (inc ≡ room) × R m')
          (load_module_from_zip board puff path data_ k.avail k.kicklist m)
      → room ≢ 0
      → k.avail + room ≡ next
      → next < word
      → ((m' : Machine S) → R m' → Q (behind (record k { avail = next }) m'))
      → Q (after (finish board puff behind) (load_at board puff path data_ k m))
  unfolding load_at finish
  load_at-next path data_ next room k m R behind Q loaded some_room is fits go =
      IsLoad-after z_ok (λ r. Q (after (finish board puff behind) r)) _
        (load_module_from_zip board puff path data_ k.avail k.kicklist m) loaded refl
        (λ inc m' (grown, left).
          let there : (inc == 0) ≡ false = ==_ne inc 0 (omega (arith, grown)) in
          let moved : add32 k.avail inc ≡ next = omega (arith, grown) in
          rw (there, moved) (go m' left))

  module _ (law : WritesOutputOnly puff) (grants : Grants board top)
      (archive : IsArchive start z dir es) (bounded : top < word) where
    -- A MODULE command where the list has a module already.
    load_line-module :
        (f : ModuleFile) (l : ℕ) (c : Bytes) (k : Cursor) (n : ℕ) (ns : List ℕ) (m : Machine S)
        (behind : Cursor → Action S (ℕ × ℕ)) (Q : Result (ℕ × ℕ) × Machine S → Type 0)
        → keyword c (codes "MODULE") ≡ true
        → argument 6 c ≡ f.path
        → IsLoadable puff start z dir es f
        → IsClear board puff start z dir es top k.kicklist
        → Reads board puff start z dir es top m
        → IsKicklist m.mem k.kicklist k.avail (n ∷ ns)
        → k.avail + module_room f.size (name_length f) ≤ top
        → let next = k.avail + module_room f.size (name_length f) in
          let node = k.avail + data_room f.size in
          ((m' : Machine S)
            → IsNext board puff start z dir es top f k.kicklist next
                (n ∷ (ns ++ (node ∷ [])))
                node
                k.avail
                m'
            → Kept k.kicklist k.avail next (n ∷ ns) m.mem m'.mem
            → Q (behind (record k { avail = next }) m'))
          → Q (after (finish board puff behind) (load_line board puff l c k m))
    unfolding load_line module_line load_module_from_zip
    load_line-module f l c k n ns m behind Q word_ path loadable clear reads list fits go =
        let fitting = module_room-fits f.size (name_length f) loadable.small in
        let next = k.avail + module_room f.size (name_length f) in
        let node = k.avail + data_room f.size in
        rw (IsKicklist-filled m.mem k.kicklist k.avail n ns list, word_, path)
          (load_at-next f.path 0 next (module_room f.size (name_length f)) k m
            (λ m'.
              IsNext board puff start z dir es top f k.kicklist next (n ∷ (ns ++ (node ∷ []))) node
                k.avail m'
              × Kept k.kicklist k.avail next (n ∷ ns) m.mem m'.mem)
            behind Q
            (load_module-IsListed board puff start z dir es top law grants archive bounded f
              loadable k.kicklist clear m reads k.avail (n ∷ ns) list fits)
            (omega (arith, fitting)) refl (omega (arith, fits, bounded))
            (λ m' left. go m' left.0 left.1))

    -- What the MODULE lines leave, from `avail` on: their modules, and all that was there.
    abbrev pub AreLoaded : ℕ → ℕ → List ModuleFile → List ℕ → Mem → Mem → Type 0
    AreLoaded l avail fs ns m m' = AllHeld m' avail fs × Kept l avail (free_after avail fs) ns m m'

    -- The module that was loaded first outlives the loads behind it.
    AreLoaded-cons :
        (f : ModuleFile) (fs : List ModuleFile) (l avail n : ℕ) (ns : List ℕ) (m m' m'' : Mem)
        → IsLoadable puff start z dir es f
        → IsKicklist m l avail (n ∷ ns)
        → IsHeld m' (avail + data_room f.size) avail f
        → Kept l avail (avail + module_room f.size (name_length f)) (n ∷ ns) m m'
        → AreLoaded l
            (avail + module_room f.size (name_length f))
            fs
            (n ∷ (ns ++ ((avail + data_room f.size) ∷ [])))
            m'
            m''
        → AreLoaded l avail (f ∷ fs) (n ∷ ns) m m''
    unfolding free_after
    AreLoaded-cons f fs l avail n ns m m' m'' loadable k held kept (rest, kept') =
        let fits = module_room-fits f.size (name_length f) loadable.small in
        let next = avail + module_room f.size (name_length f) in
        let node = avail + data_room f.size in
        (
          (
            IsHeld-Kept m' m'' l next (free_after next fs) node avail ((n ∷ ns) ++ (node ∷ [])) f
                held kept'
                (λ b inside. (
                  inr (omega (arith, inside, k.header)),
                  inl (omega (arith, inside, fits)),
                  AllOff-append b node (n ∷ ns)
                      (IsKicklist-off m l avail b (n ∷ ns) k (inr (omega (arith, inside, fits))))
                      (omega (arith, inside, fits)),
                )),
            rest,
          ),
          Kept-trans l avail next (free_after next fs) node (n ∷ ns) m m' m'' (omega arith)
              (omega (arith, fits)) (free_after-grows next fs) kept kept',
        )

    pub load_section-modules :
        (ls : List Bytes) (fs : List ModuleFile) (l : ℕ) (k : Cursor) (n : ℕ) (ns : List ℕ)
        (m : Machine S)
        → AreModules (commands ls) fs
        → AllLoadable puff start z dir es fs
        → IsClear board puff start z dir es top k.kicklist
        → Reads board puff start z dir es top m
        → IsKicklist m.mem k.kicklist k.avail (n ∷ ns)
        → free_after k.avail fs ≤ top
        → HasList k.kicklist
            (free_after k.avail fs)
            (n ∷ (ns ++ module_nodes k.avail fs))
            (AreLoaded k.kicklist k.avail fs (n ∷ ns) m.mem)
            (load_section board puff l ls k m)
    unfolding load_section commands module_nodes free_after
    load_section-modules [] [] l k n ns m lines loadable clear reads list fits =
        (refl, refl, rw (append-nil ns) list, (tt, λ b header out off. refl))
    load_section-modules [] (f ∷ fs) l k n ns m lines loadable clear reads list fits = absurd lines
    load_section-modules (p ∷ ls) [] l k n ns m lines loadable clear reads list fits =
        elim (Bool-cases (no_command (skip_lead p))) [
          | inl skipped ↦ rw skipped (
              load_section-modules ls [] (l + 1) k n ns m (rw skipped at lines) loadable clear reads
                list fits)
          | inr command ↦ absurd (rw command at lines)
        ]
    load_section-modules (p ∷ ls) (f ∷ fs) l k n ns m lines loadable clear reads list fits =
        elim (Bool-cases (no_command (skip_lead p))) [
          | inl skipped ↦ rw skipped (
              load_section-modules ls (f ∷ fs) (l + 1) k n ns m (rw skipped at lines) loadable clear
                reads list fits)
          | inr command ↦
              let c = trim_line (skip_lead p) in
              let next = k.avail + module_room f.size (name_length f) in
              let node = k.avail + data_room f.size in
              let nodes = n ∷ (ns ++ (node ∷ module_nodes next fs)) in
              let lines' : AreModules (c ∷ commands ls) (f ∷ fs) = rw command at lines in
              let k' = record k { avail = next } in
              rw command (
                load_line-module f l c k n ns m (load_section board puff (l + 1) ls)
                  (HasList k.kicklist (free_after next fs) nodes
                    (AreLoaded k.kicklist k.avail (f ∷ fs) (n ∷ ns) m.mem))
                  lines'.0 lines'.1 loadable.0 clear reads list
                  (omega (arith, free_after-grows next fs, fits))
                  (λ m' left kept.
                    HasList-map k.kicklist (free_after next fs) nodes
                      (λ m'' rest.
                        AreLoaded-cons f fs k.kicklist k.avail n ns m.mem m'.mem m'' loadable.0 list
                          left.held kept rest)
                      (load_section board puff (l + 1) ls k' m')
                      (rw (append_assoc ns (node ∷ []) (module_nodes next fs)) (
                        load_section-modules ls fs (l + 1) k' n (ns ++ (node ∷ [])) m' lines'.2
                          loadable.1 clear left.reads left.list fits))))
        ]
