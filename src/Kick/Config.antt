-- ===== src/Kick/Config.antt =====
-- What the loop over Kicklayout's lines leaves for the configuration that is asked for.
use bboot.Base.{
  ℕ, ◌+◌, ◌≤◌, ◌<◌, ◌≢◌, ◌⊎◌, inl, inr, true, List, [], ◌∷◌, ◌++◌, ◌≡◌, refl, ap, ◌∙◌, sym, Bytes,
  codes, length, arith, word, ==_ne, Bool-cases,
}
use mathlib.Core.Path.{subst}
use bboot.Memory.{Mem}
use bboot.Zip.{Zip, Puff}
use bboot.Zip.Find.{Entry}
use bboot.Zip.Archive.{IsArchive}
use bboot.Zip.Extract.{WritesOutputOnly}
use bboot.Action.{Machine, ◌>>=◌, after}
use bboot.AosList.{alist_init}
use bboot.AosList.Chain.{alist_init-IsAosList}
use bboot.AosList.Frame.{alist_init_frame, Kept}
use bboot.Window.Grant.{round_up-least}
use bboot.Layout.{skip_lead, trim_line, no_command, keyword, argument}
use bboot.Layout.Lines.{AllLines, unlines}
use bboot.Kick.{
  Board, Cursor, struct_room, sizeof_module, sizeof_list, kicklist_addr, start_cursor, start_list,
  claim_or_fail, claim, load_module_from_zip, exec_line, load_line, kick_lines,
}
use bboot.Kick.Rounds.{kick_lines-run_lines}
use bboot.Kick.Select.{
  is_label, labels_in, AtLabel, places, finish, load_section, run_lines-load_section,
}
use bboot.Kick.Kicklist.{IsKicklist}
use bboot.Kick.Module.{size_32}
use bboot.Kick.Supply.{ModuleFile, name_length, Grants, IsLoadable, IsHeld, Reads, IsClear, IsNext}
use bboot.Kick.Load.{load_exec-IsFirstListed}
use bboot.Kick.Plan.{
  commands, AreModules, AllLoadable, AllHeld, module_nodes, free_after, free_after-grows, HasList,
  HasList-map,
}
use bboot.Kick.Section.{IsHeld-Kept, IsKicklist-empty, load_at-next, load_section-modules}

-- A configuration's commands: one EXEC with the kernel, then MODULEs.
abbrev pub IsConfiguration : List Bytes → ModuleFile → List ModuleFile → Type 0
IsConfiguration [] e fs = ⊥
IsConfiguration (c ∷ cs) e fs =
    (keyword c (codes "EXEC") ≡ true) × (argument 4 c ≡ e.path) × AreModules cs fs

-- The memory behind the kernel's structure, which is claimed from `avail` on.
abbrev pub behind_kernel : ℕ → ModuleFile → ℕ
behind_kernel avail e = avail + struct_room (name_length e)

struct_room-positive : (nlen : ℕ) → nlen + 69 ≤ word → sizeof_module + nlen + 1 ≤ struct_room nlen
unfolding struct_room
struct_room-positive nlen small =
    (round_up-least (sizeof_module + nlen + 1) 32 size_32 (omega arith)).0

module _ {ℓ} {S : Type ℓ} (board : Board S) (puff : Puff) (start : Mem) (z : Zip) (dir : ℕ)
    (es : List Entry) (top : ℕ) where
  -- The kernel's bytes go below the list at `l`, clear of what lies from the archive on, up to `behind`.
  pub record IsPlaced (behind l : ℕ) (e : ModuleFile) : Type 0 where
    pub nonzero : board.exec_addr ≢ 0
    pub below : board.exec_addr + e.size ≤ l
    pub past : z.base + z.len ≤ behind
    pub away : (behind ≤ board.exec_addr) ⊎ (board.exec_addr + e.size ≤ z.base)

  -- The kernel's module, with its bytes at the board's address, and the other modules behind it.
  abbrev pub HasModules : ℕ → ModuleFile → List ModuleFile → Mem → Type 0
  HasModules avail e fs m = IsHeld m avail board.exec_addr e × AllHeld m (behind_kernel avail e) fs

  module _ (law : WritesOutputOnly puff) (grants : Grants board top)
      (archive : IsArchive start z dir es) (bounded : top < word) where
    -- The kernel's module outlives the loads behind it.
    kernel-IsHeld :
        (e : ModuleFile) (fs : List ModuleFile) (l avail : ℕ) {m : Mem} (m' m'' : Mem)
        → IsLoadable puff start z dir es e
        → IsKicklist m l avail []
        → board.exec_addr + e.size ≤ l
        → IsHeld m' avail board.exec_addr e
        → Kept l (behind_kernel avail e) (free_after (behind_kernel avail e) fs) (avail ∷ []) m' m''
        → IsHeld m'' avail board.exec_addr e
    kernel-IsHeld e fs l avail m' m'' kernel list below held kept =
        let next = behind_kernel avail e in
        let room = struct_room-positive (name_length e) (omega (arith, kernel.small)) in
        IsHeld-Kept m' m'' l next (free_after next fs) avail board.exec_addr (avail ∷ []) e held
          kept
          (λ b inside. (
            omega (arith, inside, list.header, below),
            inl (omega (arith, inside, list.header, below, room)),
            (omega (arith, inside, list.header, below), tt),
          ))

    pub load_section-HasList :
        (ls : List Bytes) (e : ModuleFile) (fs : List ModuleFile) (l : ℕ) (k : Cursor) (behind : ℕ)
        (m : Machine S)
        → IsConfiguration (commands ls) e fs
        → IsLoadable puff start z dir es e
        → AllLoadable puff start z dir es fs
        → IsClear board puff start z dir es top k.kicklist
        → IsPlaced behind k.kicklist e
        → Reads board puff start z dir es top m
        → IsKicklist m.mem k.kicklist k.avail []
        → free_after (behind_kernel k.avail e) fs ≤ top
        → HasList k.kicklist
            (free_after (behind_kernel k.avail e) fs)
            (k.avail ∷ module_nodes (behind_kernel k.avail e) fs)
            (HasModules k.avail e fs)
            (load_section board puff l ls k m)
    unfolding load_section commands load_line exec_line load_module_from_zip
    load_section-HasList [] e fs l k behind m lines kernel loadable clear placed reads list fits =
        absurd lines
    load_section-HasList (p ∷ ls) e fs l k behind m lines kernel loadable clear placed reads list
          fits =
        elim (Bool-cases (no_command (skip_lead p))) [
          | inl skipped ↦ rw skipped (
              load_section-HasList ls e fs (l + 1) k behind m (rw skipped at lines) kernel loadable
                clear placed reads list fits)
          | inr command ↦
              let c = trim_line (skip_lead p) in
              let next = behind_kernel k.avail e in
              let room = struct_room (name_length e) in
              let here = free_after-grows next fs in
              let some_room = struct_room-positive (name_length e) (omega (arith, kernel.small)) in
              let lines' : IsConfiguration (c ∷ commands ls) e fs = rw command at lines in
              let loaded =
                load_exec-IsFirstListed board puff start z dir es top law grants archive bounded e
                  kernel k.kicklist clear m reads k.avail board.exec_addr list placed.nonzero
                  placed.below (omega (arith, placed.past, placed.away))
                  (omega (arith, here, fits)) in
              let k' = record k { avail = next } in
              rw (command, IsKicklist-empty m.mem k.kicklist k.avail list, lines'.0, lines'.1)
                (load_at-next board puff start z dir es top e.path board.exec_addr next room k m
                  (IsNext board puff start z dir es top e k.kicklist next (k.avail ∷ []) k.avail
                    board.exec_addr)
                  (load_section board puff (l + 1) ls)
                  (HasList k.kicklist (free_after next fs) (k.avail ∷ module_nodes next fs)
                    (HasModules k.avail e fs))
                  (rw (==_ne board.exec_addr 0 placed.nonzero) loaded) (omega (arith, some_room))
                  refl (omega (arith, here, fits, bounded))
                  (λ m' left.
                    HasList-map k.kicklist (free_after next fs) (k.avail ∷ module_nodes next fs)
                      (λ m'' rest. (
                        kernel-IsHeld e fs k.kicklist k.avail m'.mem m'' kernel list placed.below
                            left.held rest.1,
                        rest.0,
                      ))
                      (load_section board puff (l + 1) ls k' m')
                      (load_section-modules board puff start z dir es top law grants archive bounded
                        ls fs (l + 1) k' k.avail [] m' lines'.2 loadable clear left.reads left.list
                        fits)))
        ]

    -- The label of the configuration: the list is made, and the lines behind it fill it.
    pub start_list-HasList :
        (ls : List Bytes) (e : ModuleFile) (fs : List ModuleFile) (l : ℕ) (config : ℕ) (behind : ℕ)
        (m : Machine S)
        → IsConfiguration (commands ls) e fs
        → IsLoadable puff start z dir es e
        → AllLoadable puff start z dir es fs
        → IsClear board puff start z dir es top kicklist_addr
        → IsPlaced behind kicklist_addr e
        → Reads board puff start z dir es top m
        → free_after (behind_kernel (kicklist_addr + sizeof_list) e) fs ≤ top
        → HasList kicklist_addr
            (free_after (behind_kernel (kicklist_addr + sizeof_list) e) fs)
            ((kicklist_addr + sizeof_list)
              ∷ module_nodes (behind_kernel (kicklist_addr + sizeof_list) e) fs)
            (HasModules (kicklist_addr + sizeof_list) e fs)
            ((start_list board puff (record start_cursor { labels = config })
                >>= finish board puff (load_section board puff l ls))
              m)
    unfolding start_list claim_or_fail claim finish
    start_list-HasList ls e fs l config behind m lines kernel loadable clear placed reads fits =
        let avail = kicklist_addr + sizeof_list in
        let here = free_after-grows (behind_kernel avail e) fs in
        let granted =
          grants kicklist_addr sizeof_list m.firmware (omega arith) (omega (arith, here, fits)) in
        let made = alist_init m.mem kicklist_addr in
        let s = (board.claim kicklist_addr sizeof_list m.firmware).1 in
        let listed : IsKicklist made kicklist_addr avail [] = record {
          header = omega arith;
          below = tt;
          above = tt;
          placed = tt;
          chain = alist_init-IsAosList m.mem kicklist_addr (omega arith);
        } in
        rw granted (
          load_section-HasList ls e fs l
            (record { labels = config; kicklist = kicklist_addr; avail = avail }) behind
            (record { mem = made; zip = m.zip; firmware = s }) lines kernel loadable clear placed
            (record {
              untouched = λ b low high.
                  alist_init_frame m.mem kicklist_addr b (omega (arith, clear, here, fits))
                  ∙ reads.untouched b low high;
              current = reads.current;
              archive = reads.archive;
            })
            listed fits)

    -- The loop over a layout's lines, where the label of the configuration that is asked for heads an
    -- EXEC line and MODULE lines, loads the files of these lines, in their order, and no others: the list
    -- at 0xec00000 holds the kernel and the modules, linked both ways, and lies with them below the memory that
    -- is then free.
    pub kick_lines-HasList :
        (before section rest : List Bytes) (label tail : Bytes) (e : ModuleFile)
        (fs : List ModuleFile) (config rounds behind : ℕ) (m : Machine S)
        → AllLines (before ++ (label ∷ (section ++ rest)))
        → length (unlines (before ++ (label ∷ (section ++ rest)))) ≤ rounds
        → labels_in before + 1 ≡ config
        → is_label label ≡ true
        → labels_in section ≡ 0
        → AtLabel rest
        → IsConfiguration (commands section) e fs
        → IsLoadable puff start z dir es e
        → AllLoadable puff start z dir es fs
        → IsClear board puff start z dir es top kicklist_addr
        → IsPlaced behind kicklist_addr e
        → Reads board puff start z dir es top m
        → free_after (behind_kernel (kicklist_addr + sizeof_list) e) fs ≤ top
        → HasList kicklist_addr
            (free_after (behind_kernel (kicklist_addr + sizeof_list) e) fs)
            ((kicklist_addr + sizeof_list)
              ∷ module_nodes (behind_kernel (kicklist_addr + sizeof_list) e) fs)
            (HasModules (kicklist_addr + sizeof_list) e fs)
            ((kick_lines board puff config rounds 1
                  (length (unlines (before ++ (label ∷ (section ++ rest)))))
                  (unlines (before ++ (label ∷ (section ++ rest))) ++ tail)
                  start_cursor
                >>= places board puff)
              m)
    kick_lines-HasList before section rest label tail e fs config rounds behind m whole enough
          counted is unlabelled at_label lines kernel loadable clear placed reads fits =
        let text = before ++ (label ∷ (section ++ rest)) in
        let avail = kicklist_addr + sizeof_list in
        let same =
          ap (after (places board puff))
            (kick_lines-run_lines board puff config rounds 1 text tail start_cursor m whole enough)
          ∙ run_lines-load_section board puff config before section rest label m counted is
              unlabelled at_label in
        subst
          (HasList kicklist_addr (free_after (behind_kernel avail e) fs)
            (avail ∷ module_nodes (behind_kernel avail e) fs) (HasModules avail e fs))
          (sym same)
          (start_list-HasList section e fs (length before + 2) config behind m lines kernel loadable
            clear placed reads fits)
