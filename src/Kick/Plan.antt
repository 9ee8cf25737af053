-- ===== src/Kick/Plan.antt =====
-- What the lines of a configuration's section ask for, and where it goes.
use bboot.Base.{ℕ, ◌+◌, ◌≤◌, true, List, [], ◌∷◌, ◌≡◌, if◌then◌else◌, Bytes, codes, arith}
use bboot.Memory.{Mem}
use bboot.Zip.{Zip, Puff}
use bboot.Zip.Find.{Entry}
use bboot.Action.{Machine, Result, ok, err}
use bboot.Layout.{skip_lead, trim_line, no_command, keyword, argument}
use bboot.Kick.{data_room, module_room}
use bboot.Kick.Kicklist.{IsKicklist}
use bboot.Kick.Supply.{ModuleFile, name_length, IsLoadable, IsHeld}

-- The commands of a section, without comments and blanks around them.
unfoldable pub commands : List Bytes → List Bytes
commands [] = []
commands (p ∷ ls) =
    if no_command (skip_lead p) then commands ls else trim_line (skip_lead p) ∷ commands ls

-- MODULE commands, one for each file.
abbrev pub AreModules : List Bytes → List ModuleFile → Type 0
AreModules [] [] = Unit {0}
AreModules [] (f ∷ fs) = ⊥
AreModules (c ∷ cs) [] = ⊥
AreModules (c ∷ cs) (f ∷ fs) =
    (keyword c (codes "MODULE") ≡ true) × (argument 6 c ≡ f.path) × AreModules cs fs

-- The specification: where modules go, one behind the other, and where the memory is free then.
unfoldable pub module_nodes : ℕ → List ModuleFile → List ℕ
module_nodes avail [] = []
module_nodes avail (f ∷ fs) =
    (avail + data_room f.size) ∷ module_nodes (avail + module_room f.size (name_length f)) fs

unfoldable pub free_after : ℕ → List ModuleFile → ℕ
free_after avail [] = avail
free_after avail (f ∷ fs) = free_after (avail + module_room f.size (name_length f)) fs

pub free_after-grows : (avail : ℕ) (fs : List ModuleFile) → avail ≤ free_after avail fs
unfolding free_after
free_after-grows avail [] = omega arith
free_after-grows avail (f ∷ fs) =
    omega (arith, free_after-grows (avail + module_room f.size (name_length f)) fs)

abbrev pub AllLoadable : Puff → Mem → Zip → ℕ → List Entry → List ModuleFile → Type 0
AllLoadable puff m z dir es [] = Unit {0}
AllLoadable puff m z dir es (f ∷ fs) = IsLoadable puff m z dir es f × AllLoadable puff m z dir es fs

-- The modules of the files, from `avail` on.
abbrev pub AllHeld : Mem → ℕ → List ModuleFile → Type 0
AllHeld m avail [] = Unit {0}
AllHeld m avail (f ∷ fs) =
    IsHeld m (avail + data_room f.size) avail f
    × AllHeld m (avail + module_room f.size (name_length f)) fs

-- The answer is the list with these nodes, the memory from `free` on is free, and `P` holds of the memory.
abbrev pub HasList {ℓ} :
    {S : Type ℓ} → ℕ → ℕ → List ℕ → (Mem → Type 0) → Result (ℕ × ℕ) × Machine S → Type 0
HasList list free ns P (ok (l, avail), m) =
    (l ≡ list) × (avail ≡ free) × IsKicklist m.mem list free ns × P m.mem
HasList list free ns P (err e, m) = ⊥

pub HasList-map {ℓ} :
    {S : Type ℓ} {P Q : Mem → Type 0} (list free : ℕ) (ns : List ℕ)
    → ((m : Mem) → P m → Q m)
    → (r : Result (ℕ × ℕ) × Machine S) → HasList list free ns P r
    → HasList list free ns Q r
HasList-map list free ns h (ok (l, avail), m) (a, b, c, d) = (a, b, c, h m.mem d)
HasList-map list free ns h (err e, m) k = k
