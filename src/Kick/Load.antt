-- ===== src/Kick/Load.antt =====
-- What a load of an archive's file leaves: the module, its bytes, and all that was there.
use bboot.Base.{
  ℕ, ◌+◌, ◌≤◌, ◌<◌, ◌≢◌, ◌⊎◌, inl, inr, List, [], ◌∷◌, ◌++◌, ◌≡◌, refl, ap, ◌∙◌, sym, arith, word,
  add32,
}
use mathlib.Core.Path.{subst}
use bboot.Memory.{Mem}
use bboot.AosList.Frame.{Kept}
use bboot.Zip.{Zip, Puff, z_ok, zip_file_uncompressed_size, zip_file_extract}
use bboot.Zip.Find.{Entry}
use bboot.Zip.Archive.{IsArchive, IsUntouched, load_bytes-SameWithin}
use bboot.Zip.Extract.{WritesOutputOnly, zip_file_extract_frame}
use bboot.Action.{Machine}
use bboot.Layout.{base_name}
use bboot.Kick.{Board, data_room, module_room, struct_room, load_module, load_exec}
use bboot.Kick.Kicklist.{IsKicklist, IsKicklist-off}
use bboot.Kick.Module.{module_room-fits}
use bboot.Kick.Filled.{IsModule}
use bboot.Kick.Listed.{IsLoad, IsAdded, load_module-IsKicklist}
use bboot.Kick.Exec.{IsFirst, load_exec-IsKicklist}
use bboot.Kick.Supply.{
  ModuleFile, name_length, Grants, IsLoadable, Reads, IsClear, IsNext, IsLoad-map, found, sized,
  extracts, granted, sized_untouched,
}

module _ {ℓ} {S : Type ℓ} (board : Board S) (puff : Puff) (start : Mem) (z : Zip) (dir : ℕ)
    (es : List Entry) (top : ℕ) (law : WritesOutputOnly puff) (grants : Grants board top)
    (archive : IsArchive start z dir es) (bounded : top < word) (f : ModuleFile)
    (loadable : IsLoadable puff start z dir es f) (l : ℕ)
    (clear : IsClear board puff start z dir es top l) (m : Machine S)
    (reads : Reads board puff start z dir es top m) where
  abbrev header : Zip
  header = record z { gfh = f.at }

  size_is : zip_file_uncompressed_size m.mem header ≡ f.size
  size_is = sized board puff start z dir es top archive loadable.file m reads

  -- The extraction leaves the archive alone, where it writes clear of it.
  extracted-IsUntouched :
      (buffer : ℕ)
      → (z.base + z.len ≤ buffer) ⊎ (buffer + f.size ≤ z.base)
      → IsUntouched z start (zip_file_extract puff m.mem header buffer).1
  extracted-IsUntouched buffer away b low high =
      zip_file_extract_frame puff law m.mem header buffer b (omega (arith, away, size_is))
      ∙ reads.untouched b low high

  extracted-size :
      (buffer : ℕ)
      → (z.base + z.len ≤ buffer) ⊎ (buffer + f.size ≤ z.base)
      → zip_file_uncompressed_size (zip_file_extract puff m.mem header buffer).1 header ≡ f.size
  extracted-size buffer away =
      sized_untouched board puff start z dir es top (zip_file_extract puff m.mem header buffer).1 f
        archive loadable (extracted-IsUntouched buffer away)

  abbrev pub next_free : ℕ → ℕ
  next_free avail = avail + module_room f.size (name_length f)

  abbrev pub node_at : ℕ → ℕ
  node_at avail = avail + data_room f.size

  -- The module is there, and nothing else has changed but the links of the list.
  abbrev pub IsListed : ℕ → List ℕ → ℕ → Machine S → Type 0
  IsListed avail ns inc m' =
      (inc ≡ module_room f.size (name_length f))
      × (IsNext board puff start z dir es top f l (next_free avail) (ns ++ (node_at avail ∷ []))
            (node_at avail) avail m'
          × Kept l avail (next_free avail) ns m.mem m'.mem)

  IsAdded-IsListed :
      (avail : ℕ) (ns : List ℕ) (s : S) (inc : ℕ) (m' : Machine S)
      → IsKicklist m.mem l avail ns
      → next_free avail ≤ top
      → IsAdded board puff f.path avail l ns m header s inc m'
      → IsListed avail ns inc m'
  IsAdded-IsListed avail ns s inc m' k fits added =
      let inside = module_room-fits f.size (name_length f) loadable.small in
      let grown : inc ≡ module_room f.size (name_length f) = added.increment ∙ rw size_is refl in
      let away : (z.base + z.len ≤ avail) ⊎ (avail + f.size ≤ z.base) =
        omega (arith, clear, k.header, inside, fits) in
      let size_later = extracted-size avail away in
      let placed : add32 avail (data_room f.size) ≡ avail + data_room f.size =
        omega (arith, inside, bounded, fits) in
      let node' = add32 avail (data_room (zip_file_uncompressed_size m.mem header)) in
      let node_is : node' ≡ node_at avail =
        ap (λ size. add32 avail (data_room size)) size_is ∙ placed in
      (
        grown,
        (
          record {
            reads = record {
              untouched = λ b low high.
                  added.kept b (omega (arith, clear, fits, k.header))
                    (omega (arith, clear, fits, grown, k.header))
                    (IsKicklist-off m.mem l avail b ns k
                      (omega (arith, clear, fits, k.header, inside)))
                  ∙ reads.untouched b low high;
              current = f.at;
              archive = added.current;
            };
            list = rw (sym grown, sym placed, sym size_is) added.list;
            held = record {
              structure =
                  subst (λ n. IsModule m'.mem n avail f.size (base_name f.path)) node_is
                    (subst (λ size. IsModule m'.mem node' avail size (base_name f.path)) size_later
                      added.filled);
              contents =
                  load_bytes-SameWithin avail (avail + zip_file_uncompressed_size m.mem header)
                    avail f.size (zip_file_extract puff m.mem header avail).1 m'.mem added.bytes
                    (omega arith) (omega (arith, size_is))
                  ∙ loadable.content m.mem avail reads.untouched (omega (arith, k.header));
            };
          },
          rw (sym grown) added.kept,
        ),
      )

  -- A module of the archive goes behind the others.
  pub load_module-IsListed :
      (avail : ℕ) (ns : List ℕ)
      → IsKicklist m.mem l avail ns
      → next_free avail ≤ top
      → IsLoad z_ok (IsListed avail ns) (load_module board puff f.path avail l m)
  load_module-IsListed avail ns k fits =
      let room = module_room f.size (name_length f) in
      let nonzero : avail ≢ 0 = omega (arith, k.header) in
      let s = (board.claim avail room m.firmware).1 in
      let claimed : board.claim avail
            (module_room (zip_file_uncompressed_size m.mem header) (name_length f)) m.firmware
          ≡ (avail, s) =
        rw size_is
          (granted board puff start z dir es top grants avail room m.firmware nonzero fits) in
      subst (λ status. IsLoad status (IsListed avail ns) (load_module board puff f.path avail l m))
        (extracts board puff start z dir es top archive loadable.file m reads avail nonzero)
        (IsLoad-map _ (λ inc m' added. IsAdded-IsListed avail ns s inc m' k fits added)
          (load_module board puff f.path avail l m)
          (load_module-IsKicklist board puff f.path avail l ns m header s law k loadable.named
            (found board puff start z dir es top archive loadable.file m reads) claimed
            (rw size_is loadable.small) (rw size_is (omega (arith, fits, bounded)))))

  abbrev pub behind_struct : ℕ → ℕ
  behind_struct avail = avail + struct_room (name_length f)

  abbrev pub IsFirstListed : ℕ → ℕ → ℕ → Machine S → Type 0
  IsFirstListed avail data_ inc m' =
      (inc ≡ struct_room (name_length f))
      × IsNext board puff start z dir es top f l (behind_struct avail) (avail ∷ []) avail data_ m'

  IsFirst-IsFirstListed :
      (avail data_ : ℕ) (s s' : S) (inc : ℕ) (m' : Machine S)
      → IsKicklist m.mem l avail []
      → data_ ≢ 0
      → data_ + f.size ≤ l
      → (z.base + z.len ≤ data_) ⊎ (data_ + f.size ≤ z.base)
      → behind_struct avail ≤ top
      → IsFirst board puff f.path data_ avail l m header s s' inc m'
      → IsFirstListed avail data_ inc m'
  IsFirst-IsFirstListed avail data_ s s' inc m' k nonzero below away fits first =
      let out = (zip_file_extract puff m.mem header data_).1 in
      (
        first.increment,
        record {
          reads = record {
            untouched = λ b low high.
                first.kept b (omega (arith, clear, fits, k.header))
                  (omega (arith, clear, fits, first.increment, k.header))
                ∙ extracted-IsUntouched data_ away b low high;
            current = f.at;
            archive = first.current;
          };
          list = rw (sym first.increment) first.list;
          held = record {
            structure =
                subst (λ size. IsModule m'.mem avail data_ size (base_name f.path))
                  (extracted-size data_ away) first.filled;
            contents =
                load_bytes-SameWithin data_ (data_ + f.size) data_ f.size out m'.mem
                  (λ b low high. first.kept b (inl (omega arith)) (inl (omega (arith, k.header))))
                  (omega arith) (omega arith)
                ∙ loadable.content m.mem data_ reads.untouched nonzero;
          };
        },
      )

  -- The kernel becomes the first of the list; its bytes lie below the list and clear of the archive.
  pub load_exec-IsFirstListed :
      (avail data_ : ℕ)
      → IsKicklist m.mem l avail []
      → data_ ≢ 0
      → data_ + f.size ≤ l
      → (z.base + z.len ≤ data_) ⊎ (data_ + f.size ≤ z.base)
      → behind_struct avail ≤ top
      → IsLoad z_ok (IsFirstListed avail data_) (load_exec board puff f.path data_ avail l m)
  load_exec-IsFirstListed avail data_ k nonzero below away fits =
      let size' = zip_file_uncompressed_size m.mem header in
      let s = (board.claim data_ f.size m.firmware).1 in
      let s' = (board.claim avail (struct_room (name_length f)) s).1 in
      let data_claimed : board.claim data_ size' m.firmware ≡ (data_, s) = rw size_is (
        granted board puff start z dir es top grants data_ f.size m.firmware nonzero
          (omega (arith, fits, k.header))) in
      let struct_claimed =
        granted board puff start z dir es top grants avail (struct_room (name_length f)) s
          (omega (arith, k.header)) fits in
      subst
        (λ status.
          IsLoad status (IsFirstListed avail data_) (load_exec board puff f.path data_ avail l m))
        (extracts board puff start z dir es top archive loadable.file m reads data_ nonzero)
        (IsLoad-map _
          (λ inc m' first.
            IsFirst-IsFirstListed avail data_ s s' inc m' k nonzero below away fits first)
          (load_exec board puff f.path data_ avail l m)
          (load_exec-IsKicklist board puff f.path data_ avail l m header s s' law k loadable.named
            nonzero (omega (arith, below, fits, bounded, k.header))
            (found board puff start z dir es top archive loadable.file m reads) data_claimed
            struct_claimed (inr (omega (arith, below, size_is))) (omega (arith, loadable.small))
            (omega (arith, fits, bounded))))
