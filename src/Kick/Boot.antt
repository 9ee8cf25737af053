-- ===== src/Kick/Boot.antt =====
-- What `boot_aos_zipkick` answers on an archive that holds a layout and the files it lists.
pub mod Tests
use bboot.Base.{
  ℕ, zero, suc, ◌+◌, ◌≤◌, ◌<◌, ◌≢◌, ◌⊎◌, ◌^◌, ◌*◌, ◌||◌, inl, inr, true, false, List, [], ◌∷◌, ◌++◌,
  ◌≡◌, refl, ap, ◌∙◌, sym, ◌==◌, not, some, if◌then◌else◌, Bytes, length, length-append, arith,
  word, add32, ==_ne, leb,
}
use mathlib.Core.Path.{subst}
use bboot.Memory.{Mem, write8, load_bytes}
use bboot.Zip.{
  Zip, Puff, z_ok, z_error, zip_find_len, zip_open_buffer, zip_file_find, zip_file_extract,
  zip_file_uncompressed_size,
}
use bboot.Zip.Find.{Entry}
use bboot.Zip.Archive.{
  IsArchive, IsFile, IsUntouched, SameWithin, load_bytes-SameWithin, zip_file_find-IsArchive,
}
use bboot.Zip.Extract.{WritesOutputOnly, zip_file_extract_frame}
use bboot.Action.{Machine, Result, ok, err, Action, ◌>>=◌, after}
use bboot.Layout.Lines.{AllLines, unlines}
use bboot.Kick.{
  Board, Cursor, sizeof_list, kicklist_addr, kicklayout_name, start_cursor, claim_or_fail, claim,
  find_or_fail, extract_or_fail, kick_lines, open_or_fail, read_layout, find_archive, follow_layout,
  file_left, answer, boot_aos_zipkick, is_empty_list,
}
use bboot.Kick.Select.{is_label, labels_in, AtLabel, places}
use bboot.Kick.Supply.{found, sized, granted, ModuleFile, Grants, IsLoadable, Reads, IsClear}
use bboot.Kick.Plan.{commands, AllLoadable, module_nodes, free_after, free_after-grows, HasList}
use bboot.Kick.Section.{IsKicklist-filled}
use bboot.Kick.Config.{IsConfiguration, behind_kernel, IsPlaced, HasModules, kick_lines-HasList}

load_bytes-end :
    (m : Mem) (a n : ℕ)
    → load_bytes m a (n + 2) ≡ load_bytes m a n ++ (m (a + n) ∷ m (a + n + 1) ∷ [])
unfolding load_bytes
load_bytes-end m a zero = let e : a + 0 ≡ a = omega arith in rw e refl
load_bytes-end m a (suc n) =
    let more : suc n + 2 ≡ suc (n + 2) = omega arith in
    let there : a + suc n ≡ a + 1 + n = omega arith in
    rw (more, there) (ap (λ (t : Bytes). m a ∷ t) (load_bytes-end m (a + 1) n))

-- The line end and the NUL that are put behind a text.
load_bytes-ended :
    (m : Mem) (a n : ℕ)
    → load_bytes (write8 (write8 m (a + n) b'\n') (a + n + 1) 0) a (n + 2)
      ≡ load_bytes m a n ++ (b'\n' ∷ 0 ∷ [])
unfolding write8
load_bytes-ended m a n =
    let ended = write8 (write8 m (a + n) b'\n') (a + n + 1) 0 in
    let kept : load_bytes ended a n ≡ load_bytes m a n =
      load_bytes-SameWithin a (a + n) a n m ended (λ b low high. ground arith) (omega arith)
        (omega arith) in
    let line_end : ended (a + n) ≡ b'\n' = ground arith in
    let nul : ended (a + n + 1) ≡ 0 = ground arith in
    load_bytes-end ended a n ∙ rw (kept, line_end, nul) refl

ended_below : (m : Mem) (a b : ℕ) → b < a → write8 (write8 m a b'\n') (a + 1) 0 b ≡ m b
unfolding write8
ended_below m a b h = ground arith

length-load_bytes : (m : Mem) (a n : ℕ) → length (load_bytes m a n) ≡ n
unfolding load_bytes
length-load_bytes m a zero = refl
length-load_bytes m a (suc n) = omega (arith, length-load_bytes m (a + 1) n)

-- A list with a module is the answer.
answer-HasList {ℓ} :
    {S : Type ℓ} (board : Board S) (puff : Puff) (list free n : ℕ) (ns : List ℕ) (P : Mem → Type 0)
    (r : Result Cursor × Machine S)
    → list ≢ 0
    → HasList list free (n ∷ ns) P (after (places board puff) r)
    → HasList list free (n ∷ ns) P (after (answer board puff) r)
unfolding answer
answer-HasList board puff list free n ns P (ok k, m) nonzero h =
    rw (h.0, ==_ne list 0 nonzero, IsKicklist-filled m.mem list free n ns h.2) (refl, h.1, h.2, h.3)
answer-HasList board puff list free n ns P (err e, m) nonzero h = h

module _ {ℓ} {S : Type ℓ} (board : Board S) (puff : Puff) (start : Mem) (z : Zip) (dir : ℕ)
    (es : List Entry) (top : ℕ) where
  -- The archive's layout, with this text.
  pub record IsLayout (at size : ℕ) (text : Bytes) : Type 0 where
    pub file : IsFile puff start z dir es kicklayout_name at size
    pub content :
        (m : Mem) (buffer : ℕ)
        → IsUntouched z start m
        → buffer ≢ 0
        → load_bytes (zip_file_extract puff m (record z { gfh = at }) buffer).1 buffer size ≡ text

  IsLayout-length : {at size : ℕ} {text : Bytes} → IsLayout at size text → size ≡ length text
  IsLayout-length {at} {size} {text} t =
      sym (length-load_bytes (zip_file_extract puff start (record z { gfh = at }) 1).1 1 size)
      ∙ ap length (t.content start 1 (λ b low high. refl) (omega arith))

  module _ (law : WritesOutputOnly puff) (grants : Grants board top)
      (archive : IsArchive start z dir es) (bounded : top < word) where
    -- The text is read, and the archive stays as it is.
    read_layout-text :
        (avail at size : ℕ) (text : Bytes) (m : Machine S)
        → IsLayout at size text
        → Reads board puff start z dir es top m
        → z.base + z.len ≤ avail
        → avail + size + 2 ≤ top
        → (m' : Machine S) × (read_layout board puff avail m
            ≡ (ok (size, text ++ (b'\n' ∷ 0 ∷ [])), m'))
          × Reads board puff start z dir es top m'
    unfolding read_layout find_or_fail claim_or_fail claim extract_or_fail
    read_layout-text avail at size text m t reads behind fits =
        let nonzero : avail ≢ 0 = omega (arith, archive.base, behind) in
        let whole : add32 size 2 ≡ size + 2 = omega (arith, fits, bounded) in
        let z' = record z { gfh = at } in
        let out = zip_file_extract puff m.mem z' avail in
        let ended = write8 (write8 out.1 (avail + size) b'\n') (avail + size + 1) 0 in
        (
          record { mem = ended; zip = z'; firmware = (board.claim avail (size + 2) m.firmware).1 },
          rw
              (
                found board puff start z dir es top archive t.file m reads,
                sized board puff start z dir es top archive t.file m reads,
                whole,
                granted board puff start z dir es top grants avail (size + 2) m.firmware nonzero
                    (omega (arith, fits)),
                ==_ne avail 0 nonzero,
                t.file.unpacks m.mem avail reads.untouched nonzero,
                load_bytes-ended out.1 avail size,
                t.content m.mem avail reads.untouched nonzero,
              )
              refl,
          record {
            untouched = λ b low high.
                ended_below out.1 (avail + size) b (omega arith)
                ∙ zip_file_extract_frame puff law m.mem z' avail b (inl (omega arith))
                ∙ reads.untouched b low high;
            current = at;
            archive = refl;
          },
        )

module _ {ℓ} {S : Type ℓ} (board : Board S) (puff : Puff) (m : Machine S) (z : Zip) (dir : ℕ)
    (es : List Entry) (top : ℕ) where
  opened-open_or_fail :
      zip_open_buffer m.mem z.base z.len ≡ some z
      → open_or_fail board puff z.base z.len m ≡ (ok tt, record m { zip = z })
  unfolding open_or_fail
  opened-open_or_fail opens = rw (open_or_fail, opens) refl

  opened-find_archive :
      (given : ℕ)
      → IsArchive m.mem z dir es
      → zip_open_buffer m.mem z.base z.len ≡ some z
      → (if given == 0 then zip_find_len m.mem z.base (16 * 1024 * 1024) else given) ≡ z.len
      → find_archive board puff z.base given m ≡ (ok z.len, record m { zip = z })
  unfolding find_archive
  opened-find_archive given archive opens long =
      rw
        (
          long,
          ==_ne z.base 0 (omega (arith, archive.base)),
          ==_ne z.len 0 (omega (arith, archive.low, archive.high)),
          opened-open_or_fail opens,
        )
        refl

  -- Let `zip_openBuffer` open an archive, with a directory of files with names of at most 255 bytes and no
  -- comments, whose layout is a text of lines, shorter than 2 GiB, where the label of the configuration that is
  -- asked for heads a section of one EXEC line, then MODULE lines, with comments and empty lines anywhere; and let
  -- the archive hold the files that these lines name, in a form that the extraction can read. Then
  -- `boot_aos_zipkick` succeeds, and answers the list at 0xec00000 with the kernel and the modules in the order of
  -- the lines, and with no others, linked both ways, and the memory behind them. Each module's structure points to
  -- its name and to its data, which are the file's bytes: the kernel's at the board's address, the others' in front
  -- of their structures. The inflater writes its output only; the board grants every claim that ends at `top` or
  -- below it, and what is loaded ends there; archive and text end below the list, and the kernel's bytes lie below
  -- it too and clear of them.
  pub boot_aos_zipkick-HasList :
      (before section rest : List Bytes) (label : Bytes) (e : ModuleFile) (fs : List ModuleFile)
      (at config given : ℕ)
      → WritesOutputOnly puff
      → Grants board top
      → top < word
      → IsArchive m.mem z dir es
      → zip_open_buffer m.mem z.base z.len ≡ some z
      → (if given == 0 then zip_find_len m.mem z.base (16 * 1024 * 1024) else given) ≡ z.len
      → IsLayout board puff m.mem z dir es top at
          (length (unlines (before ++ (label ∷ (section ++ rest)))))
          (unlines (before ++ (label ∷ (section ++ rest))))
      → length (unlines (before ++ (label ∷ (section ++ rest)))) < 2 ^ 31
      → z.base + z.len + length (unlines (before ++ (label ∷ (section ++ rest)))) + 2
        ≤ kicklist_addr
      → AllLines (before ++ (label ∷ (section ++ rest)))
      → labels_in before + 1 ≡ config
      → is_label label ≡ true
      → labels_in section ≡ 0
      → AtLabel rest
      → IsConfiguration (commands section) e fs
      → IsLoadable puff m.mem z dir es e
      → AllLoadable puff m.mem z dir es fs
      → IsPlaced board puff m.mem z dir es top
          (z.base + z.len + length (unlines (before ++ (label ∷ (section ++ rest)))) + 2)
          kicklist_addr
          e
      → free_after (behind_kernel (kicklist_addr + sizeof_list) e) fs ≤ top
      → HasList kicklist_addr
          (free_after (behind_kernel (kicklist_addr + sizeof_list) e) fs)
          ((kicklist_addr + sizeof_list)
            ∷ module_nodes (behind_kernel (kicklist_addr + sizeof_list) e) fs)
          (HasModules board puff m.mem z dir es top (kicklist_addr + sizeof_list) e fs)
          (boot_aos_zipkick board puff z.base given config m)
  unfolding boot_aos_zipkick follow_layout file_left
  boot_aos_zipkick-HasList before section rest label e fs at config given law grants bounded archive
        opens long layout short room whole counted is unlabelled at_label lines kernel loadable
        placed fits =
      let lines_ = before ++ (label ∷ (section ++ rest)) in
      let text = unlines lines_ in
      let size = length text in
      let high : kicklist_addr ≤ top =
        omega (arith, free_after-grows (behind_kernel (kicklist_addr + sizeof_list) e) fs, fits) in
      let behind : add32 z.base z.len ≡ z.base + z.len = omega (arith, room) in
      let (m', layout_is, reads') =
        read_layout-text board puff m.mem z dir es top law grants archive bounded (z.base + z.len)
          at size text (record m { zip = z }) layout
          (record { untouched = λ b low high. refl; current = z.gfh; archive = refl }) (omega arith)
          (omega (arith, room, high)) in
      let enough : size ≤ length (text ++ (b'\n' ∷ 0 ∷ [])) =
        omega (arith, length-append text (b'\n' ∷ 0 ∷ [])) in
      let left : leb (2 ^ 31) size ≡ false = ground (arith, short) in
      rw (opened-find_archive given archive opens long, behind, layout_is, left)
        (answer-HasList board puff kicklist_addr
          (free_after (behind_kernel (kicklist_addr + sizeof_list) e) fs)
          (kicklist_addr + sizeof_list)
          (module_nodes (behind_kernel (kicklist_addr + sizeof_list) e) fs)
          (HasModules board puff m.mem z dir es top (kicklist_addr + sizeof_list) e fs)
          (kick_lines board puff config (length (text ++ (b'\n' ∷ 0 ∷ []))) 1 size
            (text ++ (b'\n' ∷ 0 ∷ [])) start_cursor m')
          (omega arith)
          (kick_lines-HasList board puff m.mem z dir es top law grants archive bounded before
            section rest label (b'\n' ∷ 0 ∷ []) e fs config (length (text ++ (b'\n' ∷ 0 ∷ [])))
            (z.base + z.len + size + 2) m' whole enough counted is unlabelled at_label lines kernel
            loadable (inl (omega (arith, room))) placed reads' fits))
