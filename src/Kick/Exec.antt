-- ===== src/Kick/Exec.antt =====
-- What the load of the first file, the kernel, does to the list.
use bboot.Base.{
  ℕ, ◌+◌, ◌≤◌, ◌<◌, ◌≢◌, ◌⊎◌, ==_ne, [], ◌∷◌, ◌≡◌, refl, ◌∙◌, Bytes, length, arith, word, inl, inr,
}
use bboot.Memory.{Mem, write16}
use bboot.AosList.{alist_add_tail}
use bboot.AosList.Frame.{Outside, Kept}
use bboot.Window.Grant.{round_up-least}
use bboot.Zip.{
  Zip, Puff, Status, z_ok, z_error, zip_file_find, zip_file_uncompressed_size, zip_file_extract,
}
use bboot.Zip.Extract.{WritesOutputOnly, zip_file_extract_frame}
use bboot.Action.{Machine, ok, err, Action, ◌>>=◌, ◌>>◌, after, gets, modify, pure, not_extracted}
use bboot.Layout.{base_name}
use bboot.Kick.{
  Board, sizeof_module, fill_module, add_module, struct_room, load_exec, file_size, claim_or_fail,
  claim, find_or_fail, extract_or_fail,
}
use bboot.Kick.Module.{size_32}
use bboot.Kick.Kicklist.{
  IsKicklist, IsKicklist-SameBelow, IsKicklist-more, IsKicklist-header, alist_add_tail-IsKicklist,
  alist_add_tail-Kept_below,
}
use bboot.Kick.Filled.{
  fill_module_frame, fill_module-SameBelow, write16_frame, IsModule, IsModule-parts,
  IsModule-SameWithin, fill_module-IsModule,
}
use bboot.Kick.Listed.{IsLoad, zip_file_uncompressed_size-lt}

module _ {ℓ} {S : Type ℓ} (board : Board S) (puff : Puff) (path : Bytes) (data_ avail l : ℕ)
    (m : Machine S) (z : Zip) (s s' : S) where
  abbrev size : ℕ
  size = zip_file_uncompressed_size m.mem z

  abbrev nlen : ℕ
  nlen = length (base_name path)

  abbrev extracted : Mem
  extracted = (zip_file_extract puff m.mem z data_).1

  -- Where the structure is claimed.
  abbrev done : Machine S
  done = record { mem = extracted; zip = z; firmware = s' }

  -- The list with the kernel, its structure filled, and nothing else changed behind the extraction.
  pub record IsFirst (inc : ℕ) (m' : Machine S) : Type 0 where
    pub increment : inc ≡ struct_room nlen
    pub current : m'.zip ≡ z
    pub list : IsKicklist m'.mem l (avail + inc) (avail ∷ [])
    pub kept :
        (b : ℕ) → Outside l (l + 12) b → Outside avail (avail + inc) b → m'.mem b ≡ extracted b
    pub filled : IsModule m'.mem avail data_ (file_size board puff done) (base_name path)

  module _ (law : WritesOutputOnly puff) (k : IsKicklist m.mem l avail [])
      (apart : (l + 12 ≤ data_) ⊎ (data_ + size ≤ l)) (small : nlen + 69 ≤ word)
      (room : avail + struct_room nlen ≤ word) where
    room-fits : sizeof_module + nlen + 1 ≤ struct_room nlen
    unfolding struct_room
    room-fits = (round_up-least (sizeof_module + nlen + 1) 32 size_32 (omega arith)).0

    extracted-IsKicklist : IsKicklist extracted l avail []
    extracted-IsKicklist =
        IsKicklist-header m.mem extracted l avail k
          (λ b low high. zip_file_extract_frame puff law m.mem z data_ b (ground (arith, apart)))

    finish-IsKicklist :
        (len : ℕ)
        → IsKicklist
            (write16 (add_module l avail data_ len (base_name path) extracted) (avail + 16) 1)
            l
            (avail + struct_room nlen)
            (avail ∷ [])
    unfolding add_module
    finish-IsKicklist len =
        let filled = fill_module avail data_ len (base_name path) extracted in
        let appended = alist_add_tail filled l avail in
        let added =
          alist_add_tail-IsKicklist extracted filled l avail avail (avail + 8) []
            extracted-IsKicklist (fill_module-SameBelow avail data_ len (base_name path) extracted)
            (omega arith) (omega arith) (omega (arith, room-fits, room)) in
        IsKicklist-more _ l (avail + 8) _ (avail ∷ []) (omega (arith, room-fits)) (
          IsKicklist-SameBelow appended _ l (avail + 8) (avail ∷ []) added
            (λ b h. write16_frame appended (avail + 16) 1 b (inl (omega arith))))

    appended-Kept :
        (len : ℕ)
        → Kept l avail
            (avail + 8)
            []
            (fill_module avail data_ len (base_name path) extracted)
            (add_module l avail data_ len (base_name path) extracted)
    unfolding add_module
    appended-Kept len =
        alist_add_tail-Kept_below extracted (fill_module avail data_ len (base_name path) extracted)
          l avail avail [] extracted-IsKicklist
          (fill_module-SameBelow avail data_ len (base_name path) extracted) (omega arith)

    finish-IsFirst :
        data_ < word
        → let len = file_size board puff done in
          IsFirst (struct_room nlen) (record done {
            mem = write16 (add_module l avail data_ len (base_name path) extracted) (avail + 16) 1;
          })
    finish-IsFirst low =
        let len = file_size board puff done in
        let fill = fill_module avail data_ len (base_name path) extracted in
        let added = add_module l avail data_ len (base_name path) extracted in
        record {
          increment = refl;
          current = refl;
          list = finish-IsKicklist len;
          kept = λ b header out.
              write16_frame added (avail + 16) 1 b (omega (arith, out, room-fits))
              ∙ appended-Kept len b header (omega (arith, out, room-fits)) tt
              ∙ fill_module_frame avail data_ len (base_name path) extracted b
                  (omega (arith, out, room-fits));
          filled =
              IsModule-parts added (write16 added (avail + 16) 1) avail data_ len (base_name path)
                (IsModule-SameWithin fill added avail data_ len (base_name path)
                  (fill_module-IsModule avail data_ len (base_name path) extracted
                    (omega (arith, room-fits, room)) low
                    (zip_file_uncompressed_size-lt extracted z))
                  (λ b low high. appended-Kept len b (inr (omega (arith, k.header))) (inr low) tt))
                (λ b low high. write16_frame added (avail + 16) 1 b (inl (omega arith)))
                (λ b low high. write16_frame added (avail + 16) 1 b (inr (omega arith)));
        }

  -- A load of the kernel that finds its file and gets the memory it claims fails only where the extraction
  -- fails. Otherwise it makes the kernel the first module of the empty list, and the list lies below the memory that
  -- is then free; the structure is filled, and nothing else in memory differs from what the extraction left. The
  -- inflater writes its output only, the name is not empty, the data does not lie on the list's header, and the
  -- addresses and what is claimed fit the address space.
  pub load_exec-IsKicklist :
      WritesOutputOnly puff
      → IsKicklist m.mem l avail []
      → nlen ≢ 0
      → data_ ≢ 0
      → data_ < word
      → zip_file_find m.mem m.zip path ≡ (z_ok, z)
      → board.claim data_ size m.firmware ≡ (data_, s)
      → board.claim avail (struct_room nlen) s ≡ (avail, s')
      → (l + 12 ≤ data_) ⊎ (data_ + size ≤ l)
      → nlen + 69 ≤ word
      → avail + struct_room nlen ≤ word
      → IsLoad
          (zip_file_extract puff m.mem z data_).0
          IsFirst
          (load_exec board puff path data_ avail l m)
  unfolding load_exec claim_or_fail claim find_or_fail extract_or_fail
  load_exec-IsKicklist law k named nonzero low found granted placed apart small room =
      rw (==_ne nlen 0 named, found, granted, ==_ne data_ 0 nonzero)
        (go (zip_file_extract puff m.mem z data_).0)
    where
      ready : Machine S
      ready = record { mem = extracted; zip = z; firmware = s }

      list_it : Unit {0} → Action S ℕ
      list_it _ = do
        mod_ ← claim_or_fail board puff avail (struct_room nlen)
        len ← gets (file_size board puff)
        modify (add_module l mod_ data_ len (base_name path))
        modify (λ m. write16 m (mod_ + 16) 1)
        pure (struct_room nlen)

      go :
          (status : Status)
          → IsLoad status IsFirst
              (after list_it (elim status [ z_ok ↦ ok tt | z_error ↦ err not_extracted ], ready))
      go z_ok =
          rw (placed, ==_ne avail 0 (omega (arith, k.header)))
            (finish-IsFirst law k apart small room low)
      go z_error = (refl, refl)
