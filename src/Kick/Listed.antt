-- ===== src/Kick/Listed.antt =====
-- What the load of a module does to the list.
use bboot.Base.{
  ℕ, ◌+◌, ◌≤◌, ◌<◌, ◌≢◌, inl, inr, ==_ne, List, [], ◌∷◌, ◌++◌, ◌≡◌, refl, ◌∙◌, Bytes, length, arith,
  word, add32,
}
use bboot.Memory.{Mem}
use bboot.Memory.Laws.{le32-lt}
use bboot.AosList.Frame.{Outside, Kept}
use bboot.Zip.{
  Zip, Puff, Status, z_ok, z_error, zip_file_find, zip_file_uncompressed_size, zip_file_extract,
}
use bboot.Zip.Archive.{SameWithin}
use bboot.Zip.Extract.{WritesOutputOnly, zip_file_extract_frame}
use bboot.Action.{
  Machine, Result, ok, err, Action, ◌>>=◌, ◌>>◌, after, gets, modify, pure, not_extracted,
}
use bboot.Layout.{base_name}
use bboot.Kick.{
  Board, sizeof_module, fill_module, add_module, data_room, module_room, load_module, file_size,
  claim_or_fail, claim, find_or_fail, extract_or_fail,
}
use bboot.Kick.Module.{module_room-fits}
use bboot.Kick.Kicklist.{
  SameBelow, IsKicklist, IsKicklist-off, alist_add_tail-IsKicklist, alist_add_tail-Kept_below,
}
use bboot.Kick.Filled.{
  fill_module_frame, fill_module-SameBelow, IsModule, IsModule-SameWithin, fill_module-IsModule,
}

pub zip_file_uncompressed_size-lt : (m : Mem) (z : Zip) → zip_file_uncompressed_size m z < word
unfolding zip_file_uncompressed_size
zip_file_uncompressed_size-lt m z = le32-lt _

-- What holds of a load that got as far as the extraction, which answered `status`: `P`, unless it failed.
abbrev pub IsLoad {ℓ} :
    {S : Type ℓ} → Status → (ℕ → Machine S → Type 0) → Result ℕ × Machine S → Type 0
IsLoad status P (ok inc, m) = P inc m
IsLoad status P (err e, m) = (e ≡ not_extracted) × (status ≡ z_error)

module _ {ℓ} {S : Type ℓ} (board : Board S) (puff : Puff) (path : Bytes) (avail l : ℕ) (ns : List ℕ)
    (m : Machine S) (z : Zip) (s : S) where
  abbrev pub size : ℕ
  size = zip_file_uncompressed_size m.mem z

  abbrev pub nlen : ℕ
  nlen = length (base_name path)

  -- The module's structure.
  abbrev pub node : ℕ
  node = add32 avail (data_room size)

  abbrev extracted : Mem
  extracted = (zip_file_extract puff m.mem z avail).1

  abbrev ready : Machine S
  ready = record { mem = extracted; zip = z; firmware = s }

  -- The list with the module behind the others, its structure filled, its bytes as they were extracted, and
  -- nothing else changed but the links of the list.
  pub record IsAdded (inc : ℕ) (m' : Machine S) : Type 0 where
    pub increment : inc ≡ module_room size nlen
    pub current : m'.zip ≡ z
    pub list : IsKicklist m'.mem l (avail + inc) (ns ++ (node ∷ []))
    pub kept : Kept l avail (avail + inc) ns m.mem m'.mem
    pub filled : IsModule m'.mem node avail (file_size board puff ready) (base_name path)
    pub bytes : SameWithin avail (avail + size) extracted m'.mem

  module _ (law : WritesOutputOnly puff) (k : IsKicklist m.mem l avail ns)
      (small : size + nlen + 104 ≤ word) (room : avail + module_room size nlen ≤ word) where
    here : node ≡ avail + data_room size
    here = omega (arith, module_room-fits size nlen small)

    filled-SameBelow :
        (len : ℕ) → SameBelow avail m.mem (fill_module node avail len (base_name path) extracted)
    filled-SameBelow len b h =
        fill_module-SameBelow node avail len (base_name path) extracted b (omega (arith, here))
        ∙ zip_file_extract_frame puff law m.mem z avail b (inl h)

    finish-IsKicklist :
        (len : ℕ)
        → IsKicklist
            (add_module l node avail len (base_name path) extracted)
            l
            (avail + module_room size nlen)
            (ns ++ (node ∷ []))
    unfolding add_module
    finish-IsKicklist len =
        alist_add_tail-IsKicklist m.mem (fill_module node avail len (base_name path) extracted) l
          avail node (avail + module_room size nlen) ns k (filled-SameBelow len)
          (omega (arith, here)) (omega (arith, here, module_room-fits size nlen small)) room

    -- What the append does to the filled structure.
    appended-Kept :
        (len : ℕ)
        → Kept l node
            (node + 8)
            ns
            (fill_module node avail len (base_name path) extracted)
            (add_module l node avail len (base_name path) extracted)
    unfolding add_module
    appended-Kept len =
        alist_add_tail-Kept_below m.mem (fill_module node avail len (base_name path) extracted) l
          avail node ns k (filled-SameBelow len) (omega (arith, here))

    finish-Kept :
        (len : ℕ)
        → Kept l avail
            (avail + module_room size nlen)
            ns
            m.mem
            (add_module l node avail len (base_name path) extracted)
    finish-Kept len b header out off =
        let fits = module_room-fits size nlen small in
        appended-Kept len b header (omega (arith, here, fits, out)) off
        ∙ fill_module_frame node avail len (base_name path) extracted b
            (omega (arith, here, fits, out))
        ∙ zip_file_extract_frame puff law m.mem z avail b (omega (arith, fits, out))

    -- From the free memory on, the new links are the list's only ones.
    appended-SameWithin :
        (len low high : ℕ)
        → avail ≤ low
        → ((b : ℕ) → low ≤ b → b < high → Outside node (node + 8) b)
        → SameWithin low high
            (fill_module node avail len (base_name path) extracted)
            (add_module l node avail len (base_name path) extracted)
    appended-SameWithin len low high a clear b above below =
        appended-Kept len b (inr (omega (arith, k.header))) (clear b above below)
          (IsKicklist-off m.mem l avail b ns k (inr (omega arith)))

    finish-IsAdded : IsAdded (module_room size nlen) (record ready {
      mem = add_module l node avail (file_size board puff ready) (base_name path) extracted;
    })
    finish-IsAdded =
        let fits = module_room-fits size nlen small in
        let len = file_size board puff ready in
        let fill = fill_module node avail len (base_name path) extracted in
        let added = add_module l node avail len (base_name path) extracted in
        record {
          increment = refl;
          current = refl;
          list = finish-IsKicklist len;
          kept = finish-Kept len;
          filled =
              IsModule-SameWithin fill added node avail len (base_name path)
                (fill_module-IsModule node avail len (base_name path) extracted
                  (omega (arith, here, fits, room)) (omega (arith, fits, room))
                  (zip_file_uncompressed_size-lt extracted z))
                (appended-SameWithin len (node + 8) (node + (sizeof_module + nlen + 1))
                  (omega (arith, here)) (λ b low high. inr low));
          bytes = λ b low high.
              appended-SameWithin len avail (avail + size) (omega arith)
                (λ b low high. inl (omega (arith, here, fits))) b low high
              ∙ fill_module_frame node avail len (base_name path) extracted b
                  (inl (omega (arith, here, fits)));
        }

  -- A load that finds its file and gets the memory it claims fails only where the extraction fails. Otherwise
  -- it puts the module behind the others on the list: the list stays linked both ways, holds the modules in the
  -- order of their loads, and lies with all of them below the memory that is then free; its structure is filled and its bytes are the extracted ones; nothing
  -- else in memory has changed but the links of the list. The inflater writes its output only, the name is not empty, and
  -- the sizes and what is claimed fit the address space.
  pub load_module-IsKicklist :
      WritesOutputOnly puff
      → IsKicklist m.mem l avail ns
      → nlen ≢ 0
      → zip_file_find m.mem m.zip path ≡ (z_ok, z)
      → board.claim avail (module_room size nlen) m.firmware ≡ (avail, s)
      → size + nlen + 104 ≤ word
      → avail + module_room size nlen ≤ word
      → IsLoad
          (zip_file_extract puff m.mem z avail).0
          IsAdded
          (load_module board puff path avail l m)
  unfolding load_module claim_or_fail claim find_or_fail extract_or_fail
  load_module-IsKicklist law k named found granted small room =
      rw (==_ne nlen 0 named, found, granted, ==_ne avail 0 (omega (arith, k.header)))
        (go (zip_file_extract puff m.mem z avail).0)
    where
      list_it : Unit {0} → Action S ℕ
      list_it _ = do
        len ← gets (file_size board puff)
        modify (add_module l node avail len (base_name path))
        pure (module_room size nlen)

      go :
          (status : Status)
          → IsLoad status IsAdded
              (after list_it (elim status [ z_ok ↦ ok tt | z_error ↦ err not_extracted ], ready))
      go z_ok = finish-IsAdded law k small room
      go z_error = (refl, refl)
