-- ===== src/Kick.antt =====
-- boot_aos.c: the modules that a Kicklayout file lists for a configuration are taken out of the archive
-- into memory and put on a list. The text of the file is read once, when it has been extracted, while the
-- source reads each line from memory when it comes to it. So the model is that of a run in which no claim or load
-- touches the text before its line has been read, as where the archive and the text behind it are apart from the
-- loaded modules. The NULs that the code puts into the text are seen by nobody else.
pub mod Module
pub mod Kicklist
pub mod Filled
pub mod Listed
pub mod Answer
pub mod Exec
pub mod Supply
pub mod Load
pub mod Plan
pub mod Section
pub mod Config
pub mod Boot
pub mod Rounds
pub mod Select
mod Tests
use bboot.Base.{
  ℕ, zero, suc, ◌+◌, ◌-◌, ◌*◌, ◌^◌, Bool, true, false, ◌&&◌, ◌||◌, Option, none, some, List, [],
  ◌∷◌, ◌++◌, ◌==◌, ltb, leb, not, if◌then◌else◌, Bytes, codes, length, add32,
}
use bboot.Memory.{Mem, read32, write8, write16, write32, strcpy, load_bytes}
use bboot.AosList.{alist_init, alist_add_tail, l_head, n_succ}
use bboot.Window.{round_up}
use bboot.Zip.{
  Zip, Puff, Status, z_ok, z_error, zip_find_len, zip_open_buffer, zip_file_find,
  zip_file_uncompressed_size, zip_file_extract,
}
use bboot.Action.{
  Failure, missing_initrd, invalid_zip, no_memory, not_extracted, invalid_name, not_loaded,
  no_config, not_found, bad_line, Machine, Result, ok, err, Action, ◌>>=◌, ◌>>◌, pure, raise,
  require, gets, modify,
}
use bboot.Layout.{
  keyword, argument, base_name, scan, Scan, ended, unterminated, line, no_command, trim_line,
}

-- What is used of `brd`: `brd.claim`, which answers 0 for NULL, and `brd.exec_addr`.
pub record Board {ℓ} (S : Type ℓ) : Type ℓ where
  pub claim : ℕ → ℕ → S → ℕ × S
  pub exec_addr : ℕ

abbrev pub kicklist_addr : ℕ
kicklist_addr = 0xec00000

abbrev pub kicklayout_name : Bytes
kicklayout_name = codes "Kickstart/Kicklayout"

-- `sizeof(module_t)`, and the offsets of its fields behind the node.
abbrev pub sizeof_module : ℕ
sizeof_module = 36

abbrev pub sizeof_list : ℕ
sizeof_list = 12

-- The stores of `add_module`, without its call of `alist_add_tail` and with it.
unfoldable pub fill_module : ℕ → ℕ → ℕ → Bytes → Mem → Mem
fill_module mod_ data_ len name m =
    let n = mod_ + sizeof_module in
    let m1 = strcpy m n name in
    let m2 = write32 m1 (mod_ + 8) n in
    let m3 = write32 m2 (mod_ + 12) 0 in
    let m4 = write16 m3 (mod_ + 16) 2 in
    let m5 = write16 m4 (mod_ + 18) 3 in
    let m6 = write32 m5 (mod_ + 20) (mod_ + 20) in
    let m7 = write32 m6 (mod_ + 24) (mod_ + 24) in
    let m8 = write32 m7 (mod_ + 28) data_ in write32 m8 (mod_ + 32) len

unfoldable pub add_module : ℕ → ℕ → ℕ → ℕ → Bytes → Mem → Mem
add_module list mod_ data_ len name m = alist_add_tail (fill_module mod_ data_ len name m) list mod_

-- The bytes that a module's structure and name take, rounded up, on their own and behind its data.
unfoldable pub struct_room : ℕ → ℕ
struct_room nlen = round_up (sizeof_module + nlen + 1) 32

unfoldable pub data_room : ℕ → ℕ
data_room size = round_up size 4

unfoldable pub module_room : ℕ → ℕ → ℕ
module_room size nlen = round_up (add32 (data_room size) (sizeof_module + nlen + 1)) 32

-- Where the parsing stands: the number of labels so far, the list or NULL, and the free memory.
pub record Cursor : Type 0 where
  pub labels : ℕ
  pub kicklist : ℕ
  pub avail : ℕ

pub data Turn : Type 0 where
  next_line : Cursor → Turn
  stop : Cursor → Turn

-- `kicklist->l_head->n_succ == NULL`
unfoldable pub is_empty_list : ℕ → Mem → Bool
is_empty_list list m = read32 m (n_succ (read32 m (l_head list))) == 0

-- `p - kicklayout < (int)kicklayout_len`: no byte counts where the length is negative.
unfoldable pub file_left : ℕ → ℕ
file_left size = if leb (2 ^ 31) size then 0 else size

abbrev pub start_cursor : Cursor
start_cursor = record { labels = 0; kicklist = 0; avail = kicklist_addr }

module _ {ℓ} {S : Type ℓ} (board : Board S) (puff : Puff) where
  unfoldable pub claim : ℕ → ℕ → Action S ℕ
  claim addr size m =
      let (p, s) = board.claim addr size m.firmware in (ok p, record m { firmware = s })

  -- `brd.claim`, and the failure where it answers NULL.
  unfoldable pub claim_or_fail : ℕ → ℕ → Action S ℕ
  claim_or_fail addr size = do p ← claim addr size; require (not (p == 0)) no_memory; pure p

  unfoldable pub find_or_fail : Bytes → Action S (Unit {0})
  find_or_fail path m =
      let (status, z) = zip_file_find m.mem m.zip path in
      (elim status [ z_ok ↦ ok tt | z_error ↦ err (not_found path) ], record m { zip = z })

  unfoldable pub extract_or_fail : ℕ → Action S (Unit {0})
  extract_or_fail buffer m =
      let (status, mem) = zip_file_extract puff m.mem m.zip buffer in
      (elim status [ z_ok ↦ ok tt | z_error ↦ err not_extracted ], record m { mem = mem })

  abbrev pub file_size : Machine S → ℕ
  file_size m = zip_file_uncompressed_size m.mem m.zip

  -- `load_module_from_zip` for a module, with `data` NULL: all in one claim from `avail` on.
  unfoldable pub load_module : Bytes → ℕ → ℕ → Action S ℕ
  load_module path avail list = do
    require (not (length (base_name path) == 0)) invalid_name
    find_or_fail path
    size ← gets file_size
    let room = module_room size (length (base_name path))
    bin ← claim_or_fail avail room
    extract_or_fail bin
    len ← gets file_size
    modify (add_module list (add32 avail (data_room size)) bin len (base_name path))
    pure room

  -- The same with an address for the data, as the first file has it: the structure is claimed on
  -- its own, and gets 1 for its id.
  unfoldable pub load_exec : Bytes → ℕ → ℕ → ℕ → Action S ℕ
  load_exec path data_ avail list = do
    require (not (length (base_name path) == 0)) invalid_name
    find_or_fail path
    size ← gets file_size
    bin ← claim_or_fail data_ size
    extract_or_fail bin
    let room = struct_room (length (base_name path))
    mod_ ← claim_or_fail avail room
    len ← gets file_size
    modify (add_module list mod_ bin len (base_name path))
    modify (λ m. write16 m (mod_ + 16) 1)
    pure room

  unfoldable pub load_module_from_zip : Bytes → ℕ → ℕ → ℕ → Action S ℕ
  load_module_from_zip path data_ avail list =
      if data_ == 0 then load_module path avail list else load_exec path data_ avail list

  -- The label of the configuration: its list is made.
  unfoldable pub start_list : Cursor → Action S Turn
  start_list k = do
    list ← claim_or_fail k.avail sizeof_list
    modify (λ m. alist_init m list)
    pure (next_line (record k { kicklist = list; avail = add32 k.avail sizeof_list }))

  -- `inc = load_module_from_zip(…)`, `if (!inc)` and `avail += inc`
  unfoldable pub load_at : Bytes → ℕ → Cursor → Action S Turn
  load_at path data_ k = do
    inc ← load_module_from_zip path data_ k.avail k.kicklist
    require (not (inc == 0)) not_loaded
    pure (next_line (record k { avail = add32 k.avail inc }))

  unfoldable pub exec_line : ℕ → Bytes → Cursor → Action S Turn
  exec_line l p k =
      if keyword p (codes "EXEC")
      then load_at (argument 4 p) board.exec_addr k
      else raise (bad_line l)

  unfoldable pub module_line : ℕ → Bytes → Cursor → Action S Turn
  module_line l p k =
      if keyword p (codes "MODULE") then load_at (argument 6 p) 0 k else raise (bad_line l)

  -- A line of the configuration: EXEC first, then MODULEs.
  unfoldable pub load_line : ℕ → Bytes → Cursor → Action S Turn
  load_line l p k = do
    is_first ← gets (λ m. is_empty_list k.kicklist m.mem)
    if is_first then exec_line l p k else module_line l p k

  -- A line with a command, stripped, by the `if`s of the loop's body.
  unfoldable pub command : ℕ → ℕ → Bytes → Cursor → Action S Turn
  command config l p k =
      let label = keyword p (codes "LABEL") in
      let counted = if label then record k { labels = k.labels + 1 } else k in
      if label && counted.labels == config
      then start_list counted
      else if label && ltb config counted.labels
      then pure (stop counted)
      else if not (counted.labels == config)
      then pure (next_line counted)
      else load_line l p counted

  unfoldable pub visit : ℕ → ℕ → Bytes → Cursor → Action S Turn
  visit config l p k = if no_command p then pure (next_line k) else command config l (trim_line p) k

  -- `break`, or on with the next line.
  unfoldable pub follow : (Cursor → Action S Cursor) → Turn → Action S Cursor
  follow next (stop k) = pure k
  follow next (next_line k) = next k

  -- The body of the loop on what the start of a round finds; `next` is the rest of the loop.
  unfoldable pub kick_round :
      ℕ → ℕ → (Bytes → Cursor → Action S Cursor) → Cursor → Scan → Action S Cursor
  kick_round config l next k ended = pure k
  kick_round config l next k unterminated = raise (bad_line l)
  kick_round config l next k (line p after) = do turn ← visit config l p k; follow (next after) turn

  -- The loop over the lines, from the line `l` on, over the rounds left; a round takes at least one
  -- byte of the text. `left` bytes of it are the file's.
  unfoldable pub kick_lines : ℕ → ℕ → ℕ → ℕ → Bytes → Cursor → Action S Cursor
  kick_lines config zero l left text k = pure k
  kick_lines config (suc rounds) l left text k =
      let next = λ (after : Bytes).
        kick_lines config rounds (l + 1) (left - (length text - length after)) after in
      kick_round config l next k (scan left text)

  -- `zip_openBuffer`, which writes the `zip_t` only where it succeeds.
  unfoldable pub open_or_fail : ℕ → ℕ → Action S (Unit {0})
  open_or_fail zipdata ziplen m = elim (zip_open_buffer m.mem zipdata ziplen) [
    | none ↦ (err invalid_zip, m)
    | some z ↦ (ok tt, record m { zip = z })
  ]

  -- Kicklayout's text in memory, with the line end and the NUL that are put behind it, and its length.
  unfoldable pub read_layout : ℕ → Action S (ℕ × Bytes)
  read_layout avail = do
    find_or_fail kicklayout_name
    size ← gets file_size
    kicklayout ← claim_or_fail avail (add32 size 2)
    extract_or_fail kicklayout
    modify (λ m. write8 (write8 m (kicklayout + size) b'\n') (kicklayout + size + 1) 0)
    text ← gets (λ m. load_bytes m.mem kicklayout (size + 2))
    pure (size, text)

  -- The archive, opened; its length.
  unfoldable pub find_archive : ℕ → ℕ → Action S ℕ
  find_archive zipdata given = do
    found ← gets (λ m. zip_find_len m.mem zipdata (16 * 1024 * 1024))
    let ziplen = if given == 0 then found else given
    require (not (zipdata == 0 || ziplen == 0)) missing_initrd
    open_or_fail zipdata ziplen
    pure ziplen

  -- Its layout, read behind it and followed.
  unfoldable pub follow_layout : ℕ → ℕ → ℕ → Action S Cursor
  follow_layout zipdata config ziplen = do
    layout ← read_layout (add32 zipdata ziplen)
    kick_lines config (length layout.1) 1 (file_left layout.0) layout.1 start_cursor

  unfoldable pub answer : Cursor → Action S (ℕ × ℕ)
  answer k = do
    empty ← gets (λ m. is_empty_list k.kicklist m.mem)
    require (not (k.kicklist == 0 || empty)) no_config
    pure (k.kicklist, k.avail)

  -- The list, and the memory behind it that is free.
  unfoldable pub boot_aos_zipkick : ℕ → ℕ → ℕ → Action S (ℕ × ℕ)
  boot_aos_zipkick zipdata given config = do
    ziplen ← find_archive zipdata given
    k ← follow_layout zipdata config ziplen
    answer k
