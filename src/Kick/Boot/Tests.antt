-- ===== src/Kick/Boot/Tests.antt =====
-- An archive with a layout, a kernel and a module, and the theorems at it.
use bboot.Base.{
  ℕ, ◌+◌, ◌*◌, ◌-◌, ltb, if◌then◌else◌, List, [], ◌∷◌, ◌++◌, ◌≡◌, refl, false, Bytes, codes, length,
  get_or, bytes_eq, arith, inl, some,
}
use bboot.Memory.{Mem, read16, read32, le16, le32, bswap16, bswap32, load_bytes}
use bboot.Zip.{
  Zip, Puff, zip_find_len, find_end, zip_open_buffer, start_er, find_er, single_disk,
  zip_file_uncompressed_size,
}
use bboot.Zip.Find.{Entry, locate}
use bboot.Zip.Archive.{IsArchive}
use bboot.Zip.Stored.{IsStored, IsStored-IsFile, IsStored-content}
use bboot.Zip.Extract.{WritesOutputOnly}
use bboot.Action.{Machine}
use bboot.Layout.{
  keyword, starts, skip_lead, spc_or_cr, trim_line, trim_tail, no_command, argument, skip_blanks,
  base_name, has_slash,
}
use bboot.Layout.Lines.{unlines, all_lines, is_line, all_lines-AllLines}
use bboot.Window.{round_up, round_down}
use bboot.Kick.{
  Board, kicklayout_name, kicklist_addr, struct_room, data_room, module_room, boot_aos_zipkick,
}
use bboot.Kick.Select.{is_label, labels_in}
use bboot.Kick.Supply.{ModuleFile, Grants, IsLoadable}
use bboot.Kick.Plan.{commands, module_nodes, free_after, HasList}
use bboot.Kick.Config.{IsPlaced, HasModules}
use bboot.AmigaOne.Claim.{amigaone_board, no_claim-Grants}
use bboot.Kick.Boot.{IsLayout, boot_aos_zipkick-HasList}

-- Kickstart/Kicklayout, K/a, which holds "xyz", and K/bc, which holds "12", all stored.
abbrev archive : Bytes
archive =
    80 ∷ 75 ∷ 3 ∷ 4 ∷ 20 ∷ 0 ∷ 0 ∷ 0 ∷ 0 ∷ 0 ∷ 0 ∷ 0 ∷ 33 ∷ 40 ∷ 0 ∷ 0 ∷ 0 ∷ 0 ∷ 41 ∷ 0 ∷ 0 ∷ 0 ∷ 41
    ∷ 0 ∷ 0 ∷ 0 ∷ 20 ∷ 0 ∷ 0 ∷ 0 ∷ 75 ∷ 105 ∷ 99 ∷ 107 ∷ 115 ∷ 116 ∷ 97 ∷ 114 ∷ 116 ∷ 47 ∷ 75 ∷ 105
    ∷ 99 ∷ 107 ∷ 108 ∷ 97 ∷ 121 ∷ 111 ∷ 117 ∷ 116 ∷ 59 ∷ 32 ∷ 120 ∷ 10 ∷ 76 ∷ 65 ∷ 66 ∷ 69 ∷ 76 ∷ 32
    ∷ 97 ∷ 10 ∷ 69 ∷ 88 ∷ 69 ∷ 67 ∷ 32 ∷ 75 ∷ 47 ∷ 97 ∷ 10 ∷ 77 ∷ 79 ∷ 68 ∷ 85 ∷ 76 ∷ 69 ∷ 32 ∷ 75
    ∷ 47 ∷ 98 ∷ 99 ∷ 10 ∷ 76 ∷ 65 ∷ 66 ∷ 69 ∷ 76 ∷ 32 ∷ 98 ∷ 10 ∷ 80 ∷ 75 ∷ 3 ∷ 4 ∷ 20 ∷ 0 ∷ 0 ∷ 0
    ∷ 0 ∷ 0 ∷ 0 ∷ 0 ∷ 33 ∷ 40 ∷ 0 ∷ 0 ∷ 0 ∷ 0 ∷ 3 ∷ 0 ∷ 0 ∷ 0 ∷ 3 ∷ 0 ∷ 0 ∷ 0 ∷ 3 ∷ 0 ∷ 0 ∷ 0 ∷ 75
    ∷ 47 ∷ 97 ∷ 120 ∷ 121 ∷ 122 ∷ 80 ∷ 75 ∷ 3 ∷ 4 ∷ 20 ∷ 0 ∷ 0 ∷ 0 ∷ 0 ∷ 0 ∷ 0 ∷ 0 ∷ 33 ∷ 40 ∷ 0 ∷ 0
    ∷ 0 ∷ 0 ∷ 2 ∷ 0 ∷ 0 ∷ 0 ∷ 2 ∷ 0 ∷ 0 ∷ 0 ∷ 4 ∷ 0 ∷ 0 ∷ 0 ∷ 75 ∷ 47 ∷ 98 ∷ 99 ∷ 49 ∷ 50 ∷ 80 ∷ 75
    ∷ 1 ∷ 2 ∷ 20 ∷ 0 ∷ 20 ∷ 0 ∷ 0 ∷ 0 ∷ 0 ∷ 0 ∷ 0 ∷ 0 ∷ 33 ∷ 40 ∷ 0 ∷ 0 ∷ 0 ∷ 0 ∷ 41 ∷ 0 ∷ 0 ∷ 0
    ∷ 41 ∷ 0 ∷ 0 ∷ 0 ∷ 20 ∷ 0 ∷ 0 ∷ 0 ∷ 0 ∷ 0 ∷ 0 ∷ 0 ∷ 0 ∷ 0 ∷ 0 ∷ 0 ∷ 0 ∷ 0 ∷ 0 ∷ 0 ∷ 0 ∷ 0 ∷ 75
    ∷ 105 ∷ 99 ∷ 107 ∷ 115 ∷ 116 ∷ 97 ∷ 114 ∷ 116 ∷ 47 ∷ 75 ∷ 105 ∷ 99 ∷ 107 ∷ 108 ∷ 97 ∷ 121 ∷ 111
    ∷ 117 ∷ 116 ∷ 80 ∷ 75 ∷ 1 ∷ 2 ∷ 20 ∷ 0 ∷ 20 ∷ 0 ∷ 0 ∷ 0 ∷ 0 ∷ 0 ∷ 0 ∷ 0 ∷ 33 ∷ 40 ∷ 0 ∷ 0 ∷ 0
    ∷ 0 ∷ 3 ∷ 0 ∷ 0 ∷ 0 ∷ 3 ∷ 0 ∷ 0 ∷ 0 ∷ 3 ∷ 0 ∷ 0 ∷ 0 ∷ 0 ∷ 0 ∷ 0 ∷ 0 ∷ 0 ∷ 0 ∷ 0 ∷ 0 ∷ 0 ∷ 0 ∷ 91
    ∷ 0 ∷ 0 ∷ 0 ∷ 75 ∷ 47 ∷ 97 ∷ 80 ∷ 75 ∷ 1 ∷ 2 ∷ 20 ∷ 0 ∷ 20 ∷ 0 ∷ 0 ∷ 0 ∷ 0 ∷ 0 ∷ 0 ∷ 0 ∷ 33 ∷ 40
    ∷ 0 ∷ 0 ∷ 0 ∷ 0 ∷ 2 ∷ 0 ∷ 0 ∷ 0 ∷ 2 ∷ 0 ∷ 0 ∷ 0 ∷ 4 ∷ 0 ∷ 0 ∷ 0 ∷ 0 ∷ 0 ∷ 0 ∷ 0 ∷ 0 ∷ 0 ∷ 0 ∷ 0
    ∷ 0 ∷ 0 ∷ 127 ∷ 0 ∷ 0 ∷ 0 ∷ 75 ∷ 47 ∷ 98 ∷ 99 ∷ 80 ∷ 75 ∷ 5 ∷ 6 ∷ 0 ∷ 0 ∷ 0 ∷ 0 ∷ 3 ∷ 0 ∷ 3 ∷ 0
    ∷ 165 ∷ 0 ∷ 0 ∷ 0 ∷ 163 ∷ 0 ∷ 0 ∷ 0 ∷ 0 ∷ 0 ∷ []

unfoldable pub memory : Mem
memory a = if ltb a 1000 then 0 else get_or archive (a - 1000) 0

abbrev pub opened : Zip
opened = record { base = 1000; len = 350; er = 1328; gfh = 0 }

abbrev pub entries : List Entry
entries =
    record { name = kicklayout_name; extra = 0 }
    ∷ record { name = codes "K/a"; extra = 0 }
    ∷ record { name = codes "K/bc"; extra = 0 }
    ∷ []

abbrev pub top : ℕ
top = 0xf000000

-- An AmigaOne with 256 MiB, and an inflater that always fails.
abbrev pub board : Board ℕ
board = amigaone_board 0x10000000

pub puff : Puff
puff m dst dstlen src srclen = (false, m)

abbrev pub machine : Machine ℕ
machine = record { mem = memory; zip = record { base = 0; len = 0; er = 0; gfh = 0 }; firmware = 0 }

abbrev pub kernel : ModuleFile
kernel = record { path = codes "K/a"; at = 1229; size = 3; bytes = codes "xyz" }

abbrev pub module_ : ModuleFile
module_ = record { path = codes "K/bc"; at = 1278; size = 2; bytes = codes "12" }

abbrev pub section : List Bytes
section = codes "EXEC K/a" ∷ codes "MODULE K/bc" ∷ []

abbrev pub lines : List Bytes
lines = (codes "; x" ∷ []) ++ (codes "LABEL a" ∷ (section ++ (codes "LABEL b" ∷ [])))

pub puff-WritesOutputOnly : WritesOutputOnly puff
unfolding puff
puff-WritesOutputOnly m dst dstlen src srclen b h = refl

pub board-Grants : Grants board top
board-Grants = no_claim-Grants 0x10000000 top (omega arith) (omega arith)

pub memory-IsArchive : IsArchive memory opened 163 entries
unfolding memory read32 read16 le16 le32 bswap16 bswap32 load_bytes
memory-IsArchive = record {
  base = omega arith;
  small = omega arith;
  low = omega arith;
  high = omega arith;
  count = refl;
  offset = refl;
  fits = omega arith;
  directory = (
    record {
      signature = refl;
      name_length = refl;
      extra_length = refl;
      name_bytes = refl;
      short = omega arith;
    },
    (
      record {
        signature = refl;
        name_length = refl;
        extra_length = refl;
        name_bytes = refl;
        short = omega arith;
      },
      (
        record {
          signature = refl;
          name_length = refl;
          extra_length = refl;
          name_bytes = refl;
          short = omega arith;
        },
        tt,
      ),
    ),
  );
}

layout-IsStored : IsStored memory opened 1163
unfolding memory read32 read16 le16 le32 bswap16 bswap32 zip_file_uncompressed_size
layout-IsStored = record { inside = omega arith; signature = refl; method = refl; sizes = refl }

kernel-IsStored : IsStored memory opened 1229
unfolding memory read32 read16 le16 le32 bswap16 bswap32 zip_file_uncompressed_size
kernel-IsStored = record { inside = omega arith; signature = refl; method = refl; sizes = refl }

module-IsStored : IsStored memory opened 1278
unfolding memory read32 read16 le16 le32 bswap16 bswap32 zip_file_uncompressed_size
module-IsStored = record { inside = omega arith; signature = refl; method = refl; sizes = refl }

pub memory-IsLayout :
    IsLayout board puff memory opened 163 entries top 1163 (length (unlines lines)) (unlines lines)
unfolding memory read32 read16 le16 le32 bswap16 bswap32 load_bytes zip_file_uncompressed_size
    unlines locate bytes_eq
memory-IsLayout = record {
  file =
      IsStored-IsFile puff memory opened 163 1163 entries kicklayout_name memory-IsArchive refl
        layout-IsStored;
  content =
      IsStored-content puff memory opened 163 1163 entries kicklayout_name memory-IsArchive refl
        layout-IsStored;
}

pub kernel-IsLoadable : IsLoadable puff memory opened 163 entries kernel
unfolding memory read32 read16 le16 le32 bswap16 bswap32 load_bytes zip_file_uncompressed_size
    locate bytes_eq base_name has_slash
kernel-IsLoadable = record {
  file =
      IsStored-IsFile puff memory opened 163 1229 entries (codes "K/a") memory-IsArchive refl
        kernel-IsStored;
  named = omega arith;
  small = omega arith;
  content =
      IsStored-content puff memory opened 163 1229 entries (codes "K/a") memory-IsArchive refl
        kernel-IsStored;
}

pub module-IsLoadable : IsLoadable puff memory opened 163 entries module_
unfolding memory read32 read16 le16 le32 bswap16 bswap32 load_bytes zip_file_uncompressed_size
    locate bytes_eq base_name has_slash
module-IsLoadable = record {
  file =
      IsStored-IsFile puff memory opened 163 1278 entries (codes "K/bc") memory-IsArchive refl
        module-IsStored;
  named = omega arith;
  small = omega arith;
  content =
      IsStored-content puff memory opened 163 1278 entries (codes "K/bc") memory-IsArchive refl
        module-IsStored;
}

pub kernel-IsPlaced :
    IsPlaced board puff memory opened 163 entries top
      (1350 + length (unlines lines) + 2)
      kicklist_addr
      kernel
unfolding unlines
kernel-IsPlaced = record {
  nonzero = omega arith;
  below = omega arith;
  past = omega arith;
  away = inl (omega arith);
}

pub opens : zip_open_buffer memory 1000 350 ≡ some opened
unfolding zip_open_buffer start_er find_er single_disk memory read32 read16
opens = refl

found_length : zip_find_len memory 1000 (16 * 1024 * 1024) ≡ 350
unfolding zip_find_len find_end memory read32
found_length = refl

-- The kernel's structure is at 0xec0000c, and the module's at 0xec00050, behind its two bytes.
pub boots :
    HasList kicklist_addr 0xec0008c
      (0xec0000c ∷ 0xec00050 ∷ [])
      (HasModules board puff memory opened 163 entries top 0xec0000c kernel (module_ ∷ []))
      (boot_aos_zipkick board puff 1000 350 1 machine)
unfolding unlines all_lines is_line labels_in is_label keyword starts skip_lead spc_or_cr trim_line
    trim_tail no_command argument skip_blanks base_name has_slash commands free_after module_nodes
    struct_room data_room module_room round_up round_down
boots =
    boot_aos_zipkick-HasList board puff machine opened 163 entries top (codes "; x" ∷ []) section
      (codes "LABEL b" ∷ []) (codes "LABEL a") kernel (module_ ∷ []) 1163 1 350
      puff-WritesOutputOnly board-Grants (omega arith) memory-IsArchive opens refl memory-IsLayout
      (omega arith) (omega arith) (all_lines-AllLines lines refl) refl refl refl refl
      (refl, refl, (refl, refl, tt)) kernel-IsLoadable (module-IsLoadable, tt) kernel-IsPlaced
      (omega arith)

-- The same where the length of the archive is not given.
boot_aos_zipkick-HasList_example :
    HasList kicklist_addr 0xec0008c
      (0xec0000c ∷ 0xec00050 ∷ [])
      (HasModules board puff memory opened 163 entries top 0xec0000c kernel (module_ ∷ []))
      (boot_aos_zipkick board puff 1000 0 1 machine)
unfolding unlines all_lines is_line labels_in is_label keyword starts skip_lead spc_or_cr trim_line
    trim_tail no_command argument skip_blanks base_name has_slash commands free_after module_nodes
    struct_room data_room module_room round_up round_down
boot_aos_zipkick-HasList_example =
    boot_aos_zipkick-HasList board puff machine opened 163 entries top (codes "; x" ∷ []) section
      (codes "LABEL b" ∷ []) (codes "LABEL a") kernel (module_ ∷ []) 1163 1 0 puff-WritesOutputOnly
      board-Grants (omega arith) memory-IsArchive opens found_length memory-IsLayout (omega arith)
      (omega arith) (all_lines-AllLines lines refl) refl refl refl refl
      (refl, refl, (refl, refl, tt)) kernel-IsLoadable (module-IsLoadable, tt) kernel-IsPlaced
      (omega arith)
