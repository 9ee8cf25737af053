-- ===== src/Kick/Tests.antt =====
-- The loop over a layout of two configurations, and the theorems at it.
use bboot.Base.{
  ℕ, ◌+◌, ltb, if◌then◌else◌, List, [], ◌∷◌, ◌++◌, ◌≡◌, refl, false, Bytes, codes, arith, inl,
}
use bboot.Zip.{
  Puff, z_ok, zip_file_find, find_entry, zip_num_entries, zip_readdir, next_offset, name_matches,
  zip_file_get_name, zip_file_file_name_length, same_string, zip_file_uncompressed_size,
  zip_file_extract, zip_find_len, find_end, zip_open_buffer, start_er, find_er, single_disk,
}
use bboot.Action.{Machine, ◌>>=◌, err, not_found}
use bboot.Layout.{
  keyword, starts, skip_lead, spc_or_cr, trim_line, trim_tail, no_command, base_name, has_slash,
}
use bboot.Kick.{
  Board, start_cursor, start_list, data_room, module_room, load_module, boot_aos_zipkick,
  find_archive, follow_layout, read_layout, open_or_fail, find_or_fail, load_exec, struct_room,
}
use bboot.Kick.Rounds.{run_lines}
use bboot.Kick.Select.{is_label, labels_in, places, finish, load_section, run_lines-load_section}
use bboot.Memory.{read16, read32, write32, le16, le32, bswap16, bswap32, load_bytes}
use bboot.AosList.{alist_init}
use bboot.AosList.Chain.{alist_init-IsAosList}
use bboot.Window.{round_up, round_down}
use bboot.Zip.Extract.{WritesOutputOnly}
use bboot.Zip.Tests as Archive
use bboot.Kick.Exec.{IsFirst, load_exec-IsKicklist}
use bboot.Kick.Listed.{IsLoad, IsAdded, load_module-IsKicklist}
use bboot.Kick.Kicklist.{IsKicklist}

-- A board that grants what lies below 256 MiB, and counts the claims.
abbrev board : Board ℕ
board = record {
  claim = λ addr size s. (if ltb (addr + size) 0x10000000 then addr else 0, s + 1);
  exec_addr = 0x1000000;
}

puff : Puff
puff m dst dstlen src srclen = (false, m)

abbrev machine : Machine ℕ
machine = record { mem = λ a. 0; zip = record { base = 0; len = 0; er = 0; gfh = 0 }; firmware = 0 }

abbrev first_part : List Bytes
first_part = codes "; the layout" ∷ codes "LABEL first" ∷ codes "EXEC K/a" ∷ []

abbrev second_part : List Bytes
second_part = codes "EXEC K/b" ∷ codes "" ∷ codes " MODULE K/c " ∷ []

abbrev third_part : List Bytes
third_part = codes " LABEL third" ∷ codes "EXEC K/d" ∷ []

run_lines-load_section_example :
    (run_lines board puff 2 1
          (first_part ++ (codes "LABEL second" ∷ (second_part ++ third_part)))
          start_cursor
        >>= places board puff)
      machine
    ≡ (start_list board puff (record start_cursor { labels = 2 })
          >>= finish board puff (load_section board puff 5 second_part))
        machine
unfolding labels_in is_label keyword starts skip_lead spc_or_cr trim_line trim_tail no_command
run_lines-load_section_example =
    run_lines-load_section board puff 2 first_part second_part third_part (codes "LABEL second")
      machine refl refl refl refl

-- An empty list at 2000, in front of free memory, beside a small archive.
abbrev listed : Machine ℕ
listed = record { mem = alist_init Archive.memory 2000; zip = Archive.opened; firmware = 0 }

listed-IsKicklist : IsKicklist listed.mem 2000 2012 []
listed-IsKicklist = record {
  header = omega arith;
  below = tt;
  above = tt;
  placed = tt;
  chain = alist_init-IsAosList Archive.memory 2000 (omega arith);
}

find_listed : zip_file_find listed.mem listed.zip (codes "K/bc") ≡ (z_ok, Archive.at_second)
unfolding zip_file_find find_entry zip_num_entries zip_readdir next_offset name_matches
    zip_file_get_name zip_file_file_name_length same_string Archive.memory read32 read16 le16 le32
    bswap16 bswap32 load_bytes alist_init write32
find_listed = refl

no_puff-WritesOutputOnly : WritesOutputOnly Archive.no_puff
unfolding Archive.no_puff
no_puff-WritesOutputOnly m dst dstlen src srclen b h = refl

load_module-IsKicklist_example :
    IsLoad
      (zip_file_extract Archive.no_puff listed.mem Archive.at_second 2012).0
      (IsAdded board Archive.no_puff (codes "K/bc") 2012 2000 [] listed Archive.at_second 1)
      (load_module board Archive.no_puff (codes "K/bc") 2012 2000 listed)
unfolding zip_file_uncompressed_size Archive.memory read32 le32 bswap32 alist_init write32 base_name
    has_slash module_room data_room round_up round_down
load_module-IsKicklist_example =
    load_module-IsKicklist board Archive.no_puff (codes "K/bc") 2012 2000 [] listed
      Archive.at_second 1 no_puff-WritesOutputOnly listed-IsKicklist (omega arith) find_listed refl
      (omega arith) (omega arith)

-- The small archive has no layout.
no_layout :
    (boot_aos_zipkick board Archive.no_puff 1000 193 1 listed).0
    ≡ err (not_found (codes "Kickstart/Kicklayout"))
unfolding boot_aos_zipkick find_archive follow_layout read_layout open_or_fail find_or_fail
    zip_find_len find_end zip_open_buffer start_er find_er single_disk zip_file_find find_entry
    zip_num_entries zip_readdir next_offset name_matches zip_file_get_name zip_file_file_name_length
    same_string Archive.memory read32 read16 le16 le32 bswap16 bswap32 load_bytes alist_init write32
no_layout = refl

load_exec-IsKicklist_example :
    IsLoad
      (zip_file_extract Archive.no_puff listed.mem Archive.at_second 5000).0
      (IsFirst board Archive.no_puff (codes "K/bc") 5000 2012 2000 listed Archive.at_second 1 2)
      (load_exec board Archive.no_puff (codes "K/bc") 5000 2012 2000 listed)
unfolding zip_file_uncompressed_size Archive.memory read32 le32 bswap32 alist_init write32 base_name
    has_slash struct_room round_up round_down
load_exec-IsKicklist_example =
    load_exec-IsKicklist board Archive.no_puff (codes "K/bc") 5000 2012 2000 listed
      Archive.at_second 1 2 no_puff-WritesOutputOnly listed-IsKicklist (omega arith) (omega arith)
      (omega arith) find_listed refl refl (inl (omega arith)) (omega arith) (omega arith)
