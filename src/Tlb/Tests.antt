-- ===== src/Tlb/Tests.antt =====
-- The entries for 512 MiB, and the theorems about `setup_tlb` at memory sizes of the board.
use mathlib.Core.Option
use bboot.Base.{◌+◌, length, ◌≡◌, refl, some, get_elem?, arith}
use bboot.Tlb.{TlbWrite, ram_pages, ram_writes, row_writes, setup_tlb}
use bboot.Tlb.Pages.{setup_tlb-memory, setup_tlb_overlap}

entries_for_half : length (setup_tlb 0x20000000) ≡ 17
unfolding setup_tlb ram_pages ram_writes row_writes
entries_for_half = refl

setup_tlb-memory_example :
    get_elem? (setup_tlb 0x20000000) 1
    ≡ some (record { index = 16; w0 = 0x10000290; w1 = 0x10000000; w2 = 0x43f })
setup_tlb-memory_example = setup_tlb-memory 0x20000000 0x12345678 (omega arith) (omega arith)

setup_tlb_overlap_example :
    (Option.map (λ (w : TlbWrite). w.w0) (get_elem? (setup_tlb 0xa0000000) 8) ≡ some 0x80000290)
    × (Option.map
          (λ (w : TlbWrite). w.w0)
          (get_elem? (setup_tlb 0xa0000000) (ram_pages 0xa0000000 + 2))
        ≡ some 0x80000290)
setup_tlb_overlap_example = setup_tlb_overlap 0xa0000000 (omega arith) (omega arith)
