-- ===== src/Sam460/Init.antt =====
-- The rest of `sam460_init` of brd_sam460.c: the interrupt controllers, the timer, and what is set in `brd` and
-- in the board information. The registers of the processor are a parameter.
use bboot.Base.{ℕ, ◌/◌, List, [], ◌∷◌, sub32, bit_and, bit_or}
use bboot.Memory.{Mem}
use bboot.Tlb.{TlbWrite, setup_tlb}
use bboot.Sam460.{Handed, read_fdt, stack_top}

-- The instructions `tlbwe`, as `write_tlb` has them, `mtdcr`, `mfspr` and `mtspr`.
pub record Cpu {ℓ} (S : Type ℓ) : Type ℓ where
  pub write_tlb : TlbWrite → S → S
  pub mtdcr : ℕ → ℕ → S → S
  pub mfspr : ℕ → S → ℕ × S
  pub mtspr : ℕ → ℕ → S → S

-- The registers and the values of `setup_uic`.
abbrev pub uic_writes : List (ℕ × ℕ)
uic_writes =
    (0xc0, 0xffffffff)
    ∷ (0xc2, 0)
    ∷ (0xc3, 5)
    ∷ (0xc4, 0xffffffff)
    ∷ (0xc5, 0)
    ∷ (0xc7, 0)
    ∷ (0xc0, 0xffffffff)
    ∷ (0xd0, 0xffffffff)
    ∷ (0xd2, 0)
    ∷ (0xd3, 0)
    ∷ (0xd4, 0xefffffff)
    ∷ (0xd5, 0)
    ∷ (0xd7, 0)
    ∷ (0xd0, 0xffffffff)
    ∷ (0xe0, 0xffffffff)
    ∷ (0xe2, 0)
    ∷ (0xe3, 0)
    ∷ (0xe4, 0xffffffff)
    ∷ (0xe5, 0)
    ∷ (0xe7, 0)
    ∷ (0xe0, 0xffffffff)
    ∷ (0xf0, 0xffffffff)
    ∷ (0xf2, 0)
    ∷ (0xf3, 0)
    ∷ (0xf4, 0xffefffff)
    ∷ (0xf5, 0)
    ∷ (0xf7, 0)
    ∷ (0xf0, 0xffffffff)
    ∷ []

-- `bd_460ex_t`, the fields that are set; the others are 0.
pub record BdInfo : Type 0 where
  pub bi_memstart : ℕ
  pub bi_memsize : ℕ
  pub bi_flashstart : ℕ
  pub bi_flashsize : ℕ
  pub bi_bootflags : ℕ
  pub bi_intfreq : ℕ
  pub bi_busfreq : ℕ
  pub bi_baudrate : ℕ
  pub bi_procfreq : ℕ
  pub bi_plb_busfreq : ℕ
  pub bi_pci_busfreq : ℕ
  pub bi_opbfreq : ℕ

unfoldable pub bd_of : ℕ → BdInfo
bd_of memsize = record {
  bi_memstart = 0;
  bi_memsize = memsize;
  bi_flashstart = 0xfff00000;
  bi_flashsize = 1;
  bi_bootflags = 1;
  bi_intfreq = 1150000000;
  bi_busfreq = 230000000;
  bi_baudrate = 115200;
  bi_procfreq = 1150000000;
  bi_plb_busfreq = 230000000;
  bi_pci_busfreq = 66000000;
  bi_opbfreq = 115000000;
}

abbrev pub sam460_exec_addr : ℕ
sam460_exec_addr = 0x1000000

abbrev pub sam460_serial_base : ℕ
sam460_serial_base = 0xef600300

-- What `sam460_init` leaves in `brd` and `bd`, but for the pointers to functions and to `bd`.
pub record Ready : Type 0 where
  pub handed : Handed
  pub stack : ℕ
  pub bd : BdInfo

module _ {ℓ} {S : Type ℓ} (cpu : Cpu S) where
  unfoldable pub write_tlbs : List TlbWrite → S → S
  write_tlbs [] s = s
  write_tlbs (w ∷ ws) s = write_tlbs ws (cpu.write_tlb w s)

  unfoldable pub mtdcrs : List (ℕ × ℕ) → S → S
  mtdcrs [] s = s
  mtdcrs ((dcrn, val) ∷ ws) s = mtdcrs ws (cpu.mtdcr dcrn val s)

  unfoldable pub setup_uic : S → S
  setup_uic = mtdcrs uic_writes

  unfoldable pub setup_timer : ℕ → S → S
  setup_timer intfreq s =
      let reload = intfreq / 1000 in
      let (tcr, s1) = cpu.mfspr 340 s in
      let s2 = cpu.mtspr 340 (bit_and tcr (sub32 (sub32 0 1) 0x04400000)) s1 in
      let s3 = cpu.mtspr 22 0 s2 in
      let s4 = cpu.mtspr 54 0 s3 in
      let s5 = cpu.mtspr 336 0x08000000 s4 in
      let s6 = cpu.mtspr 54 reload s5 in
      let s7 = cpu.mtspr 22 reload s6 in
      let (now, s8) = cpu.mfspr 340 s7 in
      let s9 = cpu.mtspr 340 (bit_or now 0x04400000) s8 in cpu.mtspr 63 0 s9

  unfoldable pub sam460_init : ℕ → Mem → ℕ → S → Ready × S
  sam460_init fuel m fdt s =
      let handed = read_fdt fuel m fdt in
      let s1 = write_tlbs (setup_tlb handed.memsize) s in
      let s2 = setup_uic s1 in
      let bd = bd_of handed.memsize in
      (
        record { handed = handed; stack = stack_top handed.memsize; bd = bd },
        setup_timer bd.bi_intfreq s2,
      )
