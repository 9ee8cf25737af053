-- ===== src/Device/Tests.antt =====
-- Runs of the helpers for a device's registers.
use bboot.Base.{◌≡◌, refl, [], ◌∷◌, ◌++◌, List, ℕ, ◌==◌, if◌then◌else◌}
use bboot.Pci.{
  Mmio, Ports, pci_dev, pci_read_config32, pci_write_config32, pci_write_config16,
  pci_write_config8, pci_set_conf_addr, conf_value,
}
use bboot.Window.{amigaone_windows, addr_for_bar, decode_bar, bar_size, round_up, round_down}
use bboot.Device.{
  World, command_off, command_for, setup_functions, bar_step, place_bar, size_bar, enable_bar,
}
use bboot.Device.Requests.{grant, grants, first_round}

keeps_other_bits : command_off 0x117 ≡ 0x110
unfolding command_off
keeps_other_bits = refl

ports_on : command_for 0xffffff01 0x100 ≡ 0x101
unfolding command_for
ports_on = refl

-- Hardware that answers nothing, and keeps a list of what is set up.
abbrev silent : Mmio (List ℕ)
silent = record {
  read8 = λ a s. (0xff, s);
  read16_le = λ a s. (0xffff, s);
  read32_le = λ a s. (0xffffffff, s);
  write8 = λ a v s. s;
  write16_le = λ a v s. s;
  write32_le = λ a v s. s;
}

abbrev note : ℕ → World (List ℕ) → World (List ℕ)
note devfn w = record w { hardware = w.hardware ++ (devfn ∷ []) }

functions_in_order :
    (setup_functions silent
      (record { pci_conf_addr = 0; pci_data_addr = 4 })
      note
      3
      3
      1
      (record { windows = amigaone_windows; hardware = [] })).hardware
    ≡ 0x80001900 ∷ 0x80001a00 ∷ 0x80001b00 ∷ []
unfolding setup_functions pci_dev
functions_in_order = refl

-- A bridge with a device that has one register, for 256 bytes of memory. The state is the
-- configuration address, and the word that each register was last given.
abbrev State : Type 0
State = ℕ × (ℕ → ℕ)

abbrev bridge : Mmio State
bridge = record {
  read8 = λ a s. (0, s);
  read16_le = λ a s. (0, s);
  read32_le = λ a s. (if s.0 == 0x80002010 then 0xffffff00 else 0, s);
  write8 = λ a v s. s;
  write16_le = λ a v s. s;
  write32_le = λ a v s. if a == 0 then (v, s.1) else (s.0, λ r. if r == s.0 then v else s.1 r);
}

abbrev ports : Ports
ports = record { pci_conf_addr = 0; pci_data_addr = 4 }

abbrev world : World State
world = record { windows = amigaone_windows; hardware = (0, λ r. 0) }

one_register :
    grants bridge ports 0x80002000 0x80 6 (first_round bridge ports 0x80002000 0x80 0 world)
    ≡ (0x80000000, 256) ∷ []
unfolding grants grant bar_step place_bar size_bar enable_bar decode_bar bar_size addr_for_bar
    round_up round_down command_for pci_read_config32 pci_write_config32 pci_write_config16
    pci_write_config8 pci_set_conf_addr conf_value
one_register = refl
