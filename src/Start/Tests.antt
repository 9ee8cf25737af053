-- ===== src/Start/Tests.antt =====
-- A start on Sam460ex through the `-kernel` option of QEMU, and the theorems at it.
use bboot.Base.{ℕ, ◌+◌, ◌≡◌, refl, none, some, [], ◌∷◌, ◌++◌, codes}
use bboot.Cfg.{cfg_is_option, cfg_get_option, strchr, strcspn, letter_in, has}
use bboot.Console.{
  puts, putchar, putchars, put_lines, after_line, write_line, write_all, upto_newline,
}
use bboot.Prom.{Client}
use bboot.Start.{
  Regs, Brd, Parts, started, came_back, bytes, start, run_on, run, boot, start_exec, hand_over,
  choose_machine, after_loader, boot_failed, give_up, open_console, setup_devices, find_initrd,
  given_initrd, or_default, verbosity, find_args, given_args, note, serial_write, prom_driver,
}
use bboot.Start.Handover.{OnCall, Called, NotCalled, start-IsCall}

-- The state counts the bytes that are sent.
abbrev brd : Brd ℕ
brd = record {
  claim = λ addr size s. (addr, s);
  setup = some (λ s. s);
  info = 0x200000;
  exec_addr = 0x1000000;
  serial_base = 0xef600300;
  initrd_start = 0x2000000;
  initrd_end = 0x2400000;
  bootargs = none;
  stack_top = 0x1ff00000;
}

abbrev client : Client ℕ
client = record { prom = none; prom_chosen = 0; prom_options = 0 }

abbrev parts : Parts ℕ
parts = record {
  sam460_init = λ fdt s. (brd, s);
  amigaone_init = λ s. (brd, s);
  prom_init = λ pe s. (client, s);
  pegasos2_init = λ c s. (brd, s);
  cfg_init = λ of s. (codes "Os V0 Ab" ++ (0 ∷ []), s);
  uart_init = λ base s. s;
  uart_tx_byte = λ base c s. s + 1;
  boot_aos_zipkick = λ b addr len config s. (some (addr + len, 0xec01000), s);
  loader = λ call s. none;
  load = λ a s. 0;
  store = λ a v s. s;
  clear = λ a n s. s;
  string = λ a s. [];
  prom_stdout = 0;
  model = 0;
  initrd_addr = 0;
  initrd_len = 0;
  version = codes "BBoot";
}

abbrev regs : Regs
regs = record { r3 = 0x1800000; r4 = 0; r5 = 0; r6 = 0x45504150; r7 = 0; r8 = 0 }

-- The list that the stub answers is the end of the initial ram disk, and 9 bytes were sent.
starts : start parts regs 0 ≡ (
  started (record {
    fn = 0x1000000;
    stack = 0x1ff00000;
    kicklist = 0x2400000;
    info = 0x200000;
    args = bytes [];
  }),
  9,
)
unfolding start run_on run boot start_exec hand_over after_loader choose_machine open_console
    setup_devices find_initrd given_initrd or_default verbosity find_args given_args note
    serial_write prom_driver cfg_is_option cfg_get_option strchr strcspn letter_in has puts putchar
    putchars put_lines after_line write_line write_all upto_newline
starts = refl

-- A loader that comes back at once.
comes_back :
    (start (record parts { loader = λ call s. some s }) regs 0).0
    ≡ came_back (record {
      fn = 0x1000000;
      stack = 0x1ff00000;
      kicklist = 0x2400000;
      info = 0x200000;
      args = bytes [];
    })
unfolding start run_on run boot start_exec hand_over after_loader boot_failed give_up choose_machine
    open_console setup_devices find_initrd given_initrd or_default verbosity find_args given_args
    note serial_write prom_driver cfg_is_option cfg_get_option strchr strcspn letter_in has puts
    putchar putchars put_lines after_line write_line write_all upto_newline
comes_back = refl

start-IsCall_example :
    OnCall parts (Called parts regs 0) (NotCalled parts regs 0) (start parts regs 0)
start-IsCall_example = start-IsCall parts regs 0
