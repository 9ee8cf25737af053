-- ===== src/Lib.antt =====
-- A model of bboot, a boot loader that starts AmigaOS on PowerPC machines: it sets up a console and the
-- PCI devices, opens a zip archive in memory, and hands a list of kernel modules to the loader.
--
-- The files, and the code that each models:
-- - Base: the libraries' names that all modules use, Boolean tests, lists over native numbers, bytes and
--   the 32-bit words of the machine; Base.Bits has the laws of `&` and `|` on masks and fields.
-- - Memory: the flat big-endian memory, with the byte-order macros of include/bboot.h and what is used of
--   libc/string_ppc.S. An address is a number, NULL is 0. Memory.Laws says what a store changes.
-- - Cfg: cfg.c and libc/string.c. The static buffer is the list of its 128 bytes, an access in front of it
--   is `none`, and the firmware's answer to `prom_get_options` is an argument. Cfg.Trim and Cfg.Init are
--   about `cfg_init`, Cfg.Lookup about the two queries.
-- - Zip: zip/zip.c, with the headers of zip/junzip.h, on that memory. `puff` of zip/puff.c is a parameter.
--   Zip.Open is about opening, Zip.Find and Zip.Cursor about the directory, Zip.Extract and Zip.Stored about
--   the data, Zip.Archive about an archive that nothing writes to.
-- - Fdt: fdt.c and include/fdt.h. Fdt.Tokens replaces the walk over bytes by one over tokens, Fdt.Tree
--   compares it with a tree, Fdt.Get is about the three readers.
-- - AosList: include/aoslist.h on that memory; AosList.Chain has the invariant of the lists,
--   AosList.Frame what an append leaves alone.
-- - Console: drivers/console.c. A driver's `write` is a function on a state of the machine.
-- - Pci: drivers/pci.c and the device macros of drivers/pci.h. The loads and stores of include/ppc-mmio.h
--   are the hardware, the record `Mmio`; Pci.Lanes states what a host bridge does as `IsBridge`.
-- - Window: `setup_pci_params`, `addr_for_bar` and the decoding of address registers, which
--   brd_amigaone.c and brd_sam460.c share, and the rounding macros of include/bboot.h.
-- - Tlb: `tlbtab` and `setup_tlb` of brd_sam460.c, as the sequence of calls of `write_tlb`.
-- - Uart: drivers/uart8250mem.c on the same `Mmio`.
-- - MemorySize: `find_memory_size` of brd_amigaone.c, with the memory controller as a parameter.
-- - Prom: drivers/prom.c, with the firmware's entry point as a parameter. Prom.Text compares `prom_puts`
--   with the console's `putchars`.
-- - Sam460: what `sam460_init` of brd_sam460.c reads from the device tree and hands on.
-- - Action: what the functions of boot_aos.c do, as a monad with the failures that they report.
-- - Layout: the scan of a Kicklayout file's text in boot_aos.c; Layout.Lines is about a text made of lines.
-- - Kick: boot_aos.c. Kick.Rounds replaces the scan of the text by its lines, Kick.Select is about the
--   lines of one configuration, Kick.Module about the memory of a module, Kick.Kicklist, Kick.Filled, Kick.Listed and
--   Kick.Exec about the list, Kick.Answer about what the caller gets. Kick.Supply and Kick.Load are about
--   loads from an archive that stays in memory, Kick.Plan says what the lines of a configuration ask for, Kick.Section
--   and Kick.Config are about what they load, and Kick.Boot puts these together for a whole archive.
-- - Device: what the two functions `setup_pci_device` share, and the loops over devices of brd_amigaone.c and
--   brd_sam460.c, with the registers that drivers/pci.h names. Device.Registers is about what the loops keep
--   true of the windows, Device.Requests about the addresses that they grant, and
--   Device.Stored about what the registers are given.
-- - AmigaOne: the rest of brd_amigaone.c. AmigaOne.Irq is about the set-up,
--   AmigaOne.Claim about `no_claim`.
-- - Sam460.Pci and Sam460.Init: the rest of brd_sam460.c. Sam460.Tree compares what is read with a tree.
-- - Pegasos: brd_pegasos2.c. Pegasos.Nodes has the walk over the nodes of a bus, Pegasos.Grant is about the
--   addresses, Pegasos.Claim about a claim that fails, Pegasos.Walk about the walk,
--   Pegasos.Bars about the cells that the last loop leaves.
-- - Start: bboot.c. The functions of the other files are the record `Parts`, since each model has a state
--   of its own; Start.Handover is about the call of the loader, and Start.Archive fills the part of
--   boot_aos.c with its model. The loader is a function that may not return; on a stack of its own, which the
--   source does not mean to come back from, what follows the call is the same code.
-- A Tests module beside each runs the code on concrete data and applies the theorems to it.
--
-- State is passed explicitly, and an operation answers its result with the state it leaves. Loops are
-- structural on a count or a list that the source bounds: the entries of an archive, the bytes of a
-- buffer, the polls of a port. The walk of a device tree has no bound in the source; it takes fuel, and
-- its theorems ask for as much as the tree has tokens and its names have bytes. The loop of `putchars`
-- runs for at most one round for each byte. The recursion of `find_memory_size` takes fuel too.
--
-- The loop over the text of a Kicklayout file runs for at most one round for each byte, that over the registers
-- of a device for six rounds, which Device.Requests shows to be enough; the walk over the nodes of a bus takes fuel, `none`
-- where it runs out, and Pegasos.Walk shows that more fuel than nodes is enough.
--
-- Not modelled: libc/printf.c and zip/puff.c, which are other projects' code; the assembly of the
-- start-up file and of libc/string_ppc.S itself; the Makefile and the linker script. What is printed by
-- `printf` is output and is left out, but for the registers that its arguments read. The text of a Kicklayout file is
-- a value that is read once: a claim or a load that overwrites a later line of the text, which boot_aos.c would then
-- read, is outside the model. The tokens of a device tree are all modelled; the trees that Fdt.Tree compares with
-- have no NOPs, and their nodes may have children.
pub mod Base
pub mod Memory
pub mod Cfg
pub mod Zip
pub mod Fdt
pub mod Window
pub mod AosList
pub mod Console
pub mod Pci
pub mod Tlb
pub mod Uart
pub mod Prom
pub mod MemorySize
pub mod Sam460
pub mod Action
pub mod Layout
pub mod Kick
pub mod Device
pub mod AmigaOne
pub mod Pegasos
pub mod Start
