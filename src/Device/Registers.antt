-- ===== src/Device/Registers.antt =====
-- What the set-up of the devices keeps true of the windows.
use bboot.Base.{
  ℕ, zero, suc, ◌+◌, ◌≤◌, Bool, true, false, ltb, ◌==◌, if◌then◌else◌, arith, add32, Bool-cases,
  inl, inr,
}
use bboot.Pci.{Mmio, Ports, pci_dev}
use bboot.Window.{Windows, addr_for_bar, decode_bar, round_up}
use bboot.Device.{
  World, Bars, size_bar, place_bar, bar_step, bar_rounds, map_bars, setup_functions, setup_slot,
  setup_slots, setup_bus,
}

-- What is free starts at or below the end of its window; it may be below the window.
pub record IsWindows (w : Windows) : Type 0 where
  pub ports : w.ioavail ≤ w.iolen
  pub memory : w.memavail ≤ add32 w.membase w.memlen

pub addr_for_bar-IsWindows :
    (type size : ℕ) (w : Windows) → IsWindows w → IsWindows (addr_for_bar type size w).1
unfolding addr_for_bar
addr_for_bar-IsWindows type size w h = elim (Bool-cases (size == 0)) [
  | inl e ↦ rw e h
  | inr e ↦ elim (Bool-cases (type == 1)) [
    | inl t ↦ elim (Bool-cases (ltb w.iolen (add32 (round_up w.ioavail size) size))) [
      | inl l ↦ rw (e, t, l) h
      | inr l ↦ rw (e, t, l) (record { ports = ground (arith, l); memory = h.memory })
    ]
    | inr t ↦
        elim (Bool-cases (ltb (add32 w.membase w.memlen) (add32 (round_up w.memavail size) size))) [
          | inl l ↦ rw (e, t, l) h
          | inr l ↦ rw (e, t, l) (record { ports = h.ports; memory = ground (arith, l) })
        ]
  ]
]

-- Whatever `addr_for_bar` keeps true of the windows, the loops keep true.
module _ {ℓ κ} {S : Type ℓ} (io : Mmio S) (p : Ports) (P : Windows → Type κ) where
  module _ (keeps : (type size : ℕ) (w : Windows) → P w → P (addr_for_bar type size w).1)
      (devfn latency_timer : ℕ) where
    bar_step-keeps :
        (k : Bars S) → P k.world.windows → P (bar_step io p devfn latency_timer k).world.windows
    unfolding bar_step place_bar
    bar_step-keeps k h =
        let bar = (size_bar io p devfn k.index k.world.hardware).0 in
        elim (Bool-cases (bar == 0)) [
          | inl e ↦ rw e h
          | inr e ↦ rw e (keeps (decode_bar bar).0 (decode_bar bar).1 k.world.windows h)
        ]

    bar_rounds-keeps :
        (n : ℕ) (k : Bars S)
        → P k.world.windows
        → P (bar_rounds io p devfn n latency_timer k).world.windows
    unfolding bar_rounds
    bar_rounds-keeps zero k h = h
    bar_rounds-keeps (suc n) k h =
        bar_rounds-keeps n (if ltb k.index 6 then bar_step io p devfn latency_timer k else k)
          (elim (Bool-cases (ltb k.index 6)) [ inl e ↦ rw e (bar_step-keeps k h) | inr e ↦ rw e h ])

    pub map_bars-keeps :
        (cmd : ℕ) (w : World S) → P w.windows → P (map_bars io p devfn latency_timer cmd w).windows
    unfolding map_bars
    map_bars-keeps cmd w h = bar_rounds-keeps 6 (record { index = 0; cmd = cmd; world = w }) h

  module _ (dev : ℕ → World S → World S)
      (dev-keeps : (devfn : ℕ) (w : World S) → P w.windows → P (dev devfn w).windows) where
    setup_functions-keeps :
        (i n j : ℕ) (w : World S) → P w.windows → P (setup_functions io p dev i n j w).windows
    unfolding setup_functions
    setup_functions-keeps i zero j w h = h
    setup_functions-keeps i (suc n) j w h =
        setup_functions-keeps i n (j + 1) (dev (pci_dev 0 i j) w) (dev-keeps (pci_dev 0 i j) w h)

    setup_slot-keeps : (i : ℕ) (w : World S) → P w.windows → P (setup_slot io p dev i w).windows
    unfolding setup_slot
    setup_slot-keeps i w h = either _ _ (dev-keeps (pci_dev 0 i 0) w h)
      where
        either :
            (b : Bool) (v : World S)
            → P v.windows
            → P (if b then v else setup_functions io p dev i 7 1 v).windows
        either true v h = h
        either false v h = setup_functions-keeps i 7 1 v h

    setup_slots-keeps :
        (n i : ℕ) (w : World S) → P w.windows → P (setup_slots io p dev n i w).windows
    unfolding setup_slots
    setup_slots-keeps zero i w h = h
    setup_slots-keeps (suc n) i w h =
        setup_slots-keeps n (i + 1) (setup_slot io p dev i w) (setup_slot-keeps i w h)

    pub setup_bus-keeps : (w : World S) → P w.windows → P (setup_bus io p dev w).windows
    unfolding setup_bus
    setup_bus-keeps w h = setup_slots-keeps 32 0 w h
