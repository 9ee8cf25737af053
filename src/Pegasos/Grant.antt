-- ===== src/Pegasos/Grant.antt =====
-- The addresses that `addr_for_bar` of brd_pegasos2.c grants.
use bboot.Base.{
  ℕ, ◌+◌, ◌*◌, ◌≤◌, ◌<◌, ◌≢◌, ◌⊎◌, inl, inr, ◌≡◌, refl, ◌==◌, ltb, Bool-cases, arith, word, add32,
  sub32,
}
use bboot.Window.{round_up}
use bboot.Window.Grant.{IsSize, round_up-least}
use bboot.Pegasos.{
  Vars, phys_hi_type, is_reserved, rewind, port_for_bar, io_for_bar, mem_for_bar, addr_for_bar,
}

-- `size` bytes at an address, inside `len` bytes at a base.
abbrev pub Inside : ℕ → ℕ → ℕ → ℕ → Type 0
Inside base len size a = (base ≤ a) × (a + size ≤ base + len)

port_for_bar-Inside :
    (iobase iolen avail size : ℕ) (next : ℕ → ℕ)
    → IsSize size
    → iobase + iolen < word
    → avail + 2 * size ≤ word
    → ((port_for_bar iobase iolen next avail size).0 ≡ 0)
      ⊎ Inside iobase iolen size (port_for_bar iobase iolen next avail size).0
unfolding port_for_bar
port_for_bar-Inside iobase iolen avail size next s h fits =
    let least = round_up-least avail size s (omega arith) in
    elim (Bool-cases (ltb iolen (add32 (round_up avail size) size))) [
      | inl e ↦ inl (rw e refl)
      | inr e ↦ inr (rw e (ground (arith, least.0, least.1, e)))
    ]

mem_for_bar-Inside :
    (size : ℕ) (v : Vars)
    → IsSize size
    → v.membase + v.memlen < word
    → v.membase ≤ v.memavail
    → v.memavail + 2 * size ≤ word
    → ((mem_for_bar size v).0 ≡ 0) ⊎ Inside v.membase v.memlen size (mem_for_bar size v).0
unfolding mem_for_bar
mem_for_bar-Inside size v s h low fits =
    let least = round_up-least v.memavail size s (omega arith) in
    elim (Bool-cases (ltb v.memlen (add32 (sub32 (round_up v.memavail size) v.membase) size))) [
      | inl e ↦ inl (rw e refl)
      | inr e ↦ inr (rw e (ground (arith, least.0, least.1, e)))
    ]

-- The variables between two calls: windows that end in the address space, and memory that is free in its
-- window or behind it; two sizes more do not wrap.
pub record HasRoom (v : Vars) (size : ℕ) : Type 0 where
  pub ports : v.iobase + v.iolen < word
  pub memory : v.membase + v.memlen < word
  pub low : v.membase ≤ v.memavail
  pub reserved_room : v.ioresavail + 2 * size ≤ word
  pub port_room : v.ioavail + 2 * size ≤ word
  pub memory_room : v.memavail + 2 * size ≤ word

-- A register gets no address, or one whose range is inside the window of its kind: that of the ports, also
-- for the ports that are reserved, or that of the memory. Its size is a power of two, and no sum wraps.
pub addr_for_bar-Inside :
    (physhi size : ℕ) (v : Vars)
    → IsSize size
    → HasRoom v size
    → ((addr_for_bar physhi size v).0 ≡ 0)
      ⊎ ((phys_hi_type physhi ≡ 1) × Inside v.iobase v.iolen size (addr_for_bar physhi size v).0)
      ⊎ ((phys_hi_type physhi ≢ 1) × Inside v.membase v.memlen size (addr_for_bar physhi size v).0)
unfolding addr_for_bar io_for_bar
addr_for_bar-Inside physhi size v s h = elim (Bool-cases (size == 0)) [
  | inl z ↦ inl (rw z refl)
  | inr z ↦ elim (Bool-cases (phys_hi_type physhi == 1)) [
    | inl t ↦ elim (Bool-cases (is_reserved physhi)) [
      | inl e ↦
          rw (z, t, e)
            (for_ports (ground (arith, t)) (
              port_for_bar-Inside v.iobase v.iolen v.ioresavail size rewind s h.ports
                h.reserved_room))
      | inr e ↦
          rw (z, t, e)
            (for_ports (ground (arith, t))
              (port_for_bar-Inside v.iobase v.iolen v.ioavail size (λ a. a) s h.ports h.port_room))
    ]
    | inr t ↦ elim (Bool-cases (phys_hi_type physhi == 0)) [
      | inl e ↦ inl (rw (z, t, e) refl)
      | inr e ↦
          rw (z, t, e)
            (for_memory (ground (arith, t))
              (mem_for_bar-Inside size v s h.memory h.low h.memory_room))
    ]
  ]
]
  where
    for_ports :
        {a : ℕ}
        → phys_hi_type physhi ≡ 1
        → (a ≡ 0) ⊎ Inside v.iobase v.iolen size a
        → (a ≡ 0)
          ⊎ ((phys_hi_type physhi ≡ 1) × Inside v.iobase v.iolen size a)
          ⊎ ((phys_hi_type physhi ≢ 1) × Inside v.membase v.memlen size a)
    for_ports t (inl e) = inl e
    for_ports t (inr i) = inr (inl (t, i))

    for_memory :
        {a : ℕ}
        → phys_hi_type physhi ≢ 1
        → (a ≡ 0) ⊎ Inside v.membase v.memlen size a
        → (a ≡ 0)
          ⊎ ((phys_hi_type physhi ≡ 1) × Inside v.iobase v.iolen size a)
          ⊎ ((phys_hi_type physhi ≢ 1) × Inside v.membase v.memlen size a)
    for_memory t (inl e) = inl e
    for_memory t (inr i) = inr (inr (t, i))
