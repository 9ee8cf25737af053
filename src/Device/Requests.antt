-- ===== src/Device/Requests.antt =====
-- The loop over the registers of a device places them as `place_bars` places a list of them.
use bboot.Base.{
  arith, ◌+◌, bit_and, Bool, true, false, ℕ, zero, suc, List, [], ◌∷◌, ◌≡◌, refl, ap, sym, ◌∙◌, ◌≤◌,
  ◌<◌, word, ◌==◌, ltb, if◌then◌else◌, Bool-cases, inl, inr,
}
use bboot.Pci.{Mmio, Ports}
use bboot.Window.{Windows, addr_for_bar, decode_bar, place_bars}
use bboot.Window.Grant.{top, AreMemoryBars, IsLaid, place_bars-IsLaid}
use mathlib.Core.Path.{subst}
use bboot.Device.{World, Bars, size_bar, place_bar, bar_step, bar_rounds, bar_mem_limit_64}

module _ {ℓ} {S : Type ℓ} (io : Mmio S) (p : Ports) (devfn latency_timer : ℕ) where
  -- What the register that a round looks at reads as, 0 where no register is left.
  abbrev pub found : Bars S → ℕ
  found k = if ltb k.index 6 then (size_bar io p devfn k.index k.world.hardware).0 else 0

  abbrev pub next : Bars S → Bars S
  next k = if ltb k.index 6 then bar_step io p devfn latency_timer k else k

  -- The types and sizes of the registers that the rounds find.
  unfoldable pub requests : ℕ → Bars S → List (ℕ × ℕ)
  requests zero k = []
  requests (suc n) k =
      let rest = requests n (next k) in if found k == 0 then rest else decode_bar (found k) ∷ rest

  -- The address that a round gives to the register it finds, which it stores there unless it is 0, and
  -- the windows that it leaves.
  unfoldable pub grant : Bars S → ℕ × Windows
  grant k = addr_for_bar (decode_bar (found k)).0 (decode_bar (found k)).1 k.world.windows

  -- The addresses that the rounds give, each with the size of the register.
  unfoldable pub grants : ℕ → Bars S → List (ℕ × ℕ)
  grants zero k = []
  grants (suc n) k =
      let rest = grants n (next k) in
      if found k == 0 then rest else ((grant k).0, (decode_bar (found k)).1) ∷ rest

  next-windows :
      (k : Bars S)
      → (next k).world.windows ≡ (if found k == 0 then k.world.windows else (grant k).1)
  unfolding bar_step place_bar grant
  next-windows k = elim (Bool-cases (ltb k.index 6)) [
    | inl e ↦ elim (Bool-cases ((size_bar io p devfn k.index k.world.hardware).0 == 0)) [
      | inl z ↦ rw (e, z) refl
      | inr z ↦ rw (e, z) refl
    ]
    | inr e ↦ rw e refl
  ]

  bar_rounds-place_bars :
      (n : ℕ) (k : Bars S)
      → place_bars (requests n k) k.world.windows
        ≡ (grants n k, (bar_rounds io p devfn n latency_timer k).world.windows)
  unfolding bar_rounds requests grants grant place_bars
  bar_rounds-place_bars zero k = refl
  bar_rounds-place_bars (suc n) k = elim (Bool-cases (found k == 0)) [
    | inl z ↦ rw z (
        ap (place_bars (requests n (next k))) (sym (next-windows k ∙ rw z refl))
        ∙ bar_rounds-place_bars n (next k))
    | inr z ↦ rw z (
        ap (λ (r : List (ℕ × ℕ) × Windows). (((grant k).0, (decode_bar (found k)).1) ∷ r.0, r.1))
          (ap (place_bars (requests n (next k))) (sym (next-windows k ∙ rw z refl))
            ∙ bar_rounds-place_bars n (next k)))
  ]

  abbrev pub first_round : ℕ → World S → Bars S
  first_round cmd w = record { index = 0; cmd = cmd; world = w }

  -- The memory registers of a device are granted ranges that are in order and so do not overlap, are aligned to their
  -- sizes and are inside the window from the first free address on; a register that does not fit gets the
  -- address 0. The registers that the loop finds are memory registers whose sizes are powers of two, the
  -- window ends two sizes or more below the end of the address space, and what is free lies in it.
  pub bar_rounds-IsLaid :
      (cmd : ℕ) (w : World S)
      → w.windows.memavail ≤ top w.windows
      → top w.windows < word
      → AreMemoryBars w.windows (requests 6 (first_round cmd w))
      → IsLaid w.windows.memavail (top w.windows) (grants 6 (first_round cmd w))
  bar_rounds-IsLaid cmd w a h bars =
      subst (λ (r : List (ℕ × ℕ) × Windows). IsLaid w.windows.memavail (top w.windows) r.0)
        (bar_rounds-place_bars 6 (first_round cmd w))
        (place_bars-IsLaid (requests 6 (first_round cmd w)) w.windows a h bars)

  -- Six rounds are enough for the six registers.
  pub bar_step-index : (k : Bars S) → k.index < (bar_step io p devfn latency_timer k).index
  unfolding bar_step place_bar
  bar_step-index k =
      let bar = (size_bar io p devfn k.index k.world.hardware).0 in
      elim (Bool-cases (bar == 0)) [
        | inl z ↦ rw z (omega arith)
        | inr z ↦ rw z (go (bit_and (decode_bar bar).0 bar_mem_limit_64 == 0))
      ]
    where
      go : (b : Bool) → k.index < (if b then k.index + 1 else k.index + 2)
      go true = omega arith
      go false = omega arith

  pub bar_rounds-done :
      (n : ℕ) (k : Bars S) → 6 ≤ k.index + n → 6 ≤ (bar_rounds io p devfn n latency_timer k).index
  unfolding bar_rounds
  bar_rounds-done zero k h = omega arith
  bar_rounds-done (suc n) k h = bar_rounds-done n (next k) (elim (Bool-cases (ltb k.index 6)) [
    | inl e ↦ rw e (omega (arith, bar_step-index k))
    | inr e ↦ rw e (ground (arith, e))
  ])
