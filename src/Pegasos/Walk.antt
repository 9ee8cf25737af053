-- ===== src/Pegasos/Walk.antt =====
-- The walk of `check_one_bus` over the nodes below a bus.
use bboot.Base.{ℕ, zero, suc, ◌<◌, ◌≢◌, List, [], ◌∷◌, ◌≡◌, refl, some, ==_ne, length, arith}
use bboot.Pci.{Mmio}
use bboot.Prom.{Client, prom_child, prom_peer}
use bboot.Pegasos.{Ram}
use bboot.Pegasos.Nodes.{Board, check_node, check_nodes, check_one_bus}

-- The nodes from `ph` on, each the peer of the one before it, up to the handle 0.
abbrev pub IsChain : (ℕ → ℕ) → ℕ → List ℕ → Type 0
IsChain peer ph [] = ph ≡ 0
IsChain peer ph (n ∷ ns) = (ph ≡ n) × (n ≢ 0) × IsChain peer (peer n) ns

module _ {ℓ} {S : Type ℓ} (io : Mmio S) (ram : Ram S) (c : Client S) where
  -- The checks of some nodes, one after the other, with the firmware's calls between them.
  unfoldable pub check_all : List ℕ → Board S → Board S
  check_all [] b = b
  check_all (n ∷ ns) b =
      let done = check_node io ram c n b in
      check_all ns (record done { machine = (prom_peer c n done.machine).1 })

  check_nodes-check_all :
      (peer : ℕ → ℕ) (fuel ph : ℕ) (ns : List ℕ) (b : Board S)
      → ((n : ℕ) (s : S) → (prom_peer c n s).0 ≡ peer n)
      → IsChain peer ph ns
      → length ns < fuel
      → check_nodes io ram c fuel ph b ≡ some (check_all ns b)
  unfolding check_nodes check_all
  check_nodes-check_all peer zero ph ns b law k h = absurd (omega (arith, h))
  check_nodes-check_all peer (suc fuel) ph [] b law k h = rw k refl
  check_nodes-check_all peer (suc fuel) ph (n ∷ ns) b law k h =
      rw (k.0, ==_ne n 0 k.1, law n (check_node io ram c n b).machine)
        (check_nodes-check_all peer fuel (peer n) ns _ law k.2 (omega (arith, h)))

  -- Each node below a bus is checked once, in the order of the firmware's tree, whatever the checks do to
  -- the machine. The firmware's answers to `child` and `peer` do not depend on its state, and there is
  -- more fuel than there are nodes.
  pub check_one_bus-check_all :
      (peer : ℕ → ℕ) (first fuel bus : ℕ) (ns : List ℕ) (b : Board S)
      → ((n : ℕ) (s : S) → (prom_peer c n s).0 ≡ peer n)
      → ((s : S) → (prom_child c bus s).0 ≡ first)
      → IsChain peer first ns
      → length ns < fuel
      → check_one_bus io ram c fuel bus b
        ≡ some (check_all ns (record b { machine = (prom_child c bus b.machine).1 }))
  unfolding check_one_bus
  check_one_bus-check_all peer first fuel bus ns b law law' k h =
      rw (law' b.machine) (check_nodes-check_all peer fuel first ns _ law k h)
