-- ===== src/Pegasos/Claim.antt =====
-- A failed claim on Pegasos II, as the callers of `brd.claim` see it.
use bboot.Base.{ℕ, ◌≡◌, refl, word, ◌-◌}
use bboot.Zip.{Puff}
use bboot.Action.{Machine, ok}
use bboot.Prom.{Client, prom_claim}
use bboot.Pegasos.{of_claim, pegasos2_exec_addr}
use bboot.Kick

abbrev pub board {ℓ} : {S : Type ℓ} → Client S → Kick.Board S
board c = record { claim = of_claim c; exec_addr = pegasos2_exec_addr }

-- Where the firmware answers a claim with -1, its sign of failure, the claim is taken for granted, and what
-- was asked for would start at the last address.
pub claim_or_fail-of_claim {ℓ} :
    {S : Type ℓ} (c : Client S) (puff : Puff) (addr size : ℕ) (m : Machine S) {s : S}
    → prom_claim c addr size 0 m.firmware ≡ (word - 1, s)
    → Kick.claim_or_fail (board c) puff addr size m ≡ (ok (word - 1), record m { firmware = s })
unfolding Kick.claim_or_fail Kick.claim of_claim
claim_or_fail-of_claim c puff addr size m e = rw e refl
