-- ===== src/Cashout/Conserved.antt =====
-- The chips of a cash-out.
use texas_holdem.Base.{ℕ, ◌+◌, ◌≡◌, Option, none, some, List, length, sum, total}
use texas_holdem.Base.Int.{pos_part, neg_part}
use texas_holdem.Pots.{uncalled}
use texas_holdem.Cashout.{Cashout}

abbrev pub back_of : Option (ℕ × ℕ) → ℕ
back_of none = 0
back_of (some (i, back)) = back

-- The payouts of every seat, with the refund, are the whole pot.
pub record IsWhole (live dead : List ℕ) (c : Cashout) : Type 0 where
  pub refund : c.refund ≡ uncalled live
  pub seats : length c.payouts ≡ length live
  pub worth :
      total pos_part c.payouts + back_of c.refund ≡ total neg_part c.payouts + (sum live + sum dead)
