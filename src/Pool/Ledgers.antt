-- ===== src/Pool/Ledgers.antt =====
-- What a token call that went through does to the holdings of the pool.
use frogop_pub.Prelude.{ℕ, ◌+◌, ◌≤◌, ◌≡◌, ◌≢◌, ◌&&◌, some, ◌==◌, if◌then◌else◌, arith}
use frogop_pub.Runtime.{Runtime}

module _ (rt : Runtime) where
  open rt use {Ledger, balance, transfer_from, moves}

  -- A transfer out of the holdings of `self` takes at most the amount, from one token.
  pub pay_takes :
      (self token to amount t : ℕ) (l l' : Ledger)
      → transfer_from self token self to amount l ≡ some l'
      → balance l t self ≤ balance l' t self + (if token == t then amount else 0)
  pay_takes self token to amount t l l' e =
      ground (arith, moves self token self to amount l l' e t self)

  -- A transfer from somebody else takes nothing from `self`, and brings what is sent to it.
  pub pull_brings :
      (self token from to amount t : ℕ) (l l' : Ledger)
      → from ≢ self
      → transfer_from self token from to amount l ≡ some l'
      → balance l' t self ≡ balance l t self + (if (token == t) && (to == self) then amount else 0)
  pull_brings self token from to amount t l l' other e =
      ground (arith, moves self token from to amount l l' e t self)
