-- ===== src/Pool/Tests/Chain.antt =====
-- A runtime whose token contracts keep balances and nothing else, and a pool on it.
use frogop_pub.Prelude.{
  ℕ, ◌+◌, ◌-◌, ◌*◌, ◌/◌, ◌≡◌, Option, none, some, [], refl, ltb, ◌==◌, if◌then◌else◌, arith,
}
use frogop_pub.Runtime.{Runtime, Env, part_of, u256_mod}
use frogop_pub.Pool.State.{PoolState}

abbrev pub Balances : Type 0
Balances = ℕ → ℕ → ℕ

-- A transfer goes through if the holder has the amount.
abbrev pub send : ℕ → ℕ → ℕ → ℕ → ℕ → Balances → Option Balances
send spender token from to amount l =
    if ltb (l token from) amount
    then none
    else some λ t h. l t h + part_of token to amount t h - part_of token from amount t h

pub send-moves :
    (spender token from to amount : ℕ) (l l' : Balances)
    → send spender token from to amount l ≡ some l'
    → (t h : ℕ) → l' t h + part_of token from amount t h ≡ l t h + part_of token to amount t h
send-moves spender token from to amount l l' e t h = ground arith

abbrev pub plain_chain : Runtime
plain_chain = record {
  safe_add = λ a b. if ltb (a + b) u256_mod then some (a + b) else none;
  safe_sub = λ a b. if ltb a b then none else some (a - b);
  safe_mul = λ a b. if ltb (a * b) u256_mod then some (a * b) else none;
  safe_div = λ a b. if b == 0 then none else some (a / b);
  safe_add_exact = λ a b. refl;
  safe_sub_exact = λ a b. refl;
  safe_mul_exact = λ a b. refl;
  safe_div_exact = λ a b. refl;
  stored = λ bytes. bytes;
  Ledger = Balances;
  balance = λ l. l;
  transfer_from = send;
  moves = send-moves;
}

-- The addresses: the pool, its tokens, the writer, the buyer and the fee recipient.
abbrev pub pool_address : ℕ
pool_address = 900

abbrev pub moto : ℕ
moto = 501

abbrev pub pill : ℕ
pill = 502

abbrev pub alice : ℕ
alice = 1

abbrev pub bob : ℕ
bob = 2

abbrev pub treasury : ℕ
treasury = 3

-- Alice and Bob hold a million of each token.
abbrev pub fresh_pool : PoolState Balances
fresh_pool = record {
  underlying = moto;
  premium_token = pill;
  fee_recipient = treasury;
  grace_period = 144;
  next_id = 0;
  options = λ _. none;
  pubkeys = λ _. none;
  ledger = λ t h. if h == alice then 1_000_000 else (if h == bob then 1_000_000 else 0);
  events = [];
}

abbrev pub at : ℕ → ℕ → Env
at sender block = record { sender = sender; block = block; self = pool_address }
