-- ===== src/Bridge/Prices.antt =====
-- The price cache of getBtcPrice of src/contracts/bridge/contract.ts.
use frogop_pub.Prelude.{
  ℕ, ◌+◌, ◌≤◌, ◌<◌, ◌≡◌, ◌≢◌, true, some, inl, inr, Bool-cases, Option-cases, arith, update,
}
use frogop_pub.Runtime.{Env, ok, u64_mod}
use frogop_pub.Bridge.Bitcoin.{Bitcoin}
use frogop_pub.Bridge.State.{BridgeState}
use frogop_pub.Bridge.Contract.{get_btc_price, query_price, is_cached, max_price_staleness}

module _ (bitcoin : Bitcoin) where
  open bitcoin use {Swap, get_quote}

  -- A cached price is not zero.
  abbrev pub IsPriced : BridgeState Swap → Type 0
  IsPriced s = (token : ℕ) → s.cached_block token ≢ 0 → s.cached_price token ≢ 0

  record Queried (env : Env) (token price : ℕ) (s s' : BridgeState Swap) : Type 0 where
    swap : Swap
    quoted : get_quote s.native_swap token 100_000 s.swap ≡ some (price, swap)
    positive : price ≢ 0
    left : s' ≡ record s {
      cached_price = update s.cached_price token price;
      cached_block = update s.cached_block token env.block;
      swap = swap;
    }

  query_price-Queried :
      (env : Env) (token price : ℕ) (s s' : BridgeState Swap)
      → query_price bitcoin env token s ≡ ok (price, s')
      → Queried env token price s s'
  unfolding query_price
  query_price-Queried env token price s s' e =
      elim (Option-cases (get_quote s.native_swap token 100_000 s.swap)) [
        | inl fails ↦ absurd (ground (arith, fails))
        | inr ((p, w), quote) ↦
            let same : price ≡ p = ground (arith, quote) in
            record {
              swap = w;
              quoted = rw same quote;
              positive = ground (arith, quote);
              left = ground (arith, quote);
            }
      ]

  -- Where every cached price is positive, a price that is returned is positive, and every cached
  -- price still is.
  pub get_btc_price-IsPriced :
      (env : Env) (token price : ℕ) (s s' : BridgeState Swap)
      → IsPriced s
      → get_btc_price bitcoin env token s ≡ ok (price, s')
      → (price ≢ 0) × IsPriced s'
  unfolding get_btc_price query_price
  get_btc_price-IsPriced env token price s s' priced e =
      elim (Bool-cases (is_cached bitcoin s token env.block)) [
        | inl hit ↦
            let value : price ≡ s.cached_price token = ground (arith, hit) in
            let left : s' ≡ s = ground (arith, hit) in
            (rw value (priced token (ground (arith, hit))), rw left priced)
        | inr miss ↦
            let q = query_price-Queried env token price s s' (rw miss at e) in
            (q.positive, λ t set. ground (arith, q.left, priced t))
      ]

  -- A price that was returned at a block other than 0 is returned again, without a call and without
  -- a change, from the cached block to its sixth successor, if that block's number is a u64.
  pub get_btc_price_again :
      (env env' : Env) (token price : ℕ) (s s' : BridgeState Swap)
      → env.block ≢ 0
      → env'.block < u64_mod
      → get_btc_price bitcoin env token s ≡ ok (price, s')
      → s'.cached_block token ≤ env'.block
      → env'.block ≤ s'.cached_block token + max_price_staleness
      → get_btc_price bitcoin env' token s' ≡ ok (price, s')
  unfolding get_btc_price query_price
  get_btc_price_again env env' token price s s' later small e lo hi =
      elim (Bool-cases (is_cached bitcoin s token env.block)) [
        | inl hit ↦
            let left : s' ≡ s = ground (arith, hit) in
            let set : s.cached_block token ≢ 0 = ground (arith, hit) in
            let value : price ≡ s.cached_price token = ground (arith, hit) in
            let fresh : is_cached bitcoin s' token env'.block ≡ true =
              ground (arith, left, set, lo, hi) in
            rw fresh (ground (arith, left, value))
        | inr miss ↦
            let q = query_price-Queried env token price s s' (rw miss at e) in
            let now : s'.cached_block token ≡ env.block = ground (arith, q.left) in
            let fresh : is_cached bitcoin s' token env'.block ≡ true =
              ground (arith, now, later, lo, hi) in
            rw fresh (ground (arith, q.left))
      ]
