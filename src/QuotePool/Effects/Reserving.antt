-- ===== src/QuotePool/Effects/Reserving.antt =====
-- reserveOption of src/contracts/pool/btc-quote.ts, run to its end.
use frogop_pub.Prelude.{
  ℕ, ◌+◌, ◌*◌, ◌/◌, ◌%◌, ◌<◌, ◌≡◌, ◌≢◌, Bool, some, List, ◌∷◌, inl, inr, Option-cases, update, ltb,
  if◌then◌else◌, arith,
}
use frogop_pub.Runtime.{Runtime, Env, ok, revert, arithmetic, u64_mod, u256_mod}
use frogop_pub.Pool.Base.{registered_key}
use frogop_pub.Pool.State.{
  OptionRecord, status_open, status_reserved, precision, reservation_expiry_blocks, option_reserved,
}
use frogop_pub.Storage.Reservations.{Reservation, reservation_pending}
use frogop_pub.QuotePool.State.{BridgeCalls}
use frogop_pub.QuotePool.Handlers.{State, reserve_option, btc_amount_of, kept_reservation}

module _ (rt : Runtime) (br : BridgeCalls) (zero_present : Bool) where
  open rt use {Ledger}
  open br use {Bridge, price, csv_hash}

  pub btc_amount_of_lem :
      (premium btc_price : ℕ) (s : State rt br zero_present)
      → btc_amount_of rt br zero_present premium btc_price s ≡ (
          if ltb (premium * btc_price) u256_mod
          then ok (premium * btc_price / precision, s)
          else revert arithmetic)
  unfolding btc_amount_of
  btc_amount_of_lem p b s =
      ground (arith, rt.safe_mul_exact p b, rt.safe_div_exact (p * b) precision)

  -- The reservation that is made.
  abbrev pub new_reservation : Env → (id option_id btc_amount : ℕ) → List ℕ → Reservation
  new_reservation env id option_id btc_amount csv_script_hash = record {
    id = id;
    option_id = option_id;
    buyer = env.sender;
    btc_amount = btc_amount;
    csv_script_hash = csv_script_hash;
    expiry_block = (env.block + reservation_expiry_blocks) % u64_mod;
    status = reservation_pending;
  }

  abbrev pub reserved_state :
      State rt br zero_present → Bridge → OptionRecord → ℕ → Reservation → State rt br zero_present
  reserved_state s b o option_id r = record s {
    pool = record s.pool {
      options = update s.pool.options option_id (some (record o { status = status_reserved }));
      events =
          option_reserved r.id option_id r.buyer r.btc_amount r.csv_script_hash r.expiry_block
          ∷ s.pool.events;
    };
    next_reservation_id = s.next_reservation_id + 1;
    reservations = update s.reservations s.next_reservation_id (kept_reservation zero_present r);
    bridge = b;
  }

  pub record Reserved (env : Env) (option_id : ℕ) (s s' : State rt br zero_present) (id : ℕ)
      : Type 0 where
    pub option : OptionRecord
    pub btc_price : ℕ
    pub bridge : Bridge
    pub pubkey : List ℕ
    pub hash : List ℕ
    pub found : s.pool.options option_id ≡ some option
    pub open_before : option.status ≡ status_open
    pub later : (env.block + reservation_expiry_blocks) % u64_mod < option.expiry_block
    pub not_writer : env.sender ≢ option.writer
    pub priced : price env s.pool.premium_token s.bridge ≡ some (btc_price, bridge)
    pub positive : option.premium * btc_price / precision ≢ 0
    pub small : option.premium * btc_price / precision < u64_mod
    pub registered : registered_key s.pool option.writer ≡ some pubkey
    pub hashed : csv_hash pubkey 6 bridge ≡ some hash
    pub room : s.next_reservation_id + 1 < u256_mod
    pub named : id ≡ s.next_reservation_id
    pub left :
        s'
        ≡ reserved_state s bridge option option_id (
            new_reservation env s.next_reservation_id option_id
              (option.premium * btc_price / precision)
              hash)

  pub reserve_option-Reserved :
      (env : Env) (option_id : ℕ) (s s' : State rt br zero_present) (id : ℕ)
      → reserve_option rt br zero_present env option_id s ≡ ok (id, s')
      → Reserved env option_id s s' id
  unfolding reserve_option
  reserve_option-Reserved env i s s' id e = elim (Option-cases (s.pool.options i)) [
    | inl missing ↦ absurd (ground (arith, missing))
    | inr (o, found) ↦ elim (Option-cases (price env s.pool.premium_token s.bridge)) [
      | inl fails ↦ absurd (ground (arith, found, fails))
      | inr ((p, b), priced) ↦ elim (Option-cases (registered_key s.pool o.writer)) [
        | inl unknown ↦ absurd (
            ground (
              arith,
              found,
              priced,
              unknown,
              btc_amount_of_lem o.premium p (record s { bridge = b }),
            ))
        | inr (key, registered) ↦ elim (Option-cases (csv_hash key 6 b)) [
          | inl fails ↦ absurd (
              ground (
                arith,
                found,
                priced,
                registered,
                fails,
                btc_amount_of_lem o.premium p (record s { bridge = b }),
              ))
          | inr (hash, hashed) ↦
              let amount = btc_amount_of_lem o.premium p (record s { bridge = b }) in
              let next = rt.safe_add_exact s.next_reservation_id 1 in
              record {
                option = o;
                btc_price = p;
                bridge = b;
                pubkey = key;
                hash = hash;
                found = found;
                open_before = ground (arith, amount, next);
                later = ground (arith, amount, next);
                not_writer = ground (arith, amount, next);
                priced = priced;
                positive = ground (arith, amount, next);
                small = ground (arith, amount, next);
                registered = registered;
                hashed = hashed;
                room = ground (arith, amount, next);
                named = ground (arith, amount, next);
                left = ground (arith, amount, next);
              }
        ]
      ]
    ]
  ]
