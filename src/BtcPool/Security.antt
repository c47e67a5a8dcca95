-- ===== src/BtcPool/Security.antt =====
-- What a type 2 pool (src/contracts/pool/btc-underlying.ts) keeps to: it holds the collateral of its
-- live puts, and every call has a Bitcoin output of its own behind it.
use frogop_pub.Prelude.{
  ℕ, ◌+◌, ◌≤◌, ◌<◌, ◌≡◌, ◌≢◌, refl, sym, ◌∙◌, ap, true, false, not, ◌&&◌, Option, none, some, List,
  inl, inr, ◌==◌, if◌then◌else◌, update, sum_below, sum_below_change, sum_below_cong, ◌⊎◌, arith,
  add-one, Bool-cases,
}
use frogop_pub.Runtime.{Runtime}
use frogop_pub.Pool.State.{PoolState, OptionRecord, call}
use frogop_pub.Pool.Amounts.{strike_value_of}
use frogop_pub.Pool.Solvency.{IsFresh, is_live, find-lt}
use frogop_pub.QuotePool.State.{BridgeCalls}
use frogop_pub.BtcPool.Handlers.{State}

-- What an option locks in the premium token: the strike value, if it is a live put.
abbrev pub put_lock : OptionRecord → ℕ
put_lock o =
    if is_live o.status && not (o.option_type == call)
    then strike_value_of o.strike_price o.underlying_amount
    else 0

abbrev pub put_lock_in : Option OptionRecord → ℕ
put_lock_in none = 0
put_lock_in (some o) = put_lock o

unfoldable pub puts_locked : {L : Type 0} → PoolState L → ℕ
puts_locked p = sum_below p.next_id λ i. put_lock_in (p.options i)

puts_locked-change :
    {L : Type 0} (id : ℕ) (p p' : PoolState L) (o o' : OptionRecord)
    → IsFresh p
    → p.options id ≡ some o
    → p'.next_id ≡ p.next_id
    → p'.options ≡ update p.options id (some o')
    → puts_locked p' + put_lock o ≡ puts_locked p + put_lock o'
unfolding puts_locked
puts_locked-change id p p' o o' fresh e en eo =
    rw (en, eo)
      (omega (
        arith,
        sum_below_change p.next_id id (λ i. put_lock_in (p.options i))
            (λ i. put_lock_in (update p.options id (some o') i)) (find-lt id p o fresh e)
            (λ i ne. ground arith),
        at_old,
        at_new,
      ))
  where
    at_old : put_lock_in (p.options id) ≡ put_lock o
    at_old = rw e

    at_new : put_lock_in (update p.options id (some o') id) ≡ put_lock o'
    at_new = ground arith

puts_locked-append :
    {L : Type 0} (p p' : PoolState L) (o : OptionRecord)
    → p'.next_id ≡ p.next_id + 1
    → p'.options ≡ update p.options p.next_id (some o)
    → puts_locked p' ≡ put_lock o + puts_locked p
unfolding puts_locked sum_below
puts_locked-append p p' o en eo =
    rw (en, eo, add-one)
      (omega (
        arith,
        at_new,
        sum_below_cong p.next_id (λ i. put_lock_in (update p.options p.next_id (some o) i))
            (λ i. put_lock_in (p.options i)) (λ i lt. ground arith),
      ))
  where
    at_new : put_lock_in (update p.options p.next_id (some o) p.next_id) ≡ put_lock o
    at_new = ground arith

module _ (rt : Runtime) (br : BridgeCalls) where
  open rt use {Ledger, balance}
  open br use {Bridge, used}

  abbrev pub Pool : Type 0
  Pool = State rt br

  -- What the pool at `self` has of the premium token.
  abbrev pub held : ℕ → Pool → ℕ
  held self s = balance s.pool.ledger s.pool.premium_token self

  abbrev pub IsCall : Pool → ℕ → OptionRecord → Type 0
  IsCall s i o = (s.pool.options i ≡ some o) × (o.option_type ≡ call)

  -- Each call has the value of an output that was used up for its escrow and is at least its amount;
  -- no two calls have the same output.
  pub record Backing (s : Pool) : Type 0 where
    pub value : ℕ → ℕ
    pub enough :
        (i : ℕ) (o : OptionRecord)
        → IsCall s i o
        → (s.btc_collateral i ≡ o.underlying_amount) × (o.underlying_amount ≤ value i)
    pub spent :
        (i : ℕ) (o : OptionRecord)
        → IsCall s i o
        → used s.bridge (s.escrow_hashes i) (value i) ≡ true
    pub own :
        (i j : ℕ) (o q : OptionRecord)
        → IsCall s i o
        → IsCall s j q
        → s.escrow_hashes i ≡ s.escrow_hashes j
        → value i ≡ value j
        → i ≡ j

  pub record IsSecured (self : ℕ) (s : Pool) : Type 0 where
    pub fresh : IsFresh s.pool
    pub solvent : puts_locked s.pool ≤ held self s
    pub backing : Backing s

  -- What was used up stays so.
  abbrev pub KeepsUsed : Bridge → Bridge → Type 0
  KeepsUsed b b' = (h : List ℕ) (v : ℕ) → used b h v ≡ true → used b' h v ≡ true

  -- A call changes one option: its terms stay, what it unlocks may leave the pool, and the Bitcoin
  -- fields stay.
  pub record Changes (self id : ℕ) (s s' : Pool) : Type 0 where
    pub option : OptionRecord
    pub new_option : OptionRecord
    pub found : s.pool.options id ≡ some option
    pub same_type : new_option.option_type ≡ option.option_type
    pub same_amount : new_option.underlying_amount ≡ option.underlying_amount
    pub options : s'.pool.options ≡ update s.pool.options id (some new_option)
    pub next_id : s'.pool.next_id ≡ s.pool.next_id
    pub premium_token : s'.pool.premium_token ≡ s.pool.premium_token
    pub btc_collateral : s'.btc_collateral ≡ s.btc_collateral
    pub escrow_hashes : s'.escrow_hashes ≡ s.escrow_hashes
    pub keeps_used : KeepsUsed s.bridge s'.bridge
    pub pays : put_lock new_option + held self s ≤ put_lock option + held self s'

  -- The calls after a change are the calls before it.
  Changes-IsCall :
      (self id : ℕ) (s s' : Pool) (c : Changes self id s s') (i : ℕ) (o : OptionRecord)
      → IsCall s' i o
      → (q : OptionRecord) × IsCall s i q × (o.underlying_amount ≡ q.underlying_amount)
  Changes-IsCall self id s s' c i o (there, is_call) =
      let at = ap (λ (f : ℕ → Option OptionRecord). f i) c.options in
      elim (Bool-cases (id == i)) [
        | inl same ↦
            let ids : id ≡ i = ground (arith, same) in
            let it : o ≡ c.new_option = ground (arith, same, there, at) in
            (
              c.option,
              (rw (← ids) c.found, sym c.same_type ∙ rw (← it) is_call),
              rw it c.same_amount,
            )
        | inr other ↦ (o, (ground (arith, other, there, at), is_call), refl)
      ]

  pub Changes-IsSecured :
      (self id : ℕ) (s s' : Pool) → Changes self id s s' → IsSecured self s → IsSecured self s'
  Changes-IsSecured self id s s' c h = record {
    fresh = λ i le. ground (
      arith,
      find-lt id s.pool c.option h.fresh c.found,
      c.next_id,
      h.fresh i (rw (← c.next_id) le),
      ap (λ (f : ℕ → Option OptionRecord). f i) c.options,
    );
    solvent = omega (
      arith,
      c.pays,
      h.solvent,
      puts_locked-change id s.pool s'.pool c.option c.new_option h.fresh c.found c.next_id
          c.options,
    );
    backing = record {
      value = h.backing.value;
      enough = λ i o is.
          (let (q, was, same) = Changes-IsCall self id s s' c i o is in
            rw (c.btc_collateral, same) (h.backing.enough i q was));
      spent = λ i o is.
          (let (q, was, same) = Changes-IsCall self id s s' c i o is in
            rw c.escrow_hashes (c.keeps_used _ _ (h.backing.spent i q was)));
      own = λ i j o q is_i is_j hashes values.
          (let (o', was_i, _) = Changes-IsCall self id s s' c i o is_i in
            let (q', was_j, _) = Changes-IsCall self id s s' c j q is_j in
            h.backing.own i j o' q' was_i was_j (rw c.escrow_hashes at hashes) values);
    };
  }

  -- A call adds an option under the next identifier: the collateral of a put comes in, and that of a
  -- call is an output that was not used up before.
  pub record Adds (self : ℕ) (s s' : Pool) : Type 0 where
    pub option : OptionRecord
    pub options : s'.pool.options ≡ update s.pool.options s.pool.next_id (some option)
    pub next_id : s'.pool.next_id ≡ s.pool.next_id + 1
    pub premium_token : s'.pool.premium_token ≡ s.pool.premium_token
    pub keeps_used : KeepsUsed s.bridge s'.bridge
    pub brings : put_lock option + held self s ≤ held self s'
    pub value : ℕ
    pub btc_collateral : (i : ℕ) → i < s.pool.next_id → s'.btc_collateral i ≡ s.btc_collateral i
    pub escrow_hashes : (i : ℕ) → i < s.pool.next_id → s'.escrow_hashes i ≡ s.escrow_hashes i
    pub escrowed :
        option.option_type ≡ call
        → (s'.btc_collateral s.pool.next_id ≡ option.underlying_amount)
          × (option.underlying_amount ≤ value)
          × (used s.bridge (s'.escrow_hashes s.pool.next_id) value ≡ false)
          × (used s'.bridge (s'.escrow_hashes s.pool.next_id) value ≡ true)

  -- The calls after an addition are the calls before it and the new one.
  which_call :
      (self : ℕ) (s s' : Pool) (c : Adds self s s') (i : ℕ) (o : OptionRecord)
      → IsFresh s.pool
      → IsCall s' i o
      → ((i < s.pool.next_id) × IsCall s i o)
        ⊎ ((i ≡ s.pool.next_id) × (o ≡ c.option) × (c.option.option_type ≡ call))
  which_call self s s' c i o fresh (there, is_call) =
      let at = ap (λ (f : ℕ → Option OptionRecord). f i) c.options in
      elim (Bool-cases (s.pool.next_id == i)) [
        | inl new ↦
            let it : o ≡ c.option = ground (arith, new, there, at) in
            inr (ground (arith, new), it, rw (← it) is_call)
        | inr other ↦
            let was : s.pool.options i ≡ some o = ground (arith, other, there, at) in
            inl (find-lt i s.pool o fresh was, (was, is_call))
      ]

  -- A call that was there has another output than the new one.
  other_output :
      (self : ℕ) (s s' : Pool) (c : Adds self s s') (h : Backing s) (i j : ℕ) (o : OptionRecord)
      → IsCall s i o
      → i < s.pool.next_id
      → j ≡ s.pool.next_id
      → c.option.option_type ≡ call
      → s'.escrow_hashes i ≡ s'.escrow_hashes j
      → h.value i ≢ c.value
  other_output self s s' c h i j o was lt new is_call hashes same =
      let unused = (c.escrowed is_call).2 in
      let at : s.escrow_hashes i ≡ s'.escrow_hashes s.pool.next_id =
        sym (c.escrow_hashes i lt) ∙ hashes ∙ ap (λ k. s'.escrow_hashes k) new in
      let spent : used s.bridge (s'.escrow_hashes s.pool.next_id) c.value ≡ true =
        rw (← at, ← same) (h.spent i o was) in
      ground (arith, unused, spent)

  pub Adds-IsSecured :
      (self : ℕ) (s s' : Pool) → Adds self s s' → IsSecured self s → IsSecured self s'
  Adds-IsSecured self s s' c h = record {
    fresh = λ i le. ground (
      arith,
      c.next_id,
      h.fresh i (omega (arith, le, c.next_id)),
      ap (λ (f : ℕ → Option OptionRecord). f i) c.options,
    );
    solvent = omega (
      arith,
      c.brings,
      h.solvent,
      puts_locked-append s.pool s'.pool c.option c.next_id c.options,
    );
    backing = record {
      value = update h.backing.value s.pool.next_id c.value;
      enough = λ i o is. elim (which_call self s s' c i o h.fresh is) [
        | inl (lt, was) ↦ ground (arith, lt, c.btc_collateral i lt, h.backing.enough i o was)
        | inr (new, it, is_call) ↦ rw (new, it) (ground (arith, c.escrowed is_call))
      ];
      spent = λ i o is. elim (which_call self s s' c i o h.fresh is) [
        | inl (lt, was) ↦
            let kept = c.keeps_used _ _ (h.backing.spent i o was) in
            let value : update h.backing.value s.pool.next_id c.value i ≡ h.backing.value i =
              ground (arith, lt) in
            rw (c.escrow_hashes i lt, value) kept
        | inr (new, it, is_call) ↦
            let value : update h.backing.value s.pool.next_id c.value s.pool.next_id ≡ c.value =
              ground arith in
            rw (new, value) (c.escrowed is_call).3
      ];
      own = λ i j o q is_i is_j hashes values. elim (which_call self s s' c i o h.fresh is_i) [
        | inl (lt, was) ↦ elim (which_call self s s' c j q h.fresh is_j) [
          | inl (lt', was') ↦
              h.backing.own i j o q was was'
                (sym (c.escrow_hashes i lt) ∙ hashes ∙ c.escrow_hashes j lt')
                (ground (arith, lt, lt', values))
          | inr (new, it, is_call) ↦ absurd (
              other_output self s s' c h.backing i j o was lt new is_call hashes
                (ground (arith, lt, new, values)))
        ]
        | inr (new, it, is_call) ↦ elim (which_call self s s' c j q h.fresh is_j) [
          | inl (lt', was') ↦ absurd (
              other_output self s s' c h.backing j i q was' lt' new is_call (sym hashes)
                (ground (arith, lt', new, values)))
          | inr (new', it', _) ↦ new ∙ sym new'
        ]
      ];
    };
  }
