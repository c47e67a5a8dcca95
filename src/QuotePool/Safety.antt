-- ===== src/QuotePool/Safety.antt =====
-- What a type 1 pool (src/contracts/pool/btc-quote.ts) keeps to: it holds the collateral of its live
-- options, and its pending reservations and its reserved options belong to one another.
use frogop_pub.Prelude.{
  ℕ, ◌+◌, ◌≤◌, ◌<◌, ◌≡◌, ◌≢◌, sym, ◌∙◌, ap, false, Option, none, some, inl, inr, ◌⊎◌, Bool-cases,
  ◌==◌, update, arith, lt_or_le, if◌then◌else◌,
}
use frogop_pub.Runtime.{Runtime}
use frogop_pub.Pool.State.{PoolState, OptionRecord, status_reserved}
use frogop_pub.Pool.Solvency.{IsFresh, IsSolvent, Keeps, Covers-IsSolvent, find-lt}
use frogop_pub.Storage.Reservations.{Reservation, reservation_pending}
use frogop_pub.QuotePool.State.{BridgeCalls}
use frogop_pub.QuotePool.Handlers.{State}

module _ {L : Type 0} where
  -- A reserved option is there.
  abbrev pub HasReserved : PoolState L → ℕ → Type 0
  HasReserved p id = (o : OptionRecord) × (p.options id ≡ some o) × (o.status ≡ status_reserved)

  -- Reserved options stay as they are.
  abbrev pub KeepsReserved : PoolState L → PoolState L → Type 0
  KeepsReserved p p' = (id : ℕ) → HasReserved p id → HasReserved p' id

  pub KeepsReserved-change :
      (k : ℕ) (p p' : PoolState L) (o o' : OptionRecord)
      → p.options k ≡ some o
      → o.status ≢ status_reserved
      → p'.options ≡ update p.options k (some o')
      → KeepsReserved p p'
  KeepsReserved-change k p p' o o' found other eo id (r, there, reserved) =
      elim (Bool-cases (k == id)) [
        | inl same ↦
            let ids : k ≡ id = ground (arith, same) in
            let here : p.options id ≡ some o = rw (← ids) found in
            absurd (other (let it : o ≡ r = ground (arith, here, there) in rw it reserved))
        | inr different ↦ (
          r,
          ground (arith, different, there, ap (λ (f : ℕ → Option OptionRecord). f id) eo),
          reserved,
        )
      ]

  pub KeepsReserved-append :
      (p p' : PoolState L) (o' : OptionRecord)
      → IsFresh p
      → p'.options ≡ update p.options p.next_id (some o')
      → KeepsReserved p p'
  KeepsReserved-append p p' o' fresh eo id (r, there, reserved) =
      let below = find-lt id p r fresh there in
      (r, ground (arith, below, there, ap (λ (f : ℕ → Option OptionRecord). f id) eo), reserved)

module _ (rt : Runtime) (br : BridgeCalls) where
  open rt use {Ledger}

  -- A pool on a chain where a zeroed slot does not count as present.
  abbrev pub Quote : Type 0
  Quote = State rt br false

  abbrev pub IsPending : Quote → ℕ → Reservation → Type 0
  IsPending s id r = (s.reservations id ≡ some r) × (r.status ≡ reservation_pending)

  pub record IsSafe (self : ℕ) (s : Quote) : Type 0 where
    pub fresh : IsFresh s.pool
    pub solvent : IsSolvent rt self s.pool
    pub fresh_reservations : (i : ℕ) → s.next_reservation_id ≤ i → s.reservations i ≡ none
    -- The option of a pending reservation is reserved.
    pub reserved : (i : ℕ) (r : Reservation) → IsPending s i r → HasReserved s.pool r.option_id
    -- No option has two pending reservations.
    pub single :
        (i j : ℕ) (r q : Reservation)
        → IsPending s i r
        → IsPending s j q
        → r.option_id ≡ q.option_id
        → i ≡ j

  -- A call that touches no reservation and no reserved option.
  pub pool-IsSafe :
      (self : ℕ) (s s' : Quote)
      → s'.reservations ≡ s.reservations
      → s'.next_reservation_id ≡ s.next_reservation_id
      → Keeps rt self s.pool s'.pool
      → KeepsReserved s.pool s'.pool
      → IsSafe self s
      → IsSafe self s'
  pool-IsSafe self s s' er en keeps kept h = record {
    fresh = keeps.fresh;
    solvent = Covers-IsSolvent rt self s.pool s'.pool keeps.covers h.solvent;
    fresh_reservations = rw (er, en) h.fresh_reservations;
    reserved = λ i r pending. kept r.option_id (h.reserved i r (rw er at pending));
    single = λ i j r q p1 p2. h.single i j r q (rw er at p1) (rw er at p2);
  }

  -- A reservation is added, for an option that was not reserved and now is.
  module _ (self : ℕ) (s s' : Quote) (o o' : OptionRecord) (r : Reservation)
      (found : s.pool.options r.option_id ≡ some o) (free : o.status ≢ status_reserved)
      (now : o'.status ≡ status_reserved)
      (eo : s'.pool.options ≡ update s.pool.options r.option_id (some o'))
      (en : s'.next_reservation_id ≡ s.next_reservation_id + 1)
      (er : s'.reservations
        ≡ update s.reservations s.next_reservation_id (if r.option_id == 0 then none else some r))
      (h : IsSafe self s) where
    at :
        (i : ℕ)
        → s'.reservations i ≡ (
            if s.next_reservation_id == i
            then (if r.option_id == 0 then none else some r)
            else s.reservations i)
    at i = ap (λ (f : ℕ → Option Reservation). f i) er

    which :
        (i : ℕ) (q : Reservation)
        → IsPending s' i q
        → ((i ≡ s.next_reservation_id) × (q ≡ r)) ⊎ IsPending s i q
    which i q (there, pending) = elim (Bool-cases (s.next_reservation_id == i)) [
      | inl new ↦ inl (ground (arith, new), ground (arith, new, there, at i))
      | inr old ↦ inr (ground (arith, old, there, at i), pending)
    ]

    other_option : (i : ℕ) (q : Reservation) → IsPending s i q → q.option_id ≢ r.option_id
    other_option i q pending same =
        let (p, there, reserved) = h.reserved i q pending in
        let here : s.pool.options q.option_id ≡ some o = rw same found in
        free (let it : p ≡ o = ground (arith, here, there) in rw it at reserved)

    added_reserved : (i : ℕ) (q : Reservation) → IsPending s' i q → HasReserved s'.pool q.option_id
    added_reserved i q pending = elim (which i q pending) [
      | inl (at_next, it) ↦
          rw it (o', ground (arith, ap (λ (f : ℕ → Option OptionRecord). f r.option_id) eo), now)
      | inr before ↦
          KeepsReserved-change r.option_id s.pool s'.pool o o' found free eo q.option_id
            (h.reserved i q before)
    ]

    added_single :
        (i j : ℕ) (p q : Reservation)
        → IsPending s' i p
        → IsPending s' j q
        → p.option_id ≡ q.option_id
        → i ≡ j
    added_single i j p q first second same = elim (which i p first) [
      | inl (i_next, p_is) ↦ elim (which j q second) [
        | inl (j_next, q_is) ↦ i_next ∙ sym j_next
        | inr before ↦ absurd (other_option j q before (rw p_is at (sym same)))
      ]
      | inr earlier ↦ elim (which j q second) [
        | inl (j_next, q_is) ↦ absurd (other_option i p earlier (rw q_is at same))
        | inr before ↦ h.single i j p q earlier before same
      ]
    ]

    pub added-IsSafe : Keeps rt self s.pool s'.pool → IsSafe self s'
    added-IsSafe keeps = record {
      fresh = keeps.fresh;
      solvent = Covers-IsSolvent rt self s.pool s'.pool keeps.covers h.solvent;
      fresh_reservations = λ i le. ground (arith, en, le, at i, h.fresh_reservations i);
      reserved = added_reserved;
      single = added_single;
    }

  -- A pending reservation ends, and its option becomes another.
  module _ (self : ℕ) (s s' : Quote) (id : ℕ) (r : Reservation) (r' : Option Reservation)
      (o' : OptionRecord) (was : IsPending s id r)
      (ended : (q : Reservation) → r' ≡ some q → q.status ≢ reservation_pending)
      (eo : s'.pool.options ≡ update s.pool.options r.option_id (some o'))
      (en : s'.next_reservation_id ≡ s.next_reservation_id)
      (er : s'.reservations ≡ update s.reservations id r') (h : IsSafe self s) where
    left_at : (i : ℕ) → s'.reservations i ≡ (if id == i then r' else s.reservations i)
    left_at i = ap (λ (f : ℕ → Option Reservation). f i) er

    earlier : (i : ℕ) (q : Reservation) → IsPending s' i q → IsPending s i q × (id ≢ i)
    earlier i q (there, pending) = elim (Bool-cases (id == i)) [
      | inl same ↦ absurd (ended q (ground (arith, same, there, left_at i)) pending)
      | inr other ↦ ((ground (arith, other, there, left_at i), pending), ground (arith, other))
    ]

    below : id < s.next_reservation_id
    below = elim (lt_or_le id s.next_reservation_id) [
      | inl lt ↦ lt
      | inr le ↦ absurd (cc (h.fresh_reservations id le, was.0))
    ]

    ended_reserved : (i : ℕ) (q : Reservation) → IsPending s' i q → HasReserved s'.pool q.option_id
    ended_reserved i q pending =
        let (before, other) = earlier i q pending in
        let (p, there, reserved) = h.reserved i q before in
        let apart : r.option_id ≢ q.option_id = λ same. other (h.single id i r q was before same) in
        (
          p,
          ground (arith, apart, there, ap (λ (f : ℕ → Option OptionRecord). f q.option_id) eo),
          reserved,
        )

    pub ended-IsSafe : Keeps rt self s.pool s'.pool → IsSafe self s'
    ended-IsSafe keeps = record {
      fresh = keeps.fresh;
      solvent = Covers-IsSolvent rt self s.pool s'.pool keeps.covers h.solvent;
      fresh_reservations = λ i le. ground (arith, en, le, below, left_at i, h.fresh_reservations i);
      reserved = ended_reserved;
      single = λ i j p q first second same.
          h.single i j p q (earlier i p first).0 (earlier j q second).0 same;
    }
