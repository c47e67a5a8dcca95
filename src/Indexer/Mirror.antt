-- ===== src/Indexer/Mirror.antt =====
-- The table of options against the options of a type 0 pool (src/contracts/pool/contract.ts): what the
-- statements for a pool's events keep.
use frogop_pub.Prelude.{
  ℕ, ◌+◌, ◌≡◌, refl, sym, ap, ◌∙◌, ◌||◌, Option, none, some, List, [], ◌∷◌, ◌++◌, inl, inr, ◌==◌,
  if◌then◌else◌, update, arith, subst, Option-cases,
}
use mathlib.Core.List.{append_assoc}
use frogop_pub.Pool.State.{PoolState, OptionRecord, Event, status_open, status_cancelled}
use frogop_pub.Pool.Solvency.{IsFresh, find-lt}
use frogop_pub.Indexer.Tables.{OptionRow, Tables, put_row, change_row, or_ignore, batch}
use frogop_pub.Indexer.Emission.{BytesWriter}
use frogop_pub.Indexer.Statements.{statements_of}

-- What a row says of an option; the block and the transaction of the last change are left out.
pub record Listing : Type 0 where
  pub writer : List ℕ
  pub buyer : Option (List ℕ)
  pub option_type : ℕ
  pub strike_price : ℕ
  pub underlying_amt : ℕ
  pub premium : ℕ
  pub expiry_block : ℕ
  pub grace_end_block : ℕ
  pub status : ℕ
  pub created_block : ℕ

abbrev pub listing : OptionRow → Listing
listing row = record {
  writer = row.writer;
  buyer = row.buyer;
  option_type = row.option_type;
  strike_price = row.strike_price;
  underlying_amt = row.underlying_amt;
  premium = row.premium;
  expiry_block = row.expiry_block;
  grace_end_block = row.grace_end_block;
  status = row.status;
  created_block = row.created_block;
}

abbrev pub listed : Option OptionRow → Option Listing
listed none = none
listed (some row) = some (listing row)

module _ (bw : BytesWriter) where
  -- What the row of an option must say: its terms, the end of its grace period, its status and, once
  -- it was bought, its buyer.
  abbrev pub expected : ℕ → OptionRecord → Listing
  expected grace o = record {
    writer = bw.write_address o.writer;
    buyer =
        if o.status == status_open || o.status == status_cancelled
        then none
        else some (bw.write_address o.buyer);
    option_type = o.option_type;
    strike_price = o.strike_price;
    underlying_amt = o.underlying_amount;
    premium = o.premium;
    expiry_block = o.expiry_block;
    grace_end_block = o.expiry_block + grace;
    status = o.status;
    created_block = o.created_block;
  }

  abbrev pub expected_in : ℕ → Option OptionRecord → Option Listing
  expected_in grace none = none
  expected_in grace (some o) = some (expected grace o)

  module _ (pool : ℕ) where
    -- The statements for events, of which the latest stands first, in the order of emission.
    unfoldable pub recorded : (block tx grace : ℕ) → List Event → Tables → Tables
    recorded block tx grace [] db = db
    recorded block tx grace (e ∷ es) db =
        batch (statements_of bw pool block tx grace e) (recorded block tx grace es db)

    recorded-append :
        (block tx grace : ℕ) (es fs : List Event) (db : Tables)
        → recorded block tx grace (es ++ fs) db
          ≡ recorded block tx grace es (recorded block tx grace fs db)
    unfolding recorded
    recorded-append block tx grace [] fs db = refl
    recorded-append block tx grace (e ∷ es) fs db =
        ap (batch (statements_of bw pool block tx grace e))
          (recorded-append block tx grace es fs db)

  module _ {L : Type 0} (pool : ℕ) where
    -- The table has a row for each option of the pool, which says of it what it must, and no other
    -- row for the pool.
    abbrev pub Mirrors : PoolState L → Tables → Type 0
    Mirrors s db =
        (id : ℕ) → listed (db.options pool id) ≡ expected_in s.grace_period (s.options id)

    -- From `s` to `s'` at a block the pool emits events whose statements keep the table a mirror.
    pub record Follows (block : ℕ) (s s' : PoolState L) : Type 0 where
      pub news : List Event
      pub events : s'.events ≡ news ++ s.events
      pub grace : s'.grace_period ≡ s.grace_period
      pub fresh : IsFresh s → IsFresh s'
      pub mirrors :
          (tx : ℕ) (db : Tables)
          → IsFresh s
          → Mirrors s db
          → Mirrors s' (recorded pool block tx s.grace_period news db)

    pub Follows-same :
        (block : ℕ) (s s' : PoolState L)
        → s'.events ≡ s.events
        → s'.grace_period ≡ s.grace_period
        → s'.options ≡ s.options
        → s'.next_id ≡ s.next_id
        → Follows block s s'
    unfolding recorded
    Follows-same block s s' ee eg eo en = record {
      news = [];
      events = ee;
      grace = eg;
      fresh = λ h. rw (eo, en) h;
      mirrors = λ tx db fresh h. rw (eg, eo) h;
    }

    -- Nothing changes, and the statements for the event leave the table of options as it is.
    pub Follows-silent :
        (block : ℕ) (s : PoolState L) (e : Event)
        → ((tx : ℕ) (db : Tables)
            → (batch (statements_of bw pool block tx s.grace_period e) db).options ≡ db.options)
        → Follows block s (record s { events = e ∷ s.events })
    unfolding recorded
    Follows-silent block s e effect = record {
      news = e ∷ [];
      events = refl;
      grace = refl;
      fresh = λ h. h;
      mirrors = λ tx db fresh h. rw (effect tx db) h;
    }

    pub Follows-trans :
        (block : ℕ) (s t u : PoolState L)
        → Follows block s t
        → Follows block t u
        → Follows block s u
    Follows-trans block s t u h k = record {
      news = k.news ++ h.news;
      events =
          k.events ∙ ap (λ es. k.news ++ es) h.events ∙ sym (append_assoc k.news h.news s.events);
      grace = k.grace ∙ h.grace;
      fresh = λ f. k.fresh (h.fresh f);
      mirrors = λ tx db f m. rw (recorded-append pool block tx s.grace_period k.news h.news db) (
          subst
            (λ g.
              Mirrors u
                (recorded pool block tx g k.news (recorded pool block tx s.grace_period h.news db)))
            h.grace
            (k.mirrors tx (recorded pool block tx s.grace_period h.news db) (h.fresh f)
              (h.mirrors tx db f m)));
    }

    -- One option changes, and the event changes its row.
    pub Follows-change :
        (block id : ℕ) (s s' : PoolState L) (o o' : OptionRecord) (e : Event)
        (f : ℕ → OptionRow → OptionRow)
        → s.options id ≡ some o
        → s'.events ≡ e ∷ s.events
        → s'.grace_period ≡ s.grace_period
        → s'.next_id ≡ s.next_id
        → s'.options ≡ update s.options id (some o')
        → ((tx : ℕ) (db : Tables)
            → (batch (statements_of bw pool block tx s.grace_period e) db).options
              ≡ put_row db.options pool id (change_row (f tx) (db.options pool id)))
        → ((tx : ℕ) (row : OptionRow)
            → listing row ≡ expected s.grace_period o
            → listing (f tx row) ≡ expected s.grace_period o')
        → Follows block s s'
    unfolding recorded
    Follows-change block id s s' o o' e f found ee eg en eo effect says = record {
      news = e ∷ [];
      events = ee;
      grace = eg;
      fresh = λ fresh i le. ground (
        arith,
        find-lt id s o fresh found,
        fresh i (rw (← en) le),
        ap (λ (g : ℕ → Option OptionRecord). g i) eo,
        en,
      );
      mirrors = λ tx db fresh h i. rw (eg, eo, effect tx db) (changed tx i db (h id) (h i));
    }
      where
        changed :
            (tx i : ℕ) (db : Tables)
            → listed (db.options pool id) ≡ expected_in s.grace_period (s.options id)
            → listed (db.options pool i) ≡ expected_in s.grace_period (s.options i)
            → listed (put_row db.options pool id (change_row (f tx) (db.options pool id)) pool i)
              ≡ expected_in s.grace_period (update s.options id (some o') i)
        changed tx i db here there = elim (Option-cases (db.options pool id)) [
          | inl missing ↦ absurd (ground (arith, missing, here, found))
          | inr (row, is_row) ↦
              let now = says tx row (ground (arith, is_row, here, found)) in
              ground (arith, is_row, now, there)
        ]

    -- An option is added, and the event inserts its row.
    pub Follows-append :
        (block : ℕ) (s s' : PoolState L) (o : OptionRecord) (e : Event) (row : ℕ → OptionRow)
        → s'.events ≡ e ∷ s.events
        → s'.grace_period ≡ s.grace_period
        → s'.next_id ≡ s.next_id + 1
        → s'.options ≡ update s.options s.next_id (some o)
        → ((tx : ℕ) (db : Tables)
            → (batch (statements_of bw pool block tx s.grace_period e) db).options
              ≡ put_row db.options pool s.next_id
                  (some (or_ignore (db.options pool s.next_id) (row tx))))
        → ((tx : ℕ) → listing (row tx) ≡ expected s.grace_period o)
        → Follows block s s'
    unfolding recorded
    Follows-append block s s' o e row ee eg en eo effect says = record {
      news = e ∷ [];
      events = ee;
      grace = eg;
      fresh = λ fresh i le. ground (
        arith,
        en,
        fresh i (omega (arith, le, en)),
        ap (λ (g : ℕ → Option OptionRecord). g i) eo,
      );
      mirrors = λ tx db fresh h i.
          rw (eg, eo, effect tx db)
            (added tx i db (fresh s.next_id (omega arith)) (h s.next_id) (h i));
    }
      where
        added :
            (tx i : ℕ) (db : Tables)
            → s.options s.next_id ≡ none
            → listed (db.options pool s.next_id) ≡ expected_in s.grace_period (s.options s.next_id)
            → listed (db.options pool i) ≡ expected_in s.grace_period (s.options i)
            → listed (
                put_row db.options pool s.next_id
                  (some (or_ignore (db.options pool s.next_id) (row tx)))
                  pool
                  i)
              ≡ expected_in s.grace_period (update s.options s.next_id (some o) i)
        added tx i db free here there = elim (Option-cases (db.options pool s.next_id)) [
          | inl missing ↦ ground (arith, missing, says tx, there)
          | inr (old, is_old) ↦ absurd (ground (arith, is_old, here, free))
        ]
