-- ===== src/Pool/Views.antt =====
-- The views of src/contracts/pool/base.ts that read options: getOption, getOptionsBatch and
-- calculateCollateral. The bytes that they write are the fields of a View, in order.
use frogop_pub.Prelude.{
  ℕ, zero, suc, ◌+◌, ◌-◌, ◌≤◌, ◌<◌, ◌≡◌, refl, true, false, not, none, some, List, [], ◌∷◌, ltb,
  if◌then◌else◌, arith, ◌⊎◌,
}
use frogop_pub.Runtime.{Runtime, u256_mod, Action, ok, pure, gets, ◌>>=◌}
use frogop_pub.Pool.State.{PoolState, OptionRecord}
use frogop_pub.Pool.Base.{find_option}
use frogop_pub.Pool.Fees.{sub, add}

-- the fields that a view writes of an option, in this order
pub record View : Type 0 where
  pub id : ℕ
  pub writer : ℕ
  pub buyer : ℕ
  pub option_type : ℕ
  pub strike_price : ℕ
  pub underlying_amount : ℕ
  pub premium : ℕ
  pub expiry_block : ℕ
  pub status : ℕ

abbrev pub view_of : OptionRecord → View
view_of o = record {
  id = o.id;
  writer = o.writer;
  buyer = o.buyer;
  option_type = o.option_type;
  strike_price = o.strike_price;
  underlying_amount = o.underlying_amount;
  premium = o.premium;
  expiry_block = o.expiry_block;
  status = o.status;
}

-- `missing` is what `options.get` reads of an identifier that is not there.
abbrev pub view_at : {L : Type 0} → (ℕ → View) → PoolState L → ℕ → View
view_at missing s id = elim (s.options id) [ none ↦ missing id | some o ↦ view_of o ]

unfoldable pub get_option : {L : Type 0} → ℕ → Action (PoolState L) View
unfolding find_option
get_option option_id = do option ← find_option option_id; pure (view_of option)

-- the number of options in an answer: what is asked for, nine at most, and what there is
abbrev pub batch_count : (requested available : ℕ) → ℕ
batch_count requested available =
    let capped = if ltb 9 requested then 9 else requested in
    if ltb available capped then available else capped

module _ (rt : Runtime) (missing : ℕ → View) where
  open rt use {Ledger}

  -- the loop of `getOptionsBatch` from its round `i`, with `rounds` to go
  unfoldable pub read_from : (start_id i rounds : ℕ) → Action (PoolState Ledger) (List View)
  unfolding add
  read_from start_id i zero = pure []
  read_from start_id i (suc rounds) = do
    option_id ← add rt start_id i
    view ← gets λ s. view_at missing s option_id
    next ← add rt i 1
    rest ← read_from start_id next rounds
    pure (view ∷ rest)

  -- behind the check of `startId`
  unfoldable pub read_available :
      (start_id requested_count total : ℕ) → Action (PoolState Ledger) (List View)
  unfolding sub
  read_available start_id requested_count total = do
    available ← sub rt total start_id
    read_from start_id 0 (batch_count requested_count available)

  unfoldable pub get_options_batch :
      (start_id requested_count : ℕ) → Action (PoolState Ledger) (List View)
  unfolding read_available
  get_options_batch start_id requested_count = do
    total ← gets λ s. s.next_id
    let beyond = not (ltb start_id total)
    if beyond then pure [] else read_available start_id requested_count total

-- The views of `n` identifiers, from `id` on.
abbrev pub views_from : {L : Type 0} → (ℕ → View) → PoolState L → (id n : ℕ) → List View
views_from missing s id zero = []
views_from missing s id (suc n) = view_at missing s id ∷ views_from missing s (suc id) n

module _ (rt : Runtime) (missing : ℕ → View) where
  open rt use {Ledger}

  read_from_lem :
      (start_id i n : ℕ) (s : PoolState Ledger)
      → start_id + i + n < u256_mod
      → read_from rt missing start_id i n s ≡ ok (views_from missing s (start_id + i) n, s)
  unfolding read_from add
  read_from_lem start_id i zero s small = refl
  read_from_lem start_id i (suc n) s small =
      let later = read_from_lem start_id (i + 1) n s (omega (arith, small)) in
      let at : start_id + (i + 1) ≡ suc (start_id + i) = omega arith in
      let later' : read_from rt missing start_id (i + 1) n s
          ≡ ok (views_from missing s (suc (start_id + i)) n, s) =
        rw at at later in
      ground (arith, rt.safe_add_exact start_id i, rt.safe_add_exact i 1, later')

  -- From a starting identifier that is in use, a batch returns the options from there on in order,
  -- without a gap: as many as are asked for, nine at most, and none beyond the last. The state
  -- stays as it is. The next identifier fits a u256.
  pub get_options_batch-views_from :
      (start_id requested : ℕ) (s : PoolState Ledger)
      → s.next_id < u256_mod
      → start_id < s.next_id
      → (n : ℕ) × (n ≤ requested)
        × (n ≤ 9)
        × (start_id + n ≤ s.next_id)
        × ((n ≡ requested) ⊎ ((n ≡ 9) ⊎ (start_id + n ≡ s.next_id)))
        × (get_options_batch rt missing start_id requested s
            ≡ ok (views_from missing s start_id n, s))
  unfolding get_options_batch read_available sub
  get_options_batch-views_from start_id requested s fits within =
      let n = batch_count requested (s.next_id - start_id) in
      let room : start_id + n ≤ s.next_id = ground arith in
      let all = read_from_lem start_id 0 n s (omega (arith, fits, room)) in
      (
        n,
        ground arith,
        ground arith,
        room,
        grind arith,
        (let within' : ltb start_id s.next_id ≡ true = ground arith in
            let left : ltb s.next_id start_id ≡ false = ground arith in
            let same : start_id + 0 ≡ start_id = omega arith in
            ground (arith, rt.safe_sub_exact s.next_id start_id, rw same at all)),
      )
