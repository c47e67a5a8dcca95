-- ===== src/Pool/Lifecycle.antt =====
-- The life of an option: which statuses follow which, what never changes, and that an option which
-- has ended stays as it is.
pub mod Handlers
pub mod Batches
pub mod Histories
use frogop_pub.Prelude.{
  ℕ, ◌≡◌, ◌∙◌, refl, sym, ap, Bool, false, Option, some, inl, inr, update, ◌==◌, Bool-cases, arith,
}
use frogop_pub.Pool.State.{
  OptionRecord, PoolState, status_open, status_purchased, status_exercised, status_expired,
  status_cancelled,
}
use frogop_pub.Pool.Solvency.{is_live}

-- One step in the life of an option.
pub data Edge (a b : ℕ) : Type 0 where
  bought : a ≡ status_open → b ≡ status_purchased → Edge a b
  cancelled : a ≡ status_open → b ≡ status_cancelled → Edge a b
  exercised : a ≡ status_purchased → b ≡ status_exercised → Edge a b
  expired : a ≡ status_purchased → b ≡ status_expired → Edge a b

pub data Leads (a : ℕ) : ℕ → Type 0 where
  here : Leads a a
  next : {b c : ℕ} → Leads a b → Edge b c → Leads a c

pub Leads-trans : {a b c : ℕ} → Leads a b → Leads b c → Leads a c
Leads-trans l here = l
Leads-trans l (next m e) = next (Leads-trans l m) e

-- What may become of an option: its terms stay, its status moves along the edges, and once it has
-- ended nothing of it changes, the buyer included.
pub record Becomes (o o' : OptionRecord) : Type 0 where
  pub id : o'.id ≡ o.id
  pub writer : o'.writer ≡ o.writer
  pub strike_price : o'.strike_price ≡ o.strike_price
  pub underlying_amount : o'.underlying_amount ≡ o.underlying_amount
  pub premium : o'.premium ≡ o.premium
  pub expiry_block : o'.expiry_block ≡ o.expiry_block
  pub created_block : o'.created_block ≡ o.created_block
  pub option_type : o'.option_type ≡ o.option_type
  pub status : Leads o.status o'.status
  pub final : is_live o.status ≡ false → o' ≡ o

pub Becomes-refl : (o : OptionRecord) → Becomes o o
Becomes-refl o = record {
  id = refl;
  writer = refl;
  strike_price = refl;
  underlying_amount = refl;
  premium = refl;
  expiry_block = refl;
  created_block = refl;
  option_type = refl;
  status = here;
  final = λ _. refl;
}

pub Becomes-trans : (o o' o'' : OptionRecord) → Becomes o o' → Becomes o' o'' → Becomes o o''
Becomes-trans o o' o'' h k = record {
  id = k.id ∙ h.id;
  writer = k.writer ∙ h.writer;
  strike_price = k.strike_price ∙ h.strike_price;
  underlying_amount = k.underlying_amount ∙ h.underlying_amount;
  premium = k.premium ∙ h.premium;
  expiry_block = k.expiry_block ∙ h.expiry_block;
  created_block = k.created_block ∙ h.created_block;
  option_type = k.option_type ∙ h.option_type;
  status = Leads-trans h.status k.status;
  final = λ ended.
      k.final (ap (λ (r : OptionRecord). is_live r.status) (h.final ended) ∙ ended) ∙ h.final ended;
}

module _ {L : Type 0} where
  -- Every option of `s` is still there in `s'`, as what it may become.
  abbrev pub Evolves : PoolState L → PoolState L → Type 0
  Evolves s s' =
      (id : ℕ) (o : OptionRecord)
      → s.options id ≡ some o
      → (o' : OptionRecord) × (s'.options id ≡ some o') × Becomes o o'

  pub Evolves-same : (s s' : PoolState L) → s'.options ≡ s.options → Evolves s s'
  Evolves-same s s' e id o found =
      (o, ap (λ (f : ℕ → Option OptionRecord). f id) e ∙ found, Becomes-refl o)

  pub Evolves-trans : (s t u : PoolState L) → Evolves s t → Evolves t u → Evolves s u
  Evolves-trans s t u h k id o found =
      let (o', found', first) = h id o found in
      let (o'', found'', second) = k id o' found' in
      (o'', found'', Becomes-trans o o' o'' first second)

  -- One option is replaced.
  pub Evolves-change :
      (k : ℕ) (s s' : PoolState L) (p p' : OptionRecord)
      → s.options k ≡ some p
      → s'.options ≡ update s.options k (some p')
      → Becomes p p'
      → Evolves s s'
  Evolves-change k s s' p p' e eo becomes id o found = elim (Bool-cases (k == id)) [
    | inl same ↦ (
      p',
      ground (arith, ap (λ (f : ℕ → Option OptionRecord). f id) eo),
      let it : o ≡ p = ground (arith, e, found) in rw it becomes,
    )
    | inr other ↦
        (o, ground (arith, ap (λ (f : ℕ → Option OptionRecord). f id) eo, found), Becomes-refl o)
  ]
