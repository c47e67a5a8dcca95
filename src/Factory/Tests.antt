-- ===== src/Factory/Tests.antt =====
-- A chain whose deployments succeed, and the theorems of the factory on it.
use frogop_pub.Prelude.{
  ℕ, suc, ◌≡◌, ◌≢◌, refl, Bool, true, false, ◌&&◌, Option, none, some, List, [], ◌∷◌, ◌==◌,
  if◌then◌else◌, arith, update,
}
use frogop_pub.Runtime.{Env, ok, zero_address}
use frogop_pub.Pool.Tests.Chain.{plain_chain}
use frogop_pub.Pool.Fees.{add}
use frogop_pub.Factory.Deployer.{Deployer}
use frogop_pub.Factory.State.{PoolEntry}
use frogop_pub.Factory.Handlers.{
  State, create_pool, get_pool, get_pool_by_index, is_registered, deploy_from, register_in_list,
  check_owner, register_pool,
}
use frogop_pub.Factory.Changes.{Call, sets_treasury, registers, creates, run, step, perform}
use frogop_pub.Factory.Registry.{IsConsistent, Extends}
use frogop_pub.Factory.Histories.{run-IsConsistent, run-Extends}
use frogop_pub.Factory.Creation.{create_pool-get_pool, run-SameSettings, SameSettings, WithoutOwner}

abbrev Table : Type 0
Table = ℕ → ℕ → Option ℕ

abbrev is_some : Option ℕ → Bool
is_some none = false
is_some (some a) = true

abbrev value : Option ℕ → ℕ
value none = 0
value (some a) = a

abbrev set : ℕ → ℕ → ℕ → Table → Table
set u p a m u' p' = if (u == u') && (p == p') then some a else m u' p'

-- The outer map has every key; an address is deployed once, and they are numbered.
abbrev plain_deployer : Deployer
plain_deployer = record {
  Pools = Table;
  has = λ m u. true;
  has_nested = λ m u p. is_some (m u p);
  get_nested = λ m u p. value (m u p);
  set_nested = set;
  has_outer = λ m u p h. refl;
  has_set = λ u p a u' m. ground arith;
  has_nested_set = λ u p a u' p' m. ground arith;
  get_nested_set = λ u p a u' p' m. ground arith;
  Chain = ℕ;
  deploy = λ template salt calldata next. some (next, suc next);
  sha256 = λ addresses. 7;
}

abbrev owner : ℕ
owner = 11

abbrev new_factory : State plain_chain plain_deployer
new_factory = record {
  owner = owner;
  pool_template = 70;
  pools = λ u p. none;
  treasury = 80;
  pool_count = 0;
  pool_list = λ i. record { pool = 0; underlying = 0; premium_token = 0 };
  chain = 1000;
  created = [];
}

abbrev by : ℕ → Env
by sender = record { sender = sender; block = 5; self = 600 }

abbrev first_pool : PoolEntry
first_pool = record { pool = 1000; underlying = 501; premium_token = 502 }

abbrev one_pool : State plain_chain plain_deployer
one_pool = record new_factory {
  pools = set 501 502 1000 (λ u p. none);
  pool_count = 1;
  pool_list = update new_factory.pool_list 0 first_pool;
  chain = 1001;
  created = first_pool ∷ [];
}

create_returns :
    create_pool plain_chain plain_deployer (by 12) 501 502 18 8 new_factory ≡ ok (1000, one_pool)
unfolding create_pool deploy_from register_in_list add
create_returns = refl

create_pool-get_pool_example :
    (◌≢◌ {A = ℕ} 501 zero_address)
    × (◌≢◌ {A = ℕ} 502 zero_address)
    × (◌≢◌ {A = ℕ} 501 502)
    × (is_registered plain_chain plain_deployer new_factory 501 502 ≡ false)
    × (get_pool plain_chain plain_deployer 501 502 one_pool ≡ ok (1000, one_pool))
    × (get_pool_by_index plain_chain plain_deployer 0 one_pool ≡ ok (first_pool, one_pool))
create_pool-get_pool_example =
    create_pool-get_pool plain_chain plain_deployer (by 12) 501 502 18 8 1000 new_factory one_pool
      create_returns

-- Two creations and a repeated one, the owner's registration, and a stranger's.
abbrev some_calls : List (Env × Call)
some_calls =
    (by 12, creates 501 502 18 8)
    ∷ (by 12, creates 501 502 18 8)
    ∷ (by 13, creates 502 501 8 18)
    ∷ (by owner, registers 950 501 503)
    ∷ (by 12, registers 951 501 504)
    ∷ []

some_calls_count : (run plain_chain plain_deployer some_calls new_factory).pool_count ≡ 3
unfolding run step perform create_pool register_pool deploy_from register_in_list check_owner add
some_calls_count = refl

new_factory-IsConsistent : IsConsistent plain_chain plain_deployer new_factory
new_factory-IsConsistent = record {
  listed = λ i lt. absurd (omega arith);
  found = λ u p a e. absurd (ground arith);
  once = λ i j li lj eu ep. absurd (omega arith);
}

run-IsConsistent_example :
    IsConsistent plain_chain plain_deployer (run plain_chain plain_deployer some_calls new_factory)
run-IsConsistent_example =
    run-IsConsistent plain_chain plain_deployer some_calls new_factory new_factory-IsConsistent

run-Extends_example :
    Extends plain_chain plain_deployer one_pool (run plain_chain plain_deployer some_calls one_pool)
run-Extends_example = run-Extends plain_chain plain_deployer some_calls one_pool

abbrev strangers : List (Env × Call)
strangers = (by 12, sets_treasury 12) ∷ (by 13, creates 501 502 18 8) ∷ []

strangers-WithoutOwner : WithoutOwner plain_chain plain_deployer owner strangers
unfolding WithoutOwner
strangers-WithoutOwner = ground arith

run-SameSettings_example :
    SameSettings plain_chain plain_deployer new_factory
      (run plain_chain plain_deployer strangers new_factory)
run-SameSettings_example =
    run-SameSettings plain_chain plain_deployer strangers new_factory strangers-WithoutOwner
