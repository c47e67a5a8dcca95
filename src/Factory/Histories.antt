-- ===== src/Factory/Histories.antt =====
-- The registry of src/contracts/factory/contract.ts over every history of calls.
use frogop_pub.Prelude.{◌≡◌, refl, List, [], ◌∷◌, arith, ◌∙◌}
use frogop_pub.Runtime.{Runtime, Env}
use frogop_pub.Factory.Deployer.{Deployer}
use frogop_pub.Factory.Handlers.{State}
use frogop_pub.Factory.Changes.{Call, same, adds, step, run, step-Change}
use frogop_pub.Factory.Registry.{Extends, IsConsistent, Adds-Extends, Adds-IsConsistent}

module _ (rt : Runtime) (de : Deployer) where
  Same-Extends :
      (s s' : State rt de)
      → s'.pools ≡ s.pools
      → s'.pool_list ≡ s.pool_list
      → s'.pool_count ≡ s.pool_count
      → Extends rt de s s'
  Same-Extends s s' eq_pools eq_list eq_count = record {
    found = λ u p a h. rw eq_pools h;
    listed = λ i _. rw eq_list refl;
    count = omega (arith, eq_count);
  }

  Same-IsConsistent :
      (s s' : State rt de)
      → s'.pools ≡ s.pools
      → s'.pool_list ≡ s.pool_list
      → s'.pool_count ≡ s.pool_count
      → IsConsistent rt de s
      → IsConsistent rt de s'
  Same-IsConsistent s s' eq_pools eq_list eq_count h = record {
    listed = rw (eq_pools, eq_list, eq_count) h.listed;
    found = rw (eq_pools, eq_list, eq_count) h.found;
    once = rw (eq_list, eq_count) h.once;
  }

  step-Extends : (env : Env) (c : Call) (s : State rt de) → Extends rt de s (step rt de env c s)
  step-Extends env c s = elim (step-Change rt de env c s) [
    | same a b k ↦ Same-Extends s _ a b k
    | adds e d ↦ Adds-Extends rt de s _ e d
  ]

  step-IsConsistent :
      (env : Env) (c : Call) (s : State rt de)
      → IsConsistent rt de s
      → IsConsistent rt de (step rt de env c s)
  step-IsConsistent env c s h = elim (step-Change rt de env c s) [
    | same a b k ↦ Same-IsConsistent s _ a b k h
    | adds e d ↦ Adds-IsConsistent rt de s _ e d h
  ]

  -- Over any calls, in any order and whether they return or revert, the map and the list of the
  -- factory agree if they did: each entry of the list is found under its pair, each pair of the map
  -- is an entry of the list, and no pair has two entries.
  pub run-IsConsistent :
      (cs : List (Env × Call)) (s : State rt de)
      → IsConsistent rt de s
      → IsConsistent rt de (run rt de cs s)
  unfolding run
  run-IsConsistent [] s h = h
  run-IsConsistent ((env, c) ∷ cs) s h =
      run-IsConsistent cs (step rt de env c s) (step-IsConsistent env c s h)

  -- Over any calls, a pool that was registered for a pair stays its pool, whoever calls, the entries
  -- of the list stay where they are, and their number does not fall.
  pub run-Extends : (cs : List (Env × Call)) (s : State rt de) → Extends rt de s (run rt de cs s)
  unfolding run
  run-Extends [] s = Same-Extends s s refl refl refl
  run-Extends ((env, c) ∷ cs) s =
      let first = step-Extends env c s in
      let rest = run-Extends cs (step rt de env c s) in
      record {
        found = λ u p a h. rest.found u p a (first.found u p a h);
        listed = λ i h. rest.listed i (omega (arith, h, first.count)) ∙ first.listed i h;
        count = omega (arith, first.count, rest.count);
      }
