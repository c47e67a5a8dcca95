-- ===== src/Factory/Registry.antt =====
-- The registry of src/contracts/factory/contract.ts: its map and its list agree.
use frogop_pub.Prelude.{
  ℕ, ◌≤◌, ◌<◌, ◌≡◌, ◌&&◌, Option, none, some, inl, inr, ◌==◌, Bool-cases, arith, if◌then◌else◌, ap,
  sym, ◌∙◌, ◌⊎◌, ◌≢◌,
}
use frogop_pub.Runtime.{Runtime}
use frogop_pub.Factory.Deployer.{Deployer}
use frogop_pub.Factory.State.{PoolEntry}
use frogop_pub.Factory.Handlers.{State}
use frogop_pub.Factory.Changes.{Adds}

module _ (rt : Runtime) (de : Deployer) where
  open de use {
    Pools, has, has_nested, get_nested, set_nested, has_outer, has_set, has_nested_set,
    get_nested_set,
  }

  -- The pool under a pair of tokens.
  abbrev pub find : Pools → ℕ → ℕ → Option ℕ
  find m u p = if has m u && has_nested m u p then some (get_nested m u p) else none

  -- Setting a pair changes that pair, and no other.
  pub find-set_nested :
      (u p a u' p' : ℕ) (m : Pools)
      → find (set_nested u p a m) u' p' ≡ (if (u == u') && (p == p') then some a else find m u' p')
  find-set_nested u p a u' p' m = elim (Bool-cases (has_nested m u' p')) [
    | inl inner ↦ ground (
      arith,
      has_set u p a u' m,
      has_nested_set u p a u' p' m,
      get_nested_set u p a u' p' m,
      has_outer m u' p' inner,
    )
    | inr outside ↦
        ground
          (arith, has_set u p a u' m, has_nested_set u p a u' p' m, get_nested_set u p a u' p' m)
  ]

  -- Each entry of the list is in the map, each pair of the map is in the list, and in one place.
  pub record IsConsistent (s : State rt de) : Type 0 where
    pub listed :
        (i : ℕ)
        → i < s.pool_count
        → find s.pools (s.pool_list i).underlying (s.pool_list i).premium_token
          ≡ some (s.pool_list i).pool
    pub found :
        (u p a : ℕ)
        → find s.pools u p ≡ some a
        → (i : ℕ) × (i < s.pool_count)
          × (s.pool_list i ≡ record { pool = a; underlying = u; premium_token = p })
    pub once :
        (i j : ℕ)
        → i < s.pool_count
        → j < s.pool_count
        → (s.pool_list i).underlying ≡ (s.pool_list j).underlying
        → (s.pool_list i).premium_token ≡ (s.pool_list j).premium_token
        → i ≡ j

  -- What was found stays found, and the list keeps its entries and grows at its end only.
  pub record Extends (s s' : State rt de) : Type 0 where
    pub found : (u p a : ℕ) → find s.pools u p ≡ some a → find s'.pools u p ≡ some a
    pub listed : (i : ℕ) → i < s.pool_count → s'.pool_list i ≡ s.pool_list i
    pub count : s.pool_count ≤ s'.pool_count

  module _ (s s' : State rt de) (e : PoolEntry) (d : Adds rt de s s' e) where
    -- The list and the map behind the addition.
    list_after : (i : ℕ) → s'.pool_list i ≡ (if s.pool_count == i then e else s.pool_list i)
    list_after i = ap (λ (f : ℕ → PoolEntry). f i) d.pool_list

    find_after :
        (u p : ℕ)
        → find s'.pools u p ≡ (
            if (e.underlying == u) && (e.premium_token == p) then some e.pool else find s.pools u p)
    find_after u p =
        ap (λ (m : Pools). find m u p) d.pools
        ∙ find-set_nested e.underlying e.premium_token e.pool u p s.pools

    find_before : find s.pools e.underlying e.premium_token ≡ none
    find_before = ground (arith, d.absent)

    find_kept : (u p a : ℕ) → find s.pools u p ≡ some a → find s'.pools u p ≡ some a
    find_kept u p a h = elim (Bool-cases ((e.underlying == u) && (e.premium_token == p))) [
      | inl hit ↦
          let eu : e.underlying ≡ u = ground (arith, hit) in
          let ep : e.premium_token ≡ p = ground (arith, hit) in absurd (cc (find_before, h, eu, ep))
      | inr miss ↦ find_after u p ∙ (rw miss h)
    ]

    pub Adds-Extends : Extends s s'
    Adds-Extends = record {
      found = find_kept;
      listed = λ i h. ground (arith, h, list_after i);
      count = omega (arith, d.pool_count);
    }

    list_new : s'.pool_list s.pool_count ≡ e
    list_new = ground (arith, list_after s.pool_count)

    list_old : (i : ℕ) → i < s.pool_count → s'.pool_list i ≡ s.pool_list i
    list_old i h = ground (arith, h, list_after i)

    place : (i : ℕ) → i < s'.pool_count → (i < s.pool_count) ⊎ (i ≡ s.pool_count)
    place i h = grind (arith, h, d.pool_count)

    listed_after :
        IsConsistent s
        → (i : ℕ) → i < s'.pool_count
        → find s'.pools (s'.pool_list i).underlying (s'.pool_list i).premium_token
          ≡ some (s'.pool_list i).pool
    listed_after h i lt = elim (place i lt) [
      | inl old ↦ rw (list_old i old) (find_kept _ _ _ (h.listed i old))
      | inr new ↦ rw (new, list_new) (ground (arith, find_after e.underlying e.premium_token))
    ]

    found_after :
        IsConsistent s
        → (u p a : ℕ) → find s'.pools u p ≡ some a
        → (i : ℕ) × (i < s'.pool_count)
          × (s'.pool_list i ≡ record { pool = a; underlying = u; premium_token = p })
    found_after h u p a at = elim (Bool-cases ((e.underlying == u) && (e.premium_token == p))) [
      | inl hit ↦ (
        s.pool_count,
        omega (arith, d.pool_count),
        list_new ∙ ground (arith, hit, at, find_after u p),
      )
      | inr miss ↦
          let before : find s.pools u p ≡ some a = ground (arith, miss, at, find_after u p) in
          let (i, lt, it) = h.found u p a before in
          (i, omega (arith, lt, d.pool_count), list_old i lt ∙ it)
    ]

    -- The pair that is added is that of no entry.
    fresh :
        IsConsistent s
        → (i : ℕ) → i < s.pool_count
        → (s.pool_list i).underlying ≡ e.underlying
        → (s.pool_list i).premium_token ≢ e.premium_token
    fresh h i lt eu ep = cc (h.listed i lt, find_before, eu, ep)

    once_after :
        IsConsistent s
        → (i j : ℕ) → i < s'.pool_count
        → j < s'.pool_count
        → (s'.pool_list i).underlying ≡ (s'.pool_list j).underlying
        → (s'.pool_list i).premium_token ≡ (s'.pool_list j).premium_token
        → i ≡ j
    once_after h i j li lj eu ep = elim (place i li) [
      | inl io ↦ elim (place j lj) [
        | inl jo ↦
            h.once i j io jo (rw (list_old i io, list_old j jo) at eu)
              (rw (list_old i io, list_old j jo) at ep)
        | inr jn ↦ absurd (
            fresh h i io (rw (list_old i io, jn, list_new) at eu)
              (rw (list_old i io, jn, list_new) at ep))
      ]
      | inr in_ ↦ elim (place j lj) [
        | inl jo ↦ absurd (
            fresh h j jo (sym (rw (list_old j jo, in_, list_new) at eu))
              (sym (rw (list_old j jo, in_, list_new) at ep)))
        | inr jn ↦ in_ ∙ sym jn
      ]
    ]

    pub Adds-IsConsistent : IsConsistent s → IsConsistent s'
    Adds-IsConsistent h = record {
      listed = listed_after h;
      found = found_after h;
      once = once_after h;
    }
