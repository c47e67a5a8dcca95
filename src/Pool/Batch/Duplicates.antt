-- ===== src/Pool/Batch/Duplicates.antt =====
-- The search for equal identifiers in batchCancel and batchSettle of src/contracts/pool/contract.ts.
use mathlib.Core.List.{Mem, Nodup, mem-cons, not-mem-nil, Nodup-cons, Nodup-nil}
use mathlib.Core.Logic.Or
use mathlib.Core.Bool.{Bool-set}
use frogop_pub.Prelude.{
  ℕ, ◌≡◌, ◌↔◌, true, false, List, [], ◌∷◌, refl, ◌==◌, ◌||◌, inl, inr, Bool-cases, arith, ==_iff,
}
use frogop_pub.Pool.Batch.{occurs, has_duplicate}

occurs-Mem : (id : ℕ) (ids : List ℕ) → occurs id ids ≡ true → Mem id ids
unfolding occurs
occurs-Mem id [] e = cc
occurs-Mem id (x ∷ ids) e = elim (Bool-cases (id == x)) [
  | inl same ↦ mem-cons.1 (Or.inl ((==_iff id x).0 same))
  | inr other ↦ mem-cons.1 (Or.inr (occurs-Mem id ids (rw other at e)))
]

Mem-occurs : (id : ℕ) (ids : List ℕ) → Mem id ids → occurs id ids ≡ true
unfolding occurs
Mem-occurs id [] m = absurd (not-mem-nil m)
Mem-occurs id (x ∷ ids) m =
    Or.elim (Bool-set _ _) (mem-cons.0 m) (λ same. rw ((==_iff id x).1 same) refl)
      (λ later. ground (arith, Mem-occurs id ids later))

-- The search finds nothing exactly when no two of the identifiers are equal.
pub has_duplicate-Nodup : (ids : List ℕ) → (has_duplicate ids ≡ false) ↔ Nodup ids
unfolding has_duplicate
has_duplicate-Nodup [] = (λ _. Nodup-nil, λ _. refl)
has_duplicate-Nodup (x ∷ ids) = (
  λ e.
      Nodup-cons.1
        (λ m. cc (Mem-occurs x ids m, head_clear e), (has_duplicate-Nodup ids).0 (tail_clear e)),
  λ nodup. elim (Bool-cases (occurs x ids)) [
    | inl found ↦ absurd ((Nodup-cons.0 nodup).0 (occurs-Mem x ids found))
    | inr clear ↦ rw clear ((has_duplicate-Nodup ids).1 (Nodup-cons.0 nodup).1)
  ],
)
  where
    head_clear : occurs x ids || has_duplicate ids ≡ false → occurs x ids ≡ false
    head_clear e = ground arith

    tail_clear : occurs x ids || has_duplicate ids ≡ false → has_duplicate ids ≡ false
    tail_clear e = ground arith
