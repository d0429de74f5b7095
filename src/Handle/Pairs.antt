-- ===== src/Handle/Pairs.antt =====
-- What the queue pairs of a handle hold, from their set-up in src/ugds_handle.cpp to `cleanup_qp`.
use u_gds.Prelude.{
  ℕ, ◌+◌, ◌≤◌, ◌≡◌, refl, Bool, true, false, not, either, Option, none, some, List, [], ◌∷◌, ◌++◌,
  length, arith,
}
use mathlib.Core.Path.{subst}
use u_gds.Handle.{
  HandleHeld, IoPair, one_if, DeleteAnswers, deleted_if, failed_if, Deletions, cleanup_qp,
  PairAnswers, set_up_pair, cleanup_pairs, pair_set_up, set_up_pairs, reversed,
}

-- as much is held, but for queues, of which as many more as deletions have failed
abbrev pub SameCounts : HandleHeld → HandleHeld → Type 0
SameCounts a b =
    (a.ctrls ≡ b.ctrls)
    × (a.buffers ≡ b.buffers)
    × (a.mappings ≡ b.mappings)
    × (a.aqs ≡ b.aqs)
    × (a.cqs + b.cq_failures ≡ b.cqs + a.cq_failures)
    × (a.sqs + b.sq_failures ≡ b.sqs + a.sq_failures)

-- what the pairs hold
abbrev pub all_buffers : List IoPair → ℕ
all_buffers [] = 0
all_buffers (qp ∷ qps) = one_if qp.cq_buf + one_if qp.sq_buf + one_if qp.prp_buf + all_buffers qps

abbrev pub all_mappings : List IoPair → ℕ
all_mappings [] = 0
all_mappings (qp ∷ qps) = one_if qp.cq_dma + one_if qp.sq_dma + one_if qp.prp_dma + all_mappings qps

abbrev pub all_cqs : List IoPair → ℕ
all_cqs [] = 0
all_cqs (qp ∷ qps) = one_if qp.cq_dma + all_cqs qps

abbrev pub all_sqs : List IoPair → ℕ
all_sqs [] = 0
all_sqs (qp ∷ qps) = one_if qp.sq_dma + all_sqs qps

-- b holds what a does and what the pairs hold, and queues whose deletion has failed
abbrev pub IsAdded : HandleHeld → List IoPair → HandleHeld → Type 0
IsAdded a qps b =
    (b.ctrls ≡ a.ctrls)
    × (b.buffers ≡ a.buffers + all_buffers qps)
    × (b.mappings ≡ a.mappings + all_mappings qps)
    × (b.aqs ≡ a.aqs)
    × (b.cqs + a.cq_failures ≡ a.cqs + b.cq_failures + all_cqs qps)
    × (b.sqs + a.sq_failures ≡ a.sqs + b.sq_failures + all_sqs qps)
    × (a.cq_failures ≤ b.cq_failures)
    × (a.sq_failures ≤ b.sq_failures)

abbrev HoldsPair : HandleHeld → Bool × IoPair × HandleHeld → Type 0
HoldsPair held (ok, qp, after) = IsAdded held (qp ∷ []) after

set_up_pair-HoldsPair :
    (answers : PairAnswers) (held : HandleHeld) → HoldsPair held (set_up_pair answers held)
set_up_pair-HoldsPair answers held =
    let P : Bool × IoPair × HandleHeld → Type 0 = HoldsPair held in
    either P (not answers.cq_buf) _ _ (λ _. omega arith)
      λ _.
        either P (not answers.cq_map) _ _ (λ _. omega arith)
          λ _.
            either P (not answers.cq_create) _ _ (λ _. omega arith)
              λ _.
                either P (not answers.sq_buf) _ _ (λ _. omega arith)
                  λ _.
                    either P (not answers.sq_map) _ _ (λ _. omega arith)
                      λ _.
                        either P (not answers.sq_create) _ _ (λ _. omega arith)
                          λ _.
                            either P (not answers.prp_buf) _ _ (λ _. omega arith)
                              λ _.
                                either P (not answers.prp_map) _ _ (λ _. omega arith)
                                  (λ _. omega arith)

split_deletions : (called ok : Bool) → one_if called ≡ deleted_if called ok + failed_if called ok
split_deletions false ok = refl
split_deletions true false = refl
split_deletions true true = refl

cleanup_one :
    (answers : DeleteAnswers) (qp : IoPair) (qps : List IoPair) (before after : HandleHeld)
    → IsAdded before (qp ∷ qps) after
    → IsAdded before qps (cleanup_qp answers qp after)
cleanup_one answers qp qps before after (a, b, c, d, e, f, g, h) =
    let cq = split_deletions qp.cq_dma answers.cq_delete in
    let sq = split_deletions qp.sq_dma answers.sq_delete in
    (
      a,
      omega (arith, b),
      omega (arith, c),
      d,
      omega (arith, e, g, cq),
      omega (arith, f, h, sq),
      omega (arith, g),
      omega (arith, h),
    )

pub cleanup_adds :
    (deletions : Deletions) (i : ℕ) (qps : List IoPair) (before after : HandleHeld)
    → IsAdded before qps after
    → SameCounts (cleanup_pairs deletions i qps after) before
unfolding cleanup_pairs
cleanup_adds deletions i [] before after (a, b, c, d, e, f, g, h) =
    (a, omega (arith, b), omega (arith, c), d, omega (arith, e), omega (arith, f))
cleanup_adds deletions i (qp ∷ qps) before after v =
    cleanup_adds deletions (i + 1) qps before (cleanup_qp (deletions i) qp after)
      (cleanup_one (deletions i) qp qps before after v)

-- the pairs in another order, or one more
sums-append :
    (qps : List IoPair) (qp : IoPair)
    → (all_buffers (qps ++ (qp ∷ [])) ≡ all_buffers (qp ∷ qps))
      × (all_mappings (qps ++ (qp ∷ [])) ≡ all_mappings (qp ∷ qps))
      × (all_cqs (qps ++ (qp ∷ [])) ≡ all_cqs (qp ∷ qps))
      × (all_sqs (qps ++ (qp ∷ [])) ≡ all_sqs (qp ∷ qps))
sums-append [] qp = (refl, refl, refl, refl)
sums-append (x ∷ qps) qp =
    let rest = sums-append qps qp in
    (omega (arith, rest.0), omega (arith, rest.1), omega (arith, rest.2), omega (arith, rest.3))

pub sums-reversed :
    (qps : List IoPair)
    → (all_buffers (reversed qps) ≡ all_buffers qps)
      × (all_mappings (reversed qps) ≡ all_mappings qps)
      × (all_cqs (reversed qps) ≡ all_cqs qps)
      × (all_sqs (reversed qps) ≡ all_sqs qps)
sums-reversed [] = (refl, refl, refl, refl)
sums-reversed (qp ∷ qps) =
    let rest = sums-reversed qps in
    let more = sums-append (reversed qps) qp in
    (
      omega (arith, rest.0, more.0),
      omega (arith, rest.1, more.1),
      omega (arith, rest.2, more.2),
      omega (arith, rest.3, more.3),
    )

abbrev pub ArePairs : HandleHeld → (n : ℕ) → Option (List IoPair) × HandleHeld → Type 0
ArePairs base n (none, after) = SameCounts after base
ArePairs base n (some qps, after) = IsAdded base qps after × (length qps ≡ n)

length_snoc : (qps : List IoPair) (qp : IoPair) → length (qps ++ (qp ∷ [])) ≡ length qps + 1
length_snoc [] qp = refl
length_snoc (x ∷ qps) qp = omega (arith, length_snoc qps qp)

set_up_pair_lem :
    (deletions : Deletions) (base held : HandleHeld) (done : List IoPair) (n : ℕ)
    (rest : List IoPair → HandleHeld → Option (List IoPair) × HandleHeld)
    (r : Bool × IoPair × HandleHeld)
    → IsAdded base done held
    → HoldsPair held r
    → ((qps : List IoPair)
        → (after : HandleHeld) → length qps ≡ length done + 1
        → IsAdded base qps after
        → ArePairs base n (rest qps after))
    → ArePairs base n (pair_set_up deletions done rest r)
set_up_pair_lem deletions base held done n rest (true, qp, after) (a, b, c, d, e, f, u, v)
      (g, h, i, j, k, l, x, y) later =
    let sums = sums-append done qp in
    later (done ++ (qp ∷ [])) after (length_snoc done qp) (
      omega (arith, a, g),
      omega (arith, b, h, sums.0),
      omega (arith, c, i, sums.1),
      omega (arith, d, j),
      omega (arith, e, k, sums.2),
      omega (arith, f, l, sums.3),
      omega (arith, u, x),
      omega (arith, v, y),
    )
set_up_pair_lem deletions base held done n rest (false, qp, after) (a, b, c, d, e, f, u, v)
      (g, h, i, j, k, l, x, y) later =
    cleanup_adds deletions 1 done base (cleanup_qp (deletions 0) qp after) (
      cleanup_one (deletions 0) qp done base after
        (omega (arith, a, b, c, d, e, f, u, v, g, h, i, j, k, l, x, y)))

pub set_up_pairs_lem :
    (deletions : Deletions) (answers : List PairAnswers) (done : List IoPair)
    (base held : HandleHeld)
    → IsAdded base done held
    → ArePairs base (length done + length answers) (set_up_pairs deletions answers done held)
unfolding set_up_pairs
set_up_pairs_lem deletions [] done base held v = (v, omega arith)
set_up_pairs_lem deletions (x ∷ answers) done base held v =
    set_up_pair_lem deletions base held done _ (set_up_pairs deletions answers) (set_up_pair x held)
      v (set_up_pair-HoldsPair x held)
      (λ qps after e w.
        subst (λ k. ArePairs base k (set_up_pairs deletions answers qps after)) (omega (arith, e))
          (set_up_pairs_lem deletions answers qps base after w))
