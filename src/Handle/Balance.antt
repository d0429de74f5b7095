-- ===== src/Handle/Balance.antt =====
-- What the registration of a handle acquires and gives back.
use u_gds.Prelude.{
  ℕ, zero, suc, ◌+◌, ◌≡◌, ◌≢◌, refl, ap, not, ◌||◌, either, Option, none, some, List, [], length,
  min, arith,
}
use mathlib.Core.Path.{subst}
use u_gds.Driver.{OpError}
use u_gds.Handle.{
  HandleHeld, IoPair, Deletions, PairAnswers, set_up_pairs, RegisterAnswers, RegisterCall,
  OpenHandle, default_num_qps, first_answers, pairs_set_up, ctrl_opened, handle_open, handle_close,
  reversed,
}
use u_gds.Handle.Pairs.{
  SameCounts, IsAdded, ArePairs, cleanup_adds, sums-reversed, set_up_pairs_lem,
}

-- no handle and nothing held, or a handle, whose pairs are at most 16 and those granted, and which
-- gives back all that it holds but the queues whose deletion fails
abbrev pub IsOpened :
    RegisterAnswers → HandleHeld → OpError × Option OpenHandle × HandleHeld → Type 0
IsOpened answers held (err, none, after) = (err ≢ OpError.success) × SameCounts after held
IsOpened answers held (err, some handle, after) =
    (err ≡ OpError.success)
    × (answers.ctrl_init ≡ some handle.ctrl)
    × (length handle.qps ≡ min (min answers.n_cqs answers.n_sqs) default_num_qps)
    × (after.ctrls ≡ held.ctrls + 1)
    × (after.aqs ≡ held.aqs + 1)
    × ((deletions : Deletions) → SameCounts (handle_close deletions handle after) held)

length-first_answers :
    (answers : ℕ → PairAnswers) (i n : ℕ) → length (first_answers answers i n) ≡ n
unfolding first_answers
length-first_answers answers i zero = refl
length-first_answers answers i (suc n) = ap suc (length-first_answers answers (i + 1) n)

pairs-IsOpened :
    (answers : RegisterAnswers) (ctrl : ℕ) (held created : HandleHeld)
    (r : Option (List IoPair) × HandleHeld)
    → answers.ctrl_init ≡ some ctrl
    → created.ctrls ≡ held.ctrls + 1
    → created.buffers ≡ held.buffers + 1
    → created.mappings ≡ held.mappings + 1
    → created.aqs ≡ held.aqs + 1
    → created.cqs ≡ held.cqs
    → created.sqs ≡ held.sqs
    → created.cq_failures ≡ held.cq_failures
    → created.sq_failures ≡ held.sq_failures
    → ArePairs created (min (min answers.n_cqs answers.n_sqs) default_num_qps) r
    → IsOpened answers held (pairs_set_up ctrl r)
unfolding handle_close
pairs-IsOpened answers ctrl held created (none, after) o a b c d e f p q (g, h, i, j, k, l) = (
  λ z. cc,
  (
    omega (arith, a, g),
    omega (arith, b, h),
    omega (arith, c, i),
    omega (arith, d, j),
    omega (arith, e, k, p),
    omega (arith, f, l, q),
  ),
)
pairs-IsOpened answers ctrl held created (some qps, after) o a b c d e f p q
      ((g, h, i, j, k, l, u, v), n) =
    let sums = sums-reversed qps in
    let added : IsAdded created (reversed qps) after = (
      g,
      omega (arith, h, sums.0),
      omega (arith, i, sums.1),
      j,
      omega (arith, k, sums.2),
      omega (arith, l, sums.3),
      u,
      v,
    ) in
    (
      refl,
      o,
      n,
      omega (arith, g, a),
      omega (arith, j, d),
      λ deletions.
          let back = cleanup_adds deletions 0 (reversed qps) created after added in
          (
            omega (arith, a, back.0),
            omega (arith, b, back.1),
            omega (arith, c, back.2),
            omega (arith, d, back.3),
            omega (arith, e, back.4, p),
            omega (arith, f, back.5, q),
          ),
    )

ctrl_opened-IsOpened :
    (answers : RegisterAnswers) (held : HandleHeld) (o : Option ℕ)
    → answers.ctrl_init ≡ o
    → IsOpened answers held (ctrl_opened answers held o)
ctrl_opened-IsOpened answers held none e = (λ q. cc, (refl, refl, refl, refl, refl, refl))
ctrl_opened-IsOpened answers held (some ctrl) e =
    let P : OpError × Option OpenHandle × HandleHeld → Type 0 = IsOpened answers held in
    either P (not answers.aq_buf) _ _ (λ _. (λ q. cc, (omega arith, refl, refl, refl, refl, refl)))
      λ _.
        either P (not answers.aq_map) _ _
          (λ _. (λ q. cc, (omega arith, omega arith, refl, refl, refl, refl)))
          λ _.
            either P (not answers.aq_create) _ _
              (λ _. (λ q. cc, (omega arith, omega arith, omega arith, refl, refl, refl)))
              λ _.
                either P (not answers.ctrl_info || (not answers.ns_info || not answers.num_queues))
                  _ _
                  (λ _. (λ q. cc, (omega arith, omega arith, omega arith, omega arith, refl, refl)))
                  (λ _. opened_pairs ctrl e)
  where
    opened_pairs :
        (ctrl : ℕ)
        → answers.ctrl_init ≡ some ctrl
        → IsOpened answers held (
            pairs_set_up ctrl (
              set_up_pairs answers.deletions
                (first_answers answers.pair_answers 0
                  (min (min answers.n_cqs answers.n_sqs) default_num_qps))
                []
                (record held {
                  ctrls = held.ctrls + 1;
                  buffers = held.buffers + 1;
                  mappings = held.mappings + 1;
                  aqs = held.aqs + 1;
                })))
    opened_pairs ctrl e =
        let num_qps = min (min answers.n_cqs answers.n_sqs) default_num_qps in
        let created = record held {
          ctrls = held.ctrls + 1;
          buffers = held.buffers + 1;
          mappings = held.mappings + 1;
          aqs = held.aqs + 1;
        } in
        let pairs = first_answers answers.pair_answers 0 num_qps in
        pairs-IsOpened answers ctrl held created (set_up_pairs answers.deletions pairs [] created) e
          refl refl refl refl refl refl refl refl
          (subst (λ k. ArePairs created k (set_up_pairs answers.deletions pairs [] created))
            (omega (arith, length-first_answers answers.pair_answers 0 num_qps))
            (set_up_pairs_lem answers.deletions pairs [] created created (
              refl,
              omega arith,
              omega arith,
              refl,
              omega arith,
              omega arith,
              omega arith,
              omega arith,
            )))

-- Whatever of its calls fail, the deletions of queues included, `uGDSHandleRegister` returns an
-- error and holds no more than before, or success and a handle on the controller that was opened,
-- with a queue pair for each that was granted in both counts and at most 16, and with one
-- controller and one admin queue more; `uGDSHandleDeregister` of that handle gives back all that is
-- held. Only of the controller's queues it then has more than before the call, one for each
-- deletion that has failed.
pub handle_open-IsOpened :
    (call : RegisterCall) (answers : RegisterAnswers) (held : HandleHeld)
    → IsOpened answers held (handle_open call answers held)
unfolding handle_open
handle_open-IsOpened call answers held =
    let P : OpError × Option OpenHandle × HandleHeld → Type 0 = IsOpened answers held in
    either P (not call.has_pointers) _ _ (λ _. (λ q. cc, (refl, refl, refl, refl, refl, refl)))
      λ _.
        either P (not call.initialized) _ _ (λ _. (λ q. cc, (refl, refl, refl, refl, refl, refl)))
          λ _.
            either P (not call.is_opaque_fd) _ _
              (λ _. (λ q. cc, (refl, refl, refl, refl, refl, refl)))
              (λ _. ctrl_opened-IsOpened answers held answers.ctrl_init refl)
