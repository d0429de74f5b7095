-- ===== src/Handle.antt =====
-- src/ugds_handle.cpp: the registration of handles, with what it holds as counts.
pub mod Pairs
pub mod Balance
mod Tests
use u_gds.Prelude.{
  ℕ, zero, suc, ◌+◌, ◌-◌, ◌*◌, Bool, true, false, not, ◌||◌, Option, none, some, List, [], ◌∷◌,
  ◌++◌, ltb, ◌==◌, if◌then◌else◌, min, length,
}
use u_gds.Driver.{OpError}

-- controllers, buffers of `posix_memalign`, DMA mappings, admin queue references, the completion
-- and submission queues that the controller has, and the deletions of such queues that have failed
pub record HandleHeld : Type 0 where
  pub ctrls : ℕ
  pub buffers : ℕ
  pub mappings : ℕ
  pub aqs : ℕ
  pub cqs : ℕ
  pub sqs : ℕ
  pub cq_failures : ℕ
  pub sq_failures : ℕ

-- the pointers of `IOQueuePair`, each NULL or not
pub record IoPair : Type 0 where
  pub cq_buf : Bool
  pub cq_dma : Bool
  pub sq_buf : Bool
  pub sq_dma : Bool
  pub prp_buf : Bool
  pub prp_dma : Bool

abbrev pub one_if : Bool → ℕ
one_if true = 1
one_if false = 0

-- whether `nvm_admin_cq_delete` and `nvm_admin_sq_delete` succeed for a pair
pub record DeleteAnswers : Type 0 where
  pub cq_delete : Bool
  pub sq_delete : Bool

-- the queues that a deletion, if it is called, takes from the controller, and the failures
abbrev pub deleted_if : (called ok : Bool) → ℕ
deleted_if false ok = 0
deleted_if true false = 0
deleted_if true true = 1

abbrev pub failed_if : (called ok : Bool) → ℕ
failed_if false ok = 0
failed_if true false = 1
failed_if true true = 0

-- `cleanup_qp`: the deletions, whose status it drops, the mappings, and `free` of the three buffers
abbrev pub cleanup_qp : DeleteAnswers → IoPair → HandleHeld → HandleHeld
cleanup_qp answers qp held = record {
  ctrls = held.ctrls;
  buffers = held.buffers - one_if qp.sq_buf - one_if qp.cq_buf - one_if qp.prp_buf;
  mappings = held.mappings - one_if qp.sq_dma - one_if qp.cq_dma - one_if qp.prp_dma;
  aqs = held.aqs;
  cqs = held.cqs - deleted_if qp.cq_dma answers.cq_delete;
  sqs = held.sqs - deleted_if qp.sq_dma answers.sq_delete;
  cq_failures = held.cq_failures + failed_if qp.cq_dma answers.cq_delete;
  sq_failures = held.sq_failures + failed_if qp.sq_dma answers.sq_delete;
}

-- whether each call of a queue pair's creation succeeds: `posix_memalign`, `nvm_dma_map_host` and
-- the creation of the queue
pub record PairAnswers : Type 0 where
  pub cq_buf : Bool
  pub cq_map : Bool
  pub cq_create : Bool
  pub sq_buf : Bool
  pub sq_map : Bool
  pub sq_create : Bool
  pub prp_buf : Bool
  pub prp_map : Bool

abbrev pub pair_of : (cq_buf cq_dma sq_buf sq_dma prp_buf prp_dma : Bool) → IoPair
pair_of a b c d e f = record {
  cq_buf = a;
  cq_dma = b;
  sq_buf = c;
  sq_dma = d;
  prp_buf = e;
  prp_dma = f;
}

abbrev pub add_buffer : HandleHeld → HandleHeld
add_buffer held = record held { buffers = held.buffers + 1 }

abbrev pub add_mapping : HandleHeld → HandleHeld
add_mapping held = record held { mappings = held.mappings + 1 }

abbrev pub drop_mapping : HandleHeld → HandleHeld
drop_mapping held = record held { mappings = held.mappings - 1 }

-- the PRP list page of a pair
abbrev pub set_up_prp : PairAnswers → HandleHeld → Bool × IoPair × HandleHeld
set_up_prp answers held =
    if not answers.prp_buf
    then (false, pair_of true true true true false false, held)
    else if not answers.prp_map
    then (false, pair_of true true true true true false, add_buffer held)
    else (true, pair_of true true true true true true, add_mapping (add_buffer held))

-- the submission queue of a pair
abbrev pub set_up_sq : PairAnswers → HandleHeld → Bool × IoPair × HandleHeld
set_up_sq answers held =
    if not answers.sq_buf
    then (false, pair_of true true false false false false, held)
    else let buffered = add_buffer held in
      if not answers.sq_map
      then (false, pair_of true true true false false false, buffered)
      else let mapped = add_mapping buffered in
        if not answers.sq_create
        then (false, pair_of true true true false false false, drop_mapping mapped)
        else set_up_prp answers (record mapped { sqs = mapped.sqs + 1 })

-- a round of the loop over the queue pairs, up to `goto fail`: whether it is complete, and its pair
abbrev pub set_up_pair : PairAnswers → HandleHeld → Bool × IoPair × HandleHeld
set_up_pair answers held =
    if not answers.cq_buf
    then (false, pair_of false false false false false false, held)
    else let buffered = add_buffer held in
      if not answers.cq_map
      then (false, pair_of true false false false false false, buffered)
      else let mapped = add_mapping buffered in
        if not answers.cq_create
        then (false, pair_of true false false false false false, drop_mapping mapped)
        else set_up_sq answers (record mapped { cqs = mapped.cqs + 1 })

-- the answers to the deletions of the first pair that is cleaned up, the second and so on
abbrev pub Deletions : Type 0
Deletions = ℕ → DeleteAnswers

-- `cleanup_qp` of the pairs, with the answers from i on
unfoldable pub cleanup_pairs : Deletions → (i : ℕ) → List IoPair → HandleHeld → HandleHeld
cleanup_pairs deletions i [] held = held
cleanup_pairs deletions i (qp ∷ qps) held =
    cleanup_pairs deletions (i + 1) qps (cleanup_qp (deletions i) qp held)

abbrev pub pair_set_up :
    Deletions
    → (done : List IoPair) → (rest : List IoPair → HandleHeld → Option (List IoPair) × HandleHeld)
    → Bool × IoPair × HandleHeld
    → Option (List IoPair) × HandleHeld
pair_set_up deletions done rest (true, qp, held) = rest (done ++ (qp ∷ [])) held
pair_set_up deletions done rest (false, qp, held) =
    (none, cleanup_pairs deletions 1 done (cleanup_qp (deletions 0) qp held))

-- the loop over the queue pairs, with the pairs that are done, which go too when it fails
unfoldable pub set_up_pairs :
    Deletions
    → List PairAnswers
    → (done : List IoPair) → HandleHeld
    → Option (List IoPair) × HandleHeld
set_up_pairs deletions [] done held = (some done, held)
set_up_pairs deletions (answers ∷ rest) done held =
    pair_set_up deletions done (set_up_pairs deletions rest) (set_up_pair answers held)

-- What the calls of `uGDSHandleRegister` before the loop answer: the controller, if there is one,
-- and whether the calls behind it succeed, with the counts of queues granted and a pair's answers
-- each, and those of the deletions behind `fail`.
pub record RegisterAnswers : Type 0 where
  pub ctrl_init : Option ℕ
  pub aq_buf : Bool
  pub aq_map : Bool
  pub aq_create : Bool
  pub ctrl_info : Bool
  pub ns_info : Bool
  pub num_queues : Bool
  pub n_cqs : ℕ
  pub n_sqs : ℕ
  pub pair_answers : ℕ → PairAnswers
  pub deletions : Deletions

-- `HandleState`, as far as its registration sets it up and takes it down
pub record OpenHandle : Type 0 where
  pub ctrl : ℕ
  pub qps : List IoPair

-- what `uGDSHandleRegister` is called with
pub record RegisterCall : Type 0 where
  pub has_pointers : Bool
  pub initialized : Bool
  pub is_opaque_fd : Bool

-- `UGDS_DEFAULT_NUM_QPS`
abbrev pub default_num_qps : ℕ
default_num_qps = 16

-- the answers of the pairs from i on
unfoldable pub first_answers : (ℕ → PairAnswers) → (i n : ℕ) → List PairAnswers
first_answers answers i zero = []
first_answers answers i (suc n) = answers i ∷ first_answers answers (i + 1) n

abbrev pub drop_ctrl : HandleHeld → HandleHeld
drop_ctrl held = record held { ctrls = held.ctrls - 1 }

abbrev pub drop_buffer : HandleHeld → HandleHeld
drop_buffer held = record held { buffers = held.buffers - 1 }

-- `nvm_aq_destroy`, `nvm_dma_unmap`, `free` and `nvm_ctrl_free`
abbrev pub drop_admin : HandleHeld → HandleHeld
drop_admin held = drop_ctrl (drop_buffer (drop_mapping (record held { aqs = held.aqs - 1 })))

abbrev pub pairs_set_up :
    (ctrl : ℕ) → Option (List IoPair) × HandleHeld → OpError × Option OpenHandle × HandleHeld
pairs_set_up ctrl (none, held) = (OpError.internal_error, none, drop_admin held)
pairs_set_up ctrl (some qps, held) =
    (OpError.success, some (record { ctrl = ctrl; qps = qps }), held)

-- `uGDSHandleRegister` behind `nvm_ctrl_init`
abbrev pub ctrl_opened :
    RegisterAnswers → HandleHeld → Option ℕ → OpError × Option OpenHandle × HandleHeld
ctrl_opened answers held none = (OpError.internal_error, none, held)
ctrl_opened answers held (some ctrl) =
    let opened = record held { ctrls = held.ctrls + 1 } in
    if not answers.aq_buf
    then (OpError.internal_error, none, drop_ctrl opened)
    else let buffered = add_buffer opened in
      if not answers.aq_map
      then (OpError.internal_error, none, drop_ctrl (drop_buffer buffered))
      else let mapped = add_mapping buffered in
        if not answers.aq_create
        then (OpError.internal_error, none, drop_ctrl (drop_buffer (drop_mapping mapped)))
        else let created = record mapped { aqs = mapped.aqs + 1 } in
          if not answers.ctrl_info || (not answers.ns_info || not answers.num_queues)
          then (OpError.internal_error, none, drop_admin created)
          else let num_qps = min (min answers.n_cqs answers.n_sqs) default_num_qps in
            pairs_set_up ctrl (
              set_up_pairs answers.deletions (first_answers answers.pair_answers 0 num_qps) []
                created)

-- `uGDSHandleRegister` up to the driver's default controller
unfoldable pub handle_open :
    RegisterCall → RegisterAnswers → HandleHeld → OpError × Option OpenHandle × HandleHeld
handle_open call answers held =
    if not call.has_pointers
    then (OpError.invalid_value, none, held)
    else if not call.initialized
    then (OpError.driver_not_initialized, none, held)
    else if not call.is_opaque_fd
    then (OpError.invalid_file_type, none, held)
    else ctrl_opened answers held answers.ctrl_init

-- `g_driver.default_ctrl` at the end of `uGDSHandleRegister`
abbrev pub default_after_open : Option OpenHandle → Option ℕ → Option ℕ
default_after_open none default = default
default_after_open (some handle) none = some handle.ctrl
default_after_open (some handle) (some ctrl) = some ctrl

abbrev pub reversed : List IoPair → List IoPair
reversed [] = []
reversed (qp ∷ qps) = reversed qps ++ (qp ∷ [])

-- what `uGDSHandleDeregister` gives back
unfoldable pub handle_close : Deletions → OpenHandle → HandleHeld → HandleHeld
handle_close deletions handle held =
    drop_admin (cleanup_pairs deletions 0 (reversed handle.qps) held)

-- `g_driver.default_ctrl` after `uGDSHandleDeregister`
abbrev pub default_after_close : OpenHandle → Option ℕ → Option ℕ
default_after_close handle none = none
default_after_close handle (some ctrl) = if ctrl == handle.ctrl then none else some ctrl
