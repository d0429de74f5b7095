-- ===== src/Handle/Tests.antt =====
-- The registration of a handle at concrete inputs.
use u_gds.Prelude.{true, false, some, if◌then◌else◌, ◌==◌}
use u_gds.Handle.{HandleHeld, PairAnswers, RegisterAnswers, RegisterCall, handle_open}
use u_gds.Handle.Balance.{IsOpened, handle_open-IsOpened}

abbrev nothing : HandleHeld
nothing = record {
  ctrls = 0;
  buffers = 0;
  mappings = 0;
  aqs = 0;
  cqs = 0;
  sqs = 0;
  cq_failures = 0;
  sq_failures = 0;
}

abbrev good_pair : PairAnswers
good_pair = record {
  cq_buf = true;
  cq_map = true;
  cq_create = true;
  sq_buf = true;
  sq_map = true;
  sq_create = true;
  prp_buf = true;
  prp_map = true;
}

-- the second of three pairs has no mapping for its PRP page, and then the deletion of the first's
-- submission queue fails
abbrev answers : RegisterAnswers
answers = record {
  ctrl_init = some 7;
  aq_buf = true;
  aq_map = true;
  aq_create = true;
  ctrl_info = true;
  ns_info = true;
  num_queues = true;
  n_cqs = 3;
  n_sqs = 4;
  pair_answers = λ i. if i == 1 then record good_pair { prp_map = false } else good_pair;
  deletions = λ i. record { cq_delete = true; sq_delete = i == 0 };
}

abbrev call : RegisterCall
call = record { has_pointers = true; initialized = true; is_opaque_fd = true }

handle_open-IsOpened_example : IsOpened answers nothing (handle_open call answers nothing)
handle_open-IsOpened_example = handle_open-IsOpened call answers nothing
