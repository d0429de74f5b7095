-- ===== src/Controller/Tests.antt =====
-- A controller at concrete inputs.
use u_gds.Prelude.{
  ℕ, ◌+◌, ◌^◌, ◌≤◌, ◌<◌, refl, true, List, [], ◌∷◌, if◌then◌else◌, ◌==◌, ltb, arith,
}
use u_gds.Queue.{Ctrl}
use u_gds.Controller.{b2log, aqa_value, cc_value, Controller, raw_ctrl_reset, write_cc}
use u_gds.Controller.Log.{b2log_lem}
use u_gds.Controller.Fields.{AreFields, reset-AreFields}
use u_gds.Controller.Reset.{IsReset, raw_ctrl_reset-IsReset}
use u_gds.Controller.Refs.{
  RefCall, get_ref, put_ref, IsCounted, held, ref_calls, ref_calls-IsCounted,
}

b2log_lem_example : (2 ^ b2log 100 ≤ 100) × (100 < 2 ^ (b2log 100 + 1)) × (b2log 100 < 32)
b2log_lem_example = b2log_lem 100 (omega arith) (omega arith)

reset-AreFields_example : AreFields 1 8192 (aqa_value 8192) (cc_value 8192)
reset-AreFields_example = reset-AreFields 1 (omega arith)

abbrev ctrl : Ctrl
ctrl = record {
  page_size = 4096;
  dstrd = 0;
  timeout = 3;
  max_qs = 1024;
  mm_size = 8192;
  mm_ptr = 65536;
}

-- disabled at the second poll, ready at the fourth
abbrev rdy : ℕ → ℕ
rdy t = if t == 0 then 1 else if ltb t 3 then 0 else 1

raw_ctrl_reset-IsReset_example :
    IsReset ctrl
      (write_cc 4587520)
      rdy
      1048576
      1052672
      (raw_ctrl_reset ctrl 4587521 rdy 1048576 1052672)
raw_ctrl_reset-IsReset_example = raw_ctrl_reset-IsReset ctrl 4587521 rdy 1048576 1052672

abbrev fresh : Controller
fresh = record { count = 1; has_device = true; releases = 0; frees = 0 }

abbrev schedule : List RefCall
schedule = get_ref 0 ∷ get_ref 22 ∷ put_ref ∷ put_ref ∷ []

ref_calls-IsCounted_example : IsCounted true (held schedule 1) (ref_calls schedule fresh)
ref_calls-IsCounted_example =
    ref_calls-IsCounted true schedule 1 fresh
      (
        omega arith,
        omega arith,
        (omega arith, omega arith, (omega arith, omega arith, (omega arith, omega arith, tt))),
      )
      (record { counted = refl; freed = refl; released = refl; has_device = λ _. refl })
