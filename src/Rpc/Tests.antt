-- ===== src/Rpc/Tests.antt =====
-- A reference and its admin queues at concrete inputs.
use u_gds.Prelude.{ℕ, refl, true, List, some, [], ◌∷◌, if◌then◌else◌, ◌==◌, arith}
use u_gds.Queue.{Queue, Ctrl, Mem}
use u_gds.Command.{zero_cmd}
use u_gds.Dma.{Dma}
use u_gds.Rpc.{
  RpcHandle, has_key, handle_insert, LocalAdmin, execute_command, AqAnswers, AqHeld, aq_create,
}
use u_gds.Rpc.Execute.{IsIdle, IsExecuted, execute_command-IsExecuted}
use u_gds.Rpc.Create.{IsAq, aq_create-IsAq}
use mathlib.Core.Path.{subst}
use mathlib.Core.Option.{some-injective}
use u_gds.Rpc.Reference.{
  Reference, BindingCall, insert_handle, remove_handle, bind_to, new_reference, binding_calls,
}
use u_gds.Rpc.Life.{AreKeyed, IsReleased, new_reference-IsReleased}

abbrev queue_at : (vaddr db : ℕ) → Queue
queue_at vaddr db = record {
  head_lock = 0;
  tail_lock = 0;
  head = 3;
  tail = 3;
  in_ticket = 0;
  cid_ticket = 0;
  no = 0;
  es = 64;
  qs = 4;
  phase = true;
  is_local = true;
  last = 3;
  db = some db;
  vaddr = vaddr;
  ioaddr = vaddr;
}

abbrev admin : LocalAdmin
admin = record { acq = queue_at 65536 4100; asq = queue_at 69632 4096; timeout = 2 }

admin-IsIdle : IsIdle admin 4096
admin-IsIdle = record {
  ring = record {
    two_le = omega arith;
    small = omega arith;
    head_in = omega arith;
    tail_in = omega arith;
  };
  empty = refl;
  has_db = refl;
  known = refl;
}

-- the completion comes at the second poll
abbrev mems : ℕ → Mem
mems t addr = record { dword0 = 0; dword1 = 0; dword2 = 0; dword3 = if t == 0 then 65536 else 0 }

execute_command-IsExecuted_example :
    IsExecuted admin 4096 zero_cmd mems 0 (execute_command admin zero_cmd mems 0)
execute_command-IsExecuted_example =
    execute_command-IsExecuted admin 4096 zero_cmd mems 0 admin-IsIdle (omega arith)

abbrev ctrl : Ctrl
ctrl = record {
  page_size = 4096;
  dstrd = 0;
  timeout = 500;
  max_qs = 1024;
  mm_size = 8192;
  mm_ptr = 65536;
}

abbrev window : Dma
window = record {
  vaddr = 1048576;
  is_local = true;
  contiguous = true;
  page_size = 4096;
  n_ioaddrs = 2;
  ioaddrs = 1048576 ∷ 1052672 ∷ [];
}

abbrev good : AqAnswers
good = record { get_ctrl = true; reference = true; mutex_err = 0; remap = 0; descriptor = 0 }

abbrev nothing : AqHeld
nothing = record { ctrl_refs = 1; references = 0; windows = 1; descriptors = 0 }

aq_create-IsAq_example :
    IsAq ctrl window
      (queue_at 0 0)
      (queue_at 0 0)
      nothing
      (aq_create good ctrl window (queue_at 0 0) (queue_at 0 0) nothing)
aq_create-IsAq_example = aq_create-IsAq good ctrl window (queue_at 0 0) (queue_at 0 0) nothing

abbrev first_handle : RpcHandle
first_handle = record { key = 1; instance_of = 10 }

abbrev with_first : Reference
with_first = record new_reference { handles = first_handle ∷ []; inserted = first_handle ∷ [] }

abbrev removal : List BindingCall
removal = remove_handle 1 ∷ bind_to 0 5 true ∷ []

new_reference-IsReleased_example :
    IsReleased (binding_calls (insert_handle true true 0 first_handle ∷ removal) new_reference)
unfolding handle_insert has_key
new_reference-IsReleased_example =
    new_reference-IsReleased (insert_handle true true 0 first_handle ∷ removal) (
      tt,
      λ s e.
          subst (λ r. AreKeyed removal r) (some-injective with_first s e)
            (refl, λ t f. (tt, λ v g. tt)),
    )
