-- ===== src/Rpc.antt =====
-- src/libnvm/rpc.cpp: the binding handles of a reference, the execution of admin commands on the
-- local admin queues, and the creation of these.
pub mod Handles
pub mod Execute
pub mod Create
pub mod Reference
pub mod Life
pub mod Status
mod Tests
use u_gds.Prelude.{
  ℕ, zero, suc, ◌+◌, ◌-◌, ◌*◌, ◌/◌, ◌%◌, ◌^◌, Bool, true, false, ◌&&◌, ◌||◌, not, Option, none,
  some, List, [], ◌∷◌, ◌++◌, ltb, ◌==◌, if◌then◌else◌, u16_mod, get_or, ℤ,
}
use u_gds.Queue.{
  Queue, Ctrl, Cpl, Mem, Waited, einval, cpl_size, cmd_size, sq_enqueue, sq_submit, sq_update,
  cq_dequeue_block, cq_update, default_cid, queue_clear,
}
use u_gds.Command.{Cmd, set_dword}
use u_gds.Status.{err_pack}
use u_gds.Dma.{Dma}
use u_gds.Dma.Lifetime.{enomem}
use u_gds.Admin.{enotty}
use u_gds.Controller.{etime, erange}

abbrev pub eagain : ℕ
eagain = 11

-- `struct rpc_handle`, its data by a name
pub record RpcHandle : Type 0 where
  pub key : ℕ
  pub instance_of : ℕ

unfoldable pub has_key : ℕ → List RpcHandle → Bool
has_key key [] = false
has_key key (h ∷ hs) = let rest = has_key key hs in if h.key == key then true else rest

-- `_nvm_rpc_handle_insert`: valid says that the data and the callback are not NULL
unfoldable pub handle_insert :
    (valid allocated : Bool) → (lock_err : ℕ) → RpcHandle → List RpcHandle → ℕ × List RpcHandle
handle_insert valid allocated lock_err handle handles =
    if not valid
    then (einval, handles)
    else if not allocated
    then (enomem, handles)
    else if not (lock_err == 0)
    then (lock_err, handles)
    else if has_key handle.key handles
    then (einval, handles)
    else (0, handles ++ (handle ∷ []))

abbrev pub cons_kept :
    RpcHandle → Option (List RpcHandle × RpcHandle) → Option (List RpcHandle × RpcHandle)
cons_kept h none = none
cons_kept h (some (kept, released)) = some (h ∷ kept, released)

-- `_nvm_rpc_handle_remove`: the list and the handle that is released; `none` where the code reads
-- through NULL
unfoldable pub handle_remove : ℕ → List RpcHandle → Option (List RpcHandle × RpcHandle)
handle_remove key [] = none
handle_remove key (h ∷ hs) =
    let rest = handle_remove key hs in if h.key == key then some (hs, h) else cons_kept h rest

-- `struct local_admin`
pub record LocalAdmin : Type 0 where
  pub acq : Queue
  pub asq : Queue
  pub timeout : ℕ

-- What an admin command comes to: the errno, the completion that is copied out, the queues, the
-- slot with the command in it, the writes to the doorbells, and the number of the next poll.
pub record Executed : Type 0 where
  pub err : ℕ
  pub cpl : Option Cpl
  pub admin : LocalAdmin
  pub sent : Option (ℕ × Cmd)
  pub rung : List (ℕ × ℕ)
  pub polls : ℕ

-- `*NVM_CMD_CID(cmd) = cid`
abbrev pub set_cid : Cmd → ℕ → Cmd
set_cid cmd cid = set_dword cmd 0 (cid % u16_mod * 2 ^ 16 + cmd 0 % 2 ^ 16)

abbrev pub rung_by : Option (ℕ × ℕ) → List (ℕ × ℕ)
rung_by none = []
rung_by (some write) = write ∷ []

-- the end of `execute_command` behind the wait
abbrev pub command_waited :
    (timeout : ℕ) → (mems : ℕ → Mem) → (slot : ℕ) → Cmd → Option (ℕ × ℕ) × Queue → Waited → Executed
command_waited timeout mems slot cmd (write, asq) (none, acq, t) = record {
  err = etime;
  cpl = none;
  admin = record { acq = acq; asq = asq; timeout = timeout };
  sent = some (slot, cmd);
  rung = rung_by write;
  polls = t;
}
command_waited timeout mems slot cmd (write, asq) (some entry, acq, t) =
    let updated = cq_update acq in
    record {
      err = 0;
      cpl = some (mems (t - 1) entry);
      admin = record { acq = updated.1; asq = sq_update asq; timeout = timeout };
      sent = some (slot, cmd);
      rung = rung_by write ++ rung_by updated.0;
      polls = t;
    }

abbrev pub option_map_executed : (Waited → Executed) → Option Waited → Option Executed
option_map_executed f none = none
option_map_executed f (some w) = some (f w)

abbrev pub command_enqueued :
    LocalAdmin → Cmd → (mems : ℕ → Mem) → (t : ℕ) → Option ℕ × Queue → Option Executed
command_enqueued admin cmd mems t (none, asq) = some (record {
  err = eagain;
  cpl = none;
  admin = record { acq = admin.acq; asq = asq; timeout = admin.timeout };
  sent = none;
  rung = [];
  polls = t;
})
command_enqueued admin cmd mems t (some slot, asq) =
    option_map_executed
      (command_waited admin.timeout mems slot (set_cid cmd (default_cid asq)) (sq_submit asq))
      (cq_dequeue_block admin.acq mems t admin.timeout)

-- `execute_command`; `none` is out of fuel
unfoldable pub execute_command : LocalAdmin → Cmd → (mems : ℕ → Mem) → (t : ℕ) → Option Executed
execute_command admin cmd mems t = command_enqueued admin cmd mems t (sq_enqueue admin.asq)

-- `nvm_raw_rpc`: the status of a call, with the errno of the mutex, the stub if the reference is
-- bound, and what the stub answers
unfoldable pub raw_rpc : (lock_err : ℕ) → Option (Cmd → ℕ × Option Cpl) → Cmd → ℤ
raw_rpc lock_err stub cmd = if not (lock_err == 0) then err_pack none lock_err else elim stub [
  | none ↦ err_pack none einval
  | some f ↦ let answer = f cmd in err_pack answer.1 answer.0
]

-- `_nvm_local_admin`: the stub of a reference whose stub is `execute_command`, and none otherwise
unfoldable pub local_admin : (lock_err : ℕ) → Option (Cmd → ℕ × Option Cpl) → Cmd → ℤ
local_admin lock_err local cmd =
    if not (lock_err == 0) then err_pack none lock_err else elim local [
      | none ↦ err_pack none einval
      | some f ↦ let answer = f cmd in err_pack none answer.0
    ]

-- `release_handles`: the handles that are released, in their order
unfoldable pub release_handles : List RpcHandle → List RpcHandle × List RpcHandle
release_handles [] = ([], [])
release_handles (h ∷ hs) = let rest = release_handles hs in (rest.0, h ∷ rest.1)

-- `_nvm_rpc_bind`: the errno, and whether the reference is bound as asked
abbrev pub rpc_bind : (lock_err : ℕ) → (bound : Bool) → ℕ × Bool
rpc_bind lock_err bound =
    if not (lock_err == 0) then (lock_err, bound) else if bound then (einval, bound) else (0, true)

-- what a reference to a controller and its admin queues hold
pub record AqHeld : Type 0 where
  pub ctrl_refs : ℕ
  pub references : ℕ
  pub windows : ℕ
  pub descriptors : ℕ

-- What the system answers to `nvm_aq_create`: whether `_nvm_ctrl_get` succeeds, `malloc` of the
-- reference, the mutex, `nvm_dma_remap` of the window, and `malloc` of the descriptor, an errno or
-- 0 each.
pub record AqAnswers : Type 0 where
  pub get_ctrl : Bool
  pub reference : Bool
  pub mutex_err : ℕ
  pub remap : ℕ
  pub descriptor : ℕ

-- `_nvm_ref_get`
unfoldable pub ref_get : AqAnswers → AqHeld → ℕ × AqHeld
ref_get answers held =
    let got = record held { ctrl_refs = held.ctrl_refs + 1 } in
    let put = record got { ctrl_refs = got.ctrl_refs - 1 } in
    if not answers.get_ctrl
    then (enotty, held)
    else if not answers.reference
    then (enomem, put)
    else if not (answers.mutex_err == 0)
    then (answers.mutex_err, put)
    else (0, record got { references = got.references + 1 })

-- the queues of a descriptor that `malloc` gave with `acq` and `asq` in it
abbrev pub admin_queues : Ctrl → Dma → (acq asq : Queue) → LocalAdmin
admin_queues ctrl qmem acq asq = record {
  acq =
      (queue_clear acq ctrl true 0 (ctrl.page_size / cpl_size) qmem.is_local qmem.vaddr
        (get_or qmem.ioaddrs 0 0)).1;
  asq =
      (queue_clear asq ctrl false 0 (ctrl.page_size / cmd_size) qmem.is_local
        (qmem.vaddr + qmem.page_size) (get_or qmem.ioaddrs 1 0)).1;
  timeout = ctrl.timeout;
}

-- `create_admin`
unfoldable pub create_admin :
    AqAnswers → Ctrl → Dma → (acq asq : Queue) → AqHeld → ℕ × Option LocalAdmin × AqHeld
create_admin answers ctrl window acq asq held =
    let mapped = record held { windows = held.windows + 1 } in
    if not (ctrl.page_size == window.page_size)
    then (einval, none, held)
    else if ltb window.n_ioaddrs 2
    then (erange, none, held)
    else if window.vaddr == 0
    then (einval, none, held)
    else if not (answers.remap == 0)
    then (answers.remap, none, held)
    else if not (answers.descriptor == 0)
    then (answers.descriptor, none, record mapped { windows = mapped.windows - 1 })
    else (
      0,
      some (admin_queues ctrl window acq asq),
      record mapped { descriptors = mapped.descriptors + 1 },
    )

-- `_nvm_ref_put` of a reference, with an admin descriptor or none
abbrev pub ref_put : Option LocalAdmin → AqHeld → AqHeld
ref_put none held = record held { ctrl_refs = held.ctrl_refs - 1; references = held.references - 1 }
ref_put (some admin) held = record {
  ctrl_refs = held.ctrl_refs - 1;
  references = held.references - 1;
  windows = held.windows - 1;
  descriptors = held.descriptors - 1;
}

abbrev pub admin_created : ℕ × Option LocalAdmin × AqHeld → ℕ × Option LocalAdmin × AqHeld
admin_created (err, admin, held) =
    if err == 0 then (0, admin, held) else (err, none, ref_put none held)

abbrev pub reference_got :
    AqAnswers → Ctrl → Dma → (acq asq : Queue) → ℕ × AqHeld → ℕ × Option LocalAdmin × AqHeld
reference_got answers ctrl window acq asq (err, held) =
    if err == 0
    then admin_created (create_admin answers ctrl window acq asq held)
    else (err, none, held)

-- `nvm_aq_create`, which does not use what `nvm_raw_ctrl_reset` returns
unfoldable pub aq_create :
    AqAnswers → Ctrl → Dma → (acq asq : Queue) → AqHeld → ℕ × Option LocalAdmin × AqHeld
aq_create answers ctrl window acq asq held =
    reference_got answers ctrl window acq asq (ref_get answers held)
