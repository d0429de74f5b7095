-- ===== src/Admin/Queues.antt =====
-- The creation and deletion of IO queues: `nvm_admin_cq_create`, `nvm_admin_cq_delete`,
-- `nvm_admin_sq_create` and `nvm_admin_sq_delete` of src/libnvm/admin.cpp.
use u_gds.Prelude.{
  ℕ, ◌+◌, ◌-◌, ◌*◌, ◌/◌, ◌%◌, Bool, true, false, ◌||◌, Option, none, some, ltb, ◌==◌, if◌then◌else◌,
  u16_mod, u64_mod, ℤ, pos, get_or, min,
}
use u_gds.Queue.{Ctrl, Queue, Cpl, einval, cpl_size, cmd_size, queue_clear}
use u_gds.Command.{Cmd, zero_cmd}
use u_gds.Status.{err_pack, status_ok}
use u_gds.Dma.{Dma}
use u_gds.Admin.{Rpc, enotty, admin_cq_create, admin_cq_delete, admin_sq_create, admin_sq_delete}

-- the status, the caller's descriptor afterwards, and the command that was sent
abbrev pub Created : Type 0
Created = ℤ × Queue × Option Cmd

-- `NVM_SQ_PAGES` and `NVM_CQ_PAGES`, for entries of the size
unfoldable pub queue_pages : (entry_size : ℕ) → Ctrl → ℕ → ℕ
queue_pages entry_size ctrl qs = (qs - 1) % u16_mod * entry_size / ctrl.page_size + 1

-- the size asked for, or for 0 what a page of the memory and the controller can hold
abbrev pub queue_size : (entry_size : ℕ) → Ctrl → Dma → ℕ → ℕ
queue_size entry_size ctrl dma qs =
    if qs == 0 then min (dma.page_size / entry_size) ctrl.max_qs else qs

-- The checks that both functions make of the queue's number, size and memory: `none` lets the
-- queue through.
unfoldable pub queue_refused : (entry_size : ℕ) → Ctrl → Dma → (id offset qs : ℕ) → Option ℕ
queue_refused entry_size ctrl dma id offset qs =
    let n_pages = queue_pages entry_size ctrl qs in
    if ltb qs 2 || ltb 0x10000 qs || ltb ctrl.max_qs qs
    then some einval
    else if dma.vaddr == 0
    then some einval
    else if n_pages == 0
        || ltb dma.n_ioaddrs n_pages
        || ltb dma.n_ioaddrs offset
        || ltb dma.n_ioaddrs ((offset + n_pages) % u64_mod)
    then some einval
    else none

-- the descriptor is handed out if the command succeeds
abbrev pub answered : (old queue : Queue) → Cmd → ℤ × Cpl → Created
answered old queue cmd (status, completion) =
    if status_ok status then (pos 0, queue, some cmd) else (status, old, some cmd)

-- the command is sent for a descriptor that `nvm_queue_clear` sets up
abbrev pub created : (old : Queue) → Rpc → (Queue → Cmd) → ℕ × Queue → Created
created old rpc command (err, queue) =
    if err == 0
    then answered old queue (command queue) (rpc (command queue))
    else (err_pack none err, old, none)

abbrev pub unless_refused : (old : Queue) → Option ℕ → Created → Created
unless_refused old (some err) rest = (err_pack none err, old, none)
unless_refused old none rest = rest

-- `nvm_admin_cq_create`; the reference has no controller if `ctrl` is `none`, and the descriptor
-- that is cleared is `blank`, a local variable.
unfoldable pub admin_cq_create_queue :
    Rpc
    → Option Ctrl
    → (blank cq : Queue) → (id : ℕ) → Dma
    → (offset qs : ℕ) → (need_prp : Bool) → Created
admin_cq_create_queue rpc none blank cq id dma offset qs need_prp =
    (err_pack none (if id == 0 then einval else enotty), cq, none)
admin_cq_create_queue rpc (some ctrl) blank cq id dma offset qs need_prp =
    if id == 0
    then (err_pack none einval, cq, none)
    else (let size = queue_size cpl_size ctrl dma qs in
        let ioaddr = get_or dma.ioaddrs offset 0 in
        unless_refused cq (queue_refused cpl_size ctrl dma id offset size) (
          created cq rpc (λ queue. admin_cq_create zero_cmd queue ioaddr need_prp)
            (queue_clear blank ctrl true id size dma.is_local (dma.vaddr + dma.page_size * offset)
              ioaddr)))

-- `nvm_admin_sq_create`
unfoldable pub admin_sq_create_queue :
    Rpc
    → Option Ctrl
    → (blank sq cq : Queue) → (id : ℕ) → Dma
    → (offset qs : ℕ) → (need_prp : Bool) → Created
admin_sq_create_queue rpc none blank sq cq id dma offset qs need_prp =
    (err_pack none (if id == 0 then einval else enotty), sq, none)
admin_sq_create_queue rpc (some ctrl) blank sq cq id dma offset qs need_prp =
    if id == 0
    then (err_pack none einval, sq, none)
    else (let size = queue_size cmd_size ctrl dma qs in
        let ioaddr = get_or dma.ioaddrs offset 0 in
        unless_refused sq (queue_refused cmd_size ctrl dma id offset size) (
          created sq rpc (λ queue. admin_sq_create zero_cmd queue cq ioaddr need_prp)
            (queue_clear blank ctrl false id size dma.is_local (dma.vaddr + dma.page_size * offset)
              ioaddr)))

-- a queue is deleted: its doorbell goes if the command succeeds
abbrev pub deleted : Queue → Cmd → ℤ × Cpl → Created
deleted queue cmd (status, completion) =
    if status_ok status
    then (pos 0, record queue { db = none }, some cmd)
    else (status, queue, some cmd)

-- `nvm_admin_cq_delete`
unfoldable pub admin_cq_delete_queue : Rpc → Queue → Created
admin_cq_delete_queue rpc cq = elim cq.db [
  | none ↦ (err_pack none einval, cq, none)
  | some _ ↦ deleted cq (admin_cq_delete zero_cmd cq) (rpc (admin_cq_delete zero_cmd cq))
]

-- `nvm_admin_sq_delete`; its completion queue may be NULL.
unfoldable pub admin_sq_delete_queue : Rpc → (sq : Queue) → (cq : Option Queue) → Created
admin_sq_delete_queue rpc sq none = (err_pack none einval, sq, none)
admin_sq_delete_queue rpc sq (some cq) = elim cq.db [
  | none ↦ (err_pack none einval, sq, none)
  | some _ ↦ elim sq.db [
    | none ↦ (err_pack none einval, sq, none)
    | some _ ↦ deleted sq (admin_sq_delete zero_cmd sq) (rpc (admin_sq_delete zero_cmd sq))
  ]
]
