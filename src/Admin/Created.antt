-- ===== src/Admin/Created.antt =====
-- A queue that src/libnvm/admin.cpp hands out is the queue that the controller was told of.
use u_gds.Prelude.{
  ℕ, ◌+◌, ◌*◌, ◌/◌, ◌%◌, ◌^◌, ◌≤◌, ◌<◌, ◌≡◌, refl, Bool, true, false, Bool-cases, ◌||◌, ◌⊎◌, inl,
  inr, none, some, arith, ltb, ◌==◌, u16_mod, u64_mod, ℤ, pos, get_or,
}
use u_gds.Queue.{Ctrl, Queue, Cpl, einval, cpl_size, cmd_size, queue_clear}
use u_gds.Queue.Ring.{IsRing}
use u_gds.Command.{Cmd, zero_cmd, cmd_header, cmd_data_ptr, admin_opcode}
use u_gds.Command.Fields.{field_opcode, field_prp1}
use u_gds.Status.{err_pack, err_status, status_ok}
use u_gds.Dma.{Dma}
use u_gds.Admin.{Rpc, admin_cq_create, admin_sq_create}
use u_gds.Admin.Queues.{
  Created, queue_pages, queue_size, queue_refused, answered, created, admin_cq_create_queue,
  admin_sq_create_queue,
}

-- an empty queue, with the number, size and memory given, before its first time around
abbrev pub IsEmptyRing : (id size vaddr ioaddr : ℕ) → Queue → Type 0
IsEmptyRing id size vaddr ioaddr q =
    IsRing q
    × (q.head ≡ 0)
    × (q.tail ≡ 0)
    × (q.phase ≡ true)
    × (q.no ≡ id)
    × (q.qs ≡ size)
    × (q.vaddr ≡ vaddr)
    × (q.ioaddr ≡ ioaddr)

-- The caller's descriptor is as before and the status is an error, or the descriptor is as V says
-- and the command sent speaks of it.
abbrev pub IsCreated : Queue → (Queue → Type 0) → (Queue → Cmd → Type 0) → Created → Type 0
IsCreated old V M (status, q, sent) =
    ((status_ok status ≡ false) × (q ≡ old))
    ⊎ ((c : Cmd) × (status ≡ pos 0) × (sent ≡ some c) × M q c × V q)

-- the command creates a completion queue like this one: its number, its size and its memory
abbrev pub TellsCq : Queue → Cmd → Type 0
TellsCq q c =
    (field_opcode c ≡ 5)
    × (c 10 % 2 ^ 16 ≡ q.no)
    × (c 10 / 2 ^ 16 + 1 ≡ q.qs)
    × (field_prp1 c ≡ q.ioaddr)

-- the command creates a submission queue like this one, with its completions in that queue
abbrev pub TellsSq : (cq : Queue) → Queue → Cmd → Type 0
TellsSq cq q c =
    (field_opcode c ≡ 1)
    × (c 10 % 2 ^ 16 ≡ q.no)
    × (c 10 / 2 ^ 16 + 1 ≡ q.qs)
    × (c 11 / 2 ^ 16 ≡ cq.no)
    × (field_prp1 c ≡ q.ioaddr)

admin_cq_create_tells :
    (q : Queue) (ioaddr : ℕ) (need_prp : Bool)
    → q.ioaddr ≡ ioaddr
    → ioaddr < u64_mod
    → q.no < u16_mod
    → 2 ≤ q.qs
    → q.qs ≤ u16_mod
    → TellsCq q (admin_cq_create zero_cmd q ioaddr need_prp)
unfolding admin_cq_create cmd_header cmd_data_ptr admin_opcode
admin_cq_create_tells q ioaddr need_prp e h n a b = (refl, omega arith, omega arith, omega arith)

admin_sq_create_tells :
    (q cq : Queue) (ioaddr : ℕ) (need_prp : Bool)
    → q.ioaddr ≡ ioaddr
    → ioaddr < u64_mod
    → q.no < u16_mod
    → cq.no < u16_mod
    → 2 ≤ q.qs
    → q.qs ≤ u16_mod
    → TellsSq cq q (admin_sq_create zero_cmd q cq ioaddr need_prp)
unfolding admin_sq_create cmd_header cmd_data_ptr admin_opcode
admin_sq_create_tells q cq ioaddr true e h n m a b =
    (refl, omega arith, omega arith, omega arith, omega arith)
admin_sq_create_tells q cq ioaddr false e h n m a b =
    (refl, omega arith, omega arith, omega arith, omega arith)

module _ (V : Queue → Type 0) (M : Queue → Cmd → Type 0) (old : Queue) where
  answered-IsCreated :
      (queue : Queue) (cmd : Cmd) (answer : ℤ × Cpl)
      → M queue cmd
      → V queue
      → IsCreated old V M (answered old queue cmd answer)
  answered-IsCreated queue cmd (status, completion) h v = elim (Bool-cases (status_ok status)) [
    | inl good ↦ rw good (inr (cmd, refl, refl, h, v))
    | inr bad ↦ rw bad (inl (bad, refl))
  ]

  created-IsCreated :
      (rpc : Rpc) (command : Queue → Cmd) (err : ℕ) (queue : Queue)
      → err ≡ 0
      → M queue (command queue)
      → V queue
      → IsCreated old V M (created old rpc command (err, queue))
  created-IsCreated rpc command err queue e h v =
      rw e (answered-IsCreated queue (command queue) (rpc (command queue)) h v)

queue_refused-decides :
    (entry_size : ℕ) (ctrl : Ctrl) (dma : Dma) (id offset qs : ℕ)
    → (queue_refused entry_size ctrl dma id offset qs ≡ some einval)
      ⊎ ((queue_refused entry_size ctrl dma id offset qs ≡ none)
          × (2 ≤ qs)
          × (qs ≤ u16_mod)
          × (qs ≤ ctrl.max_qs))
unfolding queue_refused
queue_refused-decides entry_size ctrl dma id offset qs =
    let n : ℕ = queue_pages entry_size ctrl qs in
    elim (Bool-cases (ltb qs 2 || ltb 0x10000 qs || ltb ctrl.max_qs qs)) [
      | inl size ↦ inl (rw size refl)
      | inr fits ↦ elim (Bool-cases (dma.vaddr == 0)) [
        | inl nowhere ↦ inl (rw (fits, nowhere) refl)
        | inr somewhere ↦
            elim (Bool-cases (
              n == 0
              || ltb dma.n_ioaddrs n
              || ltb dma.n_ioaddrs offset
              || ltb dma.n_ioaddrs ((offset + n) % u64_mod))) [
                | inl beyond ↦ inl (rw (fits, somewhere, beyond) refl)
                | inr inside ↦
                    inr
                      (rw (fits, somewhere, inside) refl, ground arith, ground arith, ground arith)
              ]
      ]
    ]

queue_clear-IsRing :
    (blank : Queue) (ctrl : Ctrl) (cq : Bool) (id qs : ℕ) (is_local : Bool) (vaddr ioaddr : ℕ)
    → 2 ≤ qs
    → qs ≤ u16_mod
    → qs ≤ ctrl.max_qs
    → let r = queue_clear blank ctrl cq id qs is_local vaddr ioaddr in
      (r.0 ≡ 0) × IsEmptyRing id qs vaddr ioaddr r.1
unfolding queue_clear
queue_clear-IsRing blank ctrl cq id qs is_local vaddr ioaddr a b c =
    let fits : (ltb qs 2 || ltb 0x10000 qs || ltb ctrl.max_qs qs) ≡ false = ground arith in
    rw fits (
      refl,
      (
        record { two_le = a; small = b; head_in = omega arith; tail_in = omega arith },
        refl,
        refl,
        refl,
        refl,
        refl,
        refl,
        refl,
      ),
    )

einval_fails : status_ok (err_pack none einval) ≡ false
unfolding err_pack err_status status_ok
einval_fails = refl

module _ (rpc : Rpc) (ctrl : Ctrl) (blank : Queue) (id : ℕ) (dma : Dma) (offset qs : ℕ)
    (need_prp : Bool) (id_in : id < u16_mod)
    (ioaddr_in : get_or dma.ioaddrs offset 0 < u64_mod) where
  -- the memory of the queue, as the library and as the controller see it
  abbrev pub address : ℕ
  address = dma.vaddr + dma.page_size * offset

  abbrev pub ioaddr : ℕ
  ioaddr = get_or dma.ioaddrs offset 0

  -- For a queue number of 16 bits and a memory address of 64 bits, whatever the command's answer
  -- is, `nvm_admin_cq_create` either fails and leaves the descriptor as it was, or succeeds, and
  -- then the descriptor is an empty ring in its first phase, with the number asked for, the size
  -- asked for (for 0, what one page holds and the controller allows) and the memory at the page
  -- asked for, and the command sent names that number, size and memory.
  pub admin_cq_create_queue-IsCreated :
      (cq : Queue)
      → IsCreated cq
          (IsEmptyRing id (queue_size cpl_size ctrl dma qs) address ioaddr)
          TellsCq
          (admin_cq_create_queue rpc (some ctrl) blank cq id dma offset qs need_prp)
  unfolding admin_cq_create_queue
  admin_cq_create_queue-IsCreated cq = elim (Bool-cases (id == 0)) [
    | inl admin ↦ rw admin (inl (einval_fails, refl))
    | inr io ↦
        let size : ℕ = queue_size cpl_size ctrl dma qs in
        elim (queue_refused-decides cpl_size ctrl dma id offset size) [
          | inl refused ↦ rw (io, refused) (inl (einval_fails, refl))
          | inr (passed, low, high, most) ↦
              let made : ℕ × Queue =
                queue_clear blank ctrl true id size dma.is_local address ioaddr in
              let (ok, empty) =
                queue_clear-IsRing blank ctrl true id size dma.is_local address ioaddr low high
                  most in
              rw (io, passed)
                (created-IsCreated (IsEmptyRing id size address ioaddr) TellsCq cq rpc
                  (λ queue. admin_cq_create zero_cmd queue ioaddr need_prp) made.0 made.1 ok
                  (admin_cq_create_tells made.1 ioaddr need_prp empty.7 ioaddr_in
                    (omega (arith, empty.4)) empty.0.two_le empty.0.small)
                  empty)
        ]
  ]

  -- For queue numbers of 16 bits and a memory address of 64 bits, whatever the command's answer is,
  -- `nvm_admin_sq_create` either fails and leaves the descriptor as it was, or succeeds, and then
  -- the descriptor is an empty ring in its first phase, with the number asked for, the size asked
  -- for (for 0, what one page holds and the controller allows) and the memory at the page asked
  -- for, and the command sent names that number, size and memory, and the completion queue's
  -- number.
  pub admin_sq_create_queue-IsCreated :
      (sq cq : Queue)
      → cq.no < u16_mod
      → IsCreated sq
          (IsEmptyRing id (queue_size cmd_size ctrl dma qs) address ioaddr)
          (TellsSq cq)
          (admin_sq_create_queue rpc (some ctrl) blank sq cq id dma offset qs need_prp)
  unfolding admin_sq_create_queue
  admin_sq_create_queue-IsCreated sq cq cq_in = elim (Bool-cases (id == 0)) [
    | inl admin ↦ rw admin (inl (einval_fails, refl))
    | inr io ↦
        let size : ℕ = queue_size cmd_size ctrl dma qs in
        elim (queue_refused-decides cmd_size ctrl dma id offset size) [
          | inl refused ↦ rw (io, refused) (inl (einval_fails, refl))
          | inr (passed, low, high, most) ↦
              let made : ℕ × Queue =
                queue_clear blank ctrl false id size dma.is_local address ioaddr in
              let (ok, empty) =
                queue_clear-IsRing blank ctrl false id size dma.is_local address ioaddr low high
                  most in
              rw (io, passed)
                (created-IsCreated (IsEmptyRing id size address ioaddr) (TellsSq cq) sq rpc
                  (λ queue. admin_sq_create zero_cmd queue cq ioaddr need_prp) made.0 made.1 ok
                  (admin_sq_create_tells made.1 cq ioaddr need_prp empty.7 ioaddr_in
                    (omega (arith, empty.4)) cq_in empty.0.two_le empty.0.small)
                  empty)
        ]
  ]
