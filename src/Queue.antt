-- ===== src/Queue.antt =====
-- The queue descriptor of include/libnvm/nvm_types.h and the operations of
-- include/libnvm/nvm_queue.h and src/libnvm/queue.cpp. A completion queue's memory is a function
-- from addresses to entries. Cache flushes and write-combining flushes are empty in this build, and
-- are left out.
pub mod Ring
pub mod Submission
pub mod Completion
pub mod Line
pub mod Fifo
pub mod Blocking
mod Tests
use u_gds.Prelude.{
  ℕ, zero, suc, ◌+◌, ◌-◌, ◌*◌, ◌/◌, ◌%◌, ◌^◌, Bool, true, false, not, ◌||◌, Option, none, some, ltb,
  ◌==◌, if◌then◌else◌, u16_mod, u32_mod, u64_mod, read_bits, min,
}

-- `nvm_ctrl_t`
pub record Ctrl : Type 0 where
  pub page_size : ℕ
  pub dstrd : ℕ
  pub timeout : ℕ
  pub max_qs : ℕ
  pub mm_size : ℕ
  pub mm_ptr : ℕ

-- `nvm_queue_t`, less the members that nothing in the library touches. `db` is `none` for NULL.
pub record Queue : Type 0 where
  pub head_lock : ℕ
  pub tail_lock : ℕ
  pub head : ℕ
  pub tail : ℕ
  pub in_ticket : ℕ
  pub cid_ticket : ℕ
  pub no : ℕ
  pub es : ℕ
  pub qs : ℕ
  pub phase : Bool
  pub is_local : Bool
  pub last : ℕ
  pub db : Option ℕ
  pub vaddr : ℕ
  pub ioaddr : ℕ

-- `nvm_cpl_t`
pub record Cpl : Type 0 where
  pub dword0 : ℕ
  pub dword1 : ℕ
  pub dword2 : ℕ
  pub dword3 : ℕ

-- What a completion queue's memory holds at each address.
abbrev pub Mem : Type 0
Mem = ℕ → Cpl

abbrev pub einval : ℕ
einval = 22

-- `sizeof(nvm_cpl_t)` and `sizeof(nvm_cmd_t)`
abbrev pub cpl_size : ℕ
cpl_size = 16

abbrev pub cmd_size : ℕ
cmd_size = 64

-- `SQ_DBL` and `CQ_DBL` of internal/regs.h
unfoldable pub sq_dbl : ℕ → ℕ → ℕ → ℕ
sq_dbl p y dstrd = p + 0x1000 + 2 * y * (4 * 2 ^ dstrd)

unfoldable pub cq_dbl : ℕ → ℕ → ℕ → ℕ
cq_dbl p y dstrd = p + 0x1000 + (2 * y + 1) * (4 * 2 ^ dstrd)

-- `nvm_queue_clear`: the errno and the descriptor as it leaves it.
unfoldable pub queue_clear :
    Queue → Ctrl → (cq : Bool) (id qs : ℕ) (is_local : Bool) (vaddr ioaddr : ℕ) → ℕ × Queue
queue_clear queue ctrl cq id qs is_local vaddr ioaddr =
    if ltb qs 2 || ltb 0x10000 qs || ltb ctrl.max_qs qs then (einval, queue) else (
      0,
      record {
        head_lock = 0;
        tail_lock = 0;
        head = 0;
        tail = 0;
        in_ticket = 0;
        cid_ticket = 0;
        no = id;
        es = if cq then cpl_size else cmd_size;
        qs = qs;
        phase = true;
        is_local = is_local;
        last = 0;
        db =
            some
              (if cq then cq_dbl ctrl.mm_ptr id ctrl.dstrd else sq_dbl ctrl.mm_ptr id ctrl.dstrd);
        vaddr = vaddr;
        ioaddr = ioaddr;
      },
    )

-- `nvm_queue_reset`
unfoldable pub queue_reset : Queue → Queue
queue_reset queue = record queue { head = 0; tail = 0; last = 0; phase = true }

-- the test for a full queue in `nvm_sq_enqueue`, in `uint32_t` cut down to `uint16_t`
unfoldable pub sq_full : Queue → Bool
sq_full sq =
    (sq.tail + u32_mod - sq.head) % u32_mod % u16_mod % sq.qs == (sq.qs + u32_mod - 1) % u32_mod

-- `nvm_sq_enqueue`: the address of the slot, `none` for NULL.
unfoldable pub sq_enqueue : Queue → Option ℕ × Queue
sq_enqueue sq = if sq_full sq then (none, sq) else (
  some (sq.vaddr + sq.es * sq.tail),
  if (sq.tail + 1) % u32_mod == sq.qs
      then record sq { tail = 0; phase = not sq.phase }
      else record sq { tail = (sq.tail + 1) % u32_mod },
)

-- `NVM_CPL_STATUS`: the upper half of DWORD3
abbrev pub cpl_status : Cpl → ℕ
cpl_status cpl = cpl.dword3 / 2 ^ 16 % 2 ^ 16

-- the phase tag of an entry, its lowest status bit
unfoldable pub phase_tag : Cpl → Bool
phase_tag cpl = read_bits (cpl_status cpl) 0 0 == 1

-- `!a != !b` on truth values
abbrev pub differs : Bool → Bool → Bool
differs true b = not b
differs false b = b

-- `nvm_cq_poll`: the address of the entry at the head, `none` while its tag is the old one.
unfoldable pub cq_poll : Queue → Mem → Option ℕ
cq_poll cq mem =
    let cpl = cq.vaddr + cq.es * cq.head in
    if differs (phase_tag (mem cpl)) cq.phase then none else some cpl

-- the step of the head past an entry
unfoldable pub cq_advance : Queue → Queue
cq_advance cq =
    if (cq.head + 1) % u32_mod == cq.qs
    then record cq { head = 0; phase = not cq.phase }
    else record cq { head = (cq.head + 1) % u32_mod }

-- `nvm_cq_dequeue`
unfoldable pub cq_dequeue : Queue → Mem → Option ℕ × Queue
cq_dequeue cq mem = elim (cq_poll cq mem) [
  | none ↦ (none, cq)
  | some cpl ↦ (some cpl, cq_advance cq)
]

-- `_nvm_delay_remain`: what is left after a sleep of a millisecond at most.
unfoldable pub delay_remain : ℕ → ℕ
delay_remain remaining = if remaining == 0 then 0 else remaining - min 1000000 remaining

-- What a wait on a completion queue comes to: the entry's address or NULL, the descriptor, and
-- the number of the next poll. `mems t` is the memory that poll number t sees.
abbrev pub Waited : Type 0
Waited = Option ℕ × Queue × ℕ

-- the end of a round: an entry ends the wait, and else the rest of it follows
abbrev pub or_else : ℕ → Option ℕ × Queue → (Queue → Option Waited) → Option Waited
or_else t (some cpl, cq) rest = some (some cpl, cq, t + 1)
or_else t (none, cq) rest = rest cq

-- The loop of `nvm_cq_dequeue_block` on fuel: `none` is out of fuel.
unfoldable pub dequeue_block_loop : ℕ → Queue → (ℕ → Mem) → (t nsecs : ℕ) → Option Waited
dequeue_block_loop zero cq mems t nsecs = none
dequeue_block_loop (suc fuel) cq mems t nsecs = or_else t (cq_dequeue cq (mems t)) (λ cq'.
    elim (ltb 0 nsecs) [
      | true ↦ dequeue_block_loop fuel cq' mems (t + 1) (delay_remain nsecs)
      | false ↦ some (none, cq', t + 1)
    ])

-- the milliseconds that a waiting time in nanoseconds comes to, the last one perhaps in part
abbrev pub wait_rounds : ℕ → ℕ
wait_rounds nsecs = (nsecs + 999999) / 1000000

-- `nvm_cq_dequeue_block`, its timeout in milliseconds
unfoldable pub cq_dequeue_block : Queue → (ℕ → Mem) → (t timeout : ℕ) → Option Waited
cq_dequeue_block cq mems t timeout =
    let nsecs = timeout * 1000000 % u64_mod in
    dequeue_block_loop (suc (wait_rounds nsecs)) cq mems t nsecs

abbrev pub spun : ℕ → Option ℕ × Queue → (Queue → Waited) → Waited
spun t (some cpl, cq) rest = (some cpl, cq, t + 1)
spun t (none, cq) rest = rest cq

-- A bounded poll: at most k + 1 looks at the queue.
unfoldable pub spin : ℕ → Queue → (ℕ → Mem) → ℕ → Waited
spin zero cq mems t = let (got, cq') = cq_dequeue cq (mems t) in (got, cq', t + 1)
spin (suc k) cq mems t = spun t (cq_dequeue cq (mems t)) (λ cq'. spin k cq' mems (t + 1))

-- the write of the tail to a doorbell register, unless there is none or the tail is known
unfoldable pub ring_tail : Queue → Option ℕ → Option (ℕ × ℕ) × Queue
ring_tail sq none = (none, sq)
ring_tail sq (some db) =
    if sq.last == sq.tail then (none, sq) else (some (db, sq.tail), record sq { last = sq.tail })

-- `nvm_sq_submit`: the doorbell write, if there is one, as address and value.
unfoldable pub sq_submit : Queue → Option (ℕ × ℕ) × Queue
sq_submit sq = ring_tail sq sq.db

-- `nvm_sq_update`: the head counts only while there is a doorbell.
unfoldable pub sq_update : Queue → Queue
sq_update sq = elim sq.db [
  | none ↦ sq
  | some _ ↦
      if (sq.head + 1) % u32_mod == sq.qs
      then record sq { head = 0 }
      else record sq { head = (sq.head + 1) % u32_mod }
]

-- `nvm_cq_update`
unfoldable pub cq_update : Queue → Option (ℕ × ℕ) × Queue
cq_update cq = elim cq.db [
  | none ↦ (none, cq)
  | some db ↦
      if cq.last == cq.head
      then (none, cq)
      else (some (db, cq.head), record cq { last = cq.head; tail = cq.head })
]

-- `NVM_DEFAULT_CID`
unfoldable pub default_cid : Queue → ℕ
default_cid sq = (sq.tail + (if sq.phase then 0 else 1) * sq.qs) % u16_mod
