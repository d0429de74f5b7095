-- ===== src/Io/Entry.antt =====
-- `do_io` of src/ugds_io.cpp as a whole, with `uGDSRead` and `uGDSWrite`.
use u_gds.Prelude.{
  ℕ, ◌+◌, ◌-◌, ◌/◌, ◌%◌, ◌^◌, Bool, true, false, ◌||◌, not, Option, none, some, [], ltb, ◌==◌,
  if◌then◌else◌, u16_mod, u32_mod, u64_mod, ℤ, pos, negsuc, neg, get_elem?, get_or, set, ◌⊎◌, inl,
  inr,
}
use u_gds.Queue.{Mem, einval}
use u_gds.Command.{io_opcode, io_read, io_write}
use u_gds.Dma.{Dma}
use u_gds.Io.Types.{eio, QueuePair, HandleState, Progress, Attempt, go, stop, stuck, Request}
use u_gds.Io.Loop.{io_loop, pages_of, max_xfer_of}

-- `static_cast<ssize_t>` of a `size_t`
abbrev pub signed64 : ℕ → ℤ
signed64 n = if ltb n (2 ^ 63) then pos n else negsuc (2 ^ 64 - n - 1)

-- How a request ends: its result, what it did on the queue pair (if it took one), and the mapping
-- that it made on the fly and took down again.
pub data Outcome : Type 0 where
  refused : ℤ → Outcome
  ran : ℤ → (qp_idx : ℕ) → Progress → (unmapped : Option Dma) → Outcome
  undefined : Outcome

-- the end of the loop, and of the request
unfoldable pub finished : ℕ → Option Dma → Attempt ℕ → Outcome
finished qp_idx on_the_fly (go bytes_done s) = ran (signed64 bytes_done) qp_idx s on_the_fly
finished qp_idx on_the_fly (stop result s) = ran result qp_idx s on_the_fly
finished qp_idx on_the_fly stuck = undefined

-- where the buffer's pages come from, and the index of the first
pub record Source : Type 0 where
  pub dma : Dma
  pub page_start : ℕ
  pub on_the_fly : Bool

-- The checks of the arguments in `do_io`, for a handle that is not NULL and offsets that are not
-- negative: `do_io` below refuses others by its last clause. `some r` ends the request with r.
unfoldable pub check_args : HandleState → (base size file_offset : ℕ) → Option ℤ
check_args hs base size file_offset =
    if base == 0 || size == 0 || hs.block_size == 0
    then some (neg einval)
    else if not (file_offset % hs.block_size == 0) || not (size % hs.block_size == 0)
    then some (neg einval)
    else if hs.ctrl.page_size == 0
    then some (neg einval)
    else none

-- the answer of `nvm_dma_map_device`: a status and a descriptor
abbrev pub mapped_source : ℕ × Option Dma → ℤ ⊎ Source
mapped_source (rc, none) = inl (neg eio)
mapped_source (rc, some dma) =
    if rc == 0 then inr (record { dma = dma; page_start = 0; on_the_fly = true }) else inl (neg eio)

-- A registered buffer is used from a page boundary on and must hold every page; any other buffer
-- is mapped for the request by `nvm_dma_map_device`.
unfoldable pub find_source :
    HandleState
    → (registered : Option Dma) → (map_device : ℕ → ℕ → ℕ × Option Dma) → (base size buf_offset : ℕ)
    → ℤ ⊎ Source
find_source hs (some dma) map_device base size buf_offset =
    let page_size = hs.ctrl.page_size in
    let page_start = buf_offset / page_size in
    if not (buf_offset % page_size == 0)
    then inl (neg einval)
    else if ltb dma.n_ioaddrs ((page_start + pages_of page_size size) % u64_mod)
    then inl (neg einval)
    else inr (record { dma = dma; page_start = page_start; on_the_fly = false })
find_source hs none map_device base size buf_offset =
    mapped_source (map_device (base + buf_offset) size)

-- what the loop is given
abbrev pub request_of : HandleState → QueuePair → Dma → (size opcode : ℕ) → Request
request_of hs qp dma size opcode = record {
  ctrl = hs.ctrl;
  ns_id = hs.ns_id;
  block_size = hs.block_size;
  page_size = hs.ctrl.page_size;
  max_xfer = max_xfer_of hs.ctrl.page_size hs.max_transfer_size;
  opcode = opcode;
  size = size;
  prp_capacity = hs.ctrl.page_size / 8;
  prp_ioaddr = get_or qp.prp_dma.ioaddrs 0 0;
  ioaddrs = dma.ioaddrs;
}

abbrev pub start_of : QueuePair → (prp : ℕ → ℕ) → Progress
start_of qp prp = record { sq = qp.sq; cq = qp.cq; prp = prp; now = 0; sent = [] }

-- The loop on a queue pair, which ends in fewer than `size + 1` rounds, since each moves a byte
-- at least. No queue pair of that index is out of bounds.
unfoldable pub run_pair :
    HandleState
    → (mems : ℕ → ℕ → Mem) → (prp : ℕ → ℕ → ℕ) → Source
    → (size file_offset opcode idx : ℕ) → Option QueuePair
    → Outcome
run_pair hs mems prp src size file_offset opcode idx none = undefined
run_pair hs mems prp src size file_offset opcode idx (some qp) =
    finished idx (if src.on_the_fly then some src.dma else none) (
      io_loop (size + 1) (request_of hs qp src.dma size opcode) (mems idx) 0
        (file_offset / hs.block_size) src.page_start (start_of qp (prp idx)))

-- The loop on the queue pair that the round robin chooses; a handle without any divides by 0.
unfoldable pub run_on :
    HandleState
    → (mems : ℕ → ℕ → Mem) → (prp : ℕ → ℕ → ℕ) → Source
    → (size file_offset opcode : ℕ) → Outcome
run_on hs mems prp src size file_offset opcode =
    let idx = hs.rr_counter % hs.num_qps % u16_mod in
    run_pair hs mems prp src size file_offset opcode idx
      (if hs.num_qps == 0 then none else get_elem? hs.qps idx)

-- the request with what the search for its buffer gave
unfoldable pub run_found :
    HandleState
    → (mems : ℕ → ℕ → Mem) → (prp : ℕ → ℕ → ℕ) → (size file_offset opcode : ℕ) → ℤ ⊎ Source
    → Outcome
run_found hs mems prp size file_offset opcode (inl r) = refused r
run_found hs mems prp size file_offset opcode (inr src) =
    run_on hs mems prp src size file_offset opcode

-- the request after the arguments' checks
unfoldable pub run_checked : Option ℤ → Outcome → Outcome
run_checked (some r) rest = refused r
run_checked none rest = rest

-- `do_io` with what it finds in the buffer registry. The handle is `none` for NULL, and the
-- offsets are signed.
unfoldable pub do_io :
    Option HandleState
    → (registered : Option Dma) → (map_device : ℕ → ℕ → ℕ × Option Dma) → (mems : ℕ → ℕ → Mem)
    → (prp : ℕ → ℕ → ℕ) → (base size : ℕ) → (file_offset buf_offset : ℤ) → (opcode : ℕ) → Outcome
do_io (some hs) registered map_device mems prp base size (pos file_offset) (pos buf_offset) opcode =
    run_checked (check_args hs base size file_offset) (
      run_found hs mems prp size file_offset opcode
        (find_source hs registered map_device base size buf_offset))
do_io _ registered map_device mems prp base size file_offset buf_offset opcode =
    refused (neg einval)

-- The handle after the request: the round robin counter moved on and the queue pair written back,
-- unless the request was refused.
unfoldable pub handle_after : HandleState → Outcome → HandleState
handle_after hs (refused r) = hs
handle_after hs (ran r idx s unmapped) = record hs {
  rr_counter = (hs.rr_counter + 1) % u32_mod;
  qps = elim (get_elem? hs.qps idx) [
    | none ↦ hs.qps
    | some qp ↦ set hs.qps idx (record qp { sq = s.sq; cq = s.cq })
  ];
}
handle_after hs undefined = hs

-- `uGDSRead` and `uGDSWrite`
unfoldable pub ugds_read :
    Option HandleState
    → (registered : Option Dma) → (map_device : ℕ → ℕ → ℕ × Option Dma) → (mems : ℕ → ℕ → Mem)
    → (prp : ℕ → ℕ → ℕ) → (base size : ℕ) → (file_offset buf_offset : ℤ) → Outcome
ugds_read fh registered map_device mems prp base size file_offset buf_offset =
    do_io fh registered map_device mems prp base size file_offset buf_offset (io_opcode io_read)

unfoldable pub ugds_write :
    Option HandleState
    → (registered : Option Dma) → (map_device : ℕ → ℕ → ℕ × Option Dma) → (mems : ℕ → ℕ → Mem)
    → (prp : ℕ → ℕ → ℕ) → (base size : ℕ) → (file_offset buf_offset : ℤ) → Outcome
ugds_write fh registered map_device mems prp base size file_offset buf_offset =
    do_io fh registered map_device mems prp base size file_offset buf_offset (io_opcode io_write)
