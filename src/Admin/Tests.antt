-- ===== src/Admin/Tests.antt =====
-- Admin commands at concrete inputs.
use u_gds.Prelude.{
  ℕ, ◌+◌, ◌*◌, ◌/◌, ◌%◌, ◌^◌, ◌≡◌, refl, true, none, some, [], ◌∷◌, arith, pos, get_or,
}
use u_gds.Queue.{Ctrl, Queue, cpl_size}
use u_gds.Dma.{Dma}
use u_gds.Command.{zero_cmd}
use u_gds.Admin.{Rpc, admin_current_num_queues}
use u_gds.Admin.Queues.{queue_size, admin_cq_create_queue, admin_sq_create_queue}
use u_gds.Admin.Created.{
  IsEmptyRing, IsCreated, TellsCq, TellsSq, admin_cq_create_queue-IsCreated,
  admin_sq_create_queue-IsCreated,
}
use u_gds.Admin.Features.{admin_request_num_queues, admin_request_num_queues_swaps}

abbrev blank : ℕ → Queue
blank id = record {
  head_lock = 0;
  tail_lock = 0;
  head = 0;
  tail = 0;
  in_ticket = 0;
  cid_ticket = 0;
  no = id;
  es = 0;
  qs = 0;
  phase = true;
  is_local = true;
  last = 0;
  db = none;
  vaddr = 0;
  ioaddr = 0;
}

abbrev ctrl : Ctrl
ctrl = record {
  page_size = 4096;
  dstrd = 0;
  timeout = 1;
  max_qs = 1024;
  mm_size = 8192;
  mm_ptr = 0;
}

abbrev dma : Dma
dma = record {
  vaddr = 65536;
  is_local = true;
  contiguous = true;
  page_size = 4096;
  n_ioaddrs = 2;
  ioaddrs = 1048576 ∷ 1052672 ∷ [];
}

-- a controller that grants 4 completion and 8 submission queues
abbrev rpc : Rpc
rpc cmd = (pos 0, record { dword0 = 3 * 2 ^ 16 + 7; dword1 = 0; dword2 = 0; dword3 = 0 })

admin_cq_create_queue-IsCreated_example :
    IsCreated
      (blank 0)
      (IsEmptyRing 1
        (queue_size cpl_size ctrl dma 0)
        (dma.vaddr + dma.page_size * 1)
        (get_or dma.ioaddrs 1 0))
      TellsCq
      (admin_cq_create_queue rpc (some ctrl) (blank 0) (blank 0) 1 dma 1 0 true)
admin_cq_create_queue-IsCreated_example =
    admin_cq_create_queue-IsCreated rpc ctrl (blank 0) 1 dma 1 0 true (omega arith) (omega arith)
      (blank 0)

admin_sq_create_queue-IsCreated_example :
    IsCreated
      (blank 0)
      (IsEmptyRing 1 64 dma.vaddr (get_or dma.ioaddrs 0 0))
      (TellsSq (blank 1))
      (admin_sq_create_queue rpc (some ctrl) (blank 0) (blank 0) (blank 1) 1 dma 0 64 true)
admin_sq_create_queue-IsCreated_example =
    admin_sq_create_queue-IsCreated rpc ctrl (blank 0) 1 dma 0 64 true (omega arith) (omega arith)
      (blank 0) (blank 1) (omega arith)

admin_request_num_queues_swaps_example :
    let cmd = admin_current_num_queues zero_cmd true 16 16 in
    (cmd 11 / 2 ^ 16 + 1 ≡ 16)
    × (cmd 11 % 2 ^ 16 + 1 ≡ 16)
    × ((admin_request_num_queues rpc 16 16).0 ≡ pos 0)
    × ((admin_request_num_queues rpc 16 16).1 ≡ 8)
    × ((admin_request_num_queues rpc 16 16).2 ≡ 4)
admin_request_num_queues_swaps_example =
    admin_request_num_queues_swaps rpc 16 16 4 8 (omega arith) (omega arith) (omega arith)
      (omega arith) (omega arith) (omega arith) (omega arith) (omega arith) refl refl
