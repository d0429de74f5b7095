-- ===== src/Io/Types.antt =====
-- The data of src/ugds_internal.h as `do_io` of src/ugds_io.cpp uses it, and the shape of its
-- parts.
use u_gds.Prelude.{ℕ, List, ℤ}
use u_gds.Queue.{Ctrl, Queue}
use u_gds.Command.{Cmd}
use u_gds.Dma.{Dma}

abbrev pub eio : ℕ
eio = 5

-- `IOQueuePair`: what an IO request uses of it. `prp` is the PRP page by the index of its entries.
pub record QueuePair : Type 0 where
  pub sq : Queue
  pub cq : Queue
  pub prp_dma : Dma

-- `HandleState`: what an IO request uses of it.
pub record HandleState : Type 0 where
  pub ctrl : Ctrl
  pub ns_id : ℕ
  pub block_size : ℕ
  pub max_transfer_size : ℕ
  pub num_qps : ℕ
  pub qps : List QueuePair
  pub rr_counter : ℕ

-- A command that the controller has been told of, with the PRP page as it was at that time.
pub record Sent : Type 0 where
  pub slot : ℕ
  pub cmd : Cmd
  pub prp : ℕ → ℕ

-- What a request changes: the queues of its pair, the PRP page, the number of the next poll, and
-- the commands sent, oldest first.
pub record Progress : Type 0 where
  pub sq : Queue
  pub cq : Queue
  pub prp : ℕ → ℕ
  pub now : ℕ
  pub sent : List Sent

-- A part of a request goes on with a value, ends the request with a result, or is stuck.
pub data Attempt (A : Type 0) : Type 0 where
  go : A → Progress → Attempt A
  stop : ℤ → Progress → Attempt A
  stuck : Attempt A

abbrev pub Step : Type 0 → Type 0
Step A = Progress → Attempt A

module _ {A B : Type 0} where
  abbrev pub and_then : Attempt A → (A → Step B) → Attempt B
  and_then (go a s) k = k a s
  and_then (stop r s) k = stop r s
  and_then stuck k = stuck

  infixl 5 ◌>>=◌
  abbrev pub ◌>>=◌ : Step A → (A → Step B) → Step B
  ◌>>=◌ m k s = and_then (m s) k

-- what stays the same during a request
pub record Request : Type 0 where
  pub ctrl : Ctrl
  pub ns_id : ℕ
  pub block_size : ℕ
  pub page_size : ℕ
  pub max_xfer : ℕ
  pub opcode : ℕ
  pub size : ℕ
  pub prp_capacity : ℕ
  pub prp_ioaddr : ℕ
  pub ioaddrs : List ℕ
