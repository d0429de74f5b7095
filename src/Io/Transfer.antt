-- ===== src/Io/Transfer.antt =====
-- The parts of the loop of `do_io` in src/ugds_io.cpp: a slot in the submission queue, the PRP
-- entries, the doorbell and the wait. A run sees the controller through the completion queue's
-- memory: `mems t` is what poll number t sees.
use u_gds.Prelude.{
  ℕ, zero, suc, ◌+◌, ◌-◌, ◌*◌, ◌/◌, ◌%◌, ◌^◌, Option, none, some, List, [], ◌∷◌, ◌++◌, ltb, ◌==◌,
  if◌then◌else◌, u16_mod, u64_mod, neg, get_elem?,
}
use u_gds.Queue.{
  Ctrl, Queue, Cpl, Mem, Waited, spin, sq_enqueue, sq_submit, sq_update, cq_update, default_cid,
}
use u_gds.Command.{Cmd, zero_cmd, cmd_header, cmd_data_ptr, cmd_rw_blks}
use u_gds.Io.Types.{eio, Progress, Attempt, go, stop, stuck, Step, and_then, ◌>>=◌, Request}

-- `(cpl->dword[3] >> 17) & 0x7FF`
unfoldable pub io_status : Cpl → ℕ
io_status cpl = cpl.dword3 / 2 ^ 17 % 2 ^ 11

-- what follows a poll: -EIO if nothing came, and else both queues move on and the status decides
unfoldable pub completed : (ℕ → Mem) → Progress → Waited → Attempt (Unit {0})
unfolding io_status
completed mems s (none, cq, now) = stop (neg eio) (record s { cq = cq; now = now })
completed mems s (some a, cq, now) =
    let s' = record s { sq = sq_update s.sq; cq = (cq_update cq).1; now = now } in
    if io_status (mems (now - 1) a) == 0 then go tt s' else stop (neg eio) s'

-- a poll of `timeout` million rounds, and what follows it
unfoldable pub await : Ctrl → (ℕ → Mem) → Step (Unit {0})
await ctrl mems s = completed mems s (spin (ctrl.timeout * 1000000 % u64_mod) s.cq mems s.now)

-- a slot, or the drain of one completion and another try
abbrev pub slot_or_else : Progress → Option ℕ × Queue → Attempt ℕ → Attempt ℕ
slot_or_else s (some slot, sq) rest = go slot (record s { sq = sq })
slot_or_else s (none, sq) rest = rest

-- `while ((cmd = nvm_sq_enqueue(&qp.sq)) == nullptr)`, on fuel
unfoldable pub reserve : ℕ → Ctrl → (ℕ → Mem) → Step ℕ
reserve zero ctrl mems s = stuck
reserve (suc fuel) ctrl mems s =
    let rest = and_then (await ctrl mems s) (λ _ s'. reserve fuel ctrl mems s') in
    slot_or_else s (sq_enqueue s.sq) rest

-- `prp_list[i - 1] = ioaddrs[page + i]` for the k values from i on; a write past the PRP page or
-- a read past the addresses is stuck.
unfoldable pub fill_prp : (capacity : ℕ) → List ℕ → (page k i : ℕ) → Step (Unit {0})
fill_prp capacity ioaddrs page zero i s = go tt s
fill_prp capacity ioaddrs page (suc k) i s =
    let rest = λ (v : ℕ).
      fill_prp capacity ioaddrs page k (i + 1)
        (record s { prp = λ j. if j + 1 == i then v else s.prp j }) in
    if ltb capacity i
    then stuck
    else elim (get_elem? ioaddrs (page + i)) [ none ↦ stuck | some v ↦ rest v ]

-- an element of the buffer's addresses
unfoldable pub ioaddr_at : List ℕ → ℕ → Step ℕ
ioaddr_at ioaddrs i s = elim (get_elem? ioaddrs i) [ none ↦ stuck | some v ↦ go v s ]

-- the PRP entries of a command for n_pages pages from `page` on
unfoldable pub data_pointers :
    (capacity prp_ioaddr : ℕ) → List ℕ → (page n_pages : ℕ) → Step (ℕ × ℕ)
data_pointers capacity prp_ioaddr ioaddrs page n_pages = ioaddr_at ioaddrs page >>= λ prp1.
    if n_pages == 1
    then go (prp1, 0)
    else if n_pages == 2
    then (do prp2 ← ioaddr_at ioaddrs (page + 1); go (prp1, prp2))
    else (do _ ← fill_prp capacity ioaddrs page (n_pages - 1) 1; go (prp1, prp_ioaddr))

-- what the controller has been told of after a doorbell write, or without one
unfoldable pub rung_in : ℕ → Cmd → Progress → Option (ℕ × ℕ) × Queue → Attempt (Unit {0})
rung_in slot cmd s (none, sq) = go tt (record s { sq = sq })
rung_in slot cmd s (some _, sq) =
    go tt
      (record s { sq = sq; sent = s.sent ++ (record { slot = slot; cmd = cmd; prp = s.prp } ∷ []) })

-- `nvm_sq_submit` after the command stands in its slot
unfoldable pub submit : ℕ → Cmd → Step (Unit {0})
submit slot cmd s = rung_in slot cmd s (sq_submit s.sq)

-- One round of the loop: the command for a chunk of `chunk_size` bytes at `lba` and `page` is
-- built, sent and waited for.
unfoldable pub transfer : Request → (ℕ → Mem) → (lba page n_blocks n_pages : ℕ) → Step (Unit {0})
transfer r mems lba page n_blocks n_pages s =
    (do
      slot ← reserve (s.sq.qs + 1) r.ctrl mems
      (prp1, prp2) ← data_pointers r.prp_capacity r.prp_ioaddr r.ioaddrs page n_pages
      _ ← λ s'.
          submit slot
            (cmd_rw_blks
              (cmd_data_ptr (cmd_header zero_cmd (default_cid s'.sq) r.opcode r.ns_id) prp1 prp2)
              lba (n_blocks % u16_mod))
            s'
      await r.ctrl mems)
      s
