-- ===== src/Io/Whole.antt =====
-- `do_io` of src/ugds_io.cpp from its arguments to its end.
use u_gds.Prelude.{
  ℕ, ◌+◌, ◌-◌, ◌/◌, ◌%◌, ◌^◌, ◌≤◌, ◌<◌, ◌≡◌, refl, ap, false, Bool-cases, ◌⊎◌, inl, inr, Option,
  none, some, arith, ltb, ◌==◌, if◌then◌else◌, u16_mod, u64_mod, length, get_elem?, get_elem?-in, ℤ,
  pos, neg, mod_bound,
}
use native.Mathlib.Nat.{mod-eq_of_lt, div-le_self}
use u_gds.Queue.{Mem, einval}
use u_gds.Dma.{Dma}
use u_gds.Io.Types.{eio, HandleState, QueuePair}
use u_gds.Io.Loop.{io_loop, pages_of}
use u_gds.Io.Entry.{
  Source, find_source, mapped_source, request_of, start_of, run_pair, run_on, run_found,
  run_checked, do_io, finished,
}
use u_gds.Io.Coverage.{ceil_div}
use u_gds.Io.Rounds.{io_loop-Ends}
use u_gds.Io.Checks.{check_args-decides}
use u_gds.Io.Served.{IsHandle, IsBuffer, Served, run-IsRequest, finished-Served}

module _ (hs : HandleState) (v : IsHandle hs) (base size file_offset opcode : ℕ)
    (opcode_in : opcode < 2 ^ 7) where
  run_on-eq :
      (mems : ℕ → ℕ → Mem) (prp : ℕ → ℕ → ℕ) (src : Source) (qp : QueuePair)
      → let idx = hs.rr_counter % hs.num_qps % u16_mod in
        get_elem? hs.qps idx ≡ some qp
        → run_on hs mems prp src size file_offset opcode
          ≡ finished idx (if src.on_the_fly then some src.dma else none) (
              io_loop
                (size + 1)
                (request_of hs qp src.dma size opcode)
                (mems idx)
                0
                (file_offset / hs.block_size)
                src.page_start
                (start_of qp (prp idx)))
  unfolding run_on run_pair
  run_on-eq mems prp src qp here =
      let idx : ℕ = hs.rr_counter % hs.num_qps % u16_mod in
      let some_qps : (hs.num_qps == 0) ≡ false = ground (arith, v.some_qps) in
      let found : (if hs.num_qps == 0 then none else get_elem? hs.qps idx) ≡ some qp =
        rw some_qps here in
      ap (run_pair hs mems prp src size file_offset opcode idx) found

  -- the loop on any queue pair
  run_on-Served :
      (mems : ℕ → ℕ → Mem) (prp : ℕ → ℕ → ℕ) (src : Source)
      → (found : ℤ ⊎ Source) → found ≡ inr src
      → IsBuffer src.dma
      → src.page_start + ceil_div size hs.ctrl.page_size ≤ src.dma.n_ioaddrs
      → 0 < hs.block_size
      → size % hs.block_size ≡ 0
      → file_offset + size + hs.ctrl.page_size ≤ 2 ^ 63
      → Served hs size file_offset opcode found (run_on hs mems prp src size file_offset opcode)
  run_on-Served mems prp src found e buffer held block_pos whole small =
      let idx : ℕ = hs.rr_counter % hs.num_qps % u16_mod in
      let below : idx < length hs.qps =
        omega (arith, mod_bound hs.rr_counter hs.num_qps v.some_qps, v.few_qps, v.all_qps) in
      let (qp, here) = get_elem?-in hs.qps idx below in
      let (ready, prp_in) = v.ready idx qp here in
      let fine =
        run-IsRequest hs v qp prp_in src buffer size file_offset opcode block_pos whole
          (omega arith) held opcode_in in
      rw (run_on-eq mems prp src qp here) (
        finished-Served hs v qp prp_in src buffer size file_offset opcode block_pos whole
          (omega arith) held opcode_in idx _ found e here (omega (arith, v.page_pos))
          (io_loop-Ends _ _ _ fine (mems idx) (start_of qp (prp idx)) ready refl))

  -- what the search for the buffer finds
  abbrev Finds : ℤ ⊎ Source → Type 0
  Finds (inl result) = (result ≡ neg einval) ⊎ (result ≡ neg eio)
  Finds (inr src) =
      IsBuffer src.dma × (src.page_start + ceil_div size hs.ctrl.page_size ≤ src.dma.n_ioaddrs)

  mapped-Finds :
      (rc : ℕ) (answer : Option Dma)
      → ((dma : Dma)
          → rc ≡ 0
          → answer ≡ some dma
          → IsBuffer dma × (ceil_div size hs.ctrl.page_size ≤ dma.n_ioaddrs))
      → Finds (mapped_source (rc, answer))
  mapped-Finds rc none maps = inr refl
  mapped-Finds rc (some dma) maps = elim (Bool-cases (rc == 0)) [
    | inr bad ↦ rw bad (inr refl)
    | inl good ↦
        rw good ((maps dma (ground arith) refl).0, ground (arith, (maps dma (ground arith) refl).1))
  ]

  registered-Finds :
      (dma : Dma) (map_device : ℕ → ℕ → ℕ × Option Dma) (buf_offset : ℕ)
      → IsBuffer dma
      → buf_offset + size + hs.ctrl.page_size ≤ 2 ^ 63
      → Finds (find_source hs (some dma) map_device base size buf_offset)
  unfolding find_source
  registered-Finds dma map_device buf_offset buffer small =
      elim (Bool-cases (buf_offset % hs.ctrl.page_size == 0)) [
        | inr uneven ↦ rw uneven (inl refl)
        | inl even ↦
            let wrap : pages_of hs.ctrl.page_size size ≡ ceil_div size hs.ctrl.page_size =
              ap (λ k. k / hs.ctrl.page_size) (mod-eq_of_lt (omega (arith, v.page_pos))) in
            let fit =
              mod-eq_of_lt {n = buf_offset / hs.ctrl.page_size + pages_of hs.ctrl.page_size size}
                {m = u64_mod}
                (omega (
                  arith,
                  wrap,
                  div-le_self buf_offset hs.ctrl.page_size,
                  div-le_self (size + hs.ctrl.page_size - 1) hs.ctrl.page_size,
                )) in
            elim (Bool-cases (
              ltb dma.n_ioaddrs
                ((buf_offset / hs.ctrl.page_size + pages_of hs.ctrl.page_size size) % u64_mod))) [
                  | inl over ↦ rw (even, over) (inl refl)
                  | inr held ↦ rw (even, held) (buffer, ground (arith, held, fit, wrap))
                ]
      ]

  find_source-Finds :
      (registered : Option Dma) (map_device : ℕ → ℕ → ℕ × Option Dma) (buf_offset : ℕ)
      → ((dma : Dma) → registered ≡ some dma → IsBuffer dma)
      → ((dma : Dma)
          → (map_device (base + buf_offset) size).0 ≡ 0
          → (map_device (base + buf_offset) size).1 ≡ some dma
          → IsBuffer dma × (ceil_div size hs.ctrl.page_size ≤ dma.n_ioaddrs))
      → buf_offset + size + hs.ctrl.page_size ≤ 2 ^ 63
      → Finds (find_source hs registered map_device base size buf_offset)
  unfolding find_source
  find_source-Finds (some dma) map_device buf_offset holds maps small =
      registered-Finds dma map_device buf_offset (holds dma refl) small
  find_source-Finds none map_device buf_offset holds maps small =
      mapped-Finds (map_device (base + buf_offset) size).0 (map_device (base + buf_offset) size).1
        maps

  module _ (mems : ℕ → ℕ → Mem) (prp : ℕ → ℕ → ℕ) (registered : Option Dma)
      (map_device : ℕ → ℕ → ℕ × Option Dma) (buf_offset : ℕ)
      (holds : (dma : Dma) → registered ≡ some dma → IsBuffer dma)
      (maps : (dma : Dma)
        → (map_device (base + buf_offset) size).0 ≡ 0
        → (map_device (base + buf_offset) size).1 ≡ some dma
        → IsBuffer dma × (ceil_div size hs.ctrl.page_size ≤ dma.n_ioaddrs))
      (small : file_offset + buf_offset + size + hs.ctrl.page_size ≤ 2 ^ 63) where
    run_found-Served :
        (found : ℤ ⊎ Source)
        → Finds found
        → 0 < hs.block_size
        → size % hs.block_size ≡ 0
        → Served hs size file_offset opcode found
            (run_found hs mems prp size file_offset opcode found)
    unfolding run_found
    run_found-Served (inl result) f block_pos whole = f
    run_found-Served (inr src) f block_pos whole =
        run_on-Served mems prp src (inr src) refl f.0 f.1 block_pos whole (omega arith)

    -- On a handle whose sizes are whole blocks and pages and whose queue pairs are ready, for
    -- descriptors that are what they say and sizes without overflow, `do_io` ends, as `Served`
    -- says: refused with -EINVAL or -EIO; or with the size as its result and commands that tile
    -- exactly the blocks from the file offset on and the pages of the buffer found; or with -EIO
    -- and commands that tile a part of these from their start on.
    pub do_io-Served :
        Served hs size file_offset opcode
          (find_source hs registered map_device base size buf_offset)
          (do_io
            (some hs)
            registered
            map_device
            mems
            prp
            base
            size
            (pos file_offset)
            (pos buf_offset)
            opcode)
    unfolding do_io run_checked
    do_io-Served = elim (check_args-decides hs base size file_offset) [
      | inl r ↦ rw (r.0) (inl refl)
      | inr a ↦ rw (a.0) (
          run_found-Served _
            (find_source-Finds registered map_device buf_offset holds maps (omega arith))
            a.1.block_pos a.1.size_whole)
    ]
