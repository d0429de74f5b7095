-- ===== src/Io/Loop.antt =====
-- The loop of `do_io` in src/ugds_io.cpp.
use u_gds.Prelude.{
  ℕ, zero, suc, ◌+◌, ◌-◌, ◌*◌, ◌/◌, ◌%◌, min, ltb, ◌==◌, if◌then◌else◌, u64_mod, neg,
}
use u_gds.Queue.{Mem, einval}
use u_gds.Io.Types.{go, stop, stuck, Step, and_then, Request}
use u_gds.Io.Transfer.{transfer}

-- the size of the next chunk: what is left, or the limit, in whole blocks
abbrev pub chunk_of : Request → ℕ → ℕ
chunk_of r bytes_done = min (r.size - bytes_done) r.max_xfer / r.block_size * r.block_size

-- `(bytes + page_size - 1) / page_size` in `size_t`
abbrev pub pages_of : ℕ → ℕ → ℕ
pages_of page_size bytes = (bytes + page_size - 1) % u64_mod / page_size

-- `while (bytes_done < size)`, on fuel; the value is `bytes_done` at the end.
unfoldable pub io_loop : ℕ → Request → (ℕ → Mem) → (bytes_done lba page : ℕ) → Step ℕ
io_loop zero r mems bytes_done lba page s = stuck
io_loop (suc fuel) r mems bytes_done lba page s =
    let chunk = chunk_of r bytes_done in
    let n_blocks = chunk / r.block_size in
    let counted = pages_of r.page_size chunk in
    let n_pages = if counted == 0 then 1 else counted in
    let rest =
      and_then (transfer r mems lba page n_blocks n_pages s)
        (λ _ s'. io_loop fuel r mems (bytes_done + chunk) (lba + n_blocks) (page + n_pages) s') in
    if ltb bytes_done r.size
    then (if chunk == 0 then stop (neg einval) s else rest)
    else go bytes_done s

-- the largest chunk: the controller's limit, 128 KiB if it names none, at least a page, and at
-- most what the first PRP entry and one PRP page can hold
unfoldable pub max_xfer_of : (page_size max_transfer_size : ℕ) → ℕ
max_xfer_of page_size max_transfer_size =
    let named = if max_transfer_size == 0 then 128 * 1024 else max_transfer_size in
    let a_page = if ltb named page_size then page_size else named in
    min a_page ((page_size / 8 + 1) * page_size)
