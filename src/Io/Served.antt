-- ===== src/Io/Served.antt =====
-- `do_io` of src/ugds_io.cpp as a whole, on a handle with the sizes that controllers have.
use u_gds.Prelude.{
  ℕ, zero, suc, ◌+◌, ◌*◌, ◌/◌, ◌%◌, ◌^◌, ◌≤◌, ◌<◌, ◌≡◌, refl, ◌∙◌, ap, sym, Bool-cases, ◌⊎◌, inl,
  inr, none, some, arith, ltb, ◌==◌, if◌then◌else◌, u16_mod, u64_mod, length, get_elem?, get_or, ℤ,
  pos, neg, div_mod_parts, min,
}
use native.Mathlib.Nat.{mul-le-mul_right, mul-mod_left, mul-div_left, div-le_self}
use u_gds.Queue.{einval}
use u_gds.Dma.{Dma}
use u_gds.Io.Types.{eio, HandleState, QueuePair, Attempt}
use u_gds.Io.Loop.{max_xfer_of}
use u_gds.Io.Entry.{Outcome, refused, ran, undefined, Source, signed64, finished, request_of}
use u_gds.Io.Ends.{Ends, goes, stops}
use u_gds.Io.Slots.{IsReady}
use u_gds.Io.Coverage.{ceil_div}
use u_gds.Io.Request.{IsRequest}
use u_gds.Io.Rounds.{AllSent, PartSent}

-- A handle for IO: whole blocks make a page and whole pages make the controller's largest
-- transfer, and the queue pairs are ready for commands.
pub record IsHandle (hs : HandleState) : Type 0 where
  pub page_pos : 0 < hs.ctrl.page_size
  pub block_pages : hs.ctrl.page_size % hs.block_size ≡ 0
  pub limit_pages : hs.max_transfer_size % hs.ctrl.page_size ≡ 0
  pub default_pages : 131072 % hs.ctrl.page_size ≡ 0
  pub count_fits : (hs.ctrl.page_size / 8 + 1) * hs.ctrl.page_size ≤ u16_mod * hs.block_size
  pub some_qps : 0 < hs.num_qps
  pub all_qps : hs.num_qps ≤ length hs.qps
  pub few_qps : hs.num_qps ≤ u16_mod
  pub ready :
      (i : ℕ) (qp : QueuePair)
      → get_elem? hs.qps i ≡ some qp
      → IsReady qp.sq × get_or qp.prp_dma.ioaddrs 0 0 < u64_mod

-- a descriptor whose list of addresses is what it says
pub record IsBuffer (dma : Dma) : Type 0 where
  pub counted : length dma.ioaddrs ≡ dma.n_ioaddrs
  pub addrs_in : (i v : ℕ) → get_elem? dma.ioaddrs i ≡ some v → v < u64_mod

-- How a request may end: it is refused, or it transfers all its bytes and returns their number, or
-- it transfers a part of them, from their start on, and returns -EIO. The commands sent are those
-- of the file's blocks from the file offset on, and of the pages of the buffer that was found.
abbrev pub Served :
    HandleState → (size file_offset opcode : ℕ) → (found : ℤ ⊎ Source) → Outcome → Type 0
Served hs size file_offset opcode found (refused result) =
    (result ≡ neg einval) ⊎ (result ≡ neg eio)
Served hs size file_offset opcode found (ran result idx s unmapped) =
    (qp : QueuePair) × (src : Source) × (get_elem? hs.qps idx ≡ some qp)
    × (found ≡ inr src)
    × (unmapped ≡ (if src.on_the_fly then some src.dma else none))
    × (((result ≡ pos size)
          × AllSent (request_of hs qp src.dma size opcode) (file_offset / hs.block_size)
              src.page_start size s)
        ⊎ PartSent (request_of hs qp src.dma size opcode) (file_offset / hs.block_size)
            src.page_start result s)
Served hs size file_offset opcode found undefined = ⊥

exact : (a d : ℕ) → a % d ≡ 0 → a ≡ a / d * d
exact a d h = omega (arith, div_mod_parts a d)

factor_le : (a d t : ℕ) → 0 < a → a ≡ t * d → d ≤ a
factor_le a d zero h e = absurd (omega arith)
factor_le a d (suc t) h e = omega arith

whole_blocks_whole_pages :
    (m t u bs ps : ℕ) → 0 < bs → m ≡ t * ps → ps ≡ u * bs → m / bs * bs % ps ≡ 0
whole_blocks_whole_pages m t u bs ps h e f =
    let parts : m ≡ t * u * bs = e ∙ ap (λ k. t * k) f ∙ omega arith in
    ap (λ k. k / bs * bs % ps) parts
    ∙ ap (λ k. k * bs % ps) (mul-div_left (t * u) h)
    ∙ ap (λ k. k % ps) (sym parts ∙ e)
    ∙ mul-mod_left t ps

module _ (ps mts : ℕ) (page_pos : 0 < ps) (limit : mts % ps ≡ 0) (default : 131072 % ps ≡ 0) where
  named_pages : (t : ℕ) × ((if mts == 0 then 128 * 1024 else mts) ≡ t * ps)
  named_pages = elim (Bool-cases (mts == 0)) [
    | inl unset ↦ (131072 / ps, rw unset (exact 131072 ps default))
    | inr set ↦ (mts / ps, rw set (exact mts ps limit))
  ]

  a_page_at_least :
      (a t : ℕ) → a ≡ t * ps → (u : ℕ) × (0 < u) × ((if ltb a ps then ps else a) ≡ u * ps)
  a_page_at_least a t e = elim (Bool-cases (ltb a ps)) [
    | inl less ↦ (1, ground arith, rw less (ground arith))
    | inr enough ↦ (t, positive t e (ground arith), rw enough e)
  ]
    where
      positive : (t : ℕ) → a ≡ t * ps → ps ≤ a → 0 < t
      positive zero e h = absurd (omega arith)
      positive (suc t) e h = omega arith

  min-mul : (a b : ℕ) → min (a * ps) (b * ps) ≡ min a b * ps
  min-mul a b = elim (Bool-cases (ltb b a)) [
    | inl h ↦
        let le : b * ps ≤ a * ps = mul-le-mul_right ps (ground arith) in
        let m : min a b ≡ b = ground arith in rw m (ground arith)
    | inr h ↦
        let le : a * ps ≤ b * ps = mul-le-mul_right ps (ground arith) in
        let m : min a b ≡ a = ground arith in rw m (ground arith)
  ]

  -- The largest chunk is one page or more, at most what the PRP entries hold, and whole pages.
  pub max_xfer_of-pages : (t : ℕ) × (0 < t) × (t ≤ ps / 8 + 1) × (max_xfer_of ps mts ≡ t * ps)
  unfolding max_xfer_of
  max_xfer_of-pages =
      let (a, named) = named_pages in
      let (u, u_pos, paged) = a_page_at_least _ a named in
      (
        min u (ps / 8 + 1),
        ground arith,
        ground arith,
        ap (λ k. min k ((ps / 8 + 1) * ps)) paged ∙ min-mul u (ps / 8 + 1),
      )

module _ (hs : HandleState) (v : IsHandle hs) (qp : QueuePair)
    (qp_in : get_or qp.prp_dma.ioaddrs 0 0 < u64_mod) (src : Source) (buffer : IsBuffer src.dma)
    (size file_offset opcode : ℕ) (block_pos : 0 < hs.block_size) (whole : size % hs.block_size ≡ 0)
    (small : file_offset + size + hs.ctrl.page_size ≤ u64_mod)
    (held : src.page_start + ceil_div size hs.ctrl.page_size ≤ src.dma.n_ioaddrs)
    (opcode_in : opcode < 2 ^ 7) where
  pub run-IsRequest :
      IsRequest (request_of hs qp src.dma size opcode) (file_offset / hs.block_size) src.page_start
  run-IsRequest =
      let (t, t_pos, t_in, xfer) =
        max_xfer_of-pages hs.ctrl.page_size hs.max_transfer_size v.page_pos v.limit_pages
          v.default_pages in
      let u : ℕ = hs.ctrl.page_size / hs.block_size in
      let blocks : hs.ctrl.page_size ≡ u * hs.block_size =
        exact hs.ctrl.page_size hs.block_size v.block_pages in
      let block_in : hs.block_size ≤ hs.ctrl.page_size =
        factor_le hs.ctrl.page_size hs.block_size u v.page_pos blocks in
      let page_in : hs.ctrl.page_size ≤ t * hs.ctrl.page_size =
        omega (arith, mul-le-mul_right hs.ctrl.page_size t_pos) in
      let all : t * hs.ctrl.page_size ≤ (hs.ctrl.page_size / 8 + 1) * hs.ctrl.page_size =
        mul-le-mul_right hs.ctrl.page_size t_in in
      record {
        block_pos = block_pos;
        page_pos = v.page_pos;
        whole = whole;
        chunk_pos = omega (arith, xfer, block_in, page_in);
        chunk_pages =
            whole_blocks_whole_pages _ t u hs.block_size hs.ctrl.page_size block_pos xfer blocks;
        prp_fits = omega (arith, xfer, all);
        count_fits = omega (arith, xfer, all, v.count_fits);
        no_wrap = omega arith;
        buffer = rw buffer.counted held;
        opcode_in = opcode_in;
        prp_in = qp_in;
        addrs_in = buffer.addrs_in;
        lba_in = omega (arith, div-le_self file_offset hs.block_size);
      }

  -- the loop ends one of the two ways
  pub finished-Served :
      (idx : ℕ) (a : Attempt ℕ) (found : ℤ ⊎ Source)
      → found ≡ inr src
      → get_elem? hs.qps idx ≡ some qp
      → size < 2 ^ 63
      → Ends
          (AllSent
            (request_of hs qp src.dma size opcode)
            (file_offset / hs.block_size)
            src.page_start)
          (PartSent
            (request_of hs qp src.dma size opcode)
            (file_offset / hs.block_size)
            src.page_start)
          a
      → Served hs size file_offset opcode found
          (finished idx (if src.on_the_fly then some src.dma else none) a)
  unfolding finished
  finished-Served idx a found e here short (goes {a = bytes} {s = s} all) =
      (qp, src, here, e, refl, inl (ap signed64 all.0 ∙ ground arith, (refl, all.1)))
  finished-Served idx a found e here short (stops part) = (qp, src, here, e, refl, inr part)
