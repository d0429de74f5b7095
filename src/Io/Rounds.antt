-- ===== src/Io/Rounds.antt =====
-- The loop of `do_io` as a whole: its end, and the commands sent until then.
use u_gds.Prelude.{
  ℕ, zero, suc, ◌+◌, ◌-◌, ◌*◌, ◌≤◌, ◌<◌, ◌≡◌, refl, ◌∙◌, ap, false, Bool-cases, inl, inr, arith,
  List, ◌∷◌, [], ◌++◌, ltb, ◌==◌, u64_mod, ℤ, neg,
}
use native.Mathlib.Nat.{mul-le-mul_left}
use u_gds.Queue.{Mem}
use u_gds.Command.Fields.{field_blocks}
use u_gds.Io.Types.{eio, Sent, Progress, Request}
use u_gds.Io.Loop.{io_loop}
use u_gds.Io.Ends
use u_gds.Io.Ends.{Ends, goes, stops}
use u_gds.Io.Slots.{IsReady}
use u_gds.Io.Coverage.{ceil_div, sent_pages, Tiles, Tiles-snoc}
use u_gds.Io.Request.{IsRequest, SentOne, RoundFails, transfer-Ends}
use u_gds.Io.Chunk.{FitsRound, chunk_of-FitsRound}

module _ (r : Request) (lba0 page0 : ℕ) where
  -- Every byte of the request is transferred, by commands that tile it.
  abbrev pub AllSent : ℕ → Progress → Type 0
  AllSent bytes s =
      (bytes ≡ r.size)
      × ((blocks : ℕ) × (page' : ℕ) × (blocks * r.block_size ≡ r.size)
          × Tiles r lba0 page0 lba0 page0 s.sent (lba0 + blocks) page')

  -- The request ends with -EIO, and the commands sent tile a part of it from its start on.
  abbrev pub PartSent : ℤ → Progress → Type 0
  PartSent result s =
      (result ≡ neg eio)
      × ((blocks : ℕ) × (page' : ℕ) × (blocks * r.block_size ≤ r.size)
          × Tiles r lba0 page0 lba0 page0 s.sent (lba0 + blocks) page')

  moved :
      (xs ys : List Sent) (a a' b b' : ℕ)
      → ys ≡ xs
      → a ≡ a'
      → b ≡ b'
      → Tiles r lba0 page0 lba0 page0 xs a b
      → Tiles r lba0 page0 lba0 page0 ys a' b'
  moved xs ys a a' b b' e f g t = rw (e, ← f, ← g) t

  -- where the loop is: k blocks and p pages are done
  pub record Reached (k p : ℕ) (s : Progress) : Type 0 where
    pub ready : IsReady s.sq
    pub tiles : Tiles r lba0 page0 lba0 page0 s.sent (lba0 + k) (page0 + p)
    pub inside : k * r.block_size ≤ r.size
    pub aligned : k * r.block_size < r.size → k * r.block_size ≡ p * r.page_size

  module _ (v : IsRequest r lba0 page0) (k p n c : ℕ) (chunk : FitsRound r k p n c)
      (left : k * r.block_size < r.size) (s : Progress) (at : Reached k p s) where
    extended :
        (s' : Progress)
        → SentOne r (lba0 + k) (page0 + p) n s.sent s'
        → Tiles r lba0 page0 lba0 page0 s'.sent (lba0 + (k + n)) (page0 + (p + c))
    extended s' one =
        let here : (lba0 + k - lba0) * r.block_size ≡ (page0 + p - page0) * r.page_size =
          ap (λ j. j * r.block_size) (omega arith)
          ∙ at.aligned left
          ∙ ap (λ j. j * r.page_size) (omega arith) in
        let counted : sent_pages r one.0 ≡ c =
          ap (λ j. ceil_div (j * r.block_size) r.page_size) one.3 ∙ chunk.pages_eq in
        moved (s.sent ++ (one.0 ∷ [])) s'.sent (lba0 + k + field_blocks one.0.cmd) (lba0 + (k + n))
          (page0 + p + sent_pages r one.0) (page0 + (p + c)) one.1 (omega (arith, one.3))
          (omega (arith, counted))
          (Tiles-snoc r lba0 page0 s.sent one.0 lba0 page0 (lba0 + k) (page0 + p) at.tiles one.2
            here)

    advanced :
        (s' : Progress)
        → IsReady s'.sq
        → SentOne r (lba0 + k) (page0 + p) n s.sent s'
        → Reached (k + n) (p + c) s'
    advanced s' ready one = record {
      ready = ready;
      tiles = extended s' one;
      inside = chunk.inside;
      aligned = chunk.next;
    }

    failed :
        (result : ℤ) (s' : Progress)
        → RoundFails r (lba0 + k) (page0 + p) n s.sent result s'
        → PartSent result s'
    failed result s' (e, inl same) = (e, (k, page0 + p, at.inside, rw same at.tiles))
    failed result s' (e, inr one) = (e, (k + n, page0 + (p + c), chunk.inside, extended s' one))

  add_bytes : (k n : ℕ) → k * r.block_size + n * r.block_size ≡ (k + n) * r.block_size
  add_bytes k n = omega arith

  add_assoc : (a b c : ℕ) → a + (b + c) ≡ a + b + c
  add_assoc a b c = omega arith

  -- With more fuel than bytes left, the loop ends: with all sent, or with a part and -EIO.
  rounds-Ends :
      (v : IsRequest r lba0 page0) (fuel k p : ℕ) (mems : ℕ → Mem) (s : Progress)
      → r.size < fuel + k * r.block_size
      → Reached k p s
      → Ends AllSent PartSent (io_loop fuel r mems (k * r.block_size) (lba0 + k) (page0 + p) s)
  unfolding io_loop
  rounds-Ends v zero k p mems s enough at = absurd (omega (arith, at.inside))
  rounds-Ends v (suc fuel) k p mems s enough at =
      elim (Bool-cases (ltb (k * r.block_size) r.size)) [
        | inr done ↦
            let whole : k * r.block_size ≡ r.size = ground (arith, at.inside) in
            rw done (goes (whole, (k, page0 + p, whole, at.tiles)))
        | inl more ↦
            let left : k * r.block_size < r.size = ground arith in
            let (n, c, chunk) = chunk_of-FitsRound r lba0 page0 v k p left (at.aligned left) in
            let some_pages : (c == 0) ≡ false = ground (arith, chunk.pages_pos) in
            let some_bytes : (n * r.block_size == 0) ≡ false = ground (arith, chunk.moves) in
            let lba_in : lba0 + k < u64_mod =
              omega (arith, mul-le-mul_left k v.block_pos, v.lba_in, left) in
            rw (more, chunk.chunk_eq, chunk.blocks_eq, chunk.counted, some_pages, some_bytes)
              (Ends.bind
                (Ends.mono
                  (transfer-Ends r (lba0 + k) (page0 + p) n c chunk.pages_eq chunk.n_pos chunk.n_in
                    chunk.limit v.opcode_in v.prp_in v.addrs_in lba_in chunk.pages_pos
                    chunk.pages_fit (omega (arith, chunk.pages_in, v.buffer)) mems s at.ready)
                  (λ _ s' q. q) (λ e s' q. failed v k p n c chunk left s at e s' q))
                λ _ s' (ready, one).
                  rw (add_bytes k n, ← add_assoc lba0 k n, ← add_assoc page0 p c)
                    (rounds-Ends v fuel (k + n) (p + c) mems s' (omega (arith, chunk.moves, enough))
                      (advanced v k p n c chunk left s at s' ready one)))
      ]

  module _ (v : IsRequest r lba0 page0) (mems : ℕ → Mem) (s : Progress) (ready : IsReady s.sq)
      (fresh : s.sent ≡ []) where
    started :
        (bytes lba page : ℕ)
        → bytes ≡ 0 * r.block_size
        → lba ≡ lba0 + 0
        → page ≡ page0 + 0
        → Ends AllSent PartSent (io_loop (r.size + 1) r mems bytes lba page s)
    started bytes lba page e f g =
        rw (e, f, g)
          (rounds-Ends v (r.size + 1) 0 0 mems s (omega arith) (record {
            ready = ready;
            tiles =
                moved [] s.sent lba0 (lba0 + 0) page0 (page0 + 0) fresh (omega arith) (omega arith)
                  (refl, refl);
            inside = omega arith;
            aligned = λ _. omega arith;
          }))

    -- The loop of a request ends, from its start on.
    pub io_loop-Ends : Ends AllSent PartSent (io_loop (r.size + 1) r mems 0 lba0 page0 s)
    io_loop-Ends = started 0 lba0 page0 (omega arith) (omega arith) (omega arith)
