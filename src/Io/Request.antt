-- ===== src/Io/Request.antt =====
-- One round of the loop of `do_io`: the command that it sends, and how it ends.
use u_gds.Prelude.{
  ℕ, ◌+◌, ◌*◌, ◌/◌, ◌%◌, ◌^◌, ◌≤◌, ◌<◌, ◌≡◌, ◌⊎◌, inl, inr, refl, ◌∙◌, ap, sym, some, List, [], ◌∷◌,
  ◌++◌, arith, get_elem?, length, u16_mod, u64_mod, ℤ, neg,
}
use native.Mathlib.Decide.{ℕ_discrete}
use u_gds.Queue.{Queue, Mem, default_cid}
use u_gds.Command.{Cmd}
use u_gds.Command.Fields.{
  rw_cmd, rw_cmd_fields, field_opcode, field_flags, field_nsid, field_prp1, field_prp2, field_slba,
  field_blocks,
}
use u_gds.Io.Types.{eio, Sent, Progress, Request}
use u_gds.Io.Transfer.{transfer}
use u_gds.Io.Ends
use u_gds.Io.Ends.{Ends, goes, stops}
use u_gds.Io.Slots.{IsReady, sq_update-IsReady, await-Ends, reserve-Ends, submit-Ends}
use u_gds.Io.Pointers.{page_addr, Pointed, data_pointers-Ends}
use u_gds.Io.Coverage.{ceil_div, sent_pages, IsTransfer}

-- A request that the checks of `do_io` let through, on a controller whose limits fit the sizes:
-- a chunk of the largest size is whole blocks in whole pages, and its block count fits 16 bits.
pub record IsRequest (r : Request) (lba0 page0 : ℕ) : Type 0 where
  pub block_pos : 0 < r.block_size
  pub page_pos : 0 < r.page_size
  pub whole : r.size % r.block_size ≡ 0
  pub chunk_pos : r.block_size ≤ r.max_xfer
  pub chunk_pages : r.max_xfer / r.block_size * r.block_size % r.page_size ≡ 0
  pub prp_fits : r.max_xfer ≤ (r.prp_capacity + 1) * r.page_size
  pub count_fits : r.max_xfer ≤ u16_mod * r.block_size
  pub no_wrap : r.size + r.page_size ≤ u64_mod
  pub buffer : page0 + ceil_div r.size r.page_size ≤ length r.ioaddrs
  pub opcode_in : r.opcode < 2 ^ 7
  pub prp_in : r.prp_ioaddr < u64_mod
  pub addrs_in : (i v : ℕ) → get_elem? r.ioaddrs i ≡ some v → v < u64_mod
  pub lba_in : lba0 + r.size ≤ u64_mod

-- one more command has been sent, which transfers the n blocks
abbrev pub SentOne : Request → (lba page n : ℕ) → List Sent → Progress → Type 0
SentOne r lba page n sent s =
    (x : Sent) × (s.sent ≡ sent ++ (x ∷ [])) × IsTransfer r lba page x × (field_blocks x.cmd ≡ n)

-- the round fails with -EIO, before or after its command is sent
abbrev pub RoundFails : Request → (lba page n : ℕ) → List Sent → ℤ → Progress → Type 0
RoundFails r lba page n sent result s =
    (result ≡ neg eio) × ((s.sent ≡ sent) ⊎ SentOne r lba page n sent s)

cid_bound : (q : Queue) → default_cid q < u16_mod
unfolding default_cid
cid_bound q = omega arith

module _ (r : Request) (lba page n pages : ℕ)
    (counted : ceil_div (n * r.block_size) r.page_size ≡ pages) (n_pos : 0 < n) (n_in : n ≤ u16_mod)
    (limit : n * r.block_size ≤ r.max_xfer) (opcode_in : r.opcode < 2 ^ 7)
    (prp_in : r.prp_ioaddr < u64_mod)
    (addrs_in : (i v : ℕ) → get_elem? r.ioaddrs i ≡ some v → v < u64_mod) (lba_in : lba < u64_mod)
    (pages_pos : 0 < pages) (pages_fit : pages ≤ r.prp_capacity + 1)
    (there : page + pages ≤ length r.ioaddrs) where
  abbrev built : ℕ → ℕ → ℕ → Cmd
  built cid prp1 prp2 = rw_cmd cid r.opcode r.ns_id prp1 prp2 lba n

  entry_bounds :
      (prp1 prp2 : ℕ) (s : Progress)
      → Pointed r.ioaddrs page pages r.prp_ioaddr (prp1, prp2) s
      → (prp1 < u64_mod) × (prp2 < u64_mod)
  entry_bounds prp1 prp2 s p = (addrs_in (page + 0) prp1 (p.0 0 pages_pos), second)
    where
      second : prp2 < u64_mod
      second = elim (ℕ_discrete pages 1) [
        | yes one ↦ omega (arith, p.1.0 one)
        | no more ↦ elim (ℕ_discrete pages 2) [
          | yes two ↦ addrs_in (page + 1) prp2 (p.0 1 (omega arith) ∙ ap some (ground arith))
          | no many ↦ omega (arith, p.1.1 (omega arith), prp_in)
        ]
      ]

  module _ (x : Sent) (prp1 prp2 : ℕ) (opcode_eq : field_opcode x.cmd ≡ r.opcode)
      (flags_eq : field_flags x.cmd ≡ 0) (nsid_eq : field_nsid x.cmd ≡ r.ns_id)
      (prp1_eq : field_prp1 x.cmd ≡ prp1) (prp2_eq : field_prp2 x.cmd ≡ prp2)
      (slba_eq : field_slba x.cmd ≡ lba) (blocks_eq : field_blocks x.cmd ≡ n) where
    pages_eq : sent_pages r x ≡ pages
    pages_eq = ap (λ k. ceil_div (k * r.block_size) r.page_size) blocks_eq ∙ counted

    -- A command whose fields are these transfers the blocks and pages of the round.
    fields-IsTransfer :
        (s : Progress)
        → s.prp ≡ x.prp
        → Pointed r.ioaddrs page pages r.prp_ioaddr (prp1, prp2) s
        → IsTransfer r lba page x
    fields-IsTransfer s same p = record {
      opcode = opcode_eq;
      flags = flags_eq;
      nsid = nsid_eq;
      slba = slba_eq;
      limit = rw blocks_eq limit;
      pages = λ i h.
          p.0 i (rw pages_eq at h)
          ∙ sym (λ j. some (page_addr (pages_eq j) (prp1_eq j) (prp2_eq j) (sym same j) i));
      list_page = λ h. prp2_eq ∙ p.1.1 (rw pages_eq at h);
    }

  -- The command that the round builds transfers the blocks and pages of the round.
  built-IsTransfer :
      (slot cid prp1 prp2 : ℕ) (s : Progress)
      → cid < u16_mod
      → Pointed r.ioaddrs page pages r.prp_ioaddr (prp1, prp2) s
      → let x : Sent = record { slot = slot; cmd = built cid prp1 prp2; prp = s.prp } in
        IsTransfer r lba page x × (field_blocks x.cmd ≡ n)
  built-IsTransfer slot cid prp1 prp2 s cid_in p =
      let (in1, in2) = entry_bounds prp1 prp2 s p in
      let (_, op, fl, ns, p1, p2, sl, bl) =
        rw_cmd_fields cid r.opcode r.ns_id prp1 prp2 lba n cid_in opcode_in in1 in2 lba_in n_pos
          n_in in
      (
        fields-IsTransfer (record { slot = slot; cmd = built cid prp1 prp2; prp = s.prp }) prp1 prp2
            op fl ns p1 p2 sl bl s refl p,
        bl,
      )

  sent_one :
      (slot prp1 prp2 : ℕ) (sent : List Sent) (s2 s3 : Progress)
      → s2.sent ≡ sent
      → Pointed r.ioaddrs page pages r.prp_ioaddr (prp1, prp2) s2
      → s3.sent
        ≡ s2.sent
          ++ (record { slot = slot; cmd = built (default_cid s2.sq) prp1 prp2; prp = s2.prp } ∷ [])
      → SentOne r lba page n sent s3
  sent_one slot prp1 prp2 sent s2 s3 e p f =
      let x : Sent = record {
        slot = slot;
        cmd = built (default_cid s2.sq) prp1 prp2;
        prp = s2.prp;
      } in
      let (t, b) = built-IsTransfer slot (default_cid s2.sq) prp1 prp2 s2 (cid_bound s2.sq) p in
      (x, f ∙ ap (λ k. k ++ (x ∷ [])) e, t, b)

  -- A round ends with its command sent and completed, or with -EIO.
  pub transfer-Ends :
      (mems : ℕ → Mem) (s : Progress)
      → IsReady s.sq
      → Ends
          (λ _ s'. IsReady s'.sq × SentOne r lba page n s.sent s')
          (RoundFails r lba page n s.sent)
          (transfer r mems lba page n pages s)
  unfolding transfer
  transfer-Ends mems s v =
      Ends.bind
        (Ends.mono (reserve-Ends (s.sq.qs + 1) r.ctrl mems s (omega (arith, v.ring.two_le)) v)
          (λ _ s1 g. g) (λ e s1 (f, g). (f, inl g)))
        λ slot s1 (taken, sent1).
          Ends.bind
            (data_pointers-Ends r.prp_capacity r.prp_ioaddr r.ioaddrs page pages s1 pages_fit there
              pages_pos)
            λ ps s2 ((sq2, sent2), pointed).
              Ends.bind
                (Ends.mono
                  (submit-Ends slot (built (default_cid s2.sq) ps.0 ps.1) s2 (rw sq2 taken))
                  (λ _ s3 g. g) (λ e s3 (f, g). (f, inl (g ∙ sent2 ∙ sent1))))
                λ _ s3 (ready, sent3).
                  let one : SentOne r lba page n s.sent s3 =
                    sent_one slot ps.0 ps.1 s.sent s2 s3 (sent2 ∙ sent1) pointed sent3 in
                  Ends.mono (await-Ends r.ctrl mems s3)
                    (λ _ s4 (sq4, sent4). (
                      rw sq4 (sq_update-IsReady s3.sq ready),
                      (one.0, sent4 ∙ one.1, one.2, one.3),
                    ))
                    (λ e s4 (f, g). (f, inr (one.0, g ∙ one.1, one.2, one.3)))
