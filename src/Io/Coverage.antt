-- ===== src/Io/Coverage.antt =====
-- What a run of commands transfers, as a controller reads it.
use u_gds.Prelude.{ℕ, ◌+◌, ◌-◌, ◌*◌, ◌/◌, ◌≤◌, ◌<◌, ◌≡◌, refl, some, List, [], ◌∷◌, ◌++◌, get_elem?}
use u_gds.Command.Fields.{
  field_opcode, field_nsid, field_flags, field_prp1, field_prp2, field_slba, field_blocks,
}
use u_gds.Io.Types.{Sent, Request}
use u_gds.Io.Pointers.{page_addr}

-- pages that hold so many bytes
abbrev pub ceil_div : ℕ → ℕ → ℕ
ceil_div bytes page_size = (bytes + page_size - 1) / page_size

abbrev pub sent_bytes : Request → Sent → ℕ
sent_bytes r x = field_blocks x.cmd * r.block_size

abbrev pub sent_pages : Request → Sent → ℕ
sent_pages r x = ceil_div (sent_bytes r x) r.page_size

-- The command reads or writes whole blocks from `lba` on, with the buffer's pages from `page` on.
pub record IsTransfer (r : Request) (lba page : ℕ) (x : Sent) : Type 0 where
  pub opcode : field_opcode x.cmd ≡ r.opcode
  pub flags : field_flags x.cmd ≡ 0
  pub nsid : field_nsid x.cmd ≡ r.ns_id
  pub slba : field_slba x.cmd ≡ lba
  pub limit : sent_bytes r x ≤ r.max_xfer
  pub pages :
      (i : ℕ)
      → i < sent_pages r x
      → get_elem? r.ioaddrs (page + i)
        ≡ some (page_addr (sent_pages r x) (field_prp1 x.cmd) (field_prp2 x.cmd) x.prp i)
  pub list_page : 2 < sent_pages r x → field_prp2 x.cmd ≡ r.prp_ioaddr

-- The commands transfer the blocks from `lba` up to `lba'` one behind the other, with the
-- buffer's pages from `page` up to `page'`; every command starts as far into the buffer, in whole
-- pages, as it starts behind block `lba0` in the file.
module _ (r : Request) (lba0 page0 : ℕ) where
  abbrev pub Tiles : (lba page : ℕ) → List Sent → (lba' page' : ℕ) → Type 0
  Tiles lba page [] lba' page' = (lba ≡ lba') × (page ≡ page')
  Tiles lba page (x ∷ xs) lba' page' =
      IsTransfer r lba page x
      × ((lba - lba0) * r.block_size ≡ (page - page0) * r.page_size)
      × Tiles (lba + field_blocks x.cmd) (page + sent_pages r x) xs lba' page'

  pub Tiles-snoc :
      (xs : List Sent) (x : Sent) (lba page lba' page' : ℕ)
      → Tiles lba page xs lba' page'
      → IsTransfer r lba' page' x
      → (lba' - lba0) * r.block_size ≡ (page' - page0) * r.page_size
      → Tiles lba page (xs ++ (x ∷ [])) (lba' + field_blocks x.cmd) (page' + sent_pages r x)
  Tiles-snoc [] x lba page lba' page' (p, q) t e =
      (rw (p, q) t, rw (p, q) e, (rw p refl, rw q refl))
  Tiles-snoc (y ∷ xs) x lba page lba' page' (u, v, w) t e =
      (u, v, Tiles-snoc xs x _ _ lba' page' w t e)
