-- ===== src/Command/Tests.antt =====
-- A command at concrete inputs.
use u_gds.Prelude.{ℕ, ◌≡◌, refl, List, [], ◌∷◌, take, arith}
use u_gds.Command.Prp.{PrpList, PrpMem, prp_list_chain}
use u_gds.Command.Prp.Entries.{read_lists}
use u_gds.Command.Prp.Chain.{prp_list_chain_read}
use u_gds.Command.Fields.{
  rw_cmd, rw_cmd_fields, field_cid, field_opcode, field_flags, field_nsid, field_prp1, field_prp2,
  field_slba, field_blocks,
}

rw_cmd_fields_example :
    let cmd = rw_cmd 7 2 1 8192 12884905984 5000000000 65536 in
    (field_cid cmd ≡ 7)
    × (field_opcode cmd ≡ 2)
    × (field_flags cmd ≡ 0)
    × (field_nsid cmd ≡ 1)
    × (field_prp1 cmd ≡ 8192)
    × (field_prp2 cmd ≡ 12884905984)
    × (field_slba cmd ≡ 5000000000)
    × (field_blocks cmd ≡ 65536)
rw_cmd_fields_example =
    rw_cmd_fields 7 2 1 8192 12884905984 5000000000 65536 (omega arith) (omega arith) (omega arith)
      (omega arith) (omega arith) (omega arith) (omega arith)

-- two lists of two entries, at the same virtual and IO addresses
abbrev first_list : PrpList
first_list = record { vaddr = 4096; page_size = 16; ioaddr = 4096 }

abbrev second_list : PrpList
second_list = record { vaddr = 8192; page_size = 16; ioaddr = 8192 }

abbrev three_pages : List ℕ
three_pages = 65536 ∷ 131072 ∷ 196608 ∷ []

abbrev written : ℕ × PrpMem
written = prp_list_chain (first_list ∷ second_list ∷ []) 3 three_pages (λ v i. 0)

prp_list_chain_read_example :
    (written.0 ≡ 3) × (read_lists written.1 2 1 4096 3 ≡ take 3 three_pages)
prp_list_chain_read_example =
    prp_list_chain_read written.1 2 first_list (second_list ∷ []) 3 three_pages (λ v i. 0)
      (omega arith) (refl, (omega arith, tt), (refl, tt, tt)) (λ i. refl, (λ i. refl, tt))
      (omega arith) (omega arith) (omega arith)
