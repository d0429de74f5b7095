-- ===== src/Command/Fields.antt =====
-- What a controller reads from a read or write command, by the field layout of NVM Express.
use u_gds.Prelude.{ℕ, ◌+◌, ◌*◌, ◌/◌, ◌%◌, ◌^◌, ◌≤◌, ◌<◌, ◌≡◌, arith, u16_mod, u64_mod}
use u_gds.Command.{Cmd, zero_cmd, cmd_header, cmd_data_ptr, cmd_rw_blks}

abbrev pub field_opcode : Cmd → ℕ
field_opcode cmd = cmd 0 % 2 ^ 8

-- fused operation and PRP or SGL selection, 0 for a plain command with PRPs
abbrev pub field_flags : Cmd → ℕ
field_flags cmd = cmd 0 / 2 ^ 8 % 2 ^ 8

abbrev pub field_cid : Cmd → ℕ
field_cid cmd = cmd 0 / 2 ^ 16 % 2 ^ 16

abbrev pub field_nsid : Cmd → ℕ
field_nsid cmd = cmd 1

abbrev pub field_prp1 : Cmd → ℕ
field_prp1 cmd = cmd 6 + cmd 7 * 2 ^ 32

abbrev pub field_prp2 : Cmd → ℕ
field_prp2 cmd = cmd 8 + cmd 9 * 2 ^ 32

abbrev pub field_slba : Cmd → ℕ
field_slba cmd = cmd 10 + cmd 11 * 2 ^ 32

-- the number of blocks, which the command holds less one
abbrev pub field_blocks : Cmd → ℕ
field_blocks cmd = cmd 12 % 2 ^ 16 + 1

-- the command that an IO request builds, its block count cut to `uint16_t`
abbrev pub rw_cmd : (cid opcode ns_id prp1 prp2 lba blocks : ℕ) → Cmd
rw_cmd cid opcode ns_id prp1 prp2 lba blocks =
    cmd_rw_blks (cmd_data_ptr (cmd_header zero_cmd cid opcode ns_id) prp1 prp2) lba
      (blocks % u16_mod)

module _ (cid opcode ns_id prp1 prp2 lba blocks : ℕ) (cid_in : cid < u16_mod)
    (opcode_in : opcode < 2 ^ 7) (prp1_in : prp1 < u64_mod) (prp2_in : prp2 < u64_mod)
    (lba_in : lba < u64_mod) (blocks_pos : 0 < blocks) (blocks_in : blocks ≤ u16_mod) where
  -- A controller reads back every field of a read or write command as it went in: command
  -- identifier, opcode, no flags, namespace, both PRP entries, first block and block count, as
  -- long as the values fit their fields and at least one block is meant.
  pub rw_cmd_fields :
      let cmd = rw_cmd cid opcode ns_id prp1 prp2 lba blocks in
      (field_cid cmd ≡ cid)
      × (field_opcode cmd ≡ opcode)
      × (field_flags cmd ≡ 0)
      × (field_nsid cmd ≡ ns_id)
      × (field_prp1 cmd ≡ prp1)
      × (field_prp2 cmd ≡ prp2)
      × (field_slba cmd ≡ lba)
      × (field_blocks cmd ≡ blocks)
  unfolding cmd_header cmd_data_ptr cmd_rw_blks
  rw_cmd_fields = omega arith
