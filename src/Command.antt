-- ===== src/Command.antt =====
-- The command builders of include/libnvm/nvm_cmd.h. A command is its sixteen DWORDs, read by their
-- index; `|` of disjoint fields is written as a sum, and a mask as a remainder or a quotient.
pub mod Fields
pub mod Prp
mod Tests
use u_gds.Prelude.{
  ℕ, ◌+◌, ◌-◌, ◌*◌, ◌/◌, ◌%◌, ◌^◌, ◌==◌, if◌then◌else◌, u16_mod, u32_mod, write_bits,
}

-- `nvm_cmd_t`
abbrev pub Cmd : Type 0
Cmd = ℕ → ℕ

-- `memset(cmd, 0, sizeof(nvm_cmd_t))`
abbrev pub zero_cmd : Cmd
zero_cmd i = 0

-- `cmd->dword[i] = v`
abbrev pub set_dword : Cmd → ℕ → ℕ → Cmd
set_dword cmd i v j = if j == i then v else cmd j

-- `NVM_CMD_OPCODE`
abbrev pub cmd_opcode : (gen fun dir : ℕ) → ℕ
cmd_opcode gen fun dir = write_bits gen 7 7 + write_bits fun 6 2 + write_bits dir 1 0

-- `enum nvm_io_command_set`
pub data IoOpcode : Type 0 where
  io_flush io_write io_read io_write_zeroes : IoOpcode

unfoldable pub io_opcode : IoOpcode → ℕ
io_opcode io_flush = cmd_opcode 0 0 0
io_opcode io_write = cmd_opcode 0 0 1
io_opcode io_read = cmd_opcode 0 0 2
io_opcode io_write_zeroes = cmd_opcode 0 2 0

-- `enum nvm_admin_command_set`
pub data AdminOpcode : Type 0 where
  delete_sq create_sq get_log_page delete_cq create_cq identify abort_cmd set_features
        get_features :
      AdminOpcode

unfoldable pub admin_opcode : AdminOpcode → ℕ
admin_opcode delete_sq = cmd_opcode 0 0 0
admin_opcode create_sq = cmd_opcode 0 0 1
admin_opcode get_log_page = cmd_opcode 0 0 2
admin_opcode delete_cq = cmd_opcode 0 1 0
admin_opcode create_cq = cmd_opcode 0 1 1
admin_opcode identify = cmd_opcode 0 1 2
admin_opcode abort_cmd = cmd_opcode 0 2 0
admin_opcode set_features = cmd_opcode 0 2 1
admin_opcode get_features = cmd_opcode 0 2 2

-- `nvm_cmd_header`
unfoldable pub cmd_header : Cmd → (cid opcode ns_id : ℕ) → Cmd
cmd_header cmd cid opcode ns_id =
    set_dword (set_dword cmd 0 (cid * 2 ^ 16 + opcode % 2 ^ 7)) 1 ns_id

-- a DWORD with the bits 15:14 and 9:8 cleared
abbrev pub clear_psdt : ℕ → ℕ
clear_psdt d = d - d / 2 ^ 14 % 4 * 2 ^ 14 - d / 2 ^ 8 % 4 * 2 ^ 8

-- `nvm_cmd_data_ptr`
unfoldable pub cmd_data_ptr : Cmd → (prp1 prp2 : ℕ) → Cmd
cmd_data_ptr cmd prp1 prp2 =
    let cmd0 = set_dword cmd 0 (clear_psdt (cmd 0)) in
    let cmd6 = set_dword cmd0 6 (prp1 % u32_mod) in
    let cmd7 = set_dword cmd6 7 (prp1 / 2 ^ 32 % u32_mod) in
    let cmd8 = set_dword cmd7 8 (prp2 % u32_mod) in set_dword cmd8 9 (prp2 / 2 ^ 32 % u32_mod)

-- `nvm_cmd_rw_blks`: the block count is 0's based in 16 bits.
unfoldable pub cmd_rw_blks : Cmd → (start_lba n_blks : ℕ) → Cmd
cmd_rw_blks cmd start_lba n_blks =
    let cmd10 = set_dword cmd 10 (start_lba % u32_mod) in
    let cmd11 = set_dword cmd10 11 (start_lba / 2 ^ 32 % u32_mod) in
    set_dword cmd11 12 (cmd 12 / 2 ^ 16 % 2 ^ 16 * 2 ^ 16 + (n_blks + u16_mod - 1) % u16_mod)
