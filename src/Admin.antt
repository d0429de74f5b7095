-- ===== src/Admin.antt =====
-- The admin commands of src/libnvm/admin.cpp. `nvm_raw_rpc` answers a command with a status and a
-- completion, and is a parameter.
pub mod Queues
pub mod Created
pub mod Features
pub mod Info
mod Tests
use u_gds.Prelude.{
  ℕ, ◌+◌, ◌-◌, ◌*◌, ◌/◌, ◌%◌, ◌^◌, Bool, true, false, ◌==◌, if◌then◌else◌, u16_mod, u32_mod, ℤ,
}
use u_gds.Queue.{Queue, Cpl}
use u_gds.Command.{
  Cmd, zero_cmd, set_dword, cmd_header, cmd_data_ptr, admin_opcode, delete_sq, create_sq,
  get_log_page, delete_cq, create_cq, identify, set_features, get_features,
}

-- `nvm_raw_rpc` on one admin queue
abbrev pub Rpc : Type 0
Rpc = Cmd → ℤ × Cpl

abbrev pub enotty : ℕ
enotty = 25

-- `!need_prp`
abbrev pub contiguous_bit : Bool → ℕ
contiguous_bit need_prp = if need_prp then 0 else 1

-- `((uint32_t) qs - 1) << 16`, with the low half free
abbrev pub size_field : ℕ → ℕ
size_field qs = (qs + u32_mod - 1) % u32_mod * 2 ^ 16 % u32_mod

unfoldable pub admin_cq_create : Cmd → (cq : Queue) → (ioaddr : ℕ) → (need_prp : Bool) → Cmd
admin_cq_create cmd cq ioaddr need_prp =
    let cmd0 = cmd_data_ptr (cmd_header cmd 0 (admin_opcode create_cq) 0) ioaddr 0 in
    set_dword (set_dword cmd0 10 (size_field cq.qs + cq.no % u16_mod)) 11 (contiguous_bit need_prp)

unfoldable pub admin_cq_delete : Cmd → (cq : Queue) → Cmd
admin_cq_delete cmd cq =
    set_dword (cmd_header cmd 0 (admin_opcode delete_cq) 0) 10 (cq.no % u16_mod)

unfoldable pub admin_sq_create : Cmd → (sq cq : Queue) → (ioaddr : ℕ) → (need_prp : Bool) → Cmd
admin_sq_create cmd sq cq ioaddr need_prp =
    let cmd0 = cmd_data_ptr (cmd_header cmd 0 (admin_opcode create_sq) 0) ioaddr 0 in
    set_dword (set_dword cmd0 10 (size_field sq.qs + sq.no % u16_mod)) 11
      (cq.no % u16_mod * 2 ^ 16 + contiguous_bit need_prp)

unfoldable pub admin_sq_delete : Cmd → (sq : Queue) → Cmd
admin_sq_delete cmd sq =
    set_dword (cmd_header cmd 0 (admin_opcode delete_sq) 0) 10 (sq.no % u16_mod)

-- The counts go in less one, the completion queues' in the upper half. A count of 0 for the
-- submission queues is all ones, and covers the other one.
unfoldable pub admin_current_num_queues : Cmd → (set : Bool) → (n_cqs n_sqs : ℕ) → Cmd
admin_current_num_queues cmd set n_cqs n_sqs =
    let opcode = admin_opcode (if set then set_features else get_features) in
    let cmd0 = cmd_data_ptr (cmd_header cmd 0 opcode 0) 0 0 in
    let counts = if n_sqs == 0 then u32_mod - 1 else size_field n_cqs + (n_sqs - 1) in
    set_dword (set_dword cmd0 10 0x07) 11 (if set then counts else 0)

unfoldable pub admin_identify_ctrl : Cmd → (ioaddr : ℕ) → Cmd
admin_identify_ctrl cmd ioaddr =
    let cmd0 = cmd_data_ptr (cmd_header cmd 0 (admin_opcode identify) 0) ioaddr 0 in
    set_dword (set_dword cmd0 10 0x01) 11 0

unfoldable pub admin_identify_ns : Cmd → (ns_id ioaddr : ℕ) → Cmd
admin_identify_ns cmd ns_id ioaddr =
    let cmd0 = cmd_data_ptr (cmd_header cmd 0 (admin_opcode identify) ns_id) ioaddr 0 in
    set_dword (set_dword cmd0 10 0x00) 11 0

unfoldable pub admin_get_log_page : Cmd → (ns_id ioaddr log_id log_offset : ℕ) → Cmd
admin_get_log_page cmd ns_id ioaddr log_id log_offset =
    let cmd0 = cmd_data_ptr (cmd_header cmd 0 (admin_opcode get_log_page) ns_id) ioaddr 0 in
    let cmd10 = set_dword cmd0 10 (1024 * 2 ^ 16 + log_id) in
    set_dword (set_dword (set_dword cmd10 11 0) 12 (log_offset % u32_mod)) 13
      (log_offset / 2 ^ 32 % u32_mod)
