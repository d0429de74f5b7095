-- ===== src/Admin/Info.antt =====
-- `nvm_admin_ctrl_info`, `nvm_admin_ns_info` and `nvm_admin_get_log_page` of src/libnvm/admin.cpp.
-- What a command leaves in the page of 4 KiB is part of its answer: the page by byte offsets.
use u_gds.Prelude.{
  ℕ, ◌+◌, ◌-◌, ◌*◌, ◌/◌, ◌%◌, ◌^◌, ◌||◌, none, ◌==◌, if◌then◌else◌, u16_mod, u64_mod, ℤ, pos,
  read_bits,
}
use u_gds.Queue.{Ctrl, einval}
use u_gds.Command.{Cmd, zero_cmd}
use u_gds.Status.{err_pack, status_ok}
use u_gds.Admin.{admin_identify_ctrl, admin_identify_ns, admin_get_log_page}

-- `nvm_raw_rpc`, and the page's bytes after it
abbrev pub PageRpc : Type 0
PageRpc = Cmd → ℤ × (ℕ → ℕ)

-- little-endian values in the page
abbrev pub le16 : (ℕ → ℕ) → ℕ → ℕ
le16 page i = page i + page (i + 1) * 2 ^ 8

abbrev pub le32 : (ℕ → ℕ) → ℕ → ℕ
le32 page i = le16 page i + le16 page (i + 2) * 2 ^ 16

abbrev pub le64 : (ℕ → ℕ) → ℕ → ℕ
le64 page i = le32 page i + le32 page (i + 4) * 2 ^ 32

-- `struct nvm_ctrl_info`, its strings by their first byte's offset in the page
pub record CtrlInfo : Type 0 where
  pub nvme_version : ℕ
  pub page_size : ℕ
  pub db_stride : ℕ
  pub timeout : ℕ
  pub contiguous : ℕ
  pub max_entries : ℕ
  pub pci_vendor : ℕ → ℕ
  pub serial_no : ℕ → ℕ
  pub model_no : ℕ → ℕ
  pub firmware : ℕ → ℕ
  pub max_data_size : ℕ
  pub max_data_pages : ℕ
  pub cq_entry_size : ℕ
  pub sq_entry_size : ℕ
  pub max_out_cmds : ℕ
  pub max_n_ns : ℕ

-- `CAP$MPSMIN`, `CAP$TO`, `CAP$CQR` and `CAP$MQES` of a register's value
abbrev pub cap_mpsmin : ℕ → ℕ
cap_mpsmin cap = read_bits cap 51 48

abbrev pub cap_to : ℕ → ℕ
cap_to cap = read_bits cap 31 24

abbrev pub cap_cqr : ℕ → ℕ
cap_cqr cap = read_bits cap 16 16

abbrev pub cap_mqes : ℕ → ℕ
cap_mqes cap = read_bits cap 15 0

-- what the registers say, before the command
abbrev pub register_info : Ctrl → (version cap : ℕ) → CtrlInfo
register_info ctrl version cap = record {
  nvme_version = version;
  page_size = ctrl.page_size;
  db_stride = 2 ^ ctrl.dstrd;
  timeout = cap_to cap * 500;
  contiguous = cap_cqr cap;
  max_entries = (cap_mqes cap + 1) % u16_mod;
  pci_vendor = λ _. 0;
  serial_no = λ _. 0;
  model_no = λ _. 0;
  firmware = λ _. 0;
  max_data_size = 0;
  max_data_pages = 0;
  cq_entry_size = 0;
  sq_entry_size = 0;
  max_out_cmds = 0;
  max_n_ns = 0;
}

-- `1UL << n`, whose count the processor takes modulo 64
abbrev pub shift64 : ℕ → ℕ
shift64 n = 2 ^ (n % 64)

-- what the IDENTIFY page adds
abbrev pub identified : (cap : ℕ) → CtrlInfo → (ℕ → ℕ) → CtrlInfo
identified cap info bytes =
    let size = shift64 (bytes 77) * shift64 (12 + cap_mpsmin cap) % u64_mod in
    record info {
      pci_vendor = bytes;
      serial_no = λ i. bytes (4 + i);
      model_no = λ i. bytes (24 + i);
      firmware = λ i. bytes (64 + i);
      max_data_size = size;
      max_data_pages = size / info.page_size;
      sq_entry_size = 2 ^ read_bits (bytes 512) 3 0;
      cq_entry_size = 2 ^ read_bits (bytes 513) 3 0;
      max_out_cmds = le16 bytes 514;
      max_n_ns = le32 bytes 516;
    }

abbrev pub with_page : {A : Type 0} → A → ((ℕ → ℕ) → A) → ℤ × (ℕ → ℕ) → ℤ × A
with_page failed done (status, page) =
    if status_ok status then (pos 0, done page) else (status, failed)

-- `nvm_admin_ctrl_info`; `old` is what the caller's structure holds, and the pointers are 0 for
-- NULL.
unfoldable pub admin_ctrl_info :
    PageRpc → Ctrl → (version cap : ℕ) → (old : CtrlInfo) → (info ptr ioaddr : ℕ) → ℤ × CtrlInfo
admin_ctrl_info rpc ctrl version cap old info ptr ioaddr =
    if info == 0 || ptr == 0 || ioaddr == 0
    then (err_pack none einval, old)
    else with_page (register_info ctrl version cap)
        (identified cap (register_info ctrl version cap))
        (rpc (admin_identify_ctrl zero_cmd ioaddr))

-- `struct nvm_ns_info`
pub record NsInfo : Type 0 where
  pub ns_id : ℕ
  pub size : ℕ
  pub capacity : ℕ
  pub utilization : ℕ
  pub lba_data_size : ℕ
  pub metadata_size : ℕ

-- `1 << n` of an `int`, as a `size_t`: the count goes modulo 32, and bit 31 is the sign.
abbrev pub int_shift : ℕ → ℕ
int_shift n = if n % 32 == 31 then u64_mod - 2 ^ 31 else 2 ^ (n % 32)

-- the descriptor of the LBA format in use
abbrev pub lba_format : (ℕ → ℕ) → ℕ
lba_format bytes = le32 bytes (128 + 4 * read_bits (bytes 26) 3 0)

abbrev pub namespace_info : ℕ → (ℕ → ℕ) → NsInfo
namespace_info ns_id bytes = record {
  ns_id = ns_id;
  size = le64 bytes 0;
  capacity = le64 bytes 8;
  utilization = le64 bytes 16;
  lba_data_size = int_shift (read_bits (lba_format bytes) 23 16);
  metadata_size = read_bits (lba_format bytes) 15 0;
}

abbrev pub unidentified : ℕ → NsInfo
unidentified ns_id = record {
  ns_id = ns_id;
  size = 0;
  capacity = 0;
  utilization = 0;
  lba_data_size = 0;
  metadata_size = 0;
}

-- `nvm_admin_ns_info`
unfoldable pub admin_ns_info : PageRpc → (old : NsInfo) → (ns_id info ptr ioaddr : ℕ) → ℤ × NsInfo
admin_ns_info rpc old ns_id info ptr ioaddr =
    if info == 0 || ptr == 0 || ioaddr == 0
    then (err_pack none einval, old)
    else with_page (unidentified ns_id) (namespace_info ns_id)
        (rpc (admin_identify_ns zero_cmd ns_id ioaddr))

-- `nvm_admin_get_log_page`: the status and the page
unfoldable pub admin_read_log_page : PageRpc → (ns_id ioaddr log_id log_offset : ℕ) → ℤ × (ℕ → ℕ)
admin_read_log_page rpc ns_id ioaddr log_id log_offset =
    let answer = rpc (admin_get_log_page zero_cmd ns_id ioaddr log_id log_offset) in
    if status_ok answer.0 then (pos 0, answer.1) else answer
