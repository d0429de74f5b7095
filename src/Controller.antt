-- ===== src/Controller.antt =====
-- src/libnvm/ctrl.cpp: the controller's handle, its reference count and the controller's reset. The
-- controller is seen through its capabilities and through what each poll of CSTS.RDY reads.
pub mod Log
pub mod Reset
pub mod Fields
pub mod Refs
pub mod Init
mod Tests
use u_gds.Prelude.{
  ℕ, zero, suc, ◌+◌, ◌-◌, ◌*◌, ◌/◌, ◌%◌, ◌^◌, Bool, true, false, ◌&&◌, ◌||◌, not, Option, none,
  some, List, [], ◌∷◌, ltb, leb, ◌==◌, if◌then◌else◌, u16_mod, u32_mod, u64_mod, u8_mod, read_bits,
  write_bits,
}
use u_gds.Queue.{Ctrl, einval, cpl_size, cmd_size, delay_remain, wait_rounds}
use u_gds.Dma.Lifetime.{enomem}
use u_gds.Admin.Info.{cap_mpsmin, cap_to, cap_mqes}

abbrev pub etime : ℕ
etime = 62

abbrev pub erange : ℕ
erange = 34

-- the loop of `_nvm_b2log`, for words of at most fuel bits
unfoldable pub bit_count : (fuel n : ℕ) → ℕ
bit_count zero n = 0
bit_count (suc fuel) n = let rest = bit_count fuel (n / 2) in if ltb 0 n then rest + 1 else 0

-- `_nvm_b2log`
unfoldable pub b2log : ℕ → ℕ
b2log n = (bit_count 32 n + u32_mod - 1) % u32_mod

-- `encode_page_size` and `encode_entry_size`
abbrev pub encode_page_size : ℕ → ℕ
encode_page_size ps = b2log (ps / 2 ^ 12 % u32_mod)

abbrev pub encode_entry_size : ℕ → ℕ
encode_entry_size es = b2log es

-- a write to a register of the controller
pub data RegWrite : Type 0 where
  write_cc write_aqa write_acq write_asq : ℕ → RegWrite

-- A wait for CSTS.RDY, from poll number t on: whether it came, and the number of the next poll.
-- `none` is out of fuel.
unfoldable pub wait_ready :
    (fuel target : ℕ) → (rdy : ℕ → ℕ) → (t remaining : ℕ) → Option (Bool × ℕ)
wait_ready zero target rdy t remaining = none
wait_ready (suc fuel) target rdy t remaining =
    let rest = wait_ready fuel target rdy (t + 1) (delay_remain remaining) in
    if rdy t == target
    then some (true, t + 1)
    else if remaining == 0
    then some (false, t + 1)
    else rest

-- the value of AQA
abbrev pub aqa_value : ℕ → ℕ
aqa_value page_size =
    write_bits ((page_size / cpl_size + u32_mod - 1) % u32_mod) 27 16
    + write_bits ((page_size / cmd_size + u32_mod - 1) % u32_mod) 11 0

-- the value of CC that enables the controller
abbrev pub cc_value : ℕ → ℕ
cc_value page_size =
    write_bits (encode_entry_size cpl_size) 23 20
    + write_bits (encode_entry_size cmd_size) 19 16
    + write_bits (encode_page_size page_size) 10 7
    + write_bits 0 3 1
    + write_bits 1 0 0

-- the writes between the two waits
abbrev pub configure : Ctrl → (acq_addr asq_addr : ℕ) → List RegWrite
configure ctrl acq_addr asq_addr =
    write_aqa (aqa_value ctrl.page_size)
    ∷ write_acq acq_addr
    ∷ write_asq asq_addr
    ∷ write_cc (cc_value ctrl.page_size)
    ∷ []

abbrev pub enabled : (before : List RegWrite) → Option (Bool × ℕ) → Option (ℕ × List RegWrite)
enabled before none = none
enabled before (some (true, t)) = some (0, before)
enabled before (some (false, t)) = some (etime, before)

-- `timeout` of `nvm_raw_ctrl_reset`, and its waits
abbrev pub timeout_ns : Ctrl → ℕ
timeout_ns ctrl = ctrl.timeout * 1000000 % u64_mod

abbrev pub wait_for : Ctrl → (target : ℕ) → (rdy : ℕ → ℕ) → (t : ℕ) → Option (Bool × ℕ)
wait_for ctrl target rdy t =
    let remaining = delay_remain (timeout_ns ctrl) in
    wait_ready (suc (wait_rounds remaining)) target rdy t remaining

abbrev pub disabled :
    Ctrl
    → (rdy : ℕ → ℕ) → (acq_addr asq_addr : ℕ) → (off : RegWrite) → Option (Bool × ℕ)
    → Option (ℕ × List RegWrite)
disabled ctrl rdy acq_addr asq_addr off none = none
disabled ctrl rdy acq_addr asq_addr off (some (false, t)) = some (etime, off ∷ [])
disabled ctrl rdy acq_addr asq_addr off (some (true, t)) =
    enabled (off ∷ configure ctrl acq_addr asq_addr) (wait_for ctrl 1 rdy t)

-- `nvm_raw_ctrl_reset`, where CC reads as cc: the errno and the writes, `none` out of fuel
unfoldable pub raw_ctrl_reset :
    Ctrl → (cc : ℕ) → (rdy : ℕ → ℕ) → (acq_addr asq_addr : ℕ) → Option (ℕ × List RegWrite)
raw_ctrl_reset ctrl cc rdy acq_addr asq_addr =
    disabled ctrl rdy acq_addr asq_addr (write_cc (cc - cc % 2)) (wait_for ctrl 0 rdy 0)

-- `struct controller` less the handle: references, and whether there is a device, with the calls of
-- `release_device` and of `free` so far
pub record Controller : Type 0 where
  pub count : ℕ
  pub has_device : Bool
  pub releases : ℕ
  pub frees : ℕ

-- `_nvm_ctrl_get`: whether a reference was taken, with the errno of the mutex
abbrev pub ctrl_get : (lock_err : ℕ) → Controller → Bool × Controller
ctrl_get lock_err c =
    if lock_err == 0 then (true, record c { count = (c.count + 1) % u32_mod }) else (false, c)

-- the end of `_nvm_ctrl_put` after the count has gone down
abbrev pub counted_down : Controller → Controller
counted_down c =
    if c.count == 0
    then record {
      count = c.count;
      has_device = false;
      releases = (if c.has_device then 1 else 0) + c.releases;
      frees = c.frees + 1;
    }
    else c

-- `_nvm_ctrl_put`
abbrev pub ctrl_put : Controller → Controller
ctrl_put c = counted_down (record c { count = (c.count + u32_mod - 1) % u32_mod })

abbrev pub cap_mpsmax : ℕ → ℕ
cap_mpsmax cap = read_bits cap 55 52

abbrev pub cap_dstrd : ℕ → ℕ
cap_dstrd cap = read_bits cap 35 32

-- `NVM_CTRL_MEM_MINSIZE`
abbrev pub ctrl_mem_minsize : ℕ
ctrl_mem_minsize = 0x2000

abbrev pub is_between : (low x high : ℕ) → Bool
is_between low x high = leb low x && leb x high

-- `_nvm_ctrl_init` with what `malloc`, the mutex and `_nvm_host_page_size` answer, and CAP as cap:
-- an errno or the handle, whose count is then 1
unfoldable pub ctrl_init :
    (consistent allocated : Bool)
    → (mutex_err host_page_size cap : ℕ) → (mm_ptr mm_size : ℕ) → ℕ × Option Ctrl
ctrl_init consistent allocated mutex_err page_size cap mm_ptr mm_size =
    if not (consistent && (allocated && mutex_err == 0))
    then (enomem, none)
    else if ltb mm_size ctrl_mem_minsize
    then (einval, none)
    else if page_size == 0
    then (enomem, none)
    else if not (is_between (cap_mpsmin cap) (encode_page_size page_size % u8_mod) (cap_mpsmax cap))
    then (erange, none)
    else (
      0,
      some (record {
        page_size = page_size;
        dstrd = cap_dstrd cap;
        timeout = cap_to cap * 500;
        max_qs = (cap_mqes cap + 1) % u32_mod;
        mm_size = mm_size;
        mm_ptr = mm_ptr;
      }),
    )
