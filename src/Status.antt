-- ===== src/Status.antt =====
-- Status words: the packing of include/libnvm/nvm_error.h. An `int` is an integer.
pub mod Packing
pub mod Messages
pub mod Lookup
mod Tests
use u_gds.Prelude.{
  ℕ, zero, suc, ◌+◌, ◌*◌, ◌/◌, ◌%◌, ◌^◌, Bool, true, false, Option, none, some, ◌==◌, ◌&&◌,
  if◌then◌else◌, read_bits, ℤ, pos, negsuc, neg,
}
use u_gds.Queue.{Cpl, cpl_status}

-- `NVM_ERR_SCT` and `NVM_ERR_SC`
unfoldable pub err_sct : Cpl → ℕ
err_sct cpl = read_bits (cpl_status cpl) 11 9

unfoldable pub err_sc : Cpl → ℕ
err_sc cpl = read_bits (cpl_status cpl) 8 1

-- `NVM_ERR_STATUS`, of NULL too
unfoldable pub err_status : Option Cpl → ℤ
err_status none = pos 0
err_status (some cpl) = neg (err_sct cpl * 2 ^ 8 + err_sc cpl)

-- `NVM_ERR_OK`
unfoldable pub err_ok : Cpl → Bool
err_ok cpl = (err_sct cpl == 0) && (err_sc cpl == 0)

-- `NVM_ERR_PACK`, of an errno
unfoldable pub err_pack : Option Cpl → ℕ → ℤ
err_pack cpl err = if err == 0 then err_status cpl else pos err

-- `NVM_ERR_UNPACK_ERRNO`, `NVM_ERR_UNPACK_SCT` and `NVM_ERR_UNPACK_SC`
unfoldable pub err_unpack_errno : ℤ → ℕ
err_unpack_errno (pos n) = n
err_unpack_errno (negsuc n) = 0

unfoldable pub err_unpack_sct : ℤ → ℕ
err_unpack_sct (pos n) = 0
err_unpack_sct (negsuc n) = suc n / 2 ^ 8 % 2 ^ 8

unfoldable pub err_unpack_sc : ℤ → ℕ
err_unpack_sc (pos n) = 0
err_unpack_sc (negsuc n) = suc n % 2 ^ 8

-- `nvm_ok`
unfoldable pub status_ok : ℤ → Bool
status_ok (pos n) = n == 0
status_ok (negsuc n) = false
