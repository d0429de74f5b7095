-- ===== src/Rpc/Status.antt =====
-- The status of a local admin command: `nvm_raw_rpc` and `_nvm_local_admin`.
use u_gds.Prelude.{ℕ, pos, ◌≡◌, refl, Option, some, ◌==◌, arith, true}
use u_gds.Queue.{Cpl}
use u_gds.Command.{Cmd}
use u_gds.Status.{err_pack, err_status}
use u_gds.Rpc.{raw_rpc, local_admin}

-- Where the lock is taken and a command is executed without an errno, `nvm_raw_rpc` returns the
-- status of its completion, and `_nvm_local_admin` of the same reference 0, which is success.
pub local_admin-raw_rpc :
    (f : Cmd → ℕ × Option Cpl) (cmd : Cmd)
    → (f cmd).0 ≡ 0
    → (raw_rpc 0 (some f) cmd ≡ err_status (f cmd).1) × (local_admin 0 (some f) cmd ≡ pos 0)
unfolding raw_rpc local_admin err_pack err_status
local_admin-raw_rpc f cmd e =
    let good : ((f cmd).0 == 0) ≡ true = ground arith in rw good (refl, refl)
