-- ===== src/Controller/Fields.antt =====
-- The registers that `nvm_raw_ctrl_reset` writes, read as the controller does.
use u_gds.Prelude.{ℕ, zero, suc, ◌+◌, ◌*◌, ◌/◌, ◌^◌, ◌≤◌, ◌≡◌, refl, read_bits, arith}
use u_gds.Queue.{cpl_size, cmd_size}
use u_gds.Controller.{aqa_value, cc_value, bit_count, b2log}

-- AQA.ACQS, AQA.ASQS, CC.EN, CC.CSS, CC.MPS, CC.IOSQES and CC.IOCQES
abbrev pub AreFields : (k page_size aqa cc : ℕ) → Type 0
AreFields k page_size aqa cc =
    (read_bits aqa 27 16 + 1 ≡ page_size / cpl_size)
    × (read_bits aqa 11 0 + 1 ≡ page_size / cmd_size)
    × (read_bits cc 0 0 ≡ 1)
    × (read_bits cc 3 1 ≡ 0)
    × (2 ^ (12 + read_bits cc 10 7) ≡ page_size)
    × (2 ^ read_bits cc 19 16 ≡ cmd_size)
    × (2 ^ read_bits cc 23 20 ≡ cpl_size)

-- For pages of 4 KiB to 64 KiB, the registers that the reset writes tell the controller the sizes
-- that the library uses: the admin queues have as many entries as fit into a page, memory pages are
-- the controller handle's, the entries of IO queues are those of `nvm_cmd_t` and `nvm_cpl_t`, the
-- command set is NVM and the controller is enabled.
pub reset-AreFields :
    (k : ℕ)
    → k ≤ 4
    → AreFields k (4096 * 2 ^ k) (aqa_value (4096 * 2 ^ k)) (cc_value (4096 * 2 ^ k))
unfolding bit_count b2log
reset-AreFields zero h = (refl, refl, refl, refl, refl, refl, refl)
reset-AreFields (suc zero) h = (refl, refl, refl, refl, refl, refl, refl)
reset-AreFields (suc (suc zero)) h = (refl, refl, refl, refl, refl, refl, refl)
reset-AreFields (suc (suc (suc zero))) h = (refl, refl, refl, refl, refl, refl, refl)
reset-AreFields (suc (suc (suc (suc zero)))) h = (refl, refl, refl, refl, refl, refl, refl)
reset-AreFields (suc (suc (suc (suc (suc k))))) h = absurd (omega arith)
