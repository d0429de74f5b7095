-- ===== src/Controller/Init.antt =====
-- `_nvm_ctrl_init` hands out only controllers that the library can drive.
use u_gds.Prelude.{
  ℕ, ◌+◌, ◌*◌, ◌%◌, ◌≤◌, ◌≡◌, ◌≢◌, refl, Bool, not, ◌&&◌, either, Option, none, some, ltb, ◌==◌,
  u8_mod, arith,
}
use u_gds.Queue.{Ctrl}
use u_gds.Admin.Info.{cap_mpsmin, cap_to, cap_mqes}
use u_gds.Controller.{ctrl_init, encode_page_size, cap_mpsmax, ctrl_mem_minsize, is_between}

-- a handle that is handed out, and nothing with an errno
abbrev pub IsHandle : (page_size cap mm_ptr mm_size : ℕ) → ℕ × Option Ctrl → Type 0
IsHandle page_size cap mm_ptr mm_size (err, none) = err ≢ 0
IsHandle page_size cap mm_ptr mm_size (err, some ctrl) =
    (err ≡ 0)
    × (ctrl.mm_ptr ≡ mm_ptr)
    × (ctrl_mem_minsize ≤ ctrl.mm_size)
    × (ctrl.page_size ≡ page_size)
    × (cap_mpsmin cap ≤ encode_page_size page_size % u8_mod)
    × (encode_page_size page_size % u8_mod ≤ cap_mpsmax cap)
    × (ctrl.max_qs ≡ cap_mqes cap + 1)
    × (ctrl.timeout ≡ cap_to cap * 500)

-- Whatever the registers, the page size and the memory are and whatever fails, `_nvm_ctrl_init`
-- returns an errno and no handle, or 0 and a handle of at least 8 KiB of memory whose page size is
-- one that the controller supports, with the queue size and the timeout of the capabilities.
pub ctrl_init-IsHandle :
    (consistent allocated : Bool) (mutex_err page_size cap mm_ptr mm_size : ℕ)
    → IsHandle page_size cap mm_ptr mm_size
        (ctrl_init consistent allocated mutex_err page_size cap mm_ptr mm_size)
unfolding ctrl_init
ctrl_init-IsHandle consistent allocated mutex_err page_size cap mm_ptr mm_size =
    let P : ℕ × Option Ctrl → Type 0 = IsHandle page_size cap mm_ptr mm_size in
    either P (not (consistent && (allocated && mutex_err == 0))) _ _
      (λ _. λ e. absurd (omega (arith, e)))
      λ _.
        either P (ltb mm_size ctrl_mem_minsize) _ _ (λ _. λ e. absurd (omega (arith, e)))
          λ large.
            either P (page_size == 0) _ _ (λ _. λ e. absurd (omega (arith, e)))
              λ _.
                either P
                  (not (
                    is_between (cap_mpsmin cap) (encode_page_size page_size % u8_mod)
                      (cap_mpsmax cap)))
                  _ _ (λ _. λ e. absurd (omega (arith, e)))
                  (λ fits.
                    (refl, refl, ground arith, refl, ground arith, ground arith, omega arith, refl))
