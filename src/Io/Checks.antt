-- ===== src/Io/Checks.antt =====
-- The checks of the arguments of `do_io` in src/ugds_io.cpp.
use u_gds.Prelude.{
  ℕ, ◌%◌, ◌<◌, ◌≡◌, refl, Bool-cases, ◌⊎◌, inl, inr, none, some, arith, ◌==◌, not, ◌||◌, neg,
}
use u_gds.Queue.{einval}
use u_gds.Io.Types.{HandleState}
use u_gds.Io.Entry.{check_args}

-- whole blocks of the file, and something to transfer
pub record IsAccepted (hs : HandleState) (base size file_offset : ℕ) : Type 0 where
  pub base_pos : 0 < base
  pub size_pos : 0 < size
  pub block_pos : 0 < hs.block_size
  pub offset_whole : file_offset % hs.block_size ≡ 0
  pub size_whole : size % hs.block_size ≡ 0
  pub page_pos : 0 < hs.ctrl.page_size

-- for a file offset that is not negative: refused, or let through and whole blocks
pub check_args-decides :
    (hs : HandleState) (base size file_offset : ℕ)
    → ((check_args hs base size file_offset ≡ some (neg einval))
        × ¬ IsAccepted hs base size file_offset)
      ⊎ ((check_args hs base size file_offset ≡ none) × IsAccepted hs base size file_offset)
unfolding check_args
check_args-decides hs base size file_offset =
    elim (Bool-cases (base == 0 || size == 0 || hs.block_size == 0)) [
      | inl empty ↦ inl (rw empty refl, λ a. ground (arith, a.base_pos, a.size_pos, a.block_pos))
      | inr some_bytes ↦
          elim (Bool-cases
            (not (file_offset % hs.block_size == 0) || not (size % hs.block_size == 0))) [
              | inl uneven ↦
                  inl (
                    rw (some_bytes, uneven) refl,
                    λ a. ground (arith, a.offset_whole, a.size_whole),
                  )
              | inr even ↦ elim (Bool-cases (hs.ctrl.page_size == 0)) [
                | inl pageless ↦
                    inl (rw (some_bytes, even, pageless) refl, λ a. ground (arith, a.page_pos))
                | inr paged ↦ inr (
                  rw (some_bytes, even, paged) refl,
                  record {
                    base_pos = ground arith;
                    size_pos = ground arith;
                    block_pos = ground arith;
                    offset_whole = ground arith;
                    size_whole = ground arith;
                    page_pos = ground arith;
                  },
                )
              ]
            ]
    ]
