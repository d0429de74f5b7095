-- ===== src/Admin/Features.antt =====
-- The number of IO queues: `nvm_admin_get_num_queues`, `nvm_admin_set_num_queues` and
-- `nvm_admin_request_num_queues` of src/libnvm/admin.cpp.
use u_gds.Prelude.{
  ℕ, ◌+◌, ◌-◌, ◌*◌, ◌/◌, ◌%◌, ◌^◌, ◌<◌, ◌≡◌, refl, true, false, ◌||◌, none, arith, ◌==◌,
  if◌then◌else◌, u16_mod, ℤ, pos, ap, ◌∙◌,
}
use u_gds.Queue.{Cpl, einval}
use u_gds.Command.{zero_cmd}
use u_gds.Status.{err_pack, status_ok}
use u_gds.Admin.{Rpc, admin_current_num_queues}

-- the counts in the answer, as `uint16_t`
abbrev pub upper_count : Cpl → ℕ
upper_count completion = (completion.dword0 / 2 ^ 16 + 1) % u16_mod

abbrev pub lower_count : Cpl → ℕ
lower_count completion = (completion.dword0 % 2 ^ 16 + 1) % u16_mod

-- the status and the counts of completion and submission queues afterwards
abbrev pub counted : (n_cqs n_sqs : ℕ) → ℤ × Cpl → ℤ × ℕ × ℕ
counted n_cqs n_sqs (status, completion) =
    if status_ok status
    then (pos 0, lower_count completion, upper_count completion)
    else (status, n_cqs, n_sqs)

-- `nvm_admin_get_num_queues`
unfoldable pub admin_get_num_queues : Rpc → (n_cqs n_sqs : ℕ) → ℤ × ℕ × ℕ
admin_get_num_queues rpc n_cqs n_sqs =
    counted n_cqs n_sqs (rpc (admin_current_num_queues zero_cmd false 0 0))

-- `nvm_admin_request_num_queues`
unfoldable pub admin_request_num_queues : Rpc → (n_cqs n_sqs : ℕ) → ℤ × ℕ × ℕ
admin_request_num_queues rpc n_cqs n_sqs =
    if n_cqs == 0 || n_sqs == 0
    then (err_pack none einval, n_cqs, n_sqs)
    else counted n_cqs n_sqs (rpc (admin_current_num_queues zero_cmd true n_cqs n_sqs))

-- `nvm_admin_set_num_queues`
unfoldable pub admin_set_num_queues : Rpc → (n_cqs n_sqs : ℕ) → ℤ
admin_set_num_queues rpc n_cqs n_sqs = (admin_request_num_queues rpc n_cqs n_sqs).0

asked :
    (n_cqs n_sqs : ℕ)
    → 0 < n_cqs
    → n_cqs < u16_mod
    → 0 < n_sqs
    → n_sqs < u16_mod
    → (admin_current_num_queues zero_cmd true n_cqs n_sqs 11 / 2 ^ 16 + 1 ≡ n_cqs)
      × (admin_current_num_queues zero_cmd true n_cqs n_sqs 11 % 2 ^ 16 + 1 ≡ n_sqs)
unfolding admin_current_num_queues
asked n_cqs n_sqs c1 c2 s1 s2 = (ground arith, ground arith)

requested :
    (rpc : Rpc) (n_cqs n_sqs : ℕ)
    → 0 < n_cqs
    → 0 < n_sqs
    → (rpc (admin_current_num_queues zero_cmd true n_cqs n_sqs)).0 ≡ pos 0
    → admin_request_num_queues rpc n_cqs n_sqs ≡ (
      pos 0,
      lower_count (rpc (admin_current_num_queues zero_cmd true n_cqs n_sqs)).1,
      upper_count (rpc (admin_current_num_queues zero_cmd true n_cqs n_sqs)).1,
    )
unfolding admin_request_num_queues status_ok
requested rpc n_cqs n_sqs c1 s1 good =
    let some_queues : (n_cqs == 0 || n_sqs == 0) ≡ false = ground arith in
    rw (some_queues, good) refl

read_counts :
    (c : Cpl) (a b : ℕ)
    → 0 < a
    → a < u16_mod
    → 0 < b
    → b < u16_mod
    → c.dword0 ≡ (a - 1) * 2 ^ 16 + (b - 1)
    → (lower_count c ≡ b) × (upper_count c ≡ a)
read_counts c a b a1 a2 b1 b2 e = (omega arith, omega arith)

-- For counts from 1 to 2^16 - 1 and a command that succeeds and grants a completion queues and b
-- submission queues: the counts that `nvm_admin_request_num_queues` asks for stand in the halves of
-- the command's DWORD11, the completion queues' in the upper one; in the answer, which has them in
-- the same halves, it takes the upper one for the submission queues' count, so that the two are
-- swapped.
pub admin_request_num_queues_swaps :
    (rpc : Rpc) (n_cqs n_sqs a b : ℕ)
    → 0 < n_cqs
    → n_cqs < u16_mod
    → 0 < n_sqs
    → n_sqs < u16_mod
    → 0 < a
    → a < u16_mod
    → 0 < b
    → b < u16_mod
    → (rpc (admin_current_num_queues zero_cmd true n_cqs n_sqs)).0 ≡ pos 0
    → (rpc (admin_current_num_queues zero_cmd true n_cqs n_sqs)).1.dword0
      ≡ (a - 1) * 2 ^ 16 + (b - 1)
    → let cmd = admin_current_num_queues zero_cmd true n_cqs n_sqs in
      (cmd 11 / 2 ^ 16 + 1 ≡ n_cqs)
      × (cmd 11 % 2 ^ 16 + 1 ≡ n_sqs)
      × ((admin_request_num_queues rpc n_cqs n_sqs).0 ≡ pos 0)
      × ((admin_request_num_queues rpc n_cqs n_sqs).1 ≡ b)
      × ((admin_request_num_queues rpc n_cqs n_sqs).2 ≡ a)
admin_request_num_queues_swaps rpc n_cqs n_sqs a b c1 c2 s1 s2 a1 a2 b1 b2 good granted =
    let (upper, lower) = asked n_cqs n_sqs c1 c2 s1 s2 in
    let r = requested rpc n_cqs n_sqs c1 s1 good in
    let (low, high) =
      read_counts (rpc (admin_current_num_queues zero_cmd true n_cqs n_sqs)).1 a b a1 a2 b1 b2
        granted in
    (upper, lower, ap (λ k. k.0) r, ap (λ k. k.1) r ∙ low, ap (λ k. k.2) r ∙ high)
