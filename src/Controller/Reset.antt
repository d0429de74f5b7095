-- ===== src/Controller/Reset.antt =====
-- `nvm_raw_ctrl_reset` ends, and what it has written when it does.
use u_gds.Prelude.{
  ℕ, zero, suc, ◌+◌, ◌-◌, ◌%◌, ◌≤◌, ◌<◌, ◌≡◌, ◌≢◌, refl, ap, sym, ◌∙◌, Bool, true, false,
  Bool-cases, ◌⊎◌, inl, inr, Option, none, some, List, [], ◌∷◌, ◌==◌, arith,
}
use mathlib.Core.Path.{subst}
use u_gds.Queue.{Ctrl, delay_remain, wait_rounds}
use u_gds.Controller.{
  RegWrite, write_cc, wait_ready, configure, enabled, disabled, timeout_ns, wait_for,
  raw_ctrl_reset, etime,
}

-- how a wait of k polls and one more ends: the first poll that reads the target, or none
abbrev pub HasWaited : (target : ℕ) → (rdy : ℕ → ℕ) → (t k : ℕ) → Option (Bool × ℕ) → Type 0
HasWaited target rdy t k none = ◌≡◌ {A = ℕ} 0 1
HasWaited target rdy t k (some (true, u)) = (t < u) × (u ≤ t + k + 1) × (rdy (u - 1) ≡ target)
HasWaited target rdy t k (some (false, u)) =
    (u ≡ t + k + 1) × ((i : ℕ) → t ≤ i → i < u → rdy i ≢ target)

rounds_left : (n : ℕ) → (n == 0) ≡ false → wait_rounds n ≡ wait_rounds (delay_remain n) + 1
unfolding delay_remain
rounds_left n h = ground arith

later :
    (target : ℕ) (rdy : ℕ → ℕ) (t k : ℕ) (r : Option (Bool × ℕ))
    → rdy t ≢ target
    → HasWaited target rdy (t + 1) k r
    → HasWaited target rdy t (k + 1) r
later target rdy t k none n w = w
later target rdy t k (some (true, u)) n (p, q, e) = (omega arith, omega arith, e)
later target rdy t k (some (false, u)) n (p, q) = (
  omega arith,
  λ i a b. elim (Bool-cases (i == t)) [
    | inl here ↦ let same : i ≡ t = ground arith in λ e. n (ap rdy (sym same) ∙ e)
    | inr behind ↦ q i (ground arith) b
  ],
)

wait-HasWaited :
    (fuel target : ℕ) (rdy : ℕ → ℕ) (t remaining : ℕ)
    → wait_rounds remaining < fuel
    → HasWaited target rdy t (wait_rounds remaining) (wait_ready fuel target rdy t remaining)
unfolding wait_ready
wait-HasWaited zero target rdy t remaining h = absurd (omega arith)
wait-HasWaited (suc fuel) target rdy t remaining h = elim (Bool-cases (rdy t == target)) [
  | inl reached ↦
      let this : t + 1 - 1 ≡ t = omega arith in
      let found : rdy t ≡ target = ground arith in
      rw reached (omega arith, omega arith, ap rdy this ∙ found)
  | inr not_yet ↦ elim (Bool-cases (remaining == 0)) [
    | inl over ↦
        let none_left : wait_rounds remaining ≡ 0 = ground arith in
        rw (not_yet, over)
          (
            omega (arith, none_left),
            λ i a b. let same : i ≡ t = omega arith in λ e. ground (arith, ap rdy (sym same) ∙ e),
          )
    | inr more ↦
        let step = rounds_left remaining more in
        rw (not_yet, more)
          (subst
            (λ k.
              HasWaited target rdy t k
                (wait_ready fuel target rdy (t + 1) (delay_remain remaining)))
            (sym step)
            (later target rdy t (wait_rounds (delay_remain remaining)) _ (λ e. ground arith)
              (wait-HasWaited fuel target rdy (t + 1) (delay_remain remaining)
                (omega (arith, step)))))
  ]
]

-- the polls of each wait, less one
abbrev pub last_poll : Ctrl → ℕ
last_poll ctrl = wait_rounds (delay_remain (timeout_ns ctrl))

-- the controller was seen disabled at poll t, and then became ready in time, or did not
abbrev pub IsEnabledAfter : Ctrl → (rdy : ℕ → ℕ) → (t err : ℕ) → Type 0
IsEnabledAfter ctrl rdy t err =
    ((err ≡ 0) × (u : ℕ) × (t < u) × (u ≤ t + last_poll ctrl + 1) × (rdy u ≡ 1))
    ⊎ ((err ≡ etime) × ((i : ℕ) → t < i → i ≤ t + last_poll ctrl + 1 → rdy i ≢ 1))

abbrev pub IsReset :
    Ctrl
    → (off : RegWrite) → (rdy : ℕ → ℕ) → (acq_addr asq_addr : ℕ) → Option (ℕ × List RegWrite)
    → Type 0
IsReset ctrl off rdy acq_addr asq_addr none = ◌≡◌ {A = ℕ} 0 1
IsReset ctrl off rdy acq_addr asq_addr (some (err, writes)) =
    ((err ≡ etime) × (writes ≡ off ∷ []) × ((i : ℕ) → i ≤ last_poll ctrl → rdy i ≢ 0))
    ⊎ ((writes ≡ off ∷ configure ctrl acq_addr asq_addr)
        × (t : ℕ) × (t ≤ last_poll ctrl)
        × (rdy t ≡ 0)
        × IsEnabledAfter ctrl rdy t err)

module _ (ctrl : Ctrl) (off : RegWrite) (rdy : ℕ → ℕ) (acq_addr asq_addr : ℕ) where
  enabled-IsReset :
      (t : ℕ) (r : Option (Bool × ℕ))
      → t ≤ last_poll ctrl
      → rdy t ≡ 0
      → HasWaited 1 rdy (t + 1) (last_poll ctrl) r
      → IsReset ctrl off rdy acq_addr asq_addr (enabled (off ∷ configure ctrl acq_addr asq_addr) r)
  enabled-IsReset t none p e w = w
  enabled-IsReset t (some (true, u)) p e (a, b, f) =
      inr (refl, t, p, e, inl (refl, u - 1, omega arith, omega arith, f))
  enabled-IsReset t (some (false, u)) p e (a, f) =
      inr (refl, t, p, e, inr (refl, λ i q r. f i (omega arith) (omega arith)))

  disabled-IsReset :
      (r : Option (Bool × ℕ))
      → HasWaited 0 rdy 0 (last_poll ctrl) r
      → IsReset ctrl off rdy acq_addr asq_addr (disabled ctrl rdy acq_addr asq_addr off r)
  disabled-IsReset none w = w
  disabled-IsReset (some (false, u)) (a, f) =
      inl (refl, refl, λ i p. f i (omega arith) (omega arith))
  disabled-IsReset (some (true, u)) (a, b, e) =
      let back : u ≡ u - 1 + 1 = omega arith in
      enabled-IsReset (u - 1) (wait_for ctrl 1 rdy u) (omega arith) e (
        subst (λ k. HasWaited 1 rdy k (last_poll ctrl) (wait_for ctrl 1 rdy u)) back
          (wait-HasWaited (suc (last_poll ctrl)) 1 rdy u (delay_remain (timeout_ns ctrl))
            (omega arith)))

-- With the fuel it is given `nvm_raw_ctrl_reset` always ends. It clears CC.EN; if no poll of
-- CSTS.RDY within the timeout reads 0 it returns ETIME and has written nothing else. Otherwise it
-- has then written AQA, ACQ, ASQ and CC, in this order, and returns 0 when a later poll within the
-- timeout reads 1, and ETIME when none does. A timeout is one poll for each started millisecond, at
-- least one.
pub raw_ctrl_reset-IsReset :
    (ctrl : Ctrl) (cc : ℕ) (rdy : ℕ → ℕ) (acq_addr asq_addr : ℕ)
    → IsReset ctrl
        (write_cc (cc - cc % 2))
        rdy
        acq_addr
        asq_addr
        (raw_ctrl_reset ctrl cc rdy acq_addr asq_addr)
unfolding raw_ctrl_reset
raw_ctrl_reset-IsReset ctrl cc rdy acq_addr asq_addr =
    disabled-IsReset ctrl (write_cc (cc - cc % 2)) rdy acq_addr asq_addr (wait_for ctrl 0 rdy 0)
      (wait-HasWaited (suc (last_poll ctrl)) 0 rdy 0 (delay_remain (timeout_ns ctrl)) (omega arith))
