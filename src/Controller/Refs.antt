-- ===== src/Controller/Refs.antt =====
-- The references to a controller.
use u_gds.Prelude.{
  ℕ, ◌+◌, ◌-◌, ◌%◌, ◌<◌, ◌≡◌, refl, ap, ◌∙◌, Bool, true, false, Bool-cases, inl, inr, List, [], ◌∷◌,
  ◌==◌, if◌then◌else◌, u32_mod, arith,
}
use u_gds.Controller.{Controller, ctrl_get, ctrl_put, counted_down}

pub data RefCall : Type 0 where
  get_ref : (lock_err : ℕ) → RefCall
  put_ref : RefCall

abbrev pub ref_call : RefCall → Controller → Controller
ref_call (get_ref lock_err) c = (ctrl_get lock_err c).1
ref_call put_ref c = ctrl_put c

unfoldable pub ref_calls : List RefCall → Controller → Controller
ref_calls [] c = c
ref_calls (r ∷ rs) c = ref_calls rs (ref_call r c)

-- the references that are held after calls
unfoldable pub held : List RefCall → ℕ → ℕ
held [] n = n
held (get_ref lock_err ∷ rs) n = held rs (if lock_err == 0 then n + 1 else n)
held (put_ref ∷ rs) n = held rs (n - 1)

-- a caller uses a controller only with a reference, and there are fewer than 2^32
abbrev pub AreHeld : List RefCall → ℕ → Type 0
AreHeld [] n = Unit {0}
AreHeld (get_ref lock_err ∷ rs) n =
    (0 < n) × (n + 1 < u32_mod) × AreHeld rs (if lock_err == 0 then n + 1 else n)
AreHeld (put_ref ∷ rs) n = (0 < n) × (n < u32_mod) × AreHeld rs (n - 1)

abbrev pub one : ℕ
one = 1

-- a handle with n references is freed once, and its device released once if it had one, when the
-- last reference is gone
pub record IsCounted (device : Bool) (n : ℕ) (c : Controller) : Type 0 where
  pub counted : c.count ≡ n
  pub freed : c.frees ≡ (if n == 0 then one else 0)
  pub released : c.releases ≡ (if n == 0 then if device then one else 0 else 0)
  pub has_device : 0 < n → c.has_device ≡ device

get-IsCounted :
    (device : Bool) (lock_err n : ℕ) (c : Controller)
    → 0 < n
    → n + 1 < u32_mod
    → IsCounted device n c
    → IsCounted device (if lock_err == 0 then n + 1 else n) (ctrl_get lock_err c).1
get-IsCounted device lock_err n c p q v = elim (Bool-cases (lock_err == 0)) [
  | inl locked ↦ rw locked (record {
    counted = omega (arith, v.counted);
    freed = ground (arith, v.freed);
    released = ground (arith, v.released);
    has_device = λ _. v.has_device p;
  })
  | inr failed ↦ rw failed v
]

abbrev one_if : Bool → ℕ
one_if b = if b then 1 else 0

one_left : (n : ℕ) → (n == 0) ≡ false → (if n == 0 then one else 0) ≡ 0
one_left n e = rw e refl

none_released :
    (n : ℕ) (device : Bool)
    → (n == 0) ≡ false
    → (if n == 0 then if device then one else 0 else 0) ≡ 0
none_released n device e = rw e refl

put_last :
    (device : Bool) (n : ℕ) (c : Controller)
    → c.count ≡ n
    → c.frees ≡ 0
    → c.releases ≡ 0
    → c.has_device ≡ device
    → IsCounted device n (counted_down c)
put_last device n c e f r d = elim (Bool-cases (c.count == 0)) [
  | inl last ↦
      let none_left : (n == 0) ≡ true = ground (arith, e) in
      let same : one_if c.has_device ≡ one_if device = ap one_if d in
      rw last (record {
        counted = e;
        freed = rw none_left (omega (arith, f));
        released = rw none_left (omega (arith, r, same));
        has_device = λ p. absurd (ground (arith, e));
      })
  | inr more ↦
      let some_left : (n == 0) ≡ false = ground (arith, e) in
      rw more (record {
        counted = e;
        freed = rw some_left f;
        released = rw some_left r;
        has_device = λ p. d;
      })
]

-- For a handle that has n references and has not been freed before they are 0: whatever its users,
-- each of whom has a reference while it takes or puts one, of fewer than 2^32, do with
-- `_nvm_ctrl_get` and `_nvm_ctrl_put`, locked or not, the count is the number of references held,
-- and exactly when that is 0 the handle has been freed, once, and its device released, once if it
-- has one.
pub ref_calls-IsCounted :
    (device : Bool) (rs : List RefCall) (n : ℕ) (c : Controller)
    → AreHeld rs n
    → IsCounted device n c
    → IsCounted device (held rs n) (ref_calls rs c)
unfolding held ref_calls
ref_calls-IsCounted device [] n c u v = v
ref_calls-IsCounted device (get_ref lock_err ∷ rs) n c (p, q, u) v =
    ref_calls-IsCounted device rs (if lock_err == 0 then n + 1 else n) (ctrl_get lock_err c).1 u
      (get-IsCounted device lock_err n c p q v)
ref_calls-IsCounted device (put_ref ∷ rs) n c (p, q, u) v =
    let some_left : (n == 0) ≡ false = ground arith in
    ref_calls-IsCounted device rs (n - 1) (ctrl_put c) u (
      put_last device (n - 1) (record c { count = (c.count + u32_mod - 1) % u32_mod })
        (omega (arith, v.counted)) (v.freed ∙ one_left n some_left)
        (v.released ∙ none_released n device some_left) (v.has_device p))
