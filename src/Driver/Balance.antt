-- ===== src/Driver/Balance.antt =====
-- The buffers that are mapped are the buffers in the registry.
use u_gds.Prelude.{
  ℕ, suc, ◌+◌, ◌≡◌, refl, sym, ap, Bool, true, false, not, ◌||◌, Bool-cases, ◌⊎◌, inl, inr, Option,
  none, some, List, [], ◌∷◌, ◌==◌, if◌then◌else◌, length, arith,
}
use mathlib.Core.Option.{none-ne-some}
use u_gds.Dma.{Dma}
use u_gds.Driver.{
  OpError, DriverState, Call, open_driver, close_driver, register, deregister, lookup, insert,
  erase, driver_open, driver_close, registered, unless_found, buf_register, if_found,
  buf_deregister, call, calls,
}

-- every mapping is registered or has been unmapped, and a driver that is not open has none
pub record IsBalanced (s : DriverState) : Type 0 where
  pub counted : s.maps ≡ s.unmaps + length s.registry
  pub closed : s.initialized ≡ false → length s.registry ≡ 0

option_cases : (o : Option Dma) → (o ≡ none) ⊎ ((d : Dma) × (o ≡ some d))
option_cases none = inl refl
option_cases (some d) = inr (d, refl)

length-erase :
    (k : ℕ) (xs : List (ℕ × Dma)) (dma : Dma)
    → lookup k xs ≡ some dma
    → length xs ≡ suc (length (erase k xs))
length-erase k [] dma e = absurd (none-ne-some dma e)
length-erase k ((j, d) ∷ xs) dma e = elim (Bool-cases (j == k)) [
  | inl here ↦ rw here refl
  | inr behind ↦ rw behind (ap suc (length-erase k xs dma (rw behind at e)))
]

length-insert :
    (k : ℕ) (dma : Dma) (xs : List (ℕ × Dma))
    → lookup k xs ≡ none
    → length (insert k dma xs) ≡ suc (length xs)
length-insert k dma [] e = refl
length-insert k dma ((j, d) ∷ xs) e = elim (Bool-cases (j == k)) [
  | inl here ↦ absurd (none-ne-some d (sym (rw here at e)))
  | inr behind ↦ rw behind (ap suc (length-insert k dma xs (rw behind at e)))
]

registered-IsBalanced :
    (base : ℕ) (s : DriverState) (answer : ℕ × Option Dma)
    → IsBalanced s
    → s.initialized ≡ true
    → lookup base s.registry ≡ none
    → IsBalanced (registered base s answer).1
registered-IsBalanced base s (status, none) v opened free = v
registered-IsBalanced base s (status, some dma) v opened free = elim (Bool-cases (status == 0)) [
  | inr bad ↦ rw bad v
  | inl good ↦ rw good (record {
    counted = omega (arith, v.counted, length-insert base dma s.registry free);
    closed = λ e. absurd (ground arith);
  })
]

erased-IsBalanced :
    (base : ℕ) (s : DriverState)
    → IsBalanced s
    → s.initialized ≡ true
    → IsBalanced (if_found s base (lookup base s.registry)).1
erased-IsBalanced base s v opened = elim (option_cases (lookup base s.registry)) [
  | inl missing ↦ rw missing v
  | inr (dma, e) ↦ rw e (record {
    counted = omega (arith, v.counted, length-erase base s.registry dma e);
    closed = λ f. absurd (ground arith);
  })
]

either_way :
    (b : Bool) (x y : OpError × DriverState)
    → (b ≡ true → IsBalanced x.1)
    → (b ≡ false → IsBalanced y.1)
    → IsBalanced (if b then x else y).1
either_way true x y f g = f refl
either_way false x y f g = g refl

either_state :
    (b : Bool) (x y : DriverState)
    → (b ≡ true → IsBalanced x)
    → (b ≡ false → IsBalanced y)
    → IsBalanced (if b then x else y)
either_state true x y f g = f refl
either_state false x y f g = g refl

unless_found-IsBalanced :
    (s : DriverState) (o : Option Dma) (rest : OpError × DriverState)
    → IsBalanced s
    → (o ≡ none → IsBalanced rest.1)
    → IsBalanced (unless_found s o rest).1
unless_found-IsBalanced s none rest v w = w refl
unless_found-IsBalanced s (some d) rest v w = v

opened : (b : Bool) → not b ≡ false → b ≡ true
opened b h = ground arith

register-IsBalanced :
    (map_device : ℕ → ℕ → ℕ × Option Dma) (base size : ℕ) (s : DriverState)
    → IsBalanced s
    → IsBalanced (buf_register map_device base size s).1
unfolding buf_register
register-IsBalanced map_device base size s v =
    either_way (not s.initialized) _ _ (λ _. v)
      λ shut.
        either_way (base == 0 || size == 0) _ _ (λ _. v)
          λ _. unless_found-IsBalanced s (lookup base s.registry) _ v (λ free.
            either_way (not s.has_ctrl) _ _ (λ _. v)
              λ _.
                registered-IsBalanced base s (map_device base size) v (opened s.initialized shut)
                  free)

call-IsBalanced :
    (map_device : ℕ → ℕ → ℕ × Option Dma) (c : Call) (s : DriverState)
    → IsBalanced s
    → IsBalanced (call map_device c s)
unfolding call driver_open driver_close buf_deregister
call-IsBalanced map_device open_driver s v =
    either_state s.initialized _ _ (λ _. v)
      (λ shut. record { counted = v.counted; closed = λ _. v.closed shut })
call-IsBalanced map_device close_driver s v =
    either_way (not s.initialized) _ _ (λ _. v)
      (λ _. record { counted = omega (arith, v.counted); closed = λ _. refl })
call-IsBalanced map_device (register base size) s v = register-IsBalanced map_device base size s v
call-IsBalanced map_device (deregister base) s v =
    either_way (not s.initialized) _ _ (λ _. v)
      (λ shut. erased-IsBalanced base s v (opened s.initialized shut))

-- Whatever buffers are registered and deregistered in whatever order, and the driver opened and
-- closed, and whatever `nvm_dma_map_device` answers: from a balanced state on, every mapping that
-- was made has been unmapped or stands in the registry, which is empty while the driver is closed.
pub calls-IsBalanced :
    (map_device : ℕ → ℕ → ℕ × Option Dma) (cs : List Call) (s : DriverState)
    → IsBalanced s
    → IsBalanced (calls map_device cs s)
unfolding calls
calls-IsBalanced map_device [] s v = v
calls-IsBalanced map_device (c ∷ cs) s v =
    calls-IsBalanced map_device cs (call map_device c s) (call-IsBalanced map_device c s v)
