-- ===== src/Queue/Blocking.antt =====
-- `nvm_cq_dequeue_block`: its loop ends, and how often it looks at the queue.
use u_gds.Prelude.{
  ℕ, zero, suc, ◌+◌, ◌*◌, ◌%◌, ◌<◌, ◌≡◌, refl, ◌∙◌, ap, true, Bool-cases, Option, none, some, arith,
  ltb, u64_mod, inl, inr,
}
use u_gds.Queue.{
  Queue, Mem, Waited, cq_dequeue, delay_remain, dequeue_block_loop, wait_rounds, cq_dequeue_block,
  or_else, spun, spin,
}

rounds-delay_remain : (n : ℕ) → ltb 0 n ≡ true → wait_rounds n ≡ suc (wait_rounds (delay_remain n))
unfolding delay_remain
rounds-delay_remain n h = ground arith

loop-step :
    (t : ℕ) (r : Option ℕ × Queue) (f : Queue → Option Waited) (g : Queue → Waited)
    → ((cq : Queue) → f cq ≡ some (g cq))
    → or_else t r f ≡ some (spun t r g)
loop-step t (some cpl, cq) f g h = refl
loop-step t (none, cq) f g h = h cq

spin-suc :
    (k m : ℕ) (cq : Queue) (mems : ℕ → Mem) (t : ℕ)
    → k ≡ suc m
    → spin k cq mems t ≡ spun t (cq_dequeue cq (mems t)) (λ cq'. spin m cq' mems (t + 1))
unfolding spin
spin-suc k m cq mems t e = rw e refl

spin-zero :
    (k : ℕ) (cq : Queue) (mems : ℕ → Mem) (t : ℕ)
    → k ≡ 0
    → spin k cq mems t ≡ spun t (cq_dequeue cq (mems t)) (λ cq'. (none, cq', t + 1))
unfolding spin
spin-zero k cq mems t e = rw e (looked t (cq_dequeue cq (mems t)))
  where
    looked :
        (t : ℕ) (r : Option ℕ × Queue)
        → ◌≡◌ {A = Waited} (r.0, r.1, t + 1) (spun t r (λ cq'. (none, cq', t + 1)))
    looked t (some cpl, cq) = refl
    looked t (none, cq) = refl

loop-spin :
    (fuel : ℕ) (cq : Queue) (mems : ℕ → Mem) (t n : ℕ)
    → wait_rounds n < fuel
    → dequeue_block_loop fuel cq mems t n ≡ some (spin (wait_rounds n) cq mems t)
unfolding dequeue_block_loop
loop-spin zero cq mems t n h = absurd (omega arith)
loop-spin (suc fuel) cq mems t n h = elim (Bool-cases (ltb 0 n)) [
  | inl more ↦
      rw
        (
          spin-suc (wait_rounds n) (wait_rounds (delay_remain n)) cq mems t
              (rounds-delay_remain n more),
          more,
        )
        (loop-step t (cq_dequeue cq (mems t)) _ _ (λ cq'.
          loop-spin fuel cq' mems (t + 1) (delay_remain n)
            (omega (arith, rounds-delay_remain n more))))
  | inr done ↦
      rw (spin-zero (wait_rounds n) cq mems t (ground arith), done)
        (loop-step t (cq_dequeue cq (mems t)) _ _ (λ cq'. refl))
]

-- With the fuel it is given the wait of `nvm_cq_dequeue_block` always ends, and it is the poll
-- that looks once and then once more for each started millisecond of the timeout.
pub cq_dequeue_block-spin :
    (cq : Queue) (mems : ℕ → Mem) (t timeout : ℕ)
    → timeout * 1000000 < u64_mod
    → cq_dequeue_block cq mems t timeout ≡ some (spin timeout cq mems t)
unfolding cq_dequeue_block
cq_dequeue_block-spin cq mems t timeout h =
    let n = timeout * 1000000 % u64_mod in
    loop-spin (suc (wait_rounds n)) cq mems t n (omega arith)
    ∙ ap (λ k. some (spin k cq mems t)) (omega arith)
