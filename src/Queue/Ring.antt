-- ===== src/Queue/Ring.antt =====
-- Slots of a submission queue: the ring that `nvm_sq_enqueue` and `nvm_sq_update` keep.
use u_gds.Prelude.{
  ℕ, zero, suc, ◌+◌, ◌-◌, ◌*◌, ◌%◌, ◌≤◌, ◌<◌, ◌≡◌, refl, ◌∙◌, ap, List, [], ◌∷◌, ◌++◌, arith, ltb,
  leb, ◌==◌, if◌then◌else◌, length, u16_mod, u32_mod, mod_of_parts, true, false, none, some, sym,
}
use mathlib.Core.Path.{ap₂}
use native.Mathlib.Nat.{mod-eq_of_lt}
use native.Mathlib.Decide.{dec_le}
use u_gds.Queue.{Queue, sq_full, sq_enqueue, sq_update, sq_submit, ring_tail}

pub record IsRing (q : Queue) : Type 0 where
  pub two_le : 2 ≤ q.qs
  pub small : q.qs ≤ u16_mod
  pub head_in : q.head < q.qs
  pub tail_in : q.tail < q.qs

-- entries between the head and the tail
abbrev pub in_flight : Queue → ℕ
in_flight q = if leb q.head q.tail then q.tail - q.head else q.tail + q.qs - q.head

abbrev pub next_slot : ℕ → ℕ → ℕ
next_slot qs h = if suc h == qs then 0 else suc h

-- n slots from slot h on, going round at qs
abbrev pub slots : ℕ → ℕ → ℕ → List ℕ
slots qs h zero = []
slots qs h (suc n) = h ∷ slots qs (next_slot qs h) n

-- the slots that hold commands which the controller has not consumed, oldest first
abbrev pub pending : Queue → List ℕ
pending q = slots q.qs q.head (in_flight q)

pub length-slots : (qs h n : ℕ) → length (slots qs h n) ≡ n
length-slots qs h zero = refl
length-slots qs h (suc n) = ap suc (length-slots qs (next_slot qs h) n)

pub slots_cong : {a b h k n m : ℕ} → a ≡ b → h ≡ k → n ≡ m → slots a h n ≡ slots b k m
slots_cong p q r = λ i. slots (p i) (q i) (r i)

-- the slot n steps after h
abbrev pub slot_at : ℕ → ℕ → ℕ → ℕ
slot_at qs h n = if ltb (h + n) qs then h + n else h + n - qs

pub slots-snoc :
    (n qs h : ℕ) → h < qs → n < qs → slots qs h (suc n) ≡ slots qs h n ++ (slot_at qs h n ∷ [])
slots-snoc zero qs h p q = ap₂ ◌∷◌ (ground arith) refl
slots-snoc (suc n) qs h p q = ap₂ ◌∷◌ refl (
    slots-snoc n qs (next_slot qs h) (ground arith) (omega arith)
    ∙ ap (λ k. slots qs (next_slot qs h) n ++ (k ∷ [])) (ground arith))

-- The test in `uint16_t` is exact where 2^16 is a multiple m of the size.
mod_of_multiple : (m qs k : ℕ) → u16_mod ≡ m * qs → 0 < k → k < qs → (u16_mod - k) % qs ≡ qs - k
mod_of_multiple zero qs k e p q = absurd (omega arith)
mod_of_multiple (suc m) qs k e p q =
    mod_of_parts m (qs - k) qs (u16_mod - k) (omega arith) (omega arith)

-- the distance that the test computes
abbrev pub distance : Queue → ℕ
distance q = (q.tail + u32_mod - q.head) % u32_mod % u16_mod

distance_forward : (q : Queue) → IsRing q → q.head ≤ q.tail → distance q ≡ q.tail - q.head
distance_forward q v h = omega arith

pub distance_wrapped :
    (q : Queue) → IsRing q → q.tail < q.head → distance q ≡ u16_mod - (q.head - q.tail)
distance_wrapped q v h = omega arith

distance-mod : (q : Queue) (m : ℕ) → IsRing q → u16_mod ≡ m * q.qs → distance q % q.qs ≡ in_flight q
distance-mod q m v e = elim (dec_le q.head q.tail) [
  | yes h ↦ rw (distance_forward q v h) (mod-eq_of_lt (omega arith) ∙ ground arith)
  | no h ↦
      rw (distance_wrapped q v (omega arith))
        (mod_of_multiple m q.qs (q.head - q.tail) e (omega arith) (omega arith) ∙ ground arith)
]

pub sq_full-in_flight :
    (q : Queue) (m : ℕ) → IsRing q → u16_mod ≡ m * q.qs → sq_full q ≡ (in_flight q == q.qs - 1)
unfolding sq_full
sq_full-in_flight q m v e = rw (distance-mod q m v e) (ap (λ k. in_flight q == k) (omega arith))

pub sq_enqueue-IsRing : (q : Queue) → IsRing q → IsRing (sq_enqueue q).1
unfolding sq_enqueue
sq_enqueue-IsRing q v = ground arith

pub sq_update-IsRing : (q : Queue) → IsRing q → IsRing (sq_update q)
unfolding sq_update
sq_update-IsRing q v = ground arith

-- what the two leave alone
pub frame-update :
    (q : Queue)
    → ((sq_update q).qs ≡ q.qs)
      × ((sq_update q).db ≡ q.db)
      × ((sq_update q).last ≡ q.last)
      × ((sq_update q).tail ≡ q.tail)
unfolding sq_update
frame-update q = ground arith

pub frame-enqueue :
    (q : Queue)
    → ((sq_enqueue q).1.qs ≡ q.qs)
      × ((sq_enqueue q).1.head ≡ q.head)
      × ((sq_enqueue q).1.db ≡ q.db)
      × ((sq_enqueue q).1.last ≡ q.last)
unfolding sq_enqueue
frame-enqueue q = ground arith

pub enqueue-full : (q : Queue) → sq_full q ≡ true → sq_enqueue q ≡ (none, q)
unfolding sq_enqueue
enqueue-full q e = rw e refl

pub enqueue-free :
    (q : Queue)
    → sq_full q ≡ false
    → sq_enqueue q ≡ (some (q.vaddr + q.es * q.tail), (sq_enqueue q).1)
unfolding sq_enqueue
enqueue-free q e = rw e refl

in_flight-update_full :
    (q : Queue) (db : ℕ)
    → IsRing q
    → q.db ≡ some db
    → (in_flight q == q.qs - 1) ≡ true
    → (in_flight (sq_update q) == (sq_update q).qs - 1) ≡ false
unfolding sq_update
in_flight-update_full q db v d h = ground arith

-- A full ring is not full any more when the head has moved.
pub update-not_full :
    (q : Queue) (db m : ℕ)
    → IsRing q
    → u16_mod ≡ m * q.qs
    → q.db ≡ some db
    → sq_full q ≡ true
    → sq_full (sq_update q) ≡ false
update-not_full q db m v e d full =
    sq_full-in_flight (sq_update q) m (sq_update-IsRing q v) (rw ((frame-update q).0) e) ∙ less
  where
    less : (in_flight (sq_update q) == (sq_update q).qs - 1) ≡ false
    less = in_flight-update_full q db v d (sym (sq_full-in_flight q m v e) ∙ full)

-- With a doorbell and an untold tail the doorbell is rung.
pub submit-rings :
    (q : Queue) (db : ℕ)
    → q.db ≡ some db
    → (q.last == q.tail) ≡ false
    → sq_submit q ≡ (some (db, q.tail), record q { last = q.tail })
unfolding sq_submit ring_tail
submit-rings q db d e = ap (ring_tail q) d ∙ rw e refl
