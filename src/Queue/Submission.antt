-- ===== src/Queue/Submission.antt =====
-- `nvm_sq_enqueue` and `nvm_sq_update` against a bounded FIFO of slots.
use u_gds.Prelude.{
  ℕ, suc, ◌+◌, ◌-◌, ◌*◌, ◌/◌, ◌%◌, ◌≤◌, ◌≡◌, ◌≢◌, refl, ◌∙◌, ap, sym, true, false, Bool-cases, inl,
  inr, Option, none, some, List, [], ◌∷◌, ◌++◌, arith, ◌==◌, if◌then◌else◌, length, u16_mod,
  mod_of_parts, div_mod_parts,
}
use u_gds.Queue.{Queue, sq_full, sq_enqueue, sq_update}
use u_gds.Queue.Ring.{
  IsRing, in_flight, next_slot, slots, slots_cong, pending, slot_at, length-slots, slots-snoc,
  sq_full-in_flight, distance_wrapped,
}

-- A FIFO of at most `cap` slots.
abbrev pub fifo_push : ℕ → List ℕ → ℕ → Option (List ℕ)
fifo_push cap xs x = if length xs == cap then none else some (xs ++ (x ∷ []))

abbrev pub fifo_pop : List ℕ → List ℕ
fifo_pop [] = []
fifo_pop (x ∷ xs) = xs

-- what a caller of `nvm_sq_enqueue` sees: the queued slots, unless NULL came back
abbrev pub enqueued : Option ℕ × Queue → Option (List ℕ)
enqueued (none, q) = none
enqueued (some _, q) = some (pending q)

in_flight-enqueue :
    (q : Queue) (m : ℕ)
    → IsRing q
    → u16_mod ≡ m * q.qs
    → sq_full q ≡ false
    → in_flight (sq_enqueue q).1 ≡ suc (in_flight q)
unfolding sq_enqueue
in_flight-enqueue q m v e free = ground (arith, sq_full-in_flight q m v e)

frame-enqueue : (q : Queue) → ((sq_enqueue q).1.qs ≡ q.qs) × ((sq_enqueue q).1.head ≡ q.head)
unfolding sq_enqueue
frame-enqueue q = ground arith

slot_at-tail : (q : Queue) → IsRing q → slot_at q.qs q.head (in_flight q) ≡ q.tail
slot_at-tail q v = ground arith

pending-enqueue :
    (q : Queue) (m : ℕ)
    → IsRing q
    → u16_mod ≡ m * q.qs
    → sq_full q ≡ false
    → pending (sq_enqueue q).1 ≡ pending q ++ (q.tail ∷ [])
pending-enqueue q m v e free =
    slots_cong (frame-enqueue q).0 (frame-enqueue q).1 (in_flight-enqueue q m v e free)
    ∙ slots-snoc (in_flight q) q.qs q.head v.head_in (ground arith)
    ∙ ap (λ k. pending q ++ (k ∷ [])) (slot_at-tail q v)

enqueued-full : (q : Queue) → sq_full q ≡ true → enqueued (sq_enqueue q) ≡ none
unfolding sq_enqueue
enqueued-full q e = rw e

enqueued-free :
    (q : Queue) → sq_full q ≡ false → enqueued (sq_enqueue q) ≡ some (pending (sq_enqueue q).1)
unfolding sq_enqueue
enqueued-free q e = rw e

-- Where the size divides 2^16, `nvm_sq_enqueue` is a push of the tail slot onto a FIFO of qs - 1
-- slots: NULL exactly when that is full, and else the tail slot is queued behind the others.
pub sq_enqueue_refines :
    (q : Queue) (m : ℕ)
    → IsRing q
    → u16_mod ≡ m * q.qs
    → enqueued (sq_enqueue q) ≡ fifo_push (q.qs - 1) (pending q) q.tail
sq_enqueue_refines q m v e = elim (Bool-cases (sq_full q)) [
  | inl full ↦
      enqueued-full q full
      ∙ rw (length-slots q.qs q.head (in_flight q), ← sq_full-in_flight q m v e, full) refl
  | inr free ↦
      enqueued-free q free
      ∙ rw (length-slots q.qs q.head (in_flight q), ← sq_full-in_flight q m v e, free)
          (ap some (pending-enqueue q m v e free))
]

slots-pred : (qs h n k : ℕ) → n ≡ suc k → slots qs h n ≡ h ∷ slots qs (next_slot qs h) k
slots-pred qs h n k e = ap (slots qs h) e

head-update :
    (q : Queue) (db : ℕ) → IsRing q → q.db ≡ some db → (sq_update q).head ≡ next_slot q.qs q.head
unfolding sq_update
head-update q db v d = ground arith

in_flight-update :
    (q : Queue) (db : ℕ)
    → IsRing q
    → q.db ≡ some db
    → q.head ≢ q.tail
    → in_flight q ≡ suc (in_flight (sq_update q))
unfolding sq_update
in_flight-update q db v d ne = ground arith

qs-update : (q : Queue) → (sq_update q).qs ≡ q.qs
unfolding sq_update
qs-update q = ground arith

-- `nvm_sq_update` on a queue with a doorbell and with commands in flight gives the oldest slot
-- back.
pub sq_update_refines :
    (q : Queue) (db : ℕ)
    → IsRing q
    → q.db ≡ some db
    → q.head ≢ q.tail
    → pending (sq_update q) ≡ fifo_pop (pending q)
sq_update_refines q db v d ne =
    slots_cong (qs-update q) (head-update q db v d) refl
    ∙ ap fifo_pop (
        sym (
          slots-pred q.qs q.head (in_flight q) (in_flight (sq_update q))
            (in_flight-update q db v d ne)))

last_residue : (qs : ℕ) → 2 ≤ qs → u16_mod % qs ≢ 0 → (u16_mod - 1) % qs ≢ qs - 1
last_residue qs h ne e = ne (
    mod_of_parts (suc (65535 / qs)) 0 qs u16_mod (omega arith)
      (omega (arith, div_mod_parts 65535 qs, e)))

full_wrapped : (q : Queue) → IsRing q → u16_mod % q.qs ≢ 0 → q.head ≡ q.tail + 1 → sq_full q ≡ false
unfolding sq_full
full_wrapped q v ne h =
    rw (distance_wrapped q v (omega arith)) (ground (arith, last_residue q.qs v.two_le ne))

-- With any other size the wrapped full ring is not seen to be full: the slot behind the tail is
-- handed out, and the ring looks empty although the controller has consumed none of its commands.
pub sq_enqueue_overruns :
    (q : Queue)
    → IsRing q
    → u16_mod % q.qs ≢ 0
    → q.head ≡ q.tail + 1
    → (in_flight q ≡ q.qs - 1)
      × ((sq_enqueue q).0 ≡ some (q.vaddr + q.es * q.tail))
      × (in_flight (sq_enqueue q).1 ≡ 0)
unfolding sq_enqueue
sq_enqueue_overruns q v ne h = rw (full_wrapped q v ne h) (ground arith, refl, ground arith)
