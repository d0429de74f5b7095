-- ===== src/Io/Slots.antt =====
-- The submission queue during a request: a slot is found, and its command is rung in.
use u_gds.Prelude.{
  ℕ, zero, suc, ◌-◌, ◌*◌, ◌/◌, ◌%◌, ◌≤◌, ◌≡◌, refl, ◌∙◌, ap, sym, false, Bool-cases, inl, inr, none,
  some, List, [], ◌∷◌, ◌++◌, arith, ◌==◌, u16_mod, u64_mod, ℤ, neg, div_mod_parts,
}
use u_gds.Queue.{Ctrl, Queue, Mem, Waited, spin, sq_full, sq_enqueue, sq_update}
use u_gds.Queue.Ring.{
  IsRing, frame-update, frame-enqueue, enqueue-full, enqueue-free, update-not_full, submit-rings,
  sq_enqueue-IsRing, sq_update-IsRing,
}
use u_gds.Command.{Cmd}
use u_gds.Io.Types.{eio, Sent, Progress, Attempt}
use u_gds.Io.Transfer.{io_status, completed, await, slot_or_else, reserve, submit, rung_in}
use u_gds.Io.Ends
use u_gds.Io.Ends.{Ends, goes, stops}

-- A submission queue whose size divides 2^16, with a doorbell, and all of whose commands the
-- controller has been told of.
pub record IsReady (sq : Queue) : Type 0 where
  pub ring : IsRing sq
  pub divides : u16_mod % sq.qs ≡ 0
  pub bell : ℕ
  pub has_bell : sq.db ≡ some bell
  pub told : sq.last ≡ sq.tail

-- the same but for the last slot, which is taken and not rung in
pub record IsTaken (sq : Queue) : Type 0 where
  pub ring : IsRing sq
  pub divides : u16_mod % sq.qs ≡ 0
  pub bell : ℕ
  pub has_bell : sq.db ≡ some bell
  pub untold : (sq.last == sq.tail) ≡ false

-- the request ends with -EIO, and the commands sent are as before
abbrev pub Failed : List Sent → ℤ → Progress → Type 0
Failed sent r s = (r ≡ neg eio) × (s.sent ≡ sent)

pub sq_update-IsReady : (sq : Queue) → IsReady sq → IsReady (sq_update sq)
sq_update-IsReady sq v = record {
  ring = sq_update-IsRing sq v.ring;
  divides = rw ((frame-update sq).0) v.divides;
  bell = v.bell;
  has_bell = (frame-update sq).1 ∙ v.has_bell;
  told = (frame-update sq).2 ∙ v.told ∙ sym (frame-update sq).3;
}

completed-Ends :
    (mems : ℕ → Mem) (s : Progress) (w : Waited)
    → Ends
        (λ _ s'. (s'.sq ≡ sq_update s.sq) × (s'.sent ≡ s.sent))
        (Failed s.sent)
        (completed mems s w)
unfolding completed
completed-Ends mems s (none, cq, now) = stops (refl, refl)
completed-Ends mems s (some a, cq, now) = elim (Bool-cases (io_status (mems (now - 1) a) == 0)) [
  | inl good ↦ rw good (goes (refl, refl))
  | inr bad ↦ rw bad (stops (refl, refl))
]

-- The wait ends. With a good completion the submission queue's head has moved on.
pub await-Ends :
    (ctrl : Ctrl) (mems : ℕ → Mem) (s : Progress)
    → Ends
        (λ _ s'. (s'.sq ≡ sq_update s.sq) × (s'.sent ≡ s.sent))
        (Failed s.sent)
        (await ctrl mems s)
unfolding await
await-Ends ctrl mems s =
    completed-Ends mems s (spin (ctrl.timeout * 1000000 % u64_mod) s.cq mems s.now)

-- A slot is had: the queue is the one that `nvm_sq_enqueue` left, with one slot to ring in.
abbrev pub Reserved : List Sent → ℕ → Progress → Type 0
Reserved sent slot s = IsTaken s.sq × (s.sent ≡ sent)

multiple_of : (qs : ℕ) → u16_mod % qs ≡ 0 → u16_mod ≡ u16_mod / qs * qs
multiple_of qs h = omega (arith, div_mod_parts 65536 qs)

tail-moves :
    (sq : Queue) → IsRing sq → sq_full sq ≡ false → (sq.tail == (sq_enqueue sq).1.tail) ≡ false
unfolding sq_enqueue
tail-moves sq v free = ground arith

sq_enqueue-IsTaken : (sq : Queue) → IsReady sq → sq_full sq ≡ false → IsTaken (sq_enqueue sq).1
sq_enqueue-IsTaken sq v free = record {
  ring = sq_enqueue-IsRing sq v.ring;
  divides = rw ((frame-enqueue sq).0) v.divides;
  bell = v.bell;
  has_bell = (frame-enqueue sq).2 ∙ v.has_bell;
  untold =
      ap (λ k. k == (sq_enqueue sq).1.tail) ((frame-enqueue sq).3 ∙ v.told)
      ∙ tail-moves sq v.ring free;
}

taken-Ends :
    (s : Progress) (rest : Attempt ℕ)
    → IsReady s.sq
    → sq_full s.sq ≡ false
    → Ends (Reserved s.sent) (Failed s.sent) (slot_or_else s (sq_enqueue s.sq) rest)
taken-Ends s rest v free = rw (enqueue-free s.sq free) (goes (sq_enqueue-IsTaken s.sq v free, refl))

-- The wait for a slot ends after one drained completion at the latest, with a slot or with -EIO.
pub reserve-Ends :
    (fuel : ℕ) (ctrl : Ctrl) (mems : ℕ → Mem) (s : Progress)
    → 2 ≤ fuel
    → IsReady s.sq
    → Ends (Reserved s.sent) (Failed s.sent) (reserve fuel ctrl mems s)
unfolding reserve
reserve-Ends zero ctrl mems s h v = absurd (omega arith)
reserve-Ends (suc zero) ctrl mems s h v = absurd (omega arith)
reserve-Ends (suc (suc fuel)) ctrl mems s h v = elim (Bool-cases (sq_full s.sq)) [
  | inr free ↦ taken-Ends s _ v free
  | inl full ↦ rw (enqueue-full s.sq full) (
      Ends.bind (await-Ends ctrl mems s) λ _ s' (eq, es).
        let ready : IsReady s'.sq = rw eq (sq_update-IsReady s.sq v) in
        let free : sq_full s'.sq ≡ false = rw eq (
          update-not_full s.sq v.bell (u16_mod / s.sq.qs) v.ring (multiple_of s.sq.qs v.divides)
            v.has_bell full) in
        rw (← es) (taken-Ends s' _ ready free))
]

-- The doorbell is rung: the command is the last one sent.
pub submit-Ends :
    (slot : ℕ) (cmd : Cmd) (s : Progress)
    → IsTaken s.sq
    → Ends
        (λ _ s'.
          IsReady s'.sq
          × (s'.sent ≡ s.sent ++ (record { slot = slot; cmd = cmd; prp = s.prp } ∷ [])))
        (Failed s.sent)
        (submit slot cmd s)
unfolding submit rung_in
submit-Ends slot cmd s v = rw (submit-rings s.sq v.bell v.has_bell v.untold) (
    goes (
      record {
        ring = record {
          two_le = v.ring.two_le;
          small = v.ring.small;
          head_in = v.ring.head_in;
          tail_in = v.ring.tail_in;
        };
        divides = v.divides;
        bell = v.bell;
        has_bell = v.has_bell;
        told = refl;
      },
      refl,
    ))
