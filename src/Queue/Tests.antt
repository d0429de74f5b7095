-- ===== src/Queue/Tests.antt =====
-- Queues at concrete inputs.
use u_gds.Prelude.{
  ℕ, ◌+◌, ◌*◌, ◌≡◌, ◌<◌, refl, ltb, not, if◌then◌else◌, true, some, List, [], ◌∷◌, arith,
}
use u_gds.Queue.{Queue, Cpl, sq_enqueue, sq_update, phase_tag, cq_dequeue_block, spin}
use u_gds.Queue.Completion.{fresh_tag}
use u_gds.Queue.Ring.{IsRing, pending, in_flight}
use u_gds.Queue.Submission.{
  enqueued, fifo_push, sq_enqueue_refines, sq_update_refines, sq_enqueue_overruns,
}
use u_gds.Queue.Line.{Line, Event, post, take, run, fifo_run, Holds}
use u_gds.Queue.Fifo.{run_refines}
use u_gds.Queue.Blocking.{cq_dequeue_block-spin}

abbrev queue : (es qs head tail : ℕ) → Queue
queue es qs head tail = record {
  head_lock = 0;
  tail_lock = 0;
  head = head;
  tail = tail;
  in_ticket = 0;
  cid_ticket = 0;
  no = 1;
  es = es;
  qs = qs;
  phase = true;
  is_local = true;
  last = tail;
  db = some 4104;
  vaddr = 4096;
  ioaddr = 8192;
}

abbrev sq : Queue
sq = queue 64 4 1 3

sq-IsRing : IsRing sq
sq-IsRing = record {
  two_le = omega arith;
  small = omega arith;
  head_in = omega arith;
  tail_in = omega arith;
}

sq_enqueue_refines_example : enqueued (sq_enqueue sq) ≡ fifo_push 3 (1 ∷ 2 ∷ []) 3
sq_enqueue_refines_example = sq_enqueue_refines sq 16384 sq-IsRing refl

sq_update_refines_example : pending (sq_update sq) ≡ 2 ∷ []
sq_update_refines_example = sq_update_refines sq 4104 sq-IsRing refl (omega arith)

-- a full ring of three slots
abbrev odd : Queue
odd = queue 64 3 2 1

odd-IsRing : IsRing odd
odd-IsRing = record {
  two_le = omega arith;
  small = omega arith;
  head_in = omega arith;
  tail_in = omega arith;
}

sq_enqueue_overruns_example :
    (in_flight odd ≡ 2)
    × ((sq_enqueue odd).0 ≡ some (4096 + 64 * 1))
    × (in_flight (sq_enqueue odd).1 ≡ 0)
sq_enqueue_overruns_example = sq_enqueue_overruns odd odd-IsRing (omega arith) refl

abbrev blank : Cpl
blank = record { dword0 = 0; dword1 = 0; dword2 = 0; dword3 = 0 }

abbrev reply : ℕ → Cpl
reply cid = record { dword0 = 0; dword1 = 0; dword2 = 0; dword3 = cid }

abbrev empty_line : Line
empty_line = record { cq = queue 16 3 0 0; mem = λ _. blank; tail = 0; tag = true; count = 0 }

blank-tags :
    (i : ℕ)
    → i < 3
    → phase_tag blank
      ≡ (if ltb i 0 then fresh_tag (queue 16 3 0 0) i else not (fresh_tag (queue 16 3 0 0) i))
unfolding phase_tag
blank-tags i h = ground arith

empty_line-Holds : Holds empty_line []
empty_line-Holds = record {
  posted = record {
    size_le = omega arith;
    entry_size = omega arith;
    head_in = omega arith;
    count = omega arith;
    tags = blank-tags;
  };
  size = refl;
  tail_at = refl;
  tag_at = refl;
  held = refl;
}

abbrev schedule : List Event
schedule = take ∷ post (reply 1) ∷ post (reply 2) ∷ post (reply 3) ∷ take ∷ take ∷ take ∷ []

run_refines_example : run schedule empty_line ≡ fifo_run 2 schedule []
run_refines_example = run_refines schedule empty_line [] empty_line-Holds

cq_dequeue_block-spin_example :
    cq_dequeue_block (queue 16 3 0 0) (λ _ _. blank) 0 2
    ≡ some (spin 2 (queue 16 3 0 0) (λ _ _. blank) 0)
cq_dequeue_block-spin_example =
    cq_dequeue_block-spin (queue 16 3 0 0) (λ _ _. blank) 0 2 (omega arith)
