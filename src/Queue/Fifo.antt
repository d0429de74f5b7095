-- ===== src/Queue/Fifo.antt =====
-- A completion queue hands out what the controller posts: the FIFO of Queue/Line.antt.
use u_gds.Prelude.{
  ℕ, zero, suc, ◌+◌, ◌-◌, ◌*◌, ◌≤◌, ◌<◌, ◌≡◌, ◌≢◌, refl, ◌∙◌, ap, sym, Bool, true, false, not, none,
  some, List, [], ◌∷◌, ◌++◌, arith, ltb, ◌==◌, if◌then◌else◌, u16_mod, length, length-append, inl,
  inr, Bool-cases,
}
use mathlib.Core.Path.{ap₂}
use native.Mathlib.Decide.{ℕ_discrete}
use native.Mathlib.Numerals.{add-one}
use u_gds.Queue.{Queue, Cpl, Mem, phase_tag, cq_advance, cq_dequeue}
use u_gds.Queue.Ring.{slot_at}
use u_gds.Queue.Completion.{
  Posted, entry_at, fresh_tag, Posted-advance, cq_dequeue_empty, cq_dequeue_ready, slot_at-advance,
  fresh_tag-advance, entry_at-advance,
}
use u_gds.Queue.Line.{
  stamp, write, Line, Event, post, take, controller_post, taken, consumer_take, run, fifo_run,
  entries, Holds,
}

phase_tag-stamp : (b : Bool) (c : Cpl) → phase_tag (stamp b c) ≡ b
unfolding phase_tag
phase_tag-stamp true c = ground arith
phase_tag-stamp false c = ground arith

stamp-stamp : (b : Bool) (c : Cpl) → stamp false (stamp b c) ≡ stamp false c
stamp-stamp true c = ground arith
stamp-stamp false c = ground arith

slot_at-injective :
    (qs h i j : ℕ) → h < qs → i < qs → j < qs → i ≢ j → slot_at qs h i ≢ slot_at qs h j
slot_at-injective qs h i j p q r ne = ground arith

mul_cancel : (e a b : ℕ) → 0 < e → e * a ≡ e * b → a ≡ b
mul_cancel e a b h p = grind arith

entry_at-injective :
    (q : Queue) (i j : ℕ)
    → 0 < q.es
    → q.head < q.qs
    → i < q.qs
    → j < q.qs
    → i ≢ j
    → entry_at q i ≢ entry_at q j
entry_at-injective q i j e h p r ne same =
    slot_at-injective q.qs q.head i j h p r ne
      (mul_cancel q.es (slot_at q.qs q.head i) (slot_at q.qs q.head j) e (omega arith))

entries-advance :
    (q : Queue) (mem : Mem) (k i : ℕ)
    → q.qs ≤ u16_mod
    → q.head < q.qs
    → i + k < q.qs
    → entries (cq_advance q) mem i k ≡ entries q mem (suc i) k
entries-advance q mem zero i s h f = refl
entries-advance q mem (suc k) i s h f =
    ap₂ (λ a xs. stamp false (mem a) ∷ xs) (entry_at-advance q s h i (omega arith))
      (entries-advance q mem k (suc i) s h (omega arith))

entries-snoc :
    (q : Queue) (mem : Mem) (k i j : ℕ)
    → i + k ≡ j
    → entries q mem i (suc k) ≡ entries q mem i k ++ (stamp false (mem (entry_at q j)) ∷ [])
entries-snoc q mem zero i j e = ap (λ a. stamp false (mem (entry_at q a)) ∷ []) (omega arith)
entries-snoc q mem (suc k) i j e =
    ap (λ xs. stamp false (mem (entry_at q i)) ∷ xs) (entries-snoc q mem k (suc i) j (omega arith))

entries-write :
    (q : Queue) (mem : Mem) (c : Cpl) (n k i : ℕ)
    → 0 < q.es
    → q.head < q.qs
    → n < q.qs
    → i + k ≤ n
    → entries q (write mem (entry_at q n) c) i k ≡ entries q mem i k
entries-write q mem c n zero i e h s f = refl
entries-write q mem c n (suc k) i e h s f =
    ap₂ (λ x xs. stamp false x ∷ xs)
      (ground (arith, entry_at-injective q i n e h (omega arith) s (omega arith)))
      (entries-write q mem c n k (suc i) e h s (omega arith))

write_self : (mem : Mem) (a : ℕ) (c : Cpl) → write mem a c a ≡ c
write_self mem a c = ground arith

write_ne : (mem : Mem) (a b : ℕ) (c : Cpl) → b ≢ a → write mem a c b ≡ mem b
write_ne mem a b c h = ground arith

module _ (l : Line) (n : ℕ) (ready : Posted l.cq l.mem (suc n)) where
  take_ready : consumer_take l ≡ (
    some (stamp false (l.mem (entry_at l.cq 0))),
    record l { cq = cq_advance l.cq; count = l.count - 1 },
  )
  unfolding consumer_take taken
  take_ready = ap (taken l) (cq_dequeue_ready l.cq l.mem n ready)

take_nil : (l : Line) → Posted l.cq l.mem 0 → consumer_take l ≡ (none, l)
unfolding consumer_take taken
take_nil l p = ap (taken l) (cq_dequeue_empty l.cq l.mem p)

count-cons : (l : Line) {x : Cpl} {xs : List Cpl} → Holds l (x ∷ xs) → l.count ≡ suc (length xs)
count-cons l h = sym h.size

module _ (l : Line) (x : Cpl) (xs : List Cpl) (h : Holds l (x ∷ xs)) where
  ready_cons : Posted l.cq l.mem (suc (length xs))
  ready_cons = rw (← h.size) at h.posted

  held_cons : entries l.cq l.mem 0 (suc (length xs)) ≡ x ∷ xs
  held_cons = rw (← h.size) at h.held

  inside : suc (length xs) < l.cq.qs
  inside = ready_cons.count

  take_cons : (consumer_take l).0 ≡ some x
  take_cons = rw (take_ready l (length xs) ready_cons) (cc held_cons)

  Holds-take : Holds (consumer_take l).1 xs
  Holds-take =
      let e : l.count - 1 ≡ length xs = omega (arith, h.size) in
      rw (take_ready l (length xs) ready_cons, e)
        (record {
          posted = Posted-advance l.cq l.mem (length xs) ready_cons;
          size = refl;
          tail_at =
              h.tail_at
              ∙ ap (slot_at l.cq.qs l.cq.head) (sym h.size)
              ∙ sym (slot_at-advance l.cq h.posted.size_le h.posted.head_in (length xs) inside);
          tag_at =
              h.tag_at
              ∙ ap (fresh_tag l.cq) (sym h.size)
              ∙ sym (fresh_tag-advance l.cq h.posted.size_le h.posted.head_in (length xs) inside);
          held =
              entries-advance l.cq l.mem (length xs) 0 h.posted.size_le h.posted.head_in
                (omega (arith, inside))
              ∙ cc held_cons;
        })

module _ (l : Line) (c : Cpl) (xs : List Cpl) (h : Holds l xs) (room : l.count + 1 < l.cq.qs) where
  written : l.cq.vaddr + l.cq.es * l.tail ≡ entry_at l.cq l.count
  written = ap (λ k. l.cq.vaddr + l.cq.es * k) h.tail_at

  tags-write :
      (i : ℕ)
      → i < l.cq.qs
      → phase_tag (write l.mem (entry_at l.cq l.count) (stamp l.tag c) (entry_at l.cq i))
        ≡ (if ltb i (l.count + 1) then fresh_tag l.cq i else not (fresh_tag l.cq i))
  tags-write i p = elim (ℕ_discrete i l.count) [
    | yes e ↦ rw e (
        ap phase_tag (write_self l.mem (entry_at l.cq l.count) (stamp l.tag c))
        ∙ phase_tag-stamp l.tag c
        ∙ h.tag_at
        ∙ ground arith)
    | no ne ↦
        ap phase_tag (
          write_ne l.mem (entry_at l.cq l.count) (entry_at l.cq i) (stamp l.tag c) (
            entry_at-injective l.cq i l.count h.posted.entry_size h.posted.head_in p h.posted.count
              ne))
        ∙ h.posted.tags i p
        ∙ ground arith
  ]

  held-write :
      entries l.cq (write l.mem (entry_at l.cq l.count) (stamp l.tag c)) 0 (suc l.count)
      ≡ xs ++ (stamp false c ∷ [])
  held-write =
      entries-snoc l.cq (write l.mem (entry_at l.cq l.count) (stamp l.tag c)) l.count 0 l.count
        (omega arith)
      ∙ ap₂ (λ ys y. ys ++ (y ∷ []))
          (entries-write l.cq l.mem (stamp l.tag c) l.count l.count 0 h.posted.entry_size
              h.posted.head_in h.posted.count (omega arith)
            ∙ h.held)
          (ap (stamp false) (write_self l.mem (entry_at l.cq l.count) (stamp l.tag c))
            ∙ stamp-stamp l.tag c)

  Holds-write :
      Holds
        (record l {
          mem = write l.mem (l.cq.vaddr + l.cq.es * l.tail) (stamp l.tag c);
          tail = if l.tail + 1 == l.cq.qs then 0 else l.tail + 1;
          tag = if l.tail + 1 == l.cq.qs then not l.tag else l.tag;
          count = l.count + 1;
        })
        (xs ++ (stamp false c ∷ []))
  Holds-write = rw written (record {
    posted = record {
      size_le = h.posted.size_le;
      entry_size = h.posted.entry_size;
      head_in = h.posted.head_in;
      count = omega arith;
      tags = tags-write;
    };
    size = length-append xs (stamp false c ∷ []) ∙ omega (arith, h.size);
    tail_at = ground (arith, h.tail_at, h.posted.head_in);
    tag_at = ground (arith, h.tail_at, h.tag_at, h.posted.head_in);
    held = rw add-one held-write;
  })

-- The controller's entry goes behind the others, while fewer than qs - 1 wait.
Holds-post :
    (l : Line) (c : Cpl) (xs : List Cpl)
    → Holds l xs
    → Holds
        (controller_post l c)
        (if ltb (length xs) (l.cq.qs - 1) then xs ++ (stamp false c ∷ []) else xs)
unfolding controller_post
Holds-post l c xs h = elim (Bool-cases (ltb (l.count + 1) l.cq.qs)) [
  | inl room ↦
      let e : ltb (length xs) (l.cq.qs - 1) ≡ true = ground (arith, h.size) in
      rw (room, e) (Holds-write l c xs h (ground arith))
  | inr full ↦
      let e : ltb (length xs) (l.cq.qs - 1) ≡ false = ground (arith, h.size) in rw (full, e) h
]

qs-post : (l : Line) (c : Cpl) → (controller_post l c).cq.qs ≡ l.cq.qs
unfolding controller_post
qs-post l c = ground arith

qs-take : (l : Line) → (consumer_take l).1.cq.qs ≡ l.cq.qs
unfolding consumer_take taken cq_dequeue cq_advance
qs-take l = ground arith

-- No schedule of posts and polls tells a completion queue from the FIFO of its untaken entries:
-- `nvm_cq_dequeue` hands out the controller's entries once each and in their order, and NULL
-- exactly when none waits.
pub run_refines :
    (es : List Event) (l : Line) (xs : List Cpl)
    → Holds l xs
    → run es l ≡ fifo_run (l.cq.qs - 1) es xs
unfolding run fifo_run
run_refines [] l xs h = refl
run_refines (post c ∷ es) l xs h =
    run_refines es (controller_post l c) _ (Holds-post l c xs h)
    ∙ ap
        (λ k.
          fifo_run (k - 1) es
            (if ltb (length xs) (l.cq.qs - 1) then xs ++ (stamp false c ∷ []) else xs))
        (qs-post l c)
run_refines (take ∷ es) l [] h =
    let e : consumer_take l ≡ (none, l) = take_nil l (rw (← h.size) at h.posted) in
    rw e (ap (λ r. none ∷ r) (run_refines es l [] h))
run_refines (take ∷ es) l (x ∷ xs) h = ap₂ ◌∷◌ (take_cons l x xs h) (
    run_refines es (consumer_take l).1 xs (Holds-take l x xs h)
    ∙ ap (λ k. fifo_run (k - 1) es xs) (qs-take l))
