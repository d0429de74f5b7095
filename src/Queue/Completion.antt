-- ===== src/Queue/Completion.antt =====
-- The phase protocol of a completion queue: what `nvm_cq_dequeue` takes is what the controller
-- posted, in that order. The controller writes an entry behind the ones that are not taken yet,
-- with the phase tag that the consumer expects there.
use u_gds.Prelude.{
  ℕ, suc, ◌+◌, ◌*◌, ◌≤◌, ◌<◌, ◌≡◌, refl, ◌∙◌, ap, sym, Bool, not, none, some, arith, ltb,
  if◌then◌else◌, u16_mod,
}
use u_gds.Queue.{Queue, Mem, phase_tag, cq_poll, cq_advance, cq_dequeue}
use native.Mathlib.Decide.{dec_lt}
use u_gds.Queue.Ring.{slot_at}

-- where the entry i places behind the head stands
abbrev pub entry_at : Queue → ℕ → ℕ
entry_at q i = q.vaddr + q.es * slot_at q.qs q.head i

-- the tag that a new entry carries there
abbrev pub fresh_tag : Queue → ℕ → Bool
fresh_tag q i = if ltb (q.head + i) q.qs then q.phase else not q.phase

-- n entries are posted and not taken; every other slot carries the tag of the round before.
pub record Posted (q : Queue) (mem : Mem) (n : ℕ) : Type 0 where
  pub size_le : q.qs ≤ u16_mod
  pub entry_size : 0 < q.es
  pub head_in : q.head < q.qs
  pub count : n < q.qs
  pub tags :
      (i : ℕ)
      → i < q.qs
      → phase_tag (mem (entry_at q i)) ≡ (if ltb i n then fresh_tag q i else not (fresh_tag q i))

pub entry_at-zero : (q : Queue) → q.head < q.qs → entry_at q 0 ≡ q.vaddr + q.es * q.head
entry_at-zero q h = ap (λ k. q.vaddr + q.es * k) (ground arith)

pub frame-advance :
    (q : Queue)
    → ((cq_advance q).qs ≡ q.qs) × ((cq_advance q).es ≡ q.es) × ((cq_advance q).vaddr ≡ q.vaddr)
unfolding cq_advance
frame-advance q = ground arith

module _ (q : Queue) (size_le : q.qs ≤ u16_mod) (head_in : q.head < q.qs) where
  pub head-advance : (cq_advance q).head < (cq_advance q).qs
  unfolding cq_advance
  head-advance = ground arith

  pub slot_at-advance :
      (i : ℕ)
      → suc i < q.qs
      → slot_at (cq_advance q).qs (cq_advance q).head i ≡ slot_at q.qs q.head (suc i)
  unfolding cq_advance
  slot_at-advance i h = ground arith

  pub slot_at-advance_last :
      (i : ℕ)
      → suc i ≡ q.qs
      → slot_at (cq_advance q).qs (cq_advance q).head i ≡ slot_at q.qs q.head 0
  unfolding cq_advance
  slot_at-advance_last i h = ground arith

  pub fresh_tag-advance : (i : ℕ) → suc i < q.qs → fresh_tag (cq_advance q) i ≡ fresh_tag q (suc i)
  unfolding cq_advance
  fresh_tag-advance i h = ground arith

  fresh_tag-advance_last : (i : ℕ) → suc i ≡ q.qs → fresh_tag (cq_advance q) i ≡ not (fresh_tag q 0)
  unfolding cq_advance
  fresh_tag-advance_last i h = ground arith

  pub entry_at-advance : (i : ℕ) → suc i < q.qs → entry_at (cq_advance q) i ≡ entry_at q (suc i)
  entry_at-advance i h =
      rw ((frame-advance q).1, (frame-advance q).2)
        (ap (λ k. q.vaddr + q.es * k) (slot_at-advance i h))

  entry_at-advance_last : (i : ℕ) → suc i ≡ q.qs → entry_at (cq_advance q) i ≡ entry_at q 0
  entry_at-advance_last i h =
      rw ((frame-advance q).1, (frame-advance q).2)
        (ap (λ k. q.vaddr + q.es * k) (slot_at-advance_last i h))

head_tag :
    (q : Queue) (mem : Mem) (n : ℕ)
    → Posted q mem n
    → phase_tag (mem (q.vaddr + q.es * q.head)) ≡ (if ltb 0 n then q.phase else not q.phase)
head_tag q mem n p =
    ap (λ a. phase_tag (mem a)) (sym (entry_at-zero q p.head_in))
    ∙ p.tags 0 (omega arith)
    ∙ ground (arith, p.head_in)

cq_poll-empty : (q : Queue) (mem : Mem) → Posted q mem 0 → cq_poll q mem ≡ none
unfolding cq_poll
cq_poll-empty q mem p = ground (arith, head_tag q mem 0 p)

cq_poll-ready :
    (q : Queue) (mem : Mem) (n : ℕ) → Posted q mem (suc n) → cq_poll q mem ≡ some (entry_at q 0)
unfolding cq_poll
cq_poll-ready q mem n p = ground (arith, head_tag q mem (suc n) p, entry_at-zero q p.head_in)

-- Nothing waits: NULL, and the queue stays as it is.
pub cq_dequeue_empty : (q : Queue) (mem : Mem) → Posted q mem 0 → cq_dequeue q mem ≡ (none, q)
unfolding cq_dequeue
cq_dequeue_empty q mem p = rw (cq_poll-empty q mem p, cq_dequeue) refl

-- Something waits: the entry at the head is taken.
pub cq_dequeue_ready :
    (q : Queue) (mem : Mem) (n : ℕ)
    → Posted q mem (suc n)
    → cq_dequeue q mem ≡ (some (entry_at q 0), cq_advance q)
unfolding cq_dequeue
cq_dequeue_ready q mem n p = rw (cq_poll-ready q mem n p, cq_dequeue) refl

tags-advance :
    (q : Queue) (mem : Mem) (n : ℕ)
    → Posted q mem (suc n)
    → (i : ℕ) → i < q.qs
    → phase_tag (mem (entry_at (cq_advance q) i))
      ≡ (if ltb i n then fresh_tag (cq_advance q) i else not (fresh_tag (cq_advance q) i))
tags-advance q mem n p i h = elim (dec_lt (suc i) q.qs) [
  | yes inside ↦
      rw
        (
          entry_at-advance q p.size_le p.head_in i inside,
          fresh_tag-advance q p.size_le p.head_in i inside,
        )
        (p.tags (suc i) inside ∙ ground arith)
  | no outside ↦
      let e : suc i ≡ q.qs = omega arith in
      rw
        (
          entry_at-advance_last q p.size_le p.head_in i e,
          fresh_tag-advance_last q p.size_le p.head_in i e,
        )
        (p.tags 0 (omega arith) ∙ ground (arith, p.count))
]

pub Posted-advance :
    (q : Queue) (mem : Mem) (n : ℕ) → Posted q mem (suc n) → Posted (cq_advance q) mem n
Posted-advance q mem n p = record {
  size_le = rw ((frame-advance q).0) p.size_le;
  entry_size = rw ((frame-advance q).1) p.entry_size;
  head_in = head-advance q p.size_le p.head_in;
  count = rw ((frame-advance q).0) (omega (arith, p.count));
  tags = λ i h. tags-advance q mem n p i (rw ((frame-advance q).0) at h);
}
