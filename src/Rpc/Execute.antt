-- ===== src/Rpc/Execute.antt =====
-- `execute_command`: a command on the local admin queues.
use u_gds.Prelude.{
  ℕ, zero, suc, ◌+◌, ◌-◌, ◌*◌, ◌%◌, ◌≤◌, ◌<◌, ◌≡◌, ◌≢◌, refl, ap, sym, ◌∙◌, Bool, false, not,
  Bool-cases, either, ◌⊎◌, inl, inr, Option, none, some, List, [], ◌∷◌, ◌==◌, if◌then◌else◌,
  u16_mod, u32_mod, u64_mod, arith,
}
use native.Mathlib.Nat.{mod-eq_of_lt}
use mathlib.Core.Path.{subst}
use u_gds.Queue.{
  Queue, Mem, Waited, sq_full, sq_enqueue, sq_submit, sq_update, ring_tail, cq_poll, cq_advance,
  cq_dequeue, cq_dequeue_block, cq_update, spin, default_cid,
}
use u_gds.Queue.Ring.{IsRing}
use u_gds.Queue.Blocking.{cq_dequeue_block-spin}
use u_gds.Command.{Cmd}
use u_gds.Controller.{etime}
use u_gds.Rpc.{
  LocalAdmin, Executed, execute_command, command_enqueued, command_waited, option_map_executed,
  set_cid, rung_by,
}

-- how a wait of k polls and one more ends: at the first entry with the new tag, or without one
abbrev pub HasSpun : Queue → (ℕ → Mem) → (t k : ℕ) → Waited → Type 0
HasSpun cq mems t k (none, after, u) =
    (after ≡ cq) × (u ≡ t + k + 1) × ((i : ℕ) → t ≤ i → i < u → cq_poll cq (mems i) ≡ none)
HasSpun cq mems t k (some entry, after, u) =
    (after ≡ cq_advance cq)
    × (t < u)
    × (u ≤ t + k + 1)
    × (cq_poll cq (mems (u - 1)) ≡ some entry)
    × ((i : ℕ) → t ≤ i → i < u - 1 → cq_poll cq (mems i) ≡ none)

dequeue_cases :
    (cq : Queue) (mem : Mem)
    → ((cq_poll cq mem ≡ none) × (cq_dequeue cq mem ≡ (none, cq)))
      ⊎ ((entry : ℕ) × (cq_poll cq mem ≡ some entry)
          × (cq_dequeue cq mem ≡ (some entry, cq_advance cq)))
unfolding cq_dequeue
dequeue_cases cq mem = polled (cq_poll cq mem) refl
  where
    polled :
        (r : Option ℕ)
        → r ≡ r
        → ((r ≡ none)
            × (◌≡◌ {A = Option ℕ × Queue}
                (elim r [ none ↦ (none, cq) | some cpl ↦ (some cpl, cq_advance cq) ])
                (none, cq)))
          ⊎ ((entry : ℕ) × (r ≡ some entry)
              × (◌≡◌ {A = Option ℕ × Queue}
                  (elim r [ none ↦ (none, cq) | some cpl ↦ (some cpl, cq_advance cq) ])
                  (some entry, cq_advance cq)))
    polled none e = inl (refl, refl)
    polled (some entry) e = inr (entry, refl, refl)

spun_later :
    (cq : Queue) (mems : ℕ → Mem) (t k : ℕ) (w : Waited)
    → cq_poll cq (mems t) ≡ none
    → HasSpun cq mems (t + 1) k w
    → HasSpun cq mems t (suc k) w
spun_later cq mems t k (none, after, u) e (p, q, f) = (
  p,
  omega arith,
  λ i a b. elim (Bool-cases (i == t)) [
    | inl here ↦ let same : i ≡ t = ground arith in ap (λ j. cq_poll cq (mems j)) same ∙ e
    | inr behind ↦ f i (ground arith) b
  ],
)
spun_later cq mems t k (some entry, after, u) e (p, q, r, f, g) = (
  p,
  omega arith,
  omega arith,
  f,
  λ i a b. elim (Bool-cases (i == t)) [
    | inl here ↦ let same : i ≡ t = ground arith in ap (λ j. cq_poll cq (mems j)) same ∙ e
    | inr behind ↦ g i (ground arith) b
  ],
)

spin-HasSpun :
    (k : ℕ) (cq : Queue) (mems : ℕ → Mem) (t : ℕ) → HasSpun cq mems t k (spin k cq mems t)
unfolding spin
spin-HasSpun zero cq mems t = elim (dequeue_cases cq (mems t)) [
  | inl (e, f) ↦ rw f (
    refl,
    omega arith,
    λ i a b. let same : i ≡ t = omega arith in ap (λ j. cq_poll cq (mems j)) same ∙ e,
  )
  | inr (entry, e, f) ↦
      let this : t + 1 - 1 ≡ t = omega arith in
      rw f (
        refl,
        omega arith,
        omega arith,
        ap (λ j. cq_poll cq (mems j)) this ∙ e,
        λ i a b. absurd (omega arith),
      )
]
spin-HasSpun (suc k) cq mems t = elim (dequeue_cases cq (mems t)) [
  | inl (e, f) ↦
      rw f (spun_later cq mems t k (spin k cq mems (t + 1)) e (spin-HasSpun k cq mems (t + 1)))
  | inr (entry, e, f) ↦
      let this : t + 1 - 1 ≡ t = omega arith in
      rw f (
        refl,
        omega arith,
        omega arith,
        ap (λ j. cq_poll cq (mems j)) this ∙ e,
        λ i a b. absurd (omega arith),
      )
]

-- an admin descriptor with no command waiting, whose last doorbell write was the tail
pub record IsIdle (admin : LocalAdmin) (db : ℕ) : Type 0 where
  pub ring : IsRing admin.asq
  pub empty : admin.asq.head ≡ admin.asq.tail
  pub has_db : admin.asq.db ≡ some db
  pub known : admin.asq.last ≡ admin.asq.tail

abbrev pub next_tail : Queue → ℕ
next_tail q = if suc q.tail == q.qs then 0 else suc q.tail

-- The command is in the slot of the tail under the queue's own identifier and the doorbell is rung
-- with the next tail; then the entry with the new tag that a poll has seen is copied out, no poll
-- before it having seen one, and the submission queue is empty again, or no poll has seen one.
abbrev pub IsExecuted :
    LocalAdmin → (db : ℕ) → Cmd → (mems : ℕ → Mem) → (t : ℕ) → Option Executed → Type 0
IsExecuted admin db cmd mems t none = ◌≡◌ {A = ℕ} 0 1
IsExecuted admin db cmd mems t (some o) =
    (o.sent
      ≡ some (
        admin.asq.vaddr + admin.asq.es * admin.asq.tail,
        set_cid cmd (default_cid (sq_enqueue admin.asq).1),
      ))
    × ((rest : List (ℕ × ℕ)) × (o.rung ≡ (db, next_tail admin.asq) ∷ rest))
    × (((o.err ≡ 0)
          × ((entry : ℕ) × (cq_poll admin.acq (mems (o.polls - 1)) ≡ some entry)
              × (o.cpl ≡ some (mems (o.polls - 1) entry)))
          × ((i : ℕ) → t ≤ i → i < o.polls - 1 → cq_poll admin.acq (mems i) ≡ none)
          × (t < o.polls)
          × (o.polls ≤ t + admin.timeout + 1)
          × (o.admin.asq.head ≡ o.admin.asq.tail))
        ⊎ ((o.err ≡ etime)
            × (o.cpl ≡ none)
            × (o.polls ≡ t + admin.timeout + 1)
            × ((i : ℕ) → t ≤ i → i < o.polls → cq_poll admin.acq (mems i) ≡ none)))

submit_lem :
    (q : Queue) (db : ℕ)
    → q.db ≡ some db
    → q.last ≢ q.tail
    → sq_submit q ≡ (some (db, q.tail), record q { last = q.tail })
unfolding sq_submit ring_tail
submit_lem q db e n = ap (ring_tail q) e ∙ unknown
  where
    unknown : ring_tail q (some db) ≡ (some (db, q.tail), record q { last = q.tail })
    unknown = let new : (q.last == q.tail) ≡ false = ground arith in rw new refl

update_lem :
    (q : Queue) (db : ℕ)
    → q.db ≡ some db
    → q.head < q.qs
    → q.qs ≤ u16_mod
    → ((sq_update q).head ≡ (if suc q.head == q.qs then 0 else suc q.head))
      × ((sq_update q).tail ≡ q.tail)
unfolding sq_update
update_lem q db e p r = ground (arith, e)

module _ (admin : LocalAdmin) (db : ℕ) (idle : IsIdle admin db) where
  never_full : sq_full admin.asq ≡ false
  unfolding sq_full
  never_full =
      let zero_apart : (admin.asq.tail + u32_mod - admin.asq.head) % u32_mod % u16_mod ≡ 0 =
        omega (arith, idle.empty, idle.ring.tail_in, idle.ring.small) in
      let zero_part : (admin.asq.tail + u32_mod - admin.asq.head) % u32_mod % u16_mod % admin.asq.qs
          ≡ 0 =
        ap (λ k. k % admin.asq.qs) zero_apart ∙ mod-eq_of_lt (omega (arith, idle.ring.two_le)) in
      ground (arith, zero_part, idle.ring.two_le, idle.ring.small)

  -- the submission queue once the command is in
  abbrev IsOneIn : Queue → Type 0
  IsOneIn q =
      (q.tail ≡ next_tail admin.asq)
      × (q.head ≡ admin.asq.tail)
      × (q.qs ≡ admin.asq.qs)
      × (q.db ≡ some db)
      × (q.last ≡ admin.asq.tail)

  abbrev slot : ℕ
  slot = admin.asq.vaddr + admin.asq.es * admin.asq.tail

  enqueue_lem : (q : Queue) × (sq_enqueue admin.asq ≡ (some slot, q)) × IsOneIn q
  unfolding sq_enqueue
  enqueue_lem =
      let last : Bool = (admin.asq.tail + 1) % u32_mod == admin.asq.qs in
      let around : Queue = record admin.asq { tail = 0; phase = not admin.asq.phase } in
      let along : Queue = record admin.asq { tail = (admin.asq.tail + 1) % u32_mod } in
      (
        if last then around else along,
        rw never_full refl,
        either IsOneIn last around along
            (λ e. (
              ground (arith, idle.ring.small, idle.ring.tail_in, e),
              idle.empty,
              refl,
              idle.has_db,
              idle.known,
            ))
            (λ e. (
              ground (arith, idle.ring.small, idle.ring.tail_in, e),
              idle.empty,
              refl,
              idle.has_db,
              idle.known,
            )),
      )

  next_apart : next_tail admin.asq ≢ admin.asq.tail
  next_apart = ground (arith, idle.ring.two_le)

  waited-IsExecuted :
      (cmd : Cmd) (mems : ℕ → Mem) (t : ℕ) (q : Queue) (w : Waited)
      → IsOneIn q
      → sq_enqueue admin.asq ≡ (some slot, q)
      → HasSpun admin.acq mems t admin.timeout w
      → IsExecuted admin db cmd mems t (
          some (
            command_waited admin.timeout mems slot
              (set_cid cmd (default_cid q))
              (some (db, q.tail), record q { last = q.tail })
              w))
  waited-IsExecuted cmd mems t q (none, acq, u) (a, b, c, d, e) f (g, h, j) = (
    ap (λ (r : Option ℕ × Queue). some (slot, set_cid cmd (default_cid r.1))) (sym f),
    ([], ap (λ k. (db, k) ∷ []) a),
    inr (refl, refl, h, j),
  )
  waited-IsExecuted cmd mems t q (some entry, acq, u) (a, b, c, d, e) f (g, h, j, k, before) =
      let empty =
        update_lem (record q { last = q.tail }) db d (omega (arith, b, c, idle.ring.tail_in))
          (omega (arith, c, idle.ring.small)) in
      let same : (if suc q.head == q.qs then 0 else suc q.head) ≡ q.tail =
        ground (arith, a, b, c) in
      (
        ap (λ (r : Option ℕ × Queue). some (slot, set_cid cmd (default_cid r.1))) (sym f),
        (rung_by (cq_update acq).0, ap (λ m. (db, m) ∷ rung_by (cq_update acq).0) a),
        inl (refl, (entry, k, refl), before, h, j, empty.0 ∙ same ∙ sym empty.1),
      )

  execute-IsExecuted :
      (cmd : Cmd) (mems : ℕ → Mem) (t : ℕ) (q : Queue)
      → IsOneIn q
      → sq_enqueue admin.asq ≡ (some slot, q)
      → admin.timeout * 1000000 < u64_mod
      → IsExecuted admin db cmd mems t (command_enqueued admin cmd mems t (sq_enqueue admin.asq))
  execute-IsExecuted cmd mems t q (a, b, c, d, e) f h =
      let waits = command_waited admin.timeout mems slot (set_cid cmd (default_cid q)) in
      let rung = submit_lem q db d (λ k. next_apart (sym (sym e ∙ k ∙ a))) in
      let all =
        ap (command_enqueued admin cmd mems t) f
        ∙ ap (λ r. option_map_executed (waits r) (cq_dequeue_block admin.acq mems t admin.timeout))
            rung
        ∙ ap (option_map_executed (waits (some (db, q.tail), record q { last = q.tail })))
            (cq_dequeue_block-spin admin.acq mems t admin.timeout h) in
      subst (IsExecuted admin db cmd mems t) (sym all) (
        waited-IsExecuted cmd mems t q (spin admin.timeout admin.acq mems t) (a, b, c, d, e) f
          (spin-HasSpun admin.timeout admin.acq mems t))

-- On an admin descriptor with no command waiting in the submission queue, all of whose tail is
-- known to the controller, and a timeout whose nanoseconds fit into 64 bits, `execute_command`
-- always ends: the command is in the slot of the tail, under the queue's own identifier, and the
-- doorbell is rung with the next tail. Either it returns 0 with the completion that a poll found,
-- none of the polls before having found one, and no command is waiting again, or it returns ETIME
-- without a completion after one poll for each millisecond and one more, none of which found one.
pub execute_command-IsExecuted :
    (admin : LocalAdmin) (db : ℕ) (cmd : Cmd) (mems : ℕ → Mem) (t : ℕ)
    → IsIdle admin db
    → admin.timeout * 1000000 < u64_mod
    → IsExecuted admin db cmd mems t (execute_command admin cmd mems t)
unfolding execute_command
execute_command-IsExecuted admin db cmd mems t idle h =
    let step = enqueue_lem admin db idle in
    execute-IsExecuted admin db idle cmd mems t step.0 step.2 step.1 h
