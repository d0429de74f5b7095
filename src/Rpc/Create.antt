-- ===== src/Rpc/Create.antt =====
-- `nvm_aq_create`: what it holds, and the admin queues that it sets up.
use u_gds.Prelude.{
  ℕ, ◌+◌, ◌/◌, ◌≤◌, ◌<◌, ◌≡◌, ◌≢◌, refl, Bool, true, false, not, ◌||◌, either, ◌⊎◌, inl, inr,
  Option, none, some, ltb, ◌==◌, get_or, arith,
}
use u_gds.Queue.{Queue, Ctrl, queue_clear, cpl_size, cmd_size}
use u_gds.Dma.{Dma}
use u_gds.Rpc.{
  AqAnswers, AqHeld, LocalAdmin, ref_get, ref_put, create_admin, admin_created, reference_got,
  aq_create,
}

-- the same counts
abbrev pub SameHeld : AqHeld → AqHeld → Type 0
SameHeld a b =
    (a.ctrl_refs ≡ b.ctrl_refs)
    × (a.references ≡ b.references)
    × (a.windows ≡ b.windows)
    × (a.descriptors ≡ b.descriptors)

-- an empty ring of a size at an address
abbrev pub IsEmptyRing : (qs ioaddr : ℕ) → Queue → Type 0
IsEmptyRing qs ioaddr q = (q.qs ≡ qs) × (q.head ≡ 0) × (q.tail ≡ 0) × (q.ioaddr ≡ ioaddr)

-- A queue as `nvm_queue_clear` leaves it where the controller has enough entries, and else what the
-- memory held
abbrev pub IsCleared : Ctrl → (qs ioaddr : ℕ) → (old q : Queue) → Type 0
IsCleared ctrl qs ioaddr old q =
    ((2 ≤ qs) × (qs ≤ 65536) × (qs ≤ ctrl.max_qs) × IsEmptyRing qs ioaddr q)
    ⊎ (((qs < 2) ⊎ ((65536 < qs) ⊎ (ctrl.max_qs < qs))) × (q ≡ old))

abbrev pub IsAq : Ctrl → Dma → (acq asq : Queue) → AqHeld → ℕ × Option LocalAdmin × AqHeld → Type 0
IsAq ctrl window acq asq held (err, none, after) = (err ≢ 0) × SameHeld after held
IsAq ctrl window acq asq held (err, some admin, after) =
    (err ≡ 0)
    × (after.ctrl_refs ≡ held.ctrl_refs + 1)
    × (after.windows ≡ held.windows + 1)
    × SameHeld (ref_put (some admin) after) held
    × (window.page_size ≡ ctrl.page_size)
    × (2 ≤ window.n_ioaddrs)
    × IsCleared ctrl (ctrl.page_size / cpl_size) (get_or window.ioaddrs 0 0) acq admin.acq
    × IsCleared ctrl (ctrl.page_size / cmd_size) (get_or window.ioaddrs 1 0) asq admin.asq

clear-IsCleared :
    (old : Queue) (ctrl : Ctrl) (cq : Bool) (id qs : ℕ) (is_local : Bool) (vaddr ioaddr : ℕ)
    → IsCleared ctrl qs ioaddr old (queue_clear old ctrl cq id qs is_local vaddr ioaddr).1
unfolding queue_clear
clear-IsCleared old ctrl cq id qs is_local vaddr ioaddr =
    either (λ (r : ℕ × Queue). IsCleared ctrl qs ioaddr old r.1)
      (ltb qs 2 || ltb 0x10000 qs || ltb ctrl.max_qs qs) _ _ (λ refused. inr (ground arith, refl))
      (λ fits. inl (ground arith, ground arith, ground arith, (refl, refl, refl, refl)))

-- one reference to the controller and one of its own more, or an errno and nothing
abbrev pub IsGot : AqHeld → ℕ × AqHeld → Type 0
IsGot before (err, held) =
    ((err ≡ 0)
      × (held.ctrl_refs ≡ before.ctrl_refs + 1)
      × (held.references ≡ before.references + 1)
      × (held.windows ≡ before.windows)
      × (held.descriptors ≡ before.descriptors))
    ⊎ ((err ≢ 0) × SameHeld held before)

ref_get-IsGot : (answers : AqAnswers) (held : AqHeld) → IsGot held (ref_get answers held)
unfolding ref_get
ref_get-IsGot answers held =
    either (IsGot held) (not answers.get_ctrl) _ _
      (λ _. inr (λ e. absurd (omega (arith, e)), (refl, refl, refl, refl)))
      λ _.
        either (IsGot held) (not answers.reference) _ _
          (λ _. inr (λ e. absurd (omega (arith, e)), (omega arith, refl, refl, refl)))
          λ _.
            either (IsGot held) (not (answers.mutex_err == 0)) _ _
              (λ failed. inr (λ e. ground arith, (omega arith, refl, refl, refl)))
              (λ _. inl (refl, refl, refl, refl, refl))

module _ (answers : AqAnswers) (ctrl : Ctrl) (window : Dma) (acq asq : Queue) where
  -- a reference that is held, and what `create_admin` adds to it
  abbrev Created : (before held : AqHeld) → ℕ × Option LocalAdmin × AqHeld → Type 0
  Created before held (err, none, after) = (err ≢ 0) × SameHeld after held
  Created before held (err, some admin, after) =
      IsAq ctrl window acq asq before (err, some admin, after)

  create-Created :
      (before held : AqHeld)
      → held.ctrl_refs ≡ before.ctrl_refs + 1
      → held.references ≡ before.references + 1
      → held.windows ≡ before.windows
      → held.descriptors ≡ before.descriptors
      → Created before held (create_admin answers ctrl window acq asq held)
  unfolding create_admin
  create-Created before held a b c d =
      let P : ℕ × Option LocalAdmin × AqHeld → Type 0 = Created before held in
      either P (not (ctrl.page_size == window.page_size)) _ _
        (λ _. (λ e. absurd (omega (arith, e)), (refl, refl, refl, refl)))
        λ sizes.
          either P (ltb window.n_ioaddrs 2) _ _
            (λ _. (λ e. absurd (omega (arith, e)), (refl, refl, refl, refl)))
            λ pages.
              either P (window.vaddr == 0) _ _
                (λ _. (λ e. absurd (omega (arith, e)), (refl, refl, refl, refl)))
                λ _.
                  either P (not (answers.remap == 0)) _ _
                    (λ failed. (λ e. ground arith, (refl, refl, refl, refl)))
                    λ _.
                      either P (not (answers.descriptor == 0)) _ _
                        (λ failed. (λ e. ground arith, (refl, refl, omega arith, refl)))
                        (λ _. (
                          refl,
                          a,
                          omega (arith, c),
                          (omega (arith, a), omega (arith, b), omega (arith, c), omega (arith, d)),
                          ground arith,
                          ground arith,
                          clear-IsCleared acq ctrl true 0 (ctrl.page_size / cpl_size)
                              window.is_local window.vaddr (get_or window.ioaddrs 0 0),
                          clear-IsCleared asq ctrl false 0 (ctrl.page_size / cmd_size)
                              window.is_local (window.vaddr + window.page_size)
                              (get_or window.ioaddrs 1 0),
                        ))

  admin_created-IsAq :
      (before held : AqHeld) (r : ℕ × Option LocalAdmin × AqHeld)
      → held.ctrl_refs ≡ before.ctrl_refs + 1
      → held.references ≡ before.references + 1
      → held.windows ≡ before.windows
      → held.descriptors ≡ before.descriptors
      → Created before held r
      → IsAq ctrl window acq asq before (admin_created r)
  admin_created-IsAq before held (err, none, after) a b c d (n, (e, f, g, h)) =
      let failed : (err == 0) ≡ false = ground arith in
      rw failed
        (n, (omega (arith, a, e), omega (arith, b, f), omega (arith, c, g), omega (arith, d, h)))
  admin_created-IsAq before held (err, some admin, after) a b c d (n, w1, w2, w3, w4, w5, w6, w7) =
      let good : (err == 0) ≡ true = ground arith in rw good (refl, w1, w2, w3, w4, w5, w6, w7)

  got-IsAq :
      (before : AqHeld) (r : ℕ × AqHeld)
      → IsGot before r
      → IsAq ctrl window acq asq before (reference_got answers ctrl window acq asq r)
  got-IsAq before (err, held) (inl (n, a, b, c, d)) =
      let good : (err == 0) ≡ true = ground arith in
      rw good (
        admin_created-IsAq before held (create_admin answers ctrl window acq asq held) a b c d
          (create-Created before held a b c d))
  got-IsAq before (err, held) (inr (n, same)) =
      let failed : (err == 0) ≡ false = ground arith in rw failed (n, same)

-- `nvm_aq_create` fails with an errno and holds nothing more than before, or returns 0 and holds a
-- controller reference and a window more, all of which `nvm_aq_destroy` gives back. It then has a
-- window of two pages of the controller's size, and each admin queue is an empty ring that fills
-- its page, or what the memory held before if the controller allows fewer entries or
-- `nvm_queue_clear` refuses the size for other reasons.
pub aq_create-IsAq :
    (answers : AqAnswers) (ctrl : Ctrl) (window : Dma) (acq asq : Queue) (held : AqHeld)
    → IsAq ctrl window acq asq held (aq_create answers ctrl window acq asq held)
unfolding aq_create
aq_create-IsAq answers ctrl window acq asq held =
    got-IsAq answers ctrl window acq asq held (ref_get answers held) (ref_get-IsGot answers held)
