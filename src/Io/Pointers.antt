-- ===== src/Io/Pointers.antt =====
-- The PRP entries of a command.
use u_gds.Prelude.{
  ℕ, zero, suc, ◌+◌, ◌-◌, ◌≤◌, ◌<◌, ◌≡◌, ◌≢◌, refl, ◌∙◌, ap, sym, true, false, some, List, arith,
  ltb, ◌==◌, if◌then◌else◌, ℤ, get_elem?, get_elem?-in, length,
}
use native.Mathlib.Decide.{ℕ_discrete}
use u_gds.Io.Types.{Progress, go}
use u_gds.Io.Transfer.{fill_prp, ioaddr_at, data_pointers}
use u_gds.Io.Ends
use u_gds.Io.Ends.{Ends, goes, stops}

-- Page i of the n pages that a pair of PRP entries stands for: the first entry, and then the
-- second one or the PRP page's.
abbrev pub page_addr : (n prp1 prp2 : ℕ) → (prp : ℕ → ℕ) → ℕ → ℕ
page_addr n prp1 prp2 prp zero = prp1
page_addr n prp1 prp2 prp (suc i) = if n == 2 then prp2 else prp i

-- nothing but the PRP page has changed
abbrev pub SameQueue : Progress → Progress → Type 0
SameQueue s s' = (s'.sq ≡ s.sq) × (s'.sent ≡ s.sent)

ioaddr_at-some :
    (xs : List ℕ) (i v : ℕ) (s : Progress) → get_elem? xs i ≡ some v → ioaddr_at xs i s ≡ go v s
unfolding ioaddr_at
ioaddr_at-some xs i v s e = rw (e, ioaddr_at) refl

module _ (capacity : ℕ) (ioaddrs : List ℕ) (page : ℕ) where
  abbrev pub Filled : (k i : ℕ) → Progress → Progress → Type 0
  Filled k i s s' =
      SameQueue s s'
      × ((j : ℕ) → j + 1 < i → s'.prp j ≡ s.prp j)
      × ((j : ℕ) → i ≤ j + 1 → j + 1 < i + k → get_elem? ioaddrs (page + (j + 1)) ≡ some (s'.prp j))

  -- A value written at entry i - 1, and then the others.
  Filled-suc :
      (k i v : ℕ) (s s' : Progress)
      → 0 < i
      → get_elem? ioaddrs (page + i) ≡ some v
      → Filled k (i + 1) (record s { prp = λ j. if j + 1 == i then v else s.prp j }) s'
      → Filled (suc k) i s s'
  Filled-suc k i v s s' p e f = (
    f.0,
    λ j h. f.1 j (omega arith) ∙ ground arith,
    λ j a b. elim (ℕ_discrete (j + 1) i) [
      | yes q ↦ rw q (e ∙ ap some (sym (f.1 j (omega arith) ∙ ground arith)))
      | no q ↦ f.2 j (omega arith) (omega arith)
    ],
  )

  fill_prp-Ends :
      {Q : ℤ → Progress → Type 0} (k i : ℕ) (s : Progress)
      → 0 < i
      → i + k ≤ capacity + 1
      → page + i + k ≤ length ioaddrs
      → Ends (λ _ s'. Filled k i s s') Q (fill_prp capacity ioaddrs page k i s)
  unfolding fill_prp
  fill_prp-Ends zero i s p c h = goes ((refl, refl), λ j _. refl, λ j a b. absurd (omega arith))
  fill_prp-Ends (suc k) i s p c h =
      let (v, e) = get_elem?-in ioaddrs (page + i) (omega arith) in
      let inside : ltb capacity i ≡ false = ground arith in
      rw (inside, e)
        (Ends.mono
          (fill_prp-Ends k (i + 1) (record s { prp = λ j. if j + 1 == i then v else s.prp j })
            (omega arith) (omega arith) (omega arith))
          (λ _ s' f. Filled-suc k i v s s' p e f) (λ r s' q. q))

-- The PRP entries of a command stand for its pages, in their order.
abbrev pub Pointed : List ℕ → (page n prp_ioaddr : ℕ) → ℕ × ℕ → Progress → Type 0
Pointed ioaddrs page n prp_ioaddr (prp1, prp2) s =
    ((i : ℕ) → i < n → get_elem? ioaddrs (page + i) ≡ some (page_addr n prp1 prp2 s.prp i))
    × ((n ≡ 1 → prp2 ≡ 0) × (2 < n → prp2 ≡ prp_ioaddr))

pages_by :
    (ioaddrs : List ℕ) (page n prp1 prp2 : ℕ) (prp : ℕ → ℕ)
    → get_elem? ioaddrs page ≡ some prp1
    → ((i : ℕ)
        → suc i < n
        → get_elem? ioaddrs (page + (i + 1)) ≡ some (if n == 2 then prp2 else prp i))
    → (i : ℕ) → i < n
    → get_elem? ioaddrs (page + i) ≡ some (page_addr n prp1 prp2 prp i)
pages_by ioaddrs page n prp1 prp2 prp first others zero h =
    ap (get_elem? ioaddrs) (omega arith) ∙ first
pages_by ioaddrs page n prp1 prp2 prp first others (suc i) h =
    ap (get_elem? ioaddrs) (omega arith) ∙ others i h

eq_test : {a b : ℕ} → a ≡ b → (a == b) ≡ true
eq_test q = ground arith

ne_test : {a b : ℕ} → a ≢ b → (a == b) ≡ false
ne_test q = ground arith

module _ (capacity prp_ioaddr : ℕ) (ioaddrs : List ℕ) (page n : ℕ) (s : Progress)
    (fits : n ≤ capacity + 1) (there : page + n ≤ length ioaddrs) where
  abbrev pub Good : ℕ × ℕ → Progress → Type 0
  Good ps s' = SameQueue s s' × Pointed ioaddrs page n prp_ioaddr ps s'

  module _ (v : ℕ) (first : get_elem? ioaddrs page ≡ some v) where
    one_page : n ≡ 1 → Good (v, 0) s
    one_page one = (
      (refl, refl),
      (
        pages_by ioaddrs page n v 0 s.prp first (λ i q. absurd (omega arith)),
        (λ _. refl, λ q. absurd (omega arith)),
      ),
    )

    two_pages : (w : ℕ) → n ≡ 2 → get_elem? ioaddrs (page + 1) ≡ some w → Good (v, w) s
    two_pages w two second = (
      (refl, refl),
      (
        pages_by ioaddrs page n v w s.prp first
            (λ i q. ap (get_elem? ioaddrs) (omega arith) ∙ second ∙ ground arith),
        (λ q. absurd (omega arith), λ q. absurd (omega arith)),
      ),
    )

    many_pages :
        (s' : Progress)
        → 2 < n
        → Filled capacity ioaddrs page (n - 1) 1 s s'
        → Good (v, prp_ioaddr) s'
    many_pages s' many f = (
      f.0,
      (
        pages_by ioaddrs page n v prp_ioaddr s'.prp first
            (λ i q. f.2 i (omega arith) (omega arith) ∙ ground arith),
        (λ q. absurd (omega arith), λ q. refl),
      ),
    )

  -- For 1 to capacity + 1 pages that the buffer has, the PRP entries are built and stand for them.
  pub data_pointers-Ends :
      {Q : ℤ → Progress → Type 0}
      → 0 < n
      → Ends Good Q (data_pointers capacity prp_ioaddr ioaddrs page n s)
  unfolding data_pointers
  data_pointers-Ends p =
      let (v, e) = get_elem?-in ioaddrs page (omega arith) in
      rw (ioaddr_at-some ioaddrs page v s e) (elim (ℕ_discrete n 1) [
        | yes one ↦ rw (eq_test one) (goes (one_page v e one))
        | no more ↦ rw (ne_test more) (elim (ℕ_discrete n 2) [
          | yes two ↦
              let (w, f) = get_elem?-in ioaddrs (page + 1) (omega arith) in
              rw (eq_test two, ioaddr_at-some ioaddrs (page + 1) w s f)
                (goes (two_pages v e w two f))
          | no many ↦ rw (ne_test many) (
              Ends.bind
                (fill_prp-Ends capacity ioaddrs page (n - 1) 1 s (omega arith) (omega arith)
                  (omega arith))
                (λ _ s' f. goes (many_pages v e s' (omega arith) f)))
        ])
      ])
