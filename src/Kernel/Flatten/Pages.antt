-- ===== src/Kernel/Flatten/Pages.antt =====
-- The addresses that `sg_flatten_to_addrs` writes are those of the buffer's pages.
use u_gds.Prelude.{
  ℕ, zero, suc, ◌+◌, ◌-◌, ◌*◌, ◌%◌, ◌≤◌, ◌<◌, ◌≡◌, refl, ◌∙◌, ap, true, false, Bool-cases, ◌&&◌,
  ◌⊎◌, inl, inr, some, List, [], ◌∷◌, ◌++◌, ltb, leb, ◌==◌, length, length-append, u64_mod, arith,
}
use u_gds.Queue.{einval}
use u_gds.Kernel.Flatten.{Sg, take_pages, cons_page, more_pages, entry_done, flatten, byte_address}

-- the page at byte k of the buffer is page_size device bytes in a row, from address a on
abbrev pub IsPageAt : (page_size : ℕ) → List Sg → (k a : ℕ) → Type 0
IsPageAt page_size sgs k a =
    (j : ℕ) → j < page_size → byte_address sgs (k + j) ≡ some ((a + j) % u64_mod)

-- the pages one behind the other from byte k on
abbrev pub PagesAt : (page_size : ℕ) → List Sg → (k : ℕ) → List ℕ → Type 0
PagesAt page_size sgs k [] = Unit {0}
PagesAt page_size sgs k (a ∷ addrs) =
    IsPageAt page_size sgs k a × PagesAt page_size sgs (k + page_size) addrs

-- the pages written, and whether they are all that were expected
abbrev pub Flattened : (page_size : ℕ) → List Sg → (room offset : ℕ) → ℕ × List ℕ → Type 0
Flattened page_size sgs room offset (err, addrs) =
    PagesAt page_size sgs offset addrs
    × (((err ≡ 0) × (length addrs ≡ room)) ⊎ ((err ≡ einval) × (length addrs < room)))

pages_moved :
    (page_size : ℕ) (sgs : List Sg) (addrs : List ℕ) {k m : ℕ}
    → k ≡ m
    → PagesAt page_size sgs k addrs
    → PagesAt page_size sgs m addrs
pages_moved page_size sgs addrs e p = rw (← e) p

PagesAt-append :
    (page_size : ℕ) (sgs : List Sg) (k m : ℕ) (xs ys : List ℕ)
    → PagesAt page_size sgs k xs
    → k + length xs * page_size ≡ m
    → PagesAt page_size sgs m ys
    → PagesAt page_size sgs k (xs ++ ys)
PagesAt-append page_size sgs k m [] ys p e q = pages_moved page_size sgs ys (omega arith) q
PagesAt-append page_size sgs k m (x ∷ xs) ys (page, pages) e q =
    (page, PagesAt-append page_size sgs (k + page_size) m xs ys pages (omega arith) q)

module _ (page_size : ℕ) (sg : Sg) (sgs : List Sg) where
  -- what the loop over an entry leaves: pages from byte k on, and the end of the entry behind them
  abbrev pub TakenFrom : (room k : ℕ) → List ℕ × ℕ → Type 0
  TakenFrom room k (addrs, left) =
      PagesAt page_size (sg ∷ sgs) k addrs
      × (length addrs ≤ room)
      × (k + length addrs * page_size + left ≡ sg.len)
      × ((left < page_size) ⊎ (length addrs ≡ room))

  first_page :
      (k addr len : ℕ)
      → k + len ≡ sg.len
      → addr ≡ (sg.addr + k) % u64_mod
      → page_size ≤ len
      → IsPageAt page_size (sg ∷ sgs) k addr
  first_page k addr len e f h j q =
      let inside : ltb (k + j) sg.len ≡ true = ground arith in
      rw (inside, f) (ap some (omega arith))

  cons-TakenFrom :
      (room k addr : ℕ) (r : List ℕ × ℕ)
      → IsPageAt page_size (sg ∷ sgs) k addr
      → TakenFrom room (k + page_size) r
      → TakenFrom (suc room) k (cons_page addr r)
  cons-TakenFrom room k addr (addrs, left) page (pages, few, all, inl short) =
      ((page, pages), omega arith, omega arith, inl short)
  cons-TakenFrom room k addr (addrs, left) page (pages, few, all, inr full) =
      ((page, pages), omega arith, omega arith, inr (omega arith))

  pub take_pages-TakenFrom :
      (room k addr len : ℕ)
      → k + len ≡ sg.len
      → addr ≡ (sg.addr + k) % u64_mod
      → TakenFrom room k (take_pages page_size room addr len)
  unfolding take_pages
  take_pages-TakenFrom zero k addr len e f = (tt, omega arith, omega arith, inr refl)
  take_pages-TakenFrom (suc room) k addr len e f = elim (Bool-cases (ltb len page_size)) [
    | inl short ↦ rw short (tt, omega arith, omega arith, inl (ground arith))
    | inr enough ↦ rw enough (
        cons-TakenFrom room k addr _ (first_page k addr len e f (ground arith)) (
          take_pages-TakenFrom room (k + page_size) ((addr + page_size) % u64_mod) (len - page_size)
            (ground arith) (omega arith)))
  ]

  -- the pages of the rest of the list, seen from its start
  behind :
      (k : ℕ) (addrs : List ℕ)
      → PagesAt page_size sgs k addrs
      → PagesAt page_size (sg ∷ sgs) (sg.len + k) addrs
  behind k [] p = tt
  behind k (a ∷ addrs) (page, pages) = (
    λ j q.
        let outside : ltb (sg.len + k + j) sg.len ≡ false = ground arith in
        rw outside (ap (byte_address sgs) (omega arith) ∙ page j q),
    pages_moved page_size (sg ∷ sgs) addrs (omega arith) (behind (k + page_size) addrs pages),
  )

  more_pages-Flattened :
      (room missing offset : ℕ) (addrs : List ℕ) (r : ℕ × List ℕ)
      → PagesAt page_size (sg ∷ sgs) offset addrs
      → offset + length addrs * page_size ≡ sg.len
      → length addrs + missing ≡ room
      → Flattened page_size sgs missing 0 r
      → Flattened page_size (sg ∷ sgs) room offset (more_pages addrs r)
  more_pages-Flattened room missing offset addrs (err, after) pages e f (later, ends) = (
    PagesAt-append page_size (sg ∷ sgs) offset sg.len addrs after pages e
        (pages_moved page_size (sg ∷ sgs) after (omega arith) (behind 0 after later)),
    both ends,
  )
    where
      both :
          ((err ≡ 0) × (length after ≡ missing)) ⊎ ((err ≡ einval) × (length after < missing))
          → ((err ≡ 0) × (length (addrs ++ after) ≡ room))
            ⊎ ((err ≡ einval) × (length (addrs ++ after) < room))
      both (inl (ok, all)) = inl (ok, omega (arith, length-append addrs after))
      both (inr (bad, part)) = inr (bad, omega (arith, length-append addrs after))

  entry_done-Flattened :
      (room offset : ℕ) (r : List ℕ × ℕ) (rest : ℕ → ℕ × List ℕ)
      → TakenFrom room offset r
      → ((missing : ℕ) → Flattened page_size sgs missing 0 (rest missing))
      → Flattened page_size (sg ∷ sgs) room offset (entry_done room r rest)
  entry_done-Flattened room offset (addrs, left) rest (pages, few, all, stops) later =
      elim (Bool-cases (ltb 0 left && ltb 0 (room - length addrs))) [
        | inl residual ↦ rw residual (pages, inr (refl, ground arith))
        | inr whole ↦ elim (Bool-cases (room - length addrs == 0)) [
          | inl complete ↦ rw (whole, complete) (pages, inl (refl, ground arith))
          | inr part ↦
              rw (whole, part)
                (more_pages-Flattened room (room - length addrs) offset addrs
                  (rest (room - length addrs)) pages (ground arith) (omega arith)
                  (later (room - length addrs)))
        ]
      ]

-- Whatever the entries are, the addresses that `sg_flatten_to_addrs` writes are those of the
-- buffer's pages from the offset on, each of which is ctrl_page_size device bytes in a row; it
-- returns 0 with as many as were expected, or -EINVAL with fewer.
pub flatten-Flattened :
    (page_size : ℕ) (sgs : List Sg) (room offset : ℕ)
    → Flattened page_size sgs room offset (flatten page_size sgs room offset)
unfolding flatten
flatten-Flattened page_size [] room offset = elim (Bool-cases (room == 0)) [
  | inl none_left ↦ rw none_left (tt, inl (refl, ground arith))
  | inr some_left ↦ rw some_left (tt, inr (refl, ground arith))
]
flatten-Flattened page_size (sg ∷ sgs) room offset =
    elim (Bool-cases (ltb 0 offset && leb sg.len offset)) [
      | inl skip ↦ rw skip (
        pages_moved page_size (sg ∷ sgs) (flatten page_size sgs room (offset - sg.len)).1
            (ground arith)
            (behind page_size sg sgs (offset - sg.len) _
              (flatten-Flattened page_size sgs room (offset - sg.len)).0),
        (flatten-Flattened page_size sgs room (offset - sg.len)).1,
      )
      | inr use_it ↦ rw use_it (
          entry_done-Flattened page_size sg sgs room offset _ _
            (take_pages-TakenFrom page_size sg sgs room offset ((sg.addr + offset) % u64_mod)
              (sg.len - offset) (ground arith) refl)
            (λ missing. flatten-Flattened page_size sgs missing 0))
    ]
