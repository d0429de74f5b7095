-- ===== src/Kernel/Flatten/Enough.antt =====
-- `sg_flatten_to_addrs` succeeds on a buffer of whole pages that is large enough.
use u_gds.Prelude.{
  ℕ, zero, suc, ◌+◌, ◌-◌, ◌*◌, ◌%◌, ◌/◌, ◌≤◌, ◌<◌, ◌≡◌, refl, ◌∙◌, ap, sym, true, false, Bool-cases,
  ◌&&◌, inl, inr, List, [], ◌∷◌, ltb, leb, ◌==◌, length, u64_mod, arith, div_mod_parts, mod_bound,
}
use native.Mathlib.Nat.{add-mul-mod_self_right, mod-eq_of_lt, mul-mod_left}
use u_gds.Kernel.Flatten.{Sg, take_pages, more_pages, entry_done, flatten, sg_flatten_to_addrs}
use u_gds.Kernel.Flatten.Pages.{TakenFrom, take_pages-TakenFrom}

abbrev pub total_len : List Sg → ℕ
total_len [] = 0
total_len (sg ∷ sgs) = sg.len + total_len sgs

-- every entry is whole pages
abbrev pub IsWhole : (page_size : ℕ) → List Sg → Type 0
IsWhole page_size [] = Unit {0}
IsWhole page_size (sg ∷ sgs) = (sg.len % page_size ≡ 0) × IsWhole page_size sgs

-- a part of a whole number of pages behind a whole number of pages is none
no_part :
    (d n c left len : ℕ) → n % d ≡ 0 → len % d ≡ 0 → n + c * d + left ≡ len → left < d → left ≡ 0
no_part d n c left len e f g h =
    let n_parts : n / d * d ≡ n = omega (arith, div_mod_parts n d) in
    let k : ℕ = n / d + c in
    let sum : len ≡ left + k * d = omega arith in
    sym (mod-eq_of_lt h) ∙ sym (add-mul-mod_self_right left k d) ∙ ap (λ j. j % d) (sym sum) ∙ f

less_mod : (d n m : ℕ) → n % d ≡ 0 → m % d ≡ 0 → m ≤ n → 0 < d → (n - m) % d ≡ 0
less_mod d n m e f h p =
    no_part d m ((n - m) / d) ((n - m) % d) n f e (omega (arith, div_mod_parts (n - m) d))
      (mod_bound (n - m) d p)

zero_mod : (d : ℕ) → 0 % d ≡ 0
zero_mod d = ap (λ k. k % d) (omega arith) ∙ mul-mod_left 0 d

none_expected : (room d : ℕ) → 0 < d → room * d ≤ 0 → room ≡ 0
none_expected zero d p h = refl
none_expected (suc room) d p h = absurd (omega arith)

module _ (page_size : ℕ) (page_pos : 0 < page_size) where
  more_pages-zero : (addrs : List ℕ) (r : ℕ × List ℕ) → r.0 ≡ 0 → (more_pages addrs r).0 ≡ 0
  more_pages-zero addrs (err, after) e = e

  entry_done-zero :
      (sg : Sg) (sgs : List Sg) (room offset : ℕ) (r : List ℕ × ℕ) (rest : ℕ → ℕ × List ℕ)
      → TakenFrom page_size sg sgs room offset r
      → offset % page_size ≡ 0
      → sg.len % page_size ≡ 0
      → offset + room * page_size ≤ sg.len + total_len sgs
      → ((missing : ℕ) → missing * page_size ≤ total_len sgs → (rest missing).0 ≡ 0)
      → (entry_done room r rest).0 ≡ 0
  entry_done-zero sg sgs room offset (addrs, left) rest (_, few, all, inr full) o l enough later =
      let whole : (ltb 0 left && ltb 0 (room - length addrs)) ≡ false = ground arith in
      let complete : (room - length addrs == 0) ≡ true = ground arith in rw (whole, complete) refl
  entry_done-zero sg sgs room offset (addrs, left) rest (_, few, all, inl short) o l enough later =
      let empty : left ≡ 0 = no_part page_size offset (length addrs) left sg.len o l all short in
      let whole : (ltb 0 left && ltb 0 (room - length addrs)) ≡ false = ground arith in
      let parts : room * page_size ≡ (length addrs + (room - length addrs)) * page_size =
        ap (λ k. k * page_size) (omega arith) in
      elim (Bool-cases (room - length addrs == 0)) [
        | inl complete ↦ rw (whole, complete) refl
        | inr part ↦
            rw (whole, part)
              (more_pages-zero addrs (rest (room - length addrs))
                (later (room - length addrs) (omega arith)))
      ]

  -- For a page size that is not 0, entries of whole pages, an offset of whole pages and a buffer
  -- that holds the expected pages behind it, `sg_flatten_to_addrs` returns 0.
  pub flatten-zero :
      (sgs : List Sg) (room offset : ℕ)
      → IsWhole page_size sgs
      → offset % page_size ≡ 0
      → offset + room * page_size ≤ total_len sgs
      → (sg_flatten_to_addrs sgs room page_size offset).0 ≡ 0
  unfolding flatten
  flatten-zero [] room offset w o enough =
      let e : room ≡ 0 = none_expected room page_size page_pos (omega arith) in rw e refl
  flatten-zero (sg ∷ sgs) room offset (l, w) o enough =
      elim (Bool-cases (ltb 0 offset && leb sg.len offset)) [
        | inl skip ↦ rw skip (
            flatten-zero sgs room (offset - sg.len) w
              (less_mod page_size offset sg.len o l (ground arith) page_pos) (ground arith))
        | inr use_it ↦ rw use_it (
            entry_done-zero sg sgs room offset
              (take_pages page_size room ((sg.addr + offset) % u64_mod) (sg.len - offset))
              (λ missing. flatten page_size sgs missing 0)
              (take_pages-TakenFrom page_size sg sgs room offset ((sg.addr + offset) % u64_mod)
                (sg.len - offset) (ground arith) refl)
              o l enough
              (λ missing h. flatten-zero sgs missing 0 w (zero_mod page_size) (omega arith)))
      ]
