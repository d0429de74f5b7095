-- ===== src/Dma/Populate.antt =====
-- The addresses of a DMA handle.
use u_gds.Prelude.{
  ℕ, zero, suc, ◌+◌, ◌*◌, ◌/◌, ◌%◌, ◌≤◌, ◌<◌, ◌≡◌, refl, ◌∙◌, ap, sym, Bool, true, false, ◌&&◌,
  Option, none, some, List, [], ◌∷◌, u64_mod, get_elem?, get_elem?-in, length, arith,
}
use native.Mathlib.Nat.{lt_of_mul-lt-mul_right, mul-le-mul_right, mod-eq_of_lt, div-mul-le_self}
use u_gds.Dma.{
  Dma, VaRange, n_ctrl_pages, page_address, follows, cons_address, with_base, fill_addresses,
  handle_of, option_map, populate_handle,
}

-- Each address follows the one before it.
abbrev pub all_follow : (ctrl_page : ℕ) → Option ℕ → List ℕ → Bool
all_follow ctrl_page prev [] = true
all_follow ctrl_page prev (a ∷ xs) = follows ctrl_page prev a && all_follow ctrl_page (some a) xs

and_true : (c : Bool) → c ≡ (c && true)
and_true true = refl
and_true false = refl

and_assoc : (a b c : Bool) → ((a && b) && c) ≡ (a && (b && c))
and_assoc true b c = refl
and_assoc false b c = refl

module _ (ctrl_page page_size : ℕ) (ioaddrs : List ℕ) where
  -- the addresses are those of the k controller pages from i on
  abbrev pub AddressesOf : (i : ℕ) → List ℕ → Type 0
  AddressesOf i [] = Unit {0}
  AddressesOf i (a ∷ xs) =
      ((base : ℕ) × (get_elem? ioaddrs (i * ctrl_page / page_size) ≡ some base)
        × (a ≡ (base + i * ctrl_page % page_size) % u64_mod))
      × AddressesOf (i + 1) xs

  -- what the loop gives
  abbrev pub Filled : (k i : ℕ) → Option ℕ → Bool → Option (List ℕ × Bool) → Type 0
  Filled k i prev c r =
      (xs : List ℕ) × (r ≡ some (xs, c && all_follow ctrl_page prev xs))
      × (length xs ≡ k)
      × AddressesOf i xs

  module _ (page_pos : 0 < page_size) (no_wrap : length ioaddrs * page_size < u64_mod) where
    in_page :
        (i : ℕ)
        → (i + 1) * ctrl_page ≤ length ioaddrs * page_size
        → 0 < ctrl_page
        → i * ctrl_page / page_size < length ioaddrs
    in_page i h p =
        lt_of_mul-lt-mul_right page_size (omega (arith, div-mul-le_self (i * ctrl_page) page_size))

    fill_addresses-Filled :
        (k i : ℕ) (prev : Option ℕ) (c : Bool)
        → 0 < ctrl_page
        → (i + k) * ctrl_page ≤ length ioaddrs * page_size
        → Filled k i prev c (fill_addresses ctrl_page page_size ioaddrs k i prev c)
    unfolding fill_addresses
    fill_addresses-Filled zero i prev c p h = ([], ap (λ b. some ([], b)) (and_true c), refl, tt)
    fill_addresses-Filled (suc k) i prev c p h =
        let up : (i + 1) * ctrl_page ≤ (i + suc k) * ctrl_page =
          mul-le-mul_right ctrl_page (omega arith) in
        let (base, found) =
          get_elem?-in ioaddrs (i * ctrl_page / page_size) (in_page i (omega arith) p) in
        let small : i * ctrl_page % u64_mod ≡ i * ctrl_page = mod-eq_of_lt (omega arith) in
        let a : ℕ = page_address ctrl_page page_size i base in
        let (xs, eq, len, of) =
          fill_addresses-Filled k (i + 1) (some a) (c && follows ctrl_page prev a) p
            (omega (arith, h)) in
        let same : get_elem? ioaddrs (i * ctrl_page % u64_mod / page_size) ≡ some base =
          ap (λ j. get_elem? ioaddrs (j / page_size)) small ∙ found in
        let here : a ≡ (base + i * ctrl_page % page_size) % u64_mod =
          ap (λ j. (base + j % page_size) % u64_mod) small in
        (
          a ∷ xs,
          ap
                (λ o. with_base o (λ b.
                  let d = page_address ctrl_page page_size i b in
                  cons_address d (
                    fill_addresses ctrl_page page_size ioaddrs k (i + 1) (some d)
                      (c && follows ctrl_page prev d))))
                same
              ∙ (ap (cons_address a) eq
                  ∙ ap (λ b. some (a ∷ xs, b))
                      (and_assoc c (follows ctrl_page prev a) (all_follow ctrl_page (some a) xs))),
          ap suc len,
          ((base, found, here), of),
        )

-- For controller pages that the range's pages and their addresses cover, without overflow in
-- 64 bits, `populate_handle` reads no address out of bounds: it lists one address for each
-- controller page, that of the page's first byte in the range, and says that they are contiguous
-- exactly when each follows the one before it.
pub populate_handle-lists :
    (va : VaRange) (ctrl_page : ℕ) (is_local : Bool) (ioaddrs : List ℕ)
    → 0 < ctrl_page
    → 0 < va.page_size
    → length ioaddrs ≡ va.n_pages
    → va.page_size * va.n_pages < u64_mod
    → (dma : Dma) × (populate_handle va ctrl_page is_local ioaddrs ≡ some dma)
      × (dma.page_size ≡ ctrl_page)
      × (length dma.ioaddrs ≡ va.page_size * va.n_pages / ctrl_page)
      × (dma.n_ioaddrs ≡ length dma.ioaddrs)
      × (dma.contiguous ≡ all_follow ctrl_page none dma.ioaddrs)
      × AddressesOf ctrl_page va.page_size ioaddrs 0 dma.ioaddrs
unfolding populate_handle
populate_handle-lists va ctrl_page is_local ioaddrs p q given wrap =
    let total : ℕ = va.page_size * va.n_pages in
    let fits : total % u64_mod ≡ total = mod-eq_of_lt wrap in
    let size : length ioaddrs * va.page_size ≡ total =
      ap (λ k. k * va.page_size) given ∙ omega arith in
    let count : n_ctrl_pages ctrl_page va.page_size va.n_pages ≡ total / ctrl_page =
      ap (λ k. k / ctrl_page) fits in
    let enough : (0 + n_ctrl_pages ctrl_page va.page_size va.n_pages) * ctrl_page
        ≤ length ioaddrs * va.page_size =
      omega (arith, ap (λ k. k * ctrl_page) count, div-mul-le_self total ctrl_page) in
    let (xs, eq, len, of) =
      fill_addresses-Filled ctrl_page va.page_size ioaddrs q (omega arith)
        (n_ctrl_pages ctrl_page va.page_size va.n_pages) 0 none true p enough in
    (
      handle_of va ctrl_page is_local (xs, all_follow ctrl_page none xs),
      ap (option_map (handle_of va ctrl_page is_local)) eq,
      refl,
      len ∙ count,
      sym len,
      refl,
      of,
    )
