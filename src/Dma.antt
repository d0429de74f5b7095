-- ===== src/Dma.antt =====
-- The DMA descriptor of include/libnvm/nvm_types.h and how src/libnvm/dma.cpp fills it.
pub mod Populate
pub mod Lifetime
pub mod Balance
pub mod Given
mod Tests
use u_gds.Prelude.{
  ℕ, zero, suc, ◌+◌, ◌*◌, ◌/◌, ◌%◌, Bool, true, false, ◌&&◌, Option, none, some, List, [], ◌∷◌,
  ◌==◌, u64_mod, get_elem?,
}

-- `nvm_dma_t`
pub record Dma : Type 0 where
  pub vaddr : ℕ
  pub is_local : Bool
  pub contiguous : Bool
  pub page_size : ℕ
  pub n_ioaddrs : ℕ
  pub ioaddrs : List ℕ

-- `struct va_range`
pub record VaRange : Type 0 where
  pub remote : Bool
  pub vaddr : ℕ
  pub page_size : ℕ
  pub n_pages : ℕ

-- `n_ctrl_pages`
abbrev pub n_ctrl_pages : (ctrl_page page_size n_pages : ℕ) → ℕ
n_ctrl_pages ctrl_page page_size n_pages = page_size * n_pages % u64_mod / ctrl_page

-- the address of controller page i, in the page that holds it
abbrev pub page_address : (ctrl_page page_size i base : ℕ) → ℕ
page_address ctrl_page page_size i base = (base + i * ctrl_page % u64_mod % page_size) % u64_mod

-- whether an address follows the one before it, if there is one
abbrev pub follows : (ctrl_page : ℕ) → Option ℕ → ℕ → Bool
follows ctrl_page none a = true
follows ctrl_page (some prev) a = (prev + ctrl_page) % u64_mod == a

abbrev pub cons_address : ℕ → Option (List ℕ × Bool) → Option (List ℕ × Bool)
cons_address a none = none
cons_address a (some (xs, c)) = some (a ∷ xs, c)

-- the address of a page whose base is known, and those behind it
abbrev pub with_base : Option ℕ → (ℕ → Option (List ℕ × Bool)) → Option (List ℕ × Bool)
with_base none rest = none
with_base (some base) rest = rest base

-- The loop of `populate_handle` for the k controller pages from i on: the addresses, and whether
-- all are consecutive; `none` is a read past the addresses given.
unfoldable pub fill_addresses :
    (ctrl_page page_size : ℕ)
    → List ℕ
    → (k i : ℕ) → (prev : Option ℕ) → (contiguous : Bool) → Option (List ℕ × Bool)
fill_addresses ctrl_page page_size ioaddrs zero i prev contiguous = some ([], contiguous)
fill_addresses ctrl_page page_size ioaddrs (suc k) i prev contiguous =
    with_base (get_elem? ioaddrs (i * ctrl_page % u64_mod / page_size)) λ base.
      let a = page_address ctrl_page page_size i base in
      cons_address a (
        fill_addresses ctrl_page page_size ioaddrs k (i + 1) (some a)
          (contiguous && follows ctrl_page prev a))

abbrev pub handle_of : (va : VaRange) → (ctrl_page : ℕ) → (is_local : Bool) → List ℕ × Bool → Dma
handle_of va ctrl_page is_local (addresses, contiguous) = record {
  vaddr = va.vaddr;
  is_local = is_local;
  contiguous = contiguous;
  page_size = ctrl_page;
  n_ioaddrs = n_ctrl_pages ctrl_page va.page_size va.n_pages;
  ioaddrs = addresses;
}

abbrev pub option_map : {A B : Type 0} → (A → B) → Option A → Option B
option_map f none = none
option_map f (some a) = some (f a)

-- `populate_handle`, with the `local` that the handle has
unfoldable pub populate_handle : VaRange → (ctrl_page : ℕ) → (is_local : Bool) → List ℕ → Option Dma
populate_handle va ctrl_page is_local ioaddrs = option_map (handle_of va ctrl_page is_local) (
    fill_addresses ctrl_page va.page_size ioaddrs (n_ctrl_pages ctrl_page va.page_size va.n_pages) 0
      none true)
