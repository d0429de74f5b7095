-- ===== src/Device/Pages.antt =====
-- The addresses of a host mapping from the kernel module to the library, when nothing fails.
use mathlib.Core.List.{append-nil}
use u_gds.Prelude.{
  ℕ, zero, suc, ◌+◌, ◌*◌, ◌/◌, ◌<◌, ◌≡◌, refl, sym, ap, ◌∙◌, Bool, true, false, none, some, List,
  [], ◌∷◌, ◌++◌, ltb, ◌==◌, if◌then◌else◌, length, take, drop, replicate, length-replicate, u64_mod,
  arith,
}
use u_gds.Queue.{einval}
use u_gds.Dma.{Dma, populate_handle}
use u_gds.Dma.Populate.{AddressesOf, all_follow, populate_handle-lists}
use u_gds.Kernel.Resources.{memory, page, take as take_held}
use u_gds.Kernel.Mapping.{
  pinned, set_page_size, new_map, align_down, enlist, with_pages, refused, userspace_described,
  described, dma_map_pages, map_userspace, page_bytes,
}
use u_gds.Kernel.Dmabuf.{DmabufAnswers}
use u_gds.Kernel.Ioctl.{Module, map_ioctl, host_mapped}
use u_gds.Device.{IoctlMapping, filled, call_map_host, Ioctl, map_type_host, new_mapping, ioctl_map}
use u_gds.Device.Calls.{Backend, System}
use u_gds.Device.Answers.{Served, kernel_ioctl}

-- the addresses that `dma_map_page` answers for n pages from i on
unfoldable pub page_addresses : (dma_map_page : ℕ → ℕ × ℕ) → (n i : ℕ) → List ℕ
page_addresses dma_map_page zero i = []
page_addresses dma_map_page (suc n) i = (dma_map_page i).0 ∷ page_addresses dma_map_page n (i + 1)

length-page_addresses : (f : ℕ → ℕ × ℕ) (n i : ℕ) → length (page_addresses f n i) ≡ n
unfolding page_addresses
length-page_addresses f zero i = refl
length-page_addresses f (suc n) i = ap suc (length-page_addresses f n (i + 1))

-- A library whose calls all succeed, on a controller with pages of the system's size
abbrev pub willing : Backend → (ioaddrs : ℕ) → Ioctl → System
willing backend ioaddrs ioctl = record {
  backend = backend;
  is_ioctl_device = true;
  ctrl_page = page_bytes;
  memalign_errno = 0;
  memalign_buffer = 0;
  malloc_errno = 0;
  ioaddrs = ioaddrs;
  ioctl = ioctl;
  host = record {
    ctrl_ref = true;
    map_errno = 0;
    mutex = 0;
    container_memory = true;
    addresses_memory = true;
    map_range = none;
  };
}

-- a system that pins n pages, for a descriptor at node
abbrev pub serving : (task node n : ℕ) → (dma_map_page : ℕ → ℕ × ℕ) → DmabufAnswers → Served
serving task node n dma_map_page dmabuf = record {
  kvmalloc = λ _. some node;
  task = task;
  copied_in = true;
  copied_out = true;
  invalid = false;
  user = record {
    page_array = true;
    vmalloced = false;
    get_user_pages = pinned n;
    dma_map_page = dma_map_page;
  };
  dmabuf = dmabuf;
}

module _ (f : ℕ → ℕ × ℕ) (ok : (i : ℕ) → (f i).1 ≡ 0) where
  pages_mapped : (n i : ℕ) → dma_map_pages f n i (replicate n 0) ≡ (0, (page_addresses f n i, n))
  unfolding dma_map_pages page_addresses
  pages_mapped zero i = refl
  pages_mapped (suc n) i =
      let good : ((f i).1 == 0) ≡ true = ground (arith, ok i) in
      rw (good, pages_mapped n (i + 1))
        (ap (λ k. (0, (page_addresses f (suc n) i, k))) (omega arith))

  take_all : (xs : List ℕ) → take (length xs) xs ≡ xs
  take_all [] = refl
  take_all (x ∷ xs) = ap (λ ys. x ∷ ys) (take_all xs)

  drop_all : (xs : List ℕ) → drop (length xs) xs ≡ []
  drop_all [] = refl
  drop_all (x ∷ xs) = drop_all xs

  -- the kernel's answer
  module_answers :
      (task node n vaddr : ℕ) (dmabuf : DmabufAnswers) (s : Module)
      → kernel_ioctl (serving task node (suc n) f dmabuf) s (call_map_host vaddr (suc n))
        ≡ (0, page_addresses f (suc n) 0)
  unfolding map_ioctl map_userspace
  module_answers task node n vaddr dmabuf s =
      let h = take_held memory 1 (take_held memory 1 s.held) in
      let start =
        set_page_size page_bytes (new_map task (align_down page_bytes vaddr) (suc n) node) in
      let whole : length (page_addresses f (suc n) 0) ≡ suc n = length-page_addresses f (suc n) 0 in
      let some_pages : ltb (suc n) 1 ≡ false = ground arith in
      let mapping =
        userspace_described (serving task node (suc n) f dmabuf).user
          (described task (align_down page_bytes vaddr) (suc n) (some node) s.held) s.host_list in
      ap
        (λ b.
          (host_mapped true s (if b then (refused einval, (s.host_list, s.held)) else mapping)).0)
        some_pages
      ∙ ap
          (λ r.
            (host_mapped true s
              (enlist (with_pages start (suc n) r (take_held page (suc n) h)) s.host_list)).0)
          (pages_mapped (suc n) 0)
      ∙ ap (λ xs. (zero, xs))
          (ap (λ k. take k (page_addresses f (suc n) 0)) (sym whole)
            ∙ take_all (page_addresses f (suc n) 0))

  module _ (hip : Bool) (ioaddrs task node n vaddr : ℕ) (dmabuf : DmabufAnswers) (s : Module) where
    abbrev pub ioctl : Ioctl
    ioctl = kernel_ioctl (serving task node (suc n) f dmabuf) s

    -- the descriptor of `nvm_dma_map_host`
    abbrev pub host_mapping : IoctlMapping
    host_mapping = new_mapping page_bytes map_type_host vaddr (suc n)

    pub array_of_addresses :
        ioctl_map ioctl hip ioaddrs host_mapping ≡ (0, page_addresses f (suc n) 0)
    unfolding ioctl_map
    array_of_addresses =
        let xs = page_addresses f (suc n) 0 in
        let zeros : List ℕ = replicate (suc n) 0 in
        let same : length xs ≡ length zeros =
          length-page_addresses f (suc n) 0 ∙ sym (length-replicate (suc n) zero) in
        ap (filled (suc n)) (module_answers task node n vaddr dmabuf s)
        ∙ ap (λ ys. (zero, ys))
            (ap (λ k. xs ++ drop k zeros) same
              ∙ (ap (λ ys. xs ++ ys) (drop_all zeros) ∙ append-nil xs))

    pub handle_listed :
        page_bytes * suc n < u64_mod
        → (dma : Dma) × (populate_handle host_mapping.range page_bytes true
              (page_addresses f (suc n) 0)
            ≡ some dma)
          × (dma.page_size ≡ page_bytes)
          × (length dma.ioaddrs ≡ page_bytes * suc n / page_bytes)
          × (dma.n_ioaddrs ≡ length dma.ioaddrs)
          × (dma.contiguous ≡ all_follow page_bytes none dma.ioaddrs)
          × AddressesOf page_bytes page_bytes (page_addresses f (suc n) 0) 0 dma.ioaddrs
    handle_listed fits =
        populate_handle-lists host_mapping.range page_bytes true (page_addresses f (suc n) 0)
          (omega arith) (omega arith) (length-page_addresses f (suc n) 0) fits
