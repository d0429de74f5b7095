-- ===== src/Device/Whole.antt =====
-- `nvm_dma_map_host` from the library down to the pages that the kernel module maps for the device.
use u_gds.Prelude.{
  ℕ, suc, ◌+◌, ◌-◌, ◌*◌, ◌/◌, ◌%◌, ◌≤◌, ◌<◌, ◌≡◌, refl, sym, ap, ◌∙◌, true, false, ◌||◌, not, none,
  some, ◌==◌, length, u64_mod, arith,
}
use mathlib.Core.Path.{subst}
use u_gds.Dma.{Dma, populate_handle}
use u_gds.Dma.Populate.{AddressesOf, all_follow}
use u_gds.Dma.Lifetime.{
  Held, Map, init_contained, init_mapped, mapped_handle, dma_init, create_map, create_container,
  dma_map,
}
use u_gds.Kernel.Mapping.{page_bytes}
use u_gds.Kernel.Dmabuf.{DmabufAnswers}
use u_gds.Kernel.Ioctl.{Module}
use u_gds.Device.{
  IoctlMapping, Kept, map_type_host, new_mapping, page_align, create_mapping_descriptor,
}
use u_gds.Device.Calls.{
  Outcome, Backend, is_hip, System, dma_map_host, host_for, dma_inited, init_descriptor,
}
use u_gds.Device.Answers.{kernel_ioctl}
use u_gds.Device.Pages.{page_addresses, willing, serving, array_of_addresses, handle_listed}

module _ (f : ℕ → ℕ × ℕ) (ok : (i : ℕ) → (f i).1 ≡ 0) where
  module _ (backend : Backend) (ioaddrs task node n vaddr : ℕ) (dmabuf : DmabufAnswers) (s : Module)
      (k : Kept) (dma : Dma) (fits : page_bytes * suc n < u64_mod)
      (populated : populate_handle
          (new_mapping page_bytes map_type_host vaddr (suc n)).range
          page_bytes
          true
          (page_addresses f (suc n) 0)
        ≡ some dma) where
    abbrev made : IoctlMapping
    made = new_mapping page_bytes map_type_host vaddr (suc n)

    abbrev sys : System
    sys = willing backend ioaddrs (kernel_ioctl (serving task node (suc n) f dmabuf) s)

    abbrev unmapped : Map
    unmapped = record { count = 1; va = made.range; can_unmap = false }

    container_made :
        (h : Held)
        → create_container (host_for sys made) page_bytes unmapped h
          ≡ (0, record h { containers = h.containers + 1 })
    unfolding create_container
    container_made h =
        let even : (page_bytes == 0
              || suc n == 0
              || not (page_bytes * suc n % u64_mod % page_bytes == 0))
            ≡ false =
          ground arith in
        rw even refl

    range_mapped :
        (h : Held)
        → dma_map (host_for sys made) page_bytes unmapped h
          ≡ some (
            0,
            some (record unmapped { can_unmap = true }, dma),
            record h { mapped = h.mapped + 1 },
          )
    unfolding dma_map
    range_mapped h =
        ap (mapped_handle page_bytes unmapped h)
          (array_of_addresses f ok (is_hip backend) ioaddrs task node n vaddr dmabuf s)
        ∙ rw populated refl

    handle_made :
        (j : Kept) × (init_descriptor sys made k
          ≡ some (0, some (made, (record unmapped { can_unmap = true }, dma)), j))
    unfolding dma_init create_map
    handle_made =
        let h : Held = record k.held { ctrl_refs = k.held.ctrl_refs + 1; maps = k.held.maps + 1 } in
        (
          _,
          ap (λ r. dma_inited made k (init_contained (host_for sys made) page_bytes unmapped r))
                (container_made h)
              ∙ ap (λ r. dma_inited made k (init_mapped r))
                  (range_mapped (record h { containers = h.containers + 1 })),
        )

-- the handle of `nvm_dma_map_host` for n pages of a buffer: it lists their addresses
abbrev pub IsListed : (f : ℕ → ℕ × ℕ) → (vaddr n : ℕ) → Outcome → Type 0
IsListed f vaddr n r =
    (m : IoctlMapping) × (md : Map) × (dma : Dma) × (j : Kept) × (r
      ≡ some (0, some (m, (md, dma)), j))
    × (m.buffer ≡ vaddr)
    × (length dma.ioaddrs ≡ n)
    × (dma.contiguous ≡ all_follow page_bytes none dma.ioaddrs)
    × AddressesOf page_bytes page_bytes (page_addresses f n 0) 0 dma.ioaddrs

module _ (backend : Backend) (f : ℕ → ℕ × ℕ) (ioaddrs task node vaddr size : ℕ)
    (dmabuf : DmabufAnswers) (s : Module) (k : Kept) where
  abbrev pub mapped_host : ℕ → Outcome
  mapped_host n =
      dma_map_host (willing backend ioaddrs (kernel_ioctl (serving task node n f dmabuf) s)) vaddr
        size k

  described_host :
      (n : ℕ)
      → page_align size page_bytes ≡ page_bytes * suc n
      → page_bytes * suc n < u64_mod
      → mapped_host (suc n)
        ≡ init_descriptor
            (willing backend ioaddrs (kernel_ioctl (serving task node (suc n) f dmabuf) s))
            (new_mapping page_bytes map_type_host vaddr (suc n))
            (record k { held = record k.held { ranges = k.held.ranges + 1 } })
  unfolding dma_map_host create_mapping_descriptor
  described_host n aligned fits =
      let some_pages : (page_bytes * suc n == 0) ≡ false = ground arith in
      let again : page_align (page_bytes * suc n) page_bytes / page_bytes ≡ suc n = omega arith in
      let some_again : (suc n == 0) ≡ false = ground arith in
      rw (aligned, some_pages, again, some_again) refl

  aligned-IsListed :
      ((i : ℕ) → (f i).1 ≡ 0)
      → (n : ℕ) → page_align size page_bytes ≡ page_bytes * suc n
      → page_bytes * suc n < u64_mod
      → IsListed f vaddr (suc n) (mapped_host (suc n))
  aligned-IsListed ok n aligned fits =
      let (dma, populated, paged, size_of, counted, joined, listed) =
        handle_listed f ok (is_hip backend) ioaddrs task node n vaddr dmabuf s fits in
      let kept : Kept = record k { held = record k.held { ranges = k.held.ranges + 1 } } in
      let (j, made) =
        handle_made f ok backend ioaddrs task node n vaddr dmabuf s kept dma fits populated in
      (
        new_mapping page_bytes map_type_host vaddr (suc n),
        _,
        dma,
        j,
        described_host n aligned fits ∙ made,
        refl,
        size_of ∙ omega arith,
        joined,
        listed,
      )

  -- For a controller and a system whose pages both have 4096 bytes, and a buffer of at least one
  -- byte that starts at a page boundary, without overflow in 64 bits: when nothing fails and the
  -- system pins the pages of the buffer, `nvm_dma_map_host` answered by the kernel module returns 0
  -- and a handle for the buffer. It lists one address for each page, the one that `dma_map_page`
  -- gave for that page, and says that they are contiguous exactly when each follows the one before
  -- it; the pages listed are those that hold a byte of the buffer, all of them and no other.
  pub dma_map_host-IsListed :
      ((i : ℕ) → (f i).1 ≡ 0)
      → 0 < size
      → size + page_bytes ≤ u64_mod
      → vaddr % page_bytes ≡ 0
      → let n = (size + page_bytes - 1) / page_bytes in
        IsListed f vaddr n (mapped_host n)
        × ((o : ℕ) → o < size → (vaddr + o) / page_bytes < vaddr / page_bytes + n)
        × ((p : ℕ)
            → vaddr / page_bytes ≤ p
            → p < vaddr / page_bytes + n
            → (o : ℕ) × (o < size) × ((vaddr + o) / page_bytes ≡ p))
  dma_map_host-IsListed ok some_bytes fits aligned =
      let n = (size + page_bytes - 1) / page_bytes in
      let last : n ≡ suc (n - 1) = omega arith in
      (
        subst (λ i. IsListed f vaddr i (mapped_host i)) (sym last)
            (aligned-IsListed ok (n - 1) (omega arith) (omega arith)),
        λ o inside. omega arith,
        λ p low high. ((p - vaddr / page_bytes) * page_bytes, omega arith, omega arith),
      )
