-- ===== src/Kernel/Ioctl/Enlisted.antt =====
-- `map_userspace` and `map_dmabuf` keep the accounts of what the mappings hold.
use u_gds.Prelude.{
  ℕ, zero, suc, ◌+◌, ◌≤◌, ◌≡◌, refl, Bool, true, false, Bool-cases, either, inl, inr, Option, none,
  some, List, [], ◌∷◌, ◌++◌, ltb, ◌==◌, if◌then◌else◌, length, length-replicate, arith,
}
use u_gds.Kernel.Resources.{
  Resource, memory, page, dmabuf, attachment, pin, table, index, Held, take,
}
use u_gds.Kernel.Links.Segment.{NotIn, Distinct}
use u_gds.Kernel.Flatten.{sg_flatten_to_addrs}
use u_gds.Kernel.Mapping.{
  Alloc, Map, Region, Mapped, mapped, refused, UserAnswers, Pinned, pin_failed, pinned,
  map_userspace, map_user_pages, pages_pinned, with_pages, dma_map_pages, userspace_described,
  described, descriptor_bytes, new_map, set_page_size, page_bytes, align_down, enlist,
}
use u_gds.Kernel.Dmabuf.{DmabufAnswers, map_dmabuf, dmabuf_described, map_dmabuf_memory, flattened}
use u_gds.Kernel.Ioctl.Accounts.{
  owes, all_owe, nodes, IsAccounted, IsPending, release_pending, index_bound,
}

-- every page that is pinned is mapped for DMA, and no more pages are pinned than asked for
abbrev pub AtMost : ℕ → Pinned → Type 0
AtMost n (pin_failed errno) = Unit {0}
AtMost n (pinned m) = m ≤ n

abbrev pub IsMappable : ℕ → UserAnswers → Type 0
IsMappable n_pages answers =
    ((i : ℕ) → (answers.dma_map_page i).1 ≡ 0) × AtMost n_pages answers.get_user_pages

-- `kfree` gives the array of pages back where no page is pinned
abbrev pub IsArrayFreed : Pinned → (vmalloced : Bool) → Type 0
IsArrayFreed (pin_failed errno) vmalloced = vmalloced ≡ false
IsArrayFreed (pinned zero) vmalloced = vmalloced ≡ false
IsArrayFreed (pinned (suc n)) vmalloced = Unit {0}

-- an allocation is at none of the addresses of the list's descriptors
abbrev pub FreshIn : List ℕ → Option ℕ → Type 0
FreshIn xs none = Unit {0}
FreshIn xs (some node) = NotIn node xs

all_pages_mapped :
    (dma_map_page : ℕ → ℕ × ℕ) (n i : ℕ) (addrs : List ℕ)
    → ((j : ℕ) → (dma_map_page j).1 ≡ 0)
    → n ≤ length addrs
    → (dma_map_pages dma_map_page n i addrs).1.1 ≡ n
unfolding dma_map_pages
all_pages_mapped dma_map_page zero i addrs ok h = refl
all_pages_mapped dma_map_page (suc n) i [] ok h = absurd (omega arith)
all_pages_mapped dma_map_page (suc n) i (a ∷ addrs) ok h =
    let good : ((dma_map_page i).1 == 0) ≡ true = ground (arith, ok i) in
    rw good (omega (arith, all_pages_mapped dma_map_page n (i + 1) addrs ok (omega arith)))

bare_owes :
    (m : Map) (q : Resource)
    → m.region ≡ Region.no_region
    → owes q m ≡ (if index q == 0 then 1 else 0)
bare_owes m q f = rw f (omega arith)

module _ (k : Resource → ℕ) (ms : List Map) where
  -- a mapping at the end of the list, or accounts in order without it
  abbrev pub IsEnlisted : Mapped × (List Map × Held) → Type 0
  IsEnlisted (mapped m, (after, h)) =
      (after ≡ ms ++ (m ∷ []))
      × NotIn m.node (nodes ms)
      × ((q : Resource) → h.taken q ≡ h.given q + all_owe q ms + owes q m + k q)
  IsEnlisted (refused errno, after) = IsAccounted k after

  enlist_lem :
      (node : ℕ) (r : ℕ × (Map × Held))
      → NotIn node (nodes ms)
      → Distinct (nodes ms)
      → IsPending k ms node r.1
      → IsEnlisted (enlist r ms)
  enlist_lem node (err, (m, h)) p d (a, e) =
      let apart : NotIn m.node (nodes ms) = rw e p in
      either IsEnlisted (err == 0) _ _ (λ _. (refl, apart, a))
        (λ _. release_pending k ms m h apart d a)

  -- a descriptor without pages
  abbrev pub IsBare : ℕ → ℕ → Map × Held → Type 0
  IsBare node n_pages (m, h) =
      IsPending k ms node (m, h) × (m.region ≡ Region.no_region) × (length m.addrs ≡ n_pages)

  with_pages_lem :
      (node n : ℕ) (m : Map) (h : Held) (r : ℕ × (List ℕ × ℕ))
      → m.node ≡ node
      → m.region ≡ Region.no_region
      → ((q : Resource) → h.taken q ≡ h.given q + all_owe q ms + owes q m + k q)
      → r.1.1 ≡ n
      → IsPending k ms node (with_pages m n r (take page n (take memory 1 h))).1
  with_pages_lem node n m h (err, (addrs, count)) e f a g = (
    λ q.
        let bare : owes q m ≡ (if index q == 0 then 1 else 0) = bare_owes m q f in
        ground (arith, a q, bare),
    e,
  )

  pages_pinned_lem :
      (answers : UserAnswers) (node n_pages : ℕ) (m : Map) (h : Held) (pins : Pinned)
      → ((i : ℕ) → (answers.dma_map_page i).1 ≡ 0)
      → AtMost n_pages pins
      → IsArrayFreed pins answers.vmalloced
      → IsBare node n_pages (m, h)
      → IsPending k ms node (pages_pinned answers m pins (take memory 1 h)).1
  pages_pinned_lem answers node n_pages m h (pin_failed errno) ok few freed ((a, e), f, l) =
      rw freed (λ q. ground (arith, a q), e)
  pages_pinned_lem answers node n_pages m h (pinned zero) ok few freed ((a, e), f, l) =
      rw freed (λ q. ground (arith, a q), e)
  pages_pinned_lem answers node n_pages m h (pinned (suc n)) ok few freed ((a, e), f, l) =
      with_pages_lem node (suc n) m h (dma_map_pages answers.dma_map_page (suc n) 0 m.addrs) e f a
        (all_pages_mapped answers.dma_map_page (suc n) 0 m.addrs ok (omega arith))

  user_pages_lem :
      (answers : UserAnswers) (node n_pages : ℕ) (m : Map) (h : Held)
      → IsMappable n_pages answers
      → IsArrayFreed answers.get_user_pages answers.vmalloced
      → IsBare node n_pages (m, h)
      → IsPending k ms node (map_user_pages answers m h).1
  user_pages_lem answers node n_pages m h (ok, few) freed bare =
      either (λ (r : ℕ × (Map × Held)). IsPending k ms node r.1) answers.page_array _ _
        (λ _. pages_pinned_lem answers node n_pages m h answers.get_user_pages ok few freed bare)
        (λ _. bare.0)

  new_map_lem :
      (task vaddr n_pages node : ℕ) (h : Held)
      → ((q : Resource) → h.taken q ≡ h.given q + all_owe q ms + k q)
      → IsBare node n_pages
          (set_page_size page_bytes (new_map task vaddr n_pages node), take memory 1 h)
  new_map_lem task vaddr n_pages node h a =
      ((λ q. ground (arith, a q), refl), refl, length-replicate n_pages 0)

  user_described_lem :
      (answers : UserAnswers) (task vaddr n_pages : ℕ) (o : Option ℕ) (h : Held)
      → IsMappable n_pages answers
      → IsArrayFreed answers.get_user_pages answers.vmalloced
      → FreshIn (nodes ms) o
      → IsAccounted k (ms, h)
      → IsEnlisted (userspace_described answers (described task vaddr n_pages o h) ms)
  user_described_lem answers task vaddr n_pages none h good freed fresh v = v
  user_described_lem answers task vaddr n_pages (some node) h good freed fresh (a, d) =
      enlist_lem node _ fresh d (
        user_pages_lem answers node n_pages
          (set_page_size page_bytes (new_map task vaddr n_pages node)) (take memory 1 h) good freed
          (new_map_lem task vaddr n_pages node h a))

  pub userspace-IsEnlisted :
      (kvmalloc : Alloc) (answers : UserAnswers) (task vaddr n_pages : ℕ) (h : Held)
      → IsMappable n_pages answers
      → IsArrayFreed answers.get_user_pages answers.vmalloced
      → FreshIn (nodes ms) (kvmalloc (descriptor_bytes n_pages))
      → IsAccounted k (ms, h)
      → IsEnlisted (map_userspace kvmalloc answers task vaddr n_pages (ms, h))
  unfolding map_userspace
  userspace-IsEnlisted kvmalloc answers task vaddr n_pages h good freed fresh v =
      either IsEnlisted (ltb n_pages 1) _ _ (λ _. v)
        (λ _.
          user_described_lem answers task (align_down page_bytes vaddr) n_pages
            (kvmalloc (descriptor_bytes n_pages)) h good freed fresh v)

  flattened_lem :
      (node : ℕ) (m : Map) (h : Held) (r : ℕ × List ℕ)
      → m.node ≡ node
      → m.region ≡ Region.no_region
      → ((q : Resource) → h.taken q ≡ h.given q + all_owe q ms + owes q m + k q)
      → IsPending k ms node
          (flattened m r
            (take table 1 (take pin 1 (take attachment 1 (take dmabuf 1 (take memory 1 h)))))).1
  flattened_lem node m h (err, addrs) e f a = elim (Bool-cases (err == 0)) [
    | inl good ↦ rw good (
      λ q.
          let bare : owes q m ≡ (if index q == 0 then 1 else 0) = bare_owes m q f in
          ground (arith, a q, bare, index_bound q),
      e,
    )
    | inr bad ↦ rw bad (
      λ q.
          let bare : owes q m ≡ (if index q == 0 then 1 else 0) = bare_owes m q f in
          ground (arith, a q, bare),
      e,
    )
  ]

  dmabuf_memory_lem :
      (answers : DmabufAnswers) (node hsa_offset n_pages capacity : ℕ) (m : Map) (h : Held)
      → IsBare node n_pages (m, h)
      → IsPending k ms node (map_dmabuf_memory answers m hsa_offset n_pages capacity h).1
  dmabuf_memory_lem answers node hsa_offset n_pages capacity m h ((a, e), f, l) =
      let P : ℕ × (Map × Held) → Type 0 = λ r. IsPending k ms node r.1 in
      either P (ltb capacity n_pages) _ _ (λ _. (a, e))
        λ _.
          either P answers.region _ _
            (λ _.
              either P (ltb 0 answers.get) _ _ (λ _. (λ q. ground (arith, a q), e))
                λ _.
                  either P (ltb 0 answers.attach) _ _ (λ _. (λ q. ground (arith, a q), e))
                    λ _.
                      either P (ltb 0 answers.pinning) _ _ (λ _. (λ q. ground (arith, a q), e))
                        λ _.
                          either P (ltb 0 answers.mapping) _ _ (λ _. (λ q. ground (arith, a q), e))
                            (λ _.
                              flattened_lem node m h
                                (sg_flatten_to_addrs answers.sgt n_pages page_bytes hsa_offset) e f
                                a))
            (λ _. (a, e))

  dmabuf_described_lem :
      (answers : DmabufAnswers) (task vaddr hsa_offset n_pages capacity : ℕ) (o : Option ℕ)
      (h : Held)
      → FreshIn (nodes ms) o
      → IsAccounted k (ms, h)
      → IsEnlisted (
          dmabuf_described answers hsa_offset n_pages capacity
            (described task vaddr n_pages o h)
            ms)
  dmabuf_described_lem answers task vaddr hsa_offset n_pages capacity none h fresh v = v
  dmabuf_described_lem answers task vaddr hsa_offset n_pages capacity (some node) h fresh (a, d) =
      enlist_lem node _ fresh d (
        dmabuf_memory_lem answers node hsa_offset n_pages capacity
          (set_page_size page_bytes (new_map task vaddr n_pages node)) (take memory 1 h)
          (new_map_lem task vaddr n_pages node h a))

  pub dmabuf-IsEnlisted :
      (kvmalloc : Alloc) (answers : DmabufAnswers)
      (task gpu_ptr dmabuf_offset n_pages ioaddrs_capacity : ℕ) (h : Held)
      → FreshIn (nodes ms) (kvmalloc (descriptor_bytes n_pages))
      → IsAccounted k (ms, h)
      → IsEnlisted
          (map_dmabuf kvmalloc answers task gpu_ptr dmabuf_offset n_pages ioaddrs_capacity (ms, h))
  unfolding map_dmabuf
  dmabuf-IsEnlisted kvmalloc answers task gpu_ptr dmabuf_offset n_pages ioaddrs_capacity h fresh v =
      either IsEnlisted (ltb n_pages 1) _ _ (λ _. v)
        (λ _.
          dmabuf_described_lem answers task gpu_ptr dmabuf_offset n_pages ioaddrs_capacity
            (kvmalloc (descriptor_bytes n_pages)) h fresh v)
