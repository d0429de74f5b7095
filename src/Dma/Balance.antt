-- ===== src/Dma/Balance.antt =====
-- What src/libnvm/dma.cpp takes for a mapping it gives back: on each failure, and at the unmapping.
use u_gds.Prelude.{
  ℕ, ◌+◌, ◌-◌, ◌*◌, ◌%◌, ◌<◌, ◌≡◌, ◌≢◌, refl, Bool, true, false, Bool-cases, not, ◌||◌, ◌⊎◌, inl,
  inr, Option, none, some, List, ◌==◌, u64_mod, length, arith,
}
use u_gds.Queue.{einval}
use u_gds.Dma.{Dma, VaRange, populate_handle}
use u_gds.Dma.Populate.{populate_handle-lists}
use u_gds.Dma.Lifetime.{
  Held, Map, Host, create_map, remove_map, create_container, mapped_handle, dma_map, init_mapped,
  init_contained, init_created, dma_init, put_map, dma_unmap, enomem,
}

-- as much is held as before
abbrev pub Same : Held → Held → Type 0
Same h k =
    (h.ctrl_refs ≡ k.ctrl_refs)
    × (h.maps ≡ k.maps)
    × (h.containers ≡ k.containers)
    × (h.mapped ≡ k.mapped)
    × (h.ranges ≡ k.ranges)

-- one mapping more is held than before, with its handle
abbrev pub OneMore : Held → Held → Type 0
OneMore h k =
    (h.ctrl_refs ≡ k.ctrl_refs + 1)
    × (h.maps ≡ k.maps + 1)
    × (h.containers ≡ k.containers + 1)
    × (h.mapped ≡ k.mapped + 1)
    × (h.ranges ≡ k.ranges)

-- Without a handle there is an errno and as much is held as before; with one, one mapping more, and
-- to unmap the handle gives it back and the range with it.
abbrev pub Balanced : Held → Option (ℕ × Option (Map × Dma) × Held) → Type 0
Balanced k none = ⊥
Balanced k (some (err, none, h)) = (err ≢ 0) × Same h k
Balanced k (some (err, some (md, dma), h)) =
    (err ≡ 0)
    × OneMore h k
    × ((dma_unmap md h).0 ≡ none)
    × Same (dma_unmap md h).1 (record k { ranges = k.ranges - 1 })

option_cases : {A : Type 0} (o : Option A) → (o ≡ none) ⊎ ((a : A) × (o ≡ some a))
option_cases none = inl refl
option_cases (some a) = inr (a, refl)

module _ (host : Host) (ctrl_page : ℕ) (va : VaRange) (k : Held) where
  -- what `create_map` and `create_container` leave
  module _ (h : Held) (refs : h.ctrl_refs ≡ k.ctrl_refs + 1) (maps : h.maps ≡ k.maps + 1)
      (boxes : h.containers ≡ k.containers + 1) (mapped : h.mapped ≡ k.mapped)
      (ranges : h.ranges ≡ k.ranges) where
    md : Map
    md = record { count = 1; va = va; can_unmap = false }

    failed : (err : ℕ) → err ≢ 0 → Balanced k (init_mapped (some (err, none, h)))
    unfolding remove_map
    failed err ne = (ne, (omega arith, omega arith, omega arith, mapped, ranges))

    unmapped :
        (dma : Dma)
        → Balanced k (
            some
              (0, some (record md { can_unmap = true }, dma), record h { mapped = h.mapped + 1 }))
    unfolding dma_unmap put_map remove_map md
    unmapped dma = (
      refl,
      (refs, maps, boxes, omega arith, ranges),
      refl,
      (omega arith, omega arith, omega arith, omega arith, omega arith),
    )

    answered :
        (err : ℕ) (ioaddrs : List ℕ)
        → (err ≡ 0
            → (dma : Dma) × (populate_handle va ctrl_page (not va.remote) ioaddrs ≡ some dma))
        → Balanced k (init_mapped (mapped_handle ctrl_page md h (err, ioaddrs)))
    unfolding md
    answered err ioaddrs fills = elim (Bool-cases (err == 0)) [
      | inr bad ↦ rw bad (failed err (ground arith))
      | inl good ↦ let (dma, e) = fills (ground arith) in rw (good, e) (unmapped dma)
    ]

    -- the back end maps the range, or says why not
    module _
        (fills : (f : VaRange → ℕ × List ℕ)
          → host.map_range ≡ some f
          → (f va).0 ≡ 0
          → (dma : Dma) × (populate_handle va ctrl_page (not va.remote) (f va).1 ≡ some dma)) where
      dma_map-Balanced : Balanced k (init_mapped (dma_map host ctrl_page md h))
      unfolding dma_map md
      dma_map-Balanced = elim (option_cases host.map_range) [
        | inl unsupported ↦ rw unsupported (failed einval (λ e. absurd (omega (arith, e))))
        | inr (f, e) ↦ elim (Bool-cases host.addresses_memory) [
          | inl had ↦ rw (e, had) (answered (f va).0 (f va).1 (fills f e))
          | inr none_had ↦ rw (e, none_had) (failed enomem (λ e. absurd (omega (arith, e))))
        ]
      ]

  module _
      (fills : (f : VaRange → ℕ × List ℕ)
        → host.map_range ≡ some f
        → (f va).0 ≡ 0
        → (dma : Dma) × (populate_handle va ctrl_page (not va.remote) (f va).1 ≡ some dma)) where
    contained :
        (h : Held)
        → h.ctrl_refs ≡ k.ctrl_refs + 1
        → h.maps ≡ k.maps + 1
        → h.containers ≡ k.containers
        → h.mapped ≡ k.mapped
        → h.ranges ≡ k.ranges
        → Balanced k (
            init_contained host ctrl_page
              (record { count = 1; va = va; can_unmap = false })
              (create_container host ctrl_page
                (record { count = 1; va = va; can_unmap = false })
                h))
    unfolding create_container remove_map md dma_map
    contained h refs maps boxes mapped ranges =
        elim (Bool-cases (
          va.page_size == 0
          || va.n_pages == 0
          || not (va.page_size * va.n_pages % u64_mod % ctrl_page == 0))) [
            | inl uneven ↦ rw uneven (
              (λ e. absurd (omega (arith, e))),
              (omega arith, omega arith, boxes, mapped, ranges),
            )
            | inr even ↦ elim (Bool-cases host.container_memory) [
              | inr none_had ↦
                  rw (even, none_had)
                    (
                      (λ e. absurd (omega (arith, e))),
                      (omega arith, omega arith, boxes, mapped, ranges),
                    )
              | inl had ↦
                  rw (even, had)
                    (dma_map-Balanced (record h { containers = h.containers + 1 }) refs maps
                      (omega arith) mapped ranges fills)
            ]
          ]

    create_map-Balanced : Balanced k (init_created host ctrl_page (create_map host va k))
    unfolding create_map create_container dma_map
    create_map-Balanced = elim (Bool-cases host.ctrl_ref) [
      | inr refused ↦ rw refused ((λ e. absurd (omega (arith, e))), (refl, refl, refl, refl, refl))
      | inl ref ↦ elim (Bool-cases (host.map_errno == 0)) [
        | inr no_memory ↦ rw (ref, no_memory) (ground arith, (omega arith, refl, refl, refl, refl))
        | inl memory ↦ elim (Bool-cases (host.mutex == 0)) [
          | inr bad ↦ rw (ref, memory, bad) (ground arith, (omega arith, refl, refl, refl, refl))
          | inl good ↦
              rw (ref, memory, good)
                (contained (record k { ctrl_refs = k.ctrl_refs + 1; maps = k.maps + 1 }) refl refl
                  refl refl refl)
        ]
      ]
    ]

  -- For a back end that gives one address for each page of a range that it maps, and a range
  -- without overflow in 64 bits, `_nvm_dma_init` takes one controller reference, one mapping
  -- descriptor, one container and one mapping when it hands out a handle, which `nvm_dma_unmap` of
  -- that handle gives back with the range; and on every failure it returns an
  -- errno and holds nothing more than before.
  pub dma_init-Balanced :
      (has_release : Bool)
      → 0 < ctrl_page
      → 0 < va.page_size
      → va.page_size * va.n_pages < u64_mod
      → ((f : VaRange → ℕ × List ℕ)
          → host.map_range ≡ some f
          → (f va).0 ≡ 0
          → length (f va).1 ≡ va.n_pages)
      → Balanced k (dma_init host ctrl_page va has_release k)
  unfolding dma_init
  dma_init-Balanced false p q wrap given =
      (λ e. absurd (omega (arith, e)), (refl, refl, refl, refl, refl))
  dma_init-Balanced true p q wrap given = create_map-Balanced (λ f e good.
      let lists =
        populate_handle-lists va ctrl_page (not va.remote) (f va).1 p q (given f e good) wrap in
      (lists.0, lists.1))
