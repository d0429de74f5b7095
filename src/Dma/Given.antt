-- ===== src/Dma/Given.antt =====
-- `nvm_dma_map` of src/libnvm/dma.cpp: a handle for addresses that the caller gives.
use u_gds.Prelude.{
  ℕ, ◌+◌, ◌-◌, ◌*◌, ◌/◌, ◌%◌, ◌<◌, ◌≡◌, ◌≢◌, refl, Bool, true, false, not, ◌||◌, Bool-cases, either,
  inl, inr, Option, none, some, List, ◌==◌, if◌then◌else◌, u64_mod, length, arith,
}
use u_gds.Queue.{einval}
use u_gds.Dma.{Dma, VaRange, populate_handle}
use u_gds.Dma.Populate.{AddressesOf, all_follow, populate_handle-lists}
use u_gds.Dma.Lifetime.{
  Held, Map, Host, create_map, remove_map, create_container, put_map, dma_unmap, enomem,
}
use u_gds.Dma.Balance.{Same}

abbrev pub GivenOutcome : Type 0
GivenOutcome = Option (ℕ × Option (Map × Dma) × Held)

-- `free` of the range
abbrev pub free_range : Held → Held
free_range held = record held { ranges = held.ranges - 1 }

abbrev pub given_populated : Map → Held → Option Dma → GivenOutcome
given_populated md held none = none
given_populated md held (some dma) = some (0, some (md, dma), held)

-- the steps of `nvm_dma_map` after `create_container`, and after `create_map`
abbrev pub given_contained : (ctrl_page : ℕ) → Map → (ioaddrs : List ℕ) → ℕ × Held → GivenOutcome
given_contained ctrl_page md ioaddrs (err, held) =
    if not (err == 0)
    then some (err, none, free_range (remove_map held))
    else given_populated md held (populate_handle md.va ctrl_page (not md.va.remote) ioaddrs)

abbrev pub given_created :
    Host → (ctrl_page : ℕ) → (ioaddrs : List ℕ) → ℕ × Option Map × Held → GivenOutcome
given_created host ctrl_page ioaddrs (err, none, held) = some (err, none, free_range held)
given_created host ctrl_page ioaddrs (err, some md, held) =
    given_contained ctrl_page md ioaddrs (create_container host ctrl_page md held)

-- `nvm_dma_map`, where range_memory says whether the range's descriptor is had and no addresses are
-- NULL; `none` is a read past the addresses
unfoldable pub dma_map_given :
    Host → (ctrl_page : ℕ) → (range_memory : Bool) → VaRange → Option (List ℕ) → Held → GivenOutcome
dma_map_given host ctrl_page range_memory va none held = some (einval, none, held)
dma_map_given host ctrl_page range_memory va (some ioaddrs) held =
    let taken = record held { ranges = held.ranges + 1 } in
    if not range_memory
    then some (enomem, none, held)
    else given_created host ctrl_page ioaddrs (create_map host (record va { remote = false }) taken)

-- An errno and as much held as before, or a handle with the address of each controller page, whose
-- unmapping leaves as much held as before.
abbrev pub IsGiven :
    (ctrl_page : ℕ) → VaRange → (ioaddrs : List ℕ) → (before : Held) → GivenOutcome → Type 0
IsGiven ctrl_page va ioaddrs before none = ⊥
IsGiven ctrl_page va ioaddrs before (some (err, none, held)) = (err ≢ 0) × Same held before
IsGiven ctrl_page va ioaddrs before (some (err, some (md, dma), held)) =
    (err ≡ 0)
    × ((dma_unmap md held).0 ≡ none)
    × Same (dma_unmap md held).1 before
    × (length dma.ioaddrs ≡ va.page_size * va.n_pages / ctrl_page)
    × (dma.contiguous ≡ all_follow ctrl_page none dma.ioaddrs)
    × AddressesOf ctrl_page va.page_size ioaddrs 0 dma.ioaddrs

module _ (host : Host) (ctrl_page : ℕ) (va : VaRange) (ioaddrs : List ℕ) (k : Held)
    (p : 0 < ctrl_page) (q : 0 < va.page_size) (given : length ioaddrs ≡ va.n_pages)
    (fits : va.page_size * va.n_pages < u64_mod) where
  abbrev range : VaRange
  range = record va { remote = false }

  abbrev given_map : Map
  given_map = record { count = 1; va = range; can_unmap = false }

  -- what is held once there is a range, a descriptor and a controller reference
  abbrev described_held : Held
  described_held = record k {
    ranges = k.ranges + 1;
    ctrl_refs = k.ctrl_refs + 1;
    maps = k.maps + 1;
  }

  populated-IsGiven : IsGiven ctrl_page va ioaddrs k (
      given_populated given_map
        (record described_held { containers = described_held.containers + 1 })
        (populate_handle range ctrl_page true ioaddrs))
  unfolding dma_unmap put_map remove_map
  populated-IsGiven =
      let (dma, e, page, size, counted, joined, listed) =
        populate_handle-lists range ctrl_page true ioaddrs p q given fits in
      rw e (
        refl,
        refl,
        (omega arith, omega arith, omega arith, refl, omega arith),
        size,
        joined,
        listed,
      )

  contained-IsGiven : IsGiven ctrl_page va ioaddrs k (
      given_contained ctrl_page given_map ioaddrs
        (create_container host ctrl_page given_map described_held))
  unfolding create_container remove_map
  contained-IsGiven =
      elim (Bool-cases (
        va.page_size == 0
        || va.n_pages == 0
        || not (va.page_size * va.n_pages % u64_mod % ctrl_page == 0))) [
          | inl uneven ↦ rw uneven (
            (λ e. absurd (omega (arith, e))),
            (omega arith, omega arith, refl, refl, omega arith),
          )
          | inr even ↦ elim (Bool-cases host.container_memory) [
            | inr none_had ↦
                rw (even, none_had)
                  (
                    (λ e. absurd (omega (arith, e))),
                    (omega arith, omega arith, refl, refl, omega arith),
                  )
            | inl had ↦ rw (even, had) populated-IsGiven
          ]
        ]

  created-IsGiven : IsGiven ctrl_page va ioaddrs k (
      given_created host ctrl_page ioaddrs
        (create_map host range (record k { ranges = k.ranges + 1 })))
  unfolding create_map create_container
  created-IsGiven = elim (Bool-cases host.ctrl_ref) [
    | inr refused ↦
        rw refused ((λ e. absurd (omega (arith, e))), (refl, refl, refl, refl, omega arith))
    | inl ref ↦ elim (Bool-cases (host.map_errno == 0)) [
      | inr no_memory ↦
          rw (ref, no_memory) (ground arith, (omega arith, refl, refl, refl, omega arith))
      | inl memory ↦ elim (Bool-cases (host.mutex == 0)) [
        | inr bad ↦
            rw (ref, memory, bad) (ground arith, (omega arith, refl, refl, refl, omega arith))
        | inl good ↦ rw (ref, memory, good) contained-IsGiven
      ]
    ]
  ]

  -- For page sizes that are not 0, one address given for each page of the range and no overflow in
  -- 64 bits, `nvm_dma_map` reads no address out of bounds: it returns an errno and holds as much as
  -- before, or it returns 0 and a handle with one address for each controller page of the range,
  -- that of its first byte in the page that was given, and `nvm_dma_unmap` of the handle, which
  -- unmaps nothing for the device, leaves as much held as before.
  pub dma_map_given-IsGiven :
      (range_memory : Bool)
      → IsGiven ctrl_page va ioaddrs k
          (dma_map_given host ctrl_page range_memory va (some ioaddrs) k)
  unfolding dma_map_given
  dma_map_given-IsGiven range_memory =
      either (IsGiven ctrl_page va ioaddrs k) (not range_memory) _ _
        (λ _. ((λ e. absurd (omega (arith, e))), (refl, refl, refl, refl, refl)))
        (λ _. created-IsGiven)
