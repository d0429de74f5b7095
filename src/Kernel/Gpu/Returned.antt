-- ===== src/Kernel/Gpu/Returned.antt =====
-- What `map_gpu_memory` of drv/map.c takes, the release of its mapping gives back.
use mathlib.Core.List.{append-nil}
use u_gds.Prelude.{
  ℕ, ◌+◌, ◌≤◌, ◌≡◌, refl, sym, either, Option, none, some, List, [], ◌++◌, ◌==◌, length, replicate,
  arith,
}
use u_gds.Kernel.Resources.{Resource, memory, give, take as take_held}
use u_gds.Kernel.Mapping.{Map}
use u_gds.Kernel.Gpu.{
  max_num_ctrls, GpuHeld, GpuAnswers, unmap_ctrls, release_gpu_memory, map_ctrls, copied_addresses,
  GpuOutcome, ctrls_copied, ctrls_mapped, region_made, map_gpu_memory,
}
use u_gds.Kernel.Gpu.Undone.{HasAddresses, Undone, unmap_none, map_ctrls-Undone}

-- everything that was taken has been given back, and every device that memory was mapped for has it
-- unmapped, in the same order
abbrev pub IsReturned : (k h : GpuHeld) → Type 0
IsReturned k h =
    ((q : Resource) → h.held.taken q + k.held.given q ≡ k.held.taken q + h.held.given q)
    × (h.tables_taken + k.tables_given ≡ k.tables_taken + h.tables_given)
    × ((devices : List ℕ) × (h.mapped_for ≡ k.mapped_for ++ devices)
        × (h.unmapped_for ≡ k.unmapped_for ++ devices))

-- A result of `map_gpu_memory` for a descriptor at node: its release, and then that of the
-- descriptor, give everything back.
abbrev pub Pending : (k : GpuHeld) → (ctrls : List ℕ) → (node n entries : ℕ) → GpuOutcome → Type 0
Pending k ctrls node n entries none = ⊥
Pending k ctrls node n entries (some (err, m, h)) =
    (m.map.node ≡ node)
    × (length m.map.addrs ≡ n)
    × (err ≡ 0 → m.map.n_addrs ≡ entries)
    × ((h' : GpuHeld) × (release_gpu_memory ctrls m.data_region h ≡ some h')
        × IsReturned k (record h' { held = give memory 1 h'.held }))

module _ (k : GpuHeld) (ctrls : List ℕ) (m : Map) (full : length m.addrs ≡ m.n_addrs) where
  -- what is held once the descriptor is there, and the region with its array
  abbrev pub described_held : GpuHeld
  described_held = record k { held = take_held memory 1 k.held }

  abbrev region_held : GpuHeld
  region_held = record described_held {
    held = take_held memory 1 (take_held memory 1 described_held.held);
  }

  copied-Pending :
      (entries err : ℕ) (mappings : List (Option (List ℕ))) (devices : List ℕ) (o : Option (List ℕ))
      (copied : List ℕ)
      → o ≡ some copied
      → length copied ≡ m.n_addrs
      → unmap_ctrls ctrls mappings ≡ some devices
      → Pending k ctrls m.node m.n_addrs entries (
          ctrls_copied m entries err mappings
            (record region_held {
              tables_taken = region_held.tables_taken + 1;
              mapped_for = region_held.mapped_for ++ devices;
            })
            o)
  unfolding release_gpu_memory
  copied-Pending entries err mappings devices o copied e size undone =
      rw (e, undone)
        (
          refl,
          size,
          λ good. ground arith,
          (_, refl, ((λ q. ground arith), omega arith, (devices, refl, refl))),
        )

  ctrls-Pending :
      (entries : ℕ) (r : Option (ℕ × List (Option (List ℕ)) × List ℕ))
      → Undone m.n_addrs ctrls r
      → Pending k ctrls m.node m.n_addrs entries (
          ctrls_mapped m entries
            (record region_held { tables_taken = region_held.tables_taken + 1 })
            r)
  ctrls-Pending entries none undone = undone
  ctrls-Pending entries (some (err, mappings, devices)) (undone, copies) =
      copied-Pending entries err mappings devices (copied_addresses m.n_addrs m.addrs mappings)
        (copies m.addrs full).0 (copies m.addrs full).1 (copies m.addrs full).2 undone

  module _ (answers : GpuAnswers) (room : length ctrls ≤ max_num_ctrls)
      (enough : HasAddresses m.n_addrs answers.p2p_map_pages) where
    region-Pending :
        Pending k ctrls m.node m.n_addrs answers.get_pages.1
          (region_made answers ctrls m region_held)
    unfolding release_gpu_memory
    region-Pending =
        either (Pending k ctrls m.node m.n_addrs answers.get_pages.1) (answers.get_pages.0 == 0) _ _
          (λ good.
            ctrls-Pending answers.get_pages.1
              (map_ctrls answers.p2p_map_pages ctrls (replicate max_num_ctrls none))
              (map_ctrls-Undone answers.p2p_map_pages m.n_addrs ctrls max_num_ctrls enough room))
          (λ bad. rw (unmap_none ctrls (replicate 63 none)) (
            refl,
            full,
            λ good. absurd (ground arith),
            (
              _,
              refl,
              ((λ q. ground arith), omega arith, ([], sym (append-nil k.mapped_for), refl)),
            ),
          ))

    pub map_gpu_memory-Pending :
        Pending k ctrls m.node m.n_addrs answers.get_pages.1
          (map_gpu_memory answers ctrls m described_held)
    unfolding map_gpu_memory release_gpu_memory
    map_gpu_memory-Pending =
        let P : GpuOutcome → Type 0 = Pending k ctrls m.node m.n_addrs answers.get_pages.1 in
        either P answers.region_memory _ _
          (λ _.
            either P answers.mappings_memory _ _ (λ _. region-Pending)
              (λ _. (
                refl,
                full,
                λ e. absurd (omega (arith, e)),
                (
                  _,
                  refl,
                  (
                    (λ q. ground arith),
                    omega arith,
                    ([], sym (append-nil k.mapped_for), sym (append-nil k.unmapped_for)),
                  ),
                ),
              )))
          (λ _. (
            refl,
            full,
            λ e. absurd (omega (arith, e)),
            (
              _,
              refl,
              (
                (λ q. ground arith),
                omega arith,
                ([], sym (append-nil k.mapped_for), sym (append-nil k.unmapped_for)),
              ),
            ),
          ))
