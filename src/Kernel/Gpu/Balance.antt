-- ===== src/Kernel/Gpu/Balance.antt =====
-- The DMA mappings of GPU memory are undone for the devices that they were made for.
use mathlib.Core.Path.{subst}
use mathlib.Core.List.{append-nil}
use u_gds.Prelude.{
  ℕ, ◌≤◌, ◌≡◌, ◌≢◌, refl, sym, ap, ◌∙◌, true, false, either, Option, none, some, List, [], ◌∷◌,
  ◌++◌, ltb, ◌==◌, if◌then◌else◌, length, arith, zero, length-replicate,
}
use u_gds.Queue.{einval}
use u_gds.Kernel.Resources.{memory, give}
use u_gds.Kernel.Links.Segment.{NotIn}
use u_gds.Kernel.Mapping.{Alloc, new_map, described, descriptor_bytes, set_page_size, align_down}
use u_gds.Kernel.Ioctl.Enlisted.{FreshIn}
use u_gds.Kernel.Gpu.{
  map_freed, gpu_page_size, max_num_ctrls, GpuMap, GpuHeld, GpuAnswers, unlist_gpu_map,
  gpu_unmap_and_release, GpuOutcome,
}
use u_gds.Kernel.Gpu.Returned.{IsReturned, Pending, map_gpu_memory-Pending}
use u_gds.Kernel.Gpu.Call.{
  GpuMapped, gpu_described, gpu_enlist, gpu_mapped, gpu_refused, map_device_memory,
}
use u_gds.Kernel.Gpu.Undone.{HasAddresses}

abbrev pub nodes : List GpuMap → List ℕ
nodes [] = []
nodes (m ∷ ms) = m.map.node ∷ nodes ms

unlist_absent : (c : ℕ) (ms : List GpuMap) → NotIn c (nodes ms) → unlist_gpu_map c ms ≡ ms
unfolding unlist_gpu_map
unlist_absent c [] p = refl
unlist_absent c (x ∷ ms) (p, ps) =
    let other : (x.map.node == c) ≡ false = ground arith in
    rw other (ap (λ ys. x ∷ ys) (unlist_absent c ms ps))

unlist_last :
    (ms : List GpuMap) (m : GpuMap)
    → NotIn m.map.node (nodes ms)
    → unlist_gpu_map m.map.node (ms ++ (m ∷ [])) ≡ ms
unfolding unlist_gpu_map
unlist_last [] m p = let same : (m.map.node == m.map.node) ≡ true = ground arith in rw same refl
unlist_last (x ∷ ms) m (p, ps) =
    let other : (x.map.node == m.map.node) ≡ false = ground arith in
    rw other (ap (λ ys. x ∷ ys) (unlist_last ms m ps))

-- An errno, the same list and everything that was taken given back; or a mapping at the end of the
-- list with room for n pages, which counts the entries of the page table, whose release over the
-- same controllers leaves the list as before and everything given back.
abbrev pub IsGpuMapped :
    (k : GpuHeld)
    → List GpuMap
    → (ctrls : List ℕ) → (n entries : ℕ) → Option (GpuMapped × (List GpuMap × GpuHeld))
    → Type 0
IsGpuMapped k ms ctrls n entries none = ⊥
IsGpuMapped k ms ctrls n entries (some (gpu_refused errno, (after, h))) =
    (errno ≢ 0) × (after ≡ ms) × IsReturned k h
IsGpuMapped k ms ctrls n entries (some (gpu_mapped m, (after, h))) =
    (after ≡ ms ++ (m ∷ []))
    × (length m.map.addrs ≡ n)
    × (m.map.n_addrs ≡ entries)
    × ((h' : GpuHeld) × (gpu_unmap_and_release ctrls m (after, h) ≡ some (ms, h'))
        × IsReturned k h')

enlist-IsGpuMapped :
    (k : GpuHeld) (ms : List GpuMap) (ctrls : List ℕ) (node n entries : ℕ) (r : GpuOutcome)
    → NotIn node (nodes ms)
    → Pending k ctrls node n entries r
    → IsGpuMapped k ms ctrls n entries (gpu_enlist ctrls ms r)
enlist-IsGpuMapped k ms ctrls node n entries none fresh pending = pending
enlist-IsGpuMapped k ms ctrls node n entries (some (err, m, h)) fresh
      (at, full, size, (h', freed, returned)) =
    let apart : NotIn m.map.node (nodes ms) = subst (λ c. NotIn c (nodes ms)) (sym at) fresh in
    either (λ r. IsGpuMapped k ms ctrls n entries r) (err == 0) _ _
      (λ good. (
        refl,
        full,
        size (ground arith),
        (
          record h' { held = give memory 1 h'.held },
          ap (map_freed m (ms ++ (m ∷ []))) freed
              ∙ ap (λ ys. some (ys, record h' { held = give memory 1 h'.held }))
                  (unlist_last ms m apart),
          returned,
        ),
      ))
      (λ bad. rw freed (ground arith, unlist_absent m.map.node ms apart, returned))

pub map_device_memory-IsGpuMapped :
    (kvmalloc : Alloc) (answers : GpuAnswers) (ctrls : List ℕ) (task vaddr n_pages : ℕ)
    (ms : List GpuMap) (k : GpuHeld)
    → length ctrls ≤ max_num_ctrls
    → HasAddresses n_pages answers.p2p_map_pages
    → FreshIn (nodes ms) (kvmalloc (descriptor_bytes n_pages))
    → IsGpuMapped k ms ctrls n_pages answers.get_pages.1
        (map_device_memory kvmalloc answers ctrls task vaddr n_pages (ms, k))
unfolding map_device_memory
map_device_memory-IsGpuMapped kvmalloc answers ctrls task vaddr n_pages ms k room enough =
    described-IsGpuMapped (kvmalloc (descriptor_bytes n_pages))
  where
    same : IsReturned k k
    same = (
      (λ q. omega arith),
      omega arith,
      ([], sym (append-nil k.mapped_for), sym (append-nil k.unmapped_for)),
    )

    described-IsGpuMapped :
        (o : Option ℕ)
        → FreshIn (nodes ms) o
        → IsGpuMapped k ms ctrls n_pages answers.get_pages.1 (
            if ltb n_pages 1
            then some (gpu_refused einval, (ms, k))
            else gpu_described answers ctrls ms k
                (described task (align_down gpu_page_size vaddr) n_pages o k.held))
    described-IsGpuMapped none fresh =
        either (λ r. IsGpuMapped k ms ctrls n_pages answers.get_pages.1 r) (ltb n_pages 1) _ _
          (λ _. ((λ e. absurd (omega (arith, e))), refl, same))
          (λ _. ((λ e. absurd (omega (arith, e))), refl, same))
    described-IsGpuMapped (some node) fresh =
        let m =
          set_page_size gpu_page_size
            (new_map task (align_down gpu_page_size vaddr) n_pages node) in
        either (λ r. IsGpuMapped k ms ctrls n_pages answers.get_pages.1 r) (ltb n_pages 1) _ _
          (λ _. ((λ e. absurd (omega (arith, e))), refl, same))
          (λ _.
            enlist-IsGpuMapped k ms ctrls node n_pages answers.get_pages.1 _ fresh (
              map_gpu_memory-Pending k ctrls m (length-replicate n_pages zero) answers room enough))
