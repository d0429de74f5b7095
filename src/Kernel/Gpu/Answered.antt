-- ===== src/Kernel/Gpu/Answered.antt =====
-- What a process gets from `NVM_MAP_DEVICE_MEMORY` of drv/pci.c.
use u_gds.Prelude.{
  Bool, ℕ, ◌≤◌, ◌≡◌, ◌≢◌, refl, true, false, either, Option, none, some, List, [], ltb, length,
  arith, length-take,
}
use u_gds.Kernel.Mapping.{Alloc, descriptor_bytes}
use u_gds.Kernel.Ioctl.Enlisted.{FreshIn}
use u_gds.Kernel.Gpu.{max_num_ctrls, GpuMap, GpuHeld, GpuAnswers}
use u_gds.Kernel.Gpu.Call.{device_mapped, device_ioctl, GpuMapped, gpu_mapped, gpu_refused}
use u_gds.Kernel.Gpu.Undone.{HasAddresses}
use u_gds.Kernel.Gpu.Balance.{IsGpuMapped, nodes, map_device_memory-IsGpuMapped}

-- What the process gets: an errno and nothing, or as many addresses as the page table has entries.
abbrev IsAnswered : (entries : ℕ) → Option ((ℕ × List ℕ) × (List GpuMap × GpuHeld)) → Type 0
IsAnswered entries none = ⊥
IsAnswered entries (some ((errno, addrs), after)) =
    (errno ≡ 0 → length addrs ≡ entries) × (errno ≢ 0 → addrs ≡ [])

mapped-IsAnswered :
    (k : GpuHeld) (ms : List GpuMap) (ctrls : List ℕ) (n entries : ℕ) (copied_out : Bool)
    (r : Option (GpuMapped × (List GpuMap × GpuHeld)))
    → entries ≤ n
    → IsGpuMapped k ms ctrls n entries r
    → IsAnswered entries (device_mapped copied_out r)
mapped-IsAnswered k ms ctrls n entries copied_out none few mapped = mapped
mapped-IsAnswered k ms ctrls n entries copied_out (some (gpu_refused errno, after)) few
      (ne, same, is) =
    (λ e. absurd (ne e), λ e. refl)
mapped-IsAnswered k ms ctrls n entries true (some (gpu_mapped m, after)) few (at, full, size, is) =
    let fits : ltb (length m.map.addrs) m.map.n_addrs ≡ false = ground arith in
    rw fits (λ e. omega (arith, length-take m.map.n_addrs m.map.addrs), λ ne. absurd (ne refl))
mapped-IsAnswered k ms ctrls n entries false (some (gpu_mapped m, after)) few is =
    (λ e. absurd (omega (arith, e)), λ e. refl)

-- Under the same conditions, and for a page table of at most as many entries as pages are asked
-- for, `NVM_MAP_DEVICE_MEMORY` accesses nothing out of bounds, and the process gets an errno and
-- nothing, or one address for each entry of the page table.
pub device_ioctl-IsAnswered :
    (kvmalloc : Alloc) (answers : GpuAnswers) (ctrls : List ℕ) (copied_in copied_out : Bool)
    (task vaddr n_pages : ℕ) (ms : List GpuMap) (k : GpuHeld)
    → length ctrls ≤ max_num_ctrls
    → HasAddresses n_pages answers.p2p_map_pages
    → FreshIn (nodes ms) (kvmalloc (descriptor_bytes n_pages))
    → answers.get_pages.1 ≤ n_pages
    → IsAnswered answers.get_pages.1
        (device_ioctl kvmalloc answers ctrls copied_in copied_out task vaddr n_pages (ms, k))
unfolding device_ioctl
device_ioctl-IsAnswered kvmalloc answers ctrls copied_in copied_out task vaddr n_pages ms k room
      enough fresh few =
    either (IsAnswered answers.get_pages.1) copied_in _ _
      (λ _. mapped-IsAnswered k ms ctrls n_pages answers.get_pages.1 copied_out _ few (
        map_device_memory-IsGpuMapped kvmalloc answers ctrls task vaddr n_pages ms k room enough
          fresh))
      (λ _. (λ e. absurd (omega (arith, e)), λ e. refl))
