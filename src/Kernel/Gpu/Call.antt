-- ===== src/Kernel/Gpu/Call.antt =====
-- drv/map.c in a CUDA build: `map_device_memory`, and the call of drv/pci.c that makes it.
use u_gds.Prelude.{ℕ, Bool, Option, none, some, List, [], ◌∷◌, ◌++◌, ltb, ◌==◌, if◌then◌else◌}
use u_gds.Queue.{einval}
use u_gds.Dma.Lifetime.{enomem}
use u_gds.Kernel.Resources.{Held}
use u_gds.Kernel.Mapping.{Alloc, Map, create_descriptor, set_page_size, align_down}
use u_gds.Kernel.Gpu.{
  gpu_page_size, GpuMap, GpuHeld, GpuAnswers, GpuOutcome, first_addresses, map_gpu_memory,
  gpu_unmap_and_release,
}
use u_gds.Kernel.Ioctl.{efault}

-- a mapping or an errno, the list and what is held
pub data GpuMapped : Type 0 where
  gpu_mapped : GpuMap → GpuMapped
  gpu_refused : (errno : ℕ) → GpuMapped

abbrev pub refused_after :
    (err : ℕ) → Option (List GpuMap × GpuHeld) → Option (GpuMapped × (List GpuMap × GpuHeld))
refused_after err none = none
refused_after err (some after) = some (gpu_refused err, after)

abbrev pub gpu_enlist :
    (ctrls : List ℕ) → List GpuMap → GpuOutcome → Option (GpuMapped × (List GpuMap × GpuHeld))
gpu_enlist ctrls ms none = none
gpu_enlist ctrls ms (some (err, m, h)) =
    if err == 0
    then some (gpu_mapped m, (ms ++ (m ∷ []), h))
    else refused_after err (gpu_unmap_and_release ctrls m (ms, h))

abbrev pub gpu_described :
    GpuAnswers
    → (ctrls : List ℕ) → List GpuMap
    → GpuHeld
    → Option Map × Held
    → Option (GpuMapped × (List GpuMap × GpuHeld))
gpu_described answers ctrls ms h (none, held) =
    some (gpu_refused enomem, (ms, record h { held = held }))
gpu_described answers ctrls ms h (some m, held) =
    gpu_enlist ctrls ms
      (map_gpu_memory answers ctrls (set_page_size gpu_page_size m) (record h { held = held }))

-- `map_device_memory`; `none` is an access out of bounds
unfoldable pub map_device_memory :
    Alloc
    → GpuAnswers
    → (ctrls : List ℕ) → (task vaddr n_pages : ℕ) → List GpuMap × GpuHeld
    → Option (GpuMapped × (List GpuMap × GpuHeld))
map_device_memory kvmalloc answers ctrls task vaddr n_pages (ms, h) =
    if ltb n_pages 1
    then some (gpu_refused einval, (ms, h))
    else gpu_described answers ctrls ms h
        (create_descriptor kvmalloc task (align_down gpu_page_size vaddr) n_pages h.held)

abbrev pub device_mapped :
    (copied_out : Bool)
    → Option (GpuMapped × (List GpuMap × GpuHeld))
    → Option ((ℕ × List ℕ) × (List GpuMap × GpuHeld))
device_mapped copied_out none = none
device_mapped copied_out (some (gpu_refused errno, after)) = some ((errno, []), after)
device_mapped copied_out (some (gpu_mapped m, after)) =
    if copied_out
    then elim (first_addresses m.map.n_addrs m.map.addrs) [
      | none ↦ none
      | some addrs ↦ some ((0, addrs), after)
    ]
    else some ((efault, []), after)

-- `NVM_MAP_DEVICE_MEMORY` of `map_ioctl`: the errno and the addresses that are copied to the
-- process. A mapping whose addresses cannot be copied stays in the list.
unfoldable pub device_ioctl :
    Alloc
    → GpuAnswers
    → (ctrls : List ℕ) → (copied_in copied_out : Bool) → (task vaddr_start n_pages : ℕ)
    → List GpuMap × GpuHeld
    → Option ((ℕ × List ℕ) × (List GpuMap × GpuHeld))
device_ioctl kvmalloc answers ctrls copied_in copied_out task vaddr_start n_pages s =
    if copied_in
    then device_mapped copied_out
        (map_device_memory kvmalloc answers ctrls task vaddr_start n_pages s)
    else some ((efault, []), s)
