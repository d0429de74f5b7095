-- ===== src/Kernel/Ioctl.antt =====
-- drv/pci.c: `map_ioctl` for a controller that is found, and the clearing of the lists.
pub mod Accounts
pub mod Enlisted
pub mod Balance
pub mod Faults
pub mod Unmap
use u_gds.Prelude.{
  ℕ, zero, suc, ◌+◌, ◌-◌, ◌%◌, ◌/◌, Bool, ◌&&◌, ◌||◌, not, Option, none, some, List, [], ◌∷◌, ltb,
  ◌==◌, if◌then◌else◌, take, length, u64_mod,
}
use u_gds.Queue.{einval}
use u_gds.Io.Types.{eio}
use u_gds.Kernel.Resources.{Held}
use u_gds.Kernel.Mapping.{
  Alloc, Map, Mapped, mapped, refused, map_userspace, map_find, unmap_and_release, page_bytes,
  UserAnswers,
}
use u_gds.Kernel.Dmabuf.{DmabufAnswers, map_dmabuf, eoverflow}

abbrev pub efault : ℕ
efault = 14

-- the lists of the module, and what it holds
pub record Module : Type 0 where
  pub host_list : List Map
  pub device_list : List Map
  pub held : Held

-- `struct nvm_ioctl_dmabuf`; the file descriptor is a 32-bit two's complement word
pub record DmabufRequest : Type 0 where
  pub gpu_ptr : ℕ
  pub dmabuf_fd : ℕ
  pub dmabuf_offset : ℕ
  pub size : ℕ
  pub ioaddrs_capacity : ℕ
  pub ioaddrs : ℕ

-- An ioctl call with the answers of the system to it: whether the copies from and to the process
-- succeed, and whether `move_notify` has come before the test of `invalid`.
pub data Request : Type 0 where
  map_host_memory :
      (copied_in copied_out : Bool) → UserAnswers → (vaddr_start n_pages : ℕ) → Request
  map_dmabuf_memory_request :
      (copied_in copied_out invalid : Bool) → DmabufAnswers → DmabufRequest → Request
  unmap_memory : (copied_in : Bool) → (addr : ℕ) → Request
  other_request : Request

-- an errno, the addresses that are copied to the process and the module's state
abbrev pub Outcome : Type 0
Outcome = (ℕ × List ℕ) × Module

abbrev pub host_mapped : (copied_out : Bool) → Module → Mapped × (List Map × Held) → Outcome
host_mapped copied_out s (mapped m, (ms, h)) = (
  if copied_out then (0, take m.n_addrs m.addrs) else (efault, []),
  record { host_list = ms; device_list = s.device_list; held = h },
)
host_mapped copied_out s (refused errno, (ms, h)) =
    ((errno, []), record { host_list = ms; device_list = s.device_list; held = h })

abbrev pub with_devices : Module → List Map × Held → Module
with_devices s (ms, h) = record { host_list = s.host_list; device_list = ms; held = h }

abbrev pub dmabuf_mapped :
    (copied_out invalid : Bool)
    → (ioaddrs_capacity : ℕ) → Module
    → Mapped × (List Map × Held)
    → Outcome
dmabuf_mapped copied_out invalid ioaddrs_capacity s (mapped m, after) =
    if invalid
    then ((eio, []), with_devices s (unmap_and_release m after))
    else if ltb ioaddrs_capacity m.n_addrs
    then ((eoverflow, []), with_devices s (unmap_and_release m after))
    else if copied_out
    then ((0, take m.n_addrs m.addrs), with_devices s after)
    else ((efault, []), with_devices s (unmap_and_release m after))
dmabuf_mapped copied_out invalid ioaddrs_capacity s (refused errno, after) =
    ((errno, []), with_devices s after)

-- the checks of `NVM_MAP_DMABUF_MEMORY`
abbrev pub is_refused : DmabufRequest → Bool
is_refused r =
    (r.size == 0 || not (r.size % page_bytes == 0))
    || ((r.gpu_ptr == 0 || not (r.gpu_ptr % page_bytes == 0))
        || ((r.ioaddrs == 0 || r.ioaddrs_capacity == 0)
            || ((not (r.dmabuf_offset == 0) && not (r.dmabuf_offset % page_bytes == 0))
                || ltb 2147483647 r.dmabuf_fd)))

abbrev pub found_device : Module → Option Map → Outcome
found_device s none = ((einval, []), s)
found_device s (some m) = ((0, []), with_devices s (unmap_and_release m (s.device_list, s.held)))

abbrev pub with_hosts : Module → List Map × Held → Module
with_hosts s (ms, h) = record { host_list = ms; device_list = s.device_list; held = h }

-- `NVM_UNMAP_MEMORY`: the host's list first
abbrev pub found_host : (task addr : ℕ) → Module → Option Map → Outcome
found_host task addr s none = found_device s (map_find task addr s.device_list)
found_host task addr s (some m) =
    ((0, []), with_hosts s (unmap_and_release m (s.host_list, s.held)))

-- `map_ioctl` in a process task
unfoldable pub map_ioctl : Alloc → (task : ℕ) → Request → Module → Outcome
map_ioctl kvmalloc task (map_host_memory copied_in copied_out answers vaddr_start n_pages) s =
    if copied_in
    then host_mapped copied_out s
        (map_userspace kvmalloc answers task vaddr_start n_pages (s.host_list, s.held))
    else ((efault, []), s)
map_ioctl kvmalloc task (map_dmabuf_memory_request copied_in copied_out invalid answers r) s =
    if copied_in
    then if is_refused r
      then ((einval, []), s)
      else dmabuf_mapped copied_out invalid r.ioaddrs_capacity s (
          map_dmabuf kvmalloc answers task r.gpu_ptr r.dmabuf_offset (r.size / page_bytes)
            r.ioaddrs_capacity (s.device_list, s.held))
    else ((efault, []), s)
map_ioctl kvmalloc task (unmap_memory copied_in addr) s =
    if copied_in then found_host task addr s (map_find task addr s.host_list) else ((efault, []), s)
map_ioctl kvmalloc task other_request s = ((einval, []), s)

-- `clear_map_list`: the loop takes the first mapping as long as there is one
unfoldable pub clear_map_list : (fuel : ℕ) → List Map × Held → List Map × Held
clear_map_list zero after = after
clear_map_list (suc fuel) ([], h) = ([], h)
clear_map_list (suc fuel) (m ∷ ms, h) = clear_map_list fuel (unmap_and_release m (m ∷ ms, h))

-- the lists at the exit of the module (`ugds_drv_exit`)
abbrev pub clear_lists : Module → Module
clear_lists s =
    let devices = clear_map_list (length s.device_list) (s.device_list, s.held) in
    let hosts = clear_map_list (length s.host_list) (s.host_list, devices.1) in
    record { host_list = hosts.0; device_list = devices.0; held = hosts.1 }

-- calls of processes one behind the other; each has its own answers of `kvmalloc`
unfoldable pub ioctls : List (Alloc × ℕ × Request) → Module → Module
ioctls [] s = s
ioctls ((kvmalloc, task, r) ∷ rs) s = ioctls rs (map_ioctl kvmalloc task r s).1
