-- ===== src/Device/Calls.antt =====
-- src/libnvm/linux_dma.cpp: `nvm_dma_create`, `nvm_dma_map_host` and `nvm_dma_map_device`, with
-- what the library holds on each of their paths.
use u_gds.Prelude.{
  ℕ, ◌+◌, ◌-◌, ◌%◌, Bool, true, false, not, ◌||◌, Option, none, some, ◌==◌, ltb, if◌then◌else◌,
  u64_mod,
}
use u_gds.Queue.{einval}
use u_gds.Io.Types.{eio}
use u_gds.Dma.{Dma}
use u_gds.Dma.Lifetime.{Held, Map, Host, dma_init, dma_unmap}
use u_gds.Kernel.Mapping.{align_down}
use u_gds.Device.{
  map_type_api, map_type_host, map_type_cuda, map_type_dmabuf, IoctlMapping, Kept, Ioctl,
  page_align, create_mapping_descriptor, remove_mapping_descriptor, free_buffer, ioctl_map,
}

abbrev pub ebadf : ℕ
ebadf = 9

abbrev pub enotsup : ℕ
enotsup = 95

-- what a handle stands in: its descriptors and itself
abbrev pub Mapping : Type 0
Mapping = IoctlMapping × (Map × Dma)

-- an errno, the handle if there is one and what is held; `none` is a read out of bounds
abbrev pub Outcome : Type 0
Outcome = Option (ℕ × Option Mapping × Kept)

-- What the HIP runtime answers about a device pointer: the page size of the system, 0 when it is
-- not known, whether the pointer is device memory, the base and the size of its allocation, whether
-- the build has the export call, and the file descriptor and the offset that it exports.
pub record HipAnswers : Type 0 where
  pub page_size : ℕ
  pub is_device_memory : Bool
  pub allocation : Option (ℕ × ℕ)
  pub has_dmabuf_v2 : Bool
  pub exported : (devptr aligned_size : ℕ) → Option (ℕ × ℕ)

-- the GPU runtime of the build
pub data Backend : Type 0 where
  hip : HipAnswers → Backend
  cuda no_gpu : Backend

abbrev pub is_hip : Backend → Bool
is_hip (hip answers) = true
is_hip cuda = false
is_hip no_gpu = false

-- What the calls out of the file answer: whether the controller was opened by a file descriptor,
-- its page size, the errno and the address of `posix_memalign`, the errno of the descriptor's
-- allocation or 0, the address of the array of addresses, and what `_nvm_dma_init` meets.
pub record System : Type 0 where
  pub backend : Backend
  pub is_ioctl_device : Bool
  pub ctrl_page : ℕ
  pub memalign_errno : ℕ
  pub memalign_buffer : ℕ
  pub malloc_errno : ℕ
  pub ioaddrs : ℕ
  pub ioctl : Ioctl
  pub host : Host

-- the device operations that `nvm_ctrl_init` sets
abbrev pub host_for : System → IoctlMapping → Host
host_for sys m = record sys.host {
  map_range = some (λ va. ioctl_map sys.ioctl (is_hip sys.backend) sys.ioaddrs m);
}

-- The last step of the three calls: `_nvm_dma_init`, and the descriptor's removal when it fails.
abbrev pub dma_inited : IoctlMapping → Kept → Option (ℕ × Option (Map × Dma) × Held) → Outcome
dma_inited m k none = none
dma_inited m k (some (err, none, held)) =
    some (err, none, remove_mapping_descriptor m (record k { held = held }))
dma_inited m k (some (err, some h, held)) = some (0, some (m, h), record k { held = held })

abbrev pub init_descriptor : System → IoctlMapping → Kept → Outcome
init_descriptor sys m k =
    dma_inited m k (dma_init (host_for sys m) sys.ctrl_page m.range true k.held)

-- what follows `create_mapping_descriptor` in `nvm_dma_create`, and in the other two calls
abbrev pub create_described : System → ℕ × Option IoctlMapping × Kept → Outcome
create_described sys (err, none, k) = some (err, none, record k { buffers = k.buffers - 1 })
create_described sys (err, some m, k) = init_descriptor sys m k

abbrev pub map_described : System → ℕ × Option IoctlMapping × Kept → Outcome
map_described sys (err, none, k) = some (err, none, k)
map_described sys (err, some m, k) = init_descriptor sys m k

-- `nvm_dma_create`
unfoldable pub dma_create : System → (size : ℕ) → Kept → Outcome
dma_create sys size k =
    if page_align size sys.ctrl_page == 0
    then some (einval, none, k)
    else if not sys.is_ioctl_device
    then some (ebadf, none, k)
    else if not (sys.memalign_errno == 0)
    then some (sys.memalign_errno, none, k)
    else create_described sys (
        create_mapping_descriptor sys.malloc_errno sys.ctrl_page map_type_api sys.memalign_buffer
          (page_align size sys.ctrl_page) (record k { buffers = k.buffers + 1 }))

-- `nvm_dma_map_host`
unfoldable pub dma_map_host : System → (vaddr size : ℕ) → Kept → Outcome
dma_map_host sys vaddr size k =
    if page_align size sys.ctrl_page == 0
    then some (einval, none, k)
    else if not sys.is_ioctl_device
    then some (ebadf, none, k)
    else map_described sys (
        create_mapping_descriptor sys.malloc_errno sys.ctrl_page map_type_host vaddr
          (page_align size sys.ctrl_page) k)

-- whether an aligned range from the pointer on lies in its allocation
abbrev pub lies_in : (base alloc_size devptr aligned_size : ℕ) → Bool
lies_in base alloc_size devptr aligned_size =
    let offset = (devptr + u64_mod - base) % u64_mod in
    not (
      ltb devptr base
      || (ltb alloc_size offset || ltb ((alloc_size + u64_mod - offset) % u64_mod) aligned_size))

abbrev pub hip_aligned : HipAnswers → (size : ℕ) → ℕ
hip_aligned answers size = align_down answers.page_size (size + answers.page_size - 1)

abbrev pub hip_allocated : HipAnswers → (devptr size : ℕ) → Option (ℕ × ℕ) → ℕ
hip_allocated answers devptr size none = eio
hip_allocated answers devptr size (some (base, alloc_size)) =
    if ltb (u64_mod - 1 - answers.page_size) size
    then einval
    else if not (lies_in base alloc_size devptr (hip_aligned answers size))
    then eio
    else if not (devptr % answers.page_size == 0)
    then einval
    else if not answers.has_dmabuf_v2
    then enotsup
    else 0

-- the checks of a HIP build before the buffer is exported: the errno or 0
unfoldable pub hip_checks : HipAnswers → (devptr size : ℕ) → ℕ
hip_checks answers devptr size =
    if size == 0 || answers.page_size == 0
    then einval
    else if not answers.is_device_memory
    then eio
    else hip_allocated answers devptr size answers.allocation

-- `hsa_amd_portable_close_dmabuf`, on each path with a file descriptor
abbrev pub close_dmabuf : Kept → Kept
close_dmabuf k = record k { dmabuf_fds = k.dmabuf_fds - 1 }

abbrev pub dmabuf_closed : Outcome → Outcome
dmabuf_closed none = none
dmabuf_closed (some (err, h, k)) = some (err, h, close_dmabuf k)

abbrev pub hip_described : System → (fd offset : ℕ) → ℕ × Option IoctlMapping × Kept → Outcome
hip_described sys fd offset (err, none, k) = some (err, none, close_dmabuf k)
hip_described sys fd offset (err, some m, k) =
    dmabuf_closed (init_descriptor sys (record m { dmabuf_fd = fd; dmabuf_offset = offset }) k)

-- what follows the export
abbrev pub hip_exported : System → HipAnswers → (devptr size : ℕ) → Kept → Option (ℕ × ℕ) → Outcome
hip_exported sys answers devptr size k none = some (eio, none, k)
hip_exported sys answers devptr size k (some (fd, offset)) =
    let k' = record k { dmabuf_fds = k.dmabuf_fds + 1 } in
    if not (offset % answers.page_size == 0)
    then some (einval, none, close_dmabuf k')
    else hip_described sys fd offset (
        create_mapping_descriptor sys.malloc_errno answers.page_size map_type_dmabuf devptr size k')

-- `nvm_dma_map_device` for a controller of the right type
abbrev pub map_device_with : System → Backend → (devptr size : ℕ) → Kept → Outcome
map_device_with sys (hip answers) devptr size k =
    if not (hip_checks answers devptr size == 0)
    then some (hip_checks answers devptr size, none, k)
    else hip_exported sys answers devptr size k (answers.exported devptr (hip_aligned answers size))
map_device_with sys cuda devptr size k =
    map_described sys (create_mapping_descriptor sys.malloc_errno 65536 map_type_cuda devptr size k)
map_device_with sys no_gpu devptr size k = some (enotsup, none, k)

-- `nvm_dma_map_device`
unfoldable pub dma_map_device : System → (devptr size : ℕ) → Kept → Outcome
dma_map_device sys devptr size k =
    if not sys.is_ioctl_device
    then some (ebadf, none, k)
    else map_device_with sys sys.backend devptr size k

abbrev pub released : IoctlMapping → Option Map × Held → Kept → Kept
released m (none, held) k = free_buffer m.kind (record k { held = held })
released m (some md, held) k = record k { held = held }

-- `nvm_dma_unmap` of such a handle, where the last reference frees the descriptor
-- (`release_mapping_descriptor`)
unfoldable pub unmap_handle : Mapping → Kept → Kept
unmap_handle (m, (md, dma)) k = released m (dma_unmap md k.held) k
