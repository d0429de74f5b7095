-- ===== src/Device.antt =====
-- The ioctl back end of the library: internal/map.h, the descriptors of src/libnvm/linux_dma.cpp,
-- and how src/libnvm/linux_device.cpp asks the kernel module to map and unmap their ranges.
pub mod Calls
pub mod Ranges
pub mod Settled
pub mod Balance
pub mod Open
pub mod Answers
pub mod Pages
pub mod Whole
mod Tests
use u_gds.Prelude.{
  ℕ, ◌+◌, ◌-◌, ◌*◌, ◌/◌, ◌%◌, Bool, true, false, not, Option, none, some, List, ◌++◌, ◌==◌,
  if◌then◌else◌, u64_mod, length, drop, replicate,
}
use u_gds.Queue.{einval}
use u_gds.Dma.{VaRange}
use u_gds.Dma.Lifetime.{Held}
use u_gds.Kernel.Mapping.{align_down}
use u_gds.Kernel.Ioctl.{DmabufRequest}

-- `enum mapping_type`
pub data MappingType : Type 0 where
  map_type_cuda map_type_host map_type_api map_type_dmabuf : MappingType

-- `struct ioctl_mapping`
pub record IoctlMapping : Type 0 where
  pub kind : MappingType
  pub buffer : ℕ
  pub range : VaRange
  pub dmabuf_fd : ℕ
  pub dmabuf_offset : ℕ

-- what the library holds besides: the buffers that it allocated, and the file descriptors of
-- exported dma-bufs
pub record Kept : Type 0 where
  pub held : Held
  pub buffers : ℕ
  pub dmabuf_fds : ℕ

-- `NVM_PAGE_ALIGN` of a 64-bit size, for a page size that is a power of two
abbrev pub page_align : (size page_size : ℕ) → ℕ
page_align size page_size = align_down page_size ((size + page_size + u64_mod - 1) % u64_mod)

-- what `create_mapping_descriptor` writes to a new descriptor
abbrev pub new_mapping : (page_size : ℕ) → MappingType → (buffer n_pages : ℕ) → IoctlMapping
new_mapping page_size kind buffer n_pages = record {
  kind = kind;
  buffer = buffer;
  range = record { remote = false; vaddr = buffer; page_size = page_size; n_pages = n_pages };
  dmabuf_fd = 0;
  dmabuf_offset = 0;
}

-- `create_mapping_descriptor`: the errno, and the descriptor if there is one. The first argument is
-- the errno of a failed allocation, or 0.
unfoldable pub create_mapping_descriptor :
    (malloc_errno page_size : ℕ)
    → MappingType
    → (buffer size : ℕ) → Kept
    → ℕ × Option IoctlMapping × Kept
create_mapping_descriptor malloc_errno page_size kind buffer size k =
    if page_align size page_size / page_size == 0
    then (einval, none, k)
    else if not (malloc_errno == 0)
    then (malloc_errno, none, k)
    else (
      0,
      some (new_mapping page_size kind buffer (page_align size page_size / page_size)),
      record k { held = record k.held { ranges = k.held.ranges + 1 } },
    )

-- the buffer of a descriptor that is freed
abbrev pub free_buffer : MappingType → Kept → Kept
free_buffer MappingType.map_type_api k = record k { buffers = k.buffers - 1 }
free_buffer MappingType.map_type_cuda k = k
free_buffer MappingType.map_type_host k = k
free_buffer MappingType.map_type_dmabuf k = k

-- `remove_mapping_descriptor`
unfoldable pub remove_mapping_descriptor : IoctlMapping → Kept → Kept
remove_mapping_descriptor m k =
    free_buffer m.kind (record k { held = record k.held { ranges = k.held.ranges - 1 } })

-- the ioctl calls of the library: `struct nvm_ioctl_map` less its pointer, or `nvm_ioctl_dmabuf`
pub data IoctlCall : Type 0 where
  call_map_host call_map_device : (vaddr_start n_pages : ℕ) → IoctlCall
  call_map_dmabuf : DmabufRequest → IoctlCall
  call_unmap : (addr : ℕ) → IoctlCall

-- The answer of `ioctl`: the errno or 0, and the addresses that the kernel module wrote to the
-- start of the array that it was given.
abbrev pub Ioctl : Type 0
Ioctl = IoctlCall → ℕ × List ℕ

-- the array of n zeros after the call
abbrev pub filled : (n : ℕ) → ℕ × List ℕ → ℕ × List ℕ
filled n (err, written) = (err, written ++ drop (length written) (replicate n 0))

-- the request for a dma-buf
abbrev pub dmabuf_request : (ioaddrs : ℕ) → IoctlMapping → DmabufRequest
dmabuf_request ioaddrs m = record {
  gpu_ptr = m.buffer;
  dmabuf_fd = m.dmabuf_fd;
  dmabuf_offset = m.dmabuf_offset;
  size = m.range.page_size * m.range.n_pages % u64_mod;
  ioaddrs_capacity = m.range.n_pages;
  ioaddrs = ioaddrs;
}

-- the call that `ioctl_map` makes for a kind of memory; `none` is the default of its switch
abbrev pub map_call : (hip : Bool) → (ioaddrs : ℕ) → IoctlMapping → MappingType → Option IoctlCall
map_call hip ioaddrs m MappingType.map_type_api = some (call_map_host m.buffer m.range.n_pages)
map_call hip ioaddrs m MappingType.map_type_host = some (call_map_host m.buffer m.range.n_pages)
map_call hip ioaddrs m MappingType.map_type_cuda = some (call_map_device m.buffer m.range.n_pages)
map_call hip ioaddrs m MappingType.map_type_dmabuf =
    if hip then some (call_map_dmabuf (dmabuf_request ioaddrs m)) else none

abbrev pub answer_to : Ioctl → (n : ℕ) → Option IoctlCall → ℕ × List ℕ
answer_to ioctl n none = (einval, replicate n 0)
answer_to ioctl n (some call) = filled n (ioctl call)

-- `ioctl_map` of a descriptor's range into an array of zeros, in a build with HIP or without: the
-- errno and the array
unfoldable pub ioctl_map : Ioctl → (hip : Bool) → (ioaddrs : ℕ) → IoctlMapping → ℕ × List ℕ
ioctl_map ioctl hip ioaddrs m = answer_to ioctl m.range.n_pages (map_call hip ioaddrs m m.kind)

-- the call of `ioctl_unmap`, whose answer is dropped
unfoldable pub ioctl_unmap : IoctlMapping → IoctlCall
ioctl_unmap m = call_unmap m.buffer
