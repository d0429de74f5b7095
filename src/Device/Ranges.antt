-- ===== src/Device/Ranges.antt =====
-- The ranges of the descriptors, and the arrays of their addresses.
use u_gds.Prelude.{
  ℕ, zero, ◌+◌, ◌-◌, ◌*◌, ◌/◌, ◌<◌, ◌≤◌, ◌≡◌, refl, ◌∙◌, Bool, true, false, Option, none, some,
  List, u64_mod, length, drop, replicate, length-append, length-drop, length-replicate, arith,
}
use native.Mathlib.Nat.{mul-div-le, mod-lt}
use u_gds.Dma.{VaRange}
use u_gds.Device.{
  MappingType, IoctlMapping, IoctlCall, call_map_host, call_map_device, call_map_dmabuf, call_unmap,
  Ioctl, page_align, new_mapping, map_call, answer_to, ioctl_map,
}

-- the addresses that a call has room for
abbrev pub room : IoctlCall → ℕ
room (call_map_host vaddr_start n_pages) = n_pages
room (call_map_device vaddr_start n_pages) = n_pages
room (call_map_dmabuf r) = r.ioaddrs_capacity
room (call_unmap addr) = 0

-- the kernel module writes no more addresses than there is room for
abbrev pub IsBounded : Ioctl → Type 0
IsBounded ioctl = (call : IoctlCall) → length (ioctl call).1 ≤ room call

abbrev HasRoom : ℕ → Option IoctlCall → Type 0
HasRoom n none = Unit {0}
HasRoom n (some call) = room call ≡ n

answered_length :
    (ioctl : Ioctl) (n : ℕ) (o : Option IoctlCall)
    → IsBounded ioctl
    → HasRoom n o
    → length (answer_to ioctl n o).1 ≡ n
answered_length ioctl n none bounded roomy = length-replicate n 0
answered_length ioctl n (some call) bounded roomy =
    let zeros : List ℕ = replicate n 0 in
    length-append (ioctl call).1 (drop (length (ioctl call).1) zeros)
    ∙ omega (
      arith,
      length-drop (length (ioctl call).1) zeros,
      length-replicate n zero,
      bounded call,
      roomy,
    )

map_call-HasRoom :
    (with_hip : Bool) (ioaddrs : ℕ) (m : IoctlMapping) (kind : MappingType)
    → HasRoom m.range.n_pages (map_call with_hip ioaddrs m kind)
map_call-HasRoom with_hip ioaddrs m MappingType.map_type_api = refl
map_call-HasRoom with_hip ioaddrs m MappingType.map_type_host = refl
map_call-HasRoom with_hip ioaddrs m MappingType.map_type_cuda = refl
map_call-HasRoom true ioaddrs m MappingType.map_type_dmabuf = refl
map_call-HasRoom false ioaddrs m MappingType.map_type_dmabuf = tt

-- the array has one address for each page
pub length-ioctl_map :
    (ioctl : Ioctl) (with_hip : Bool) (ioaddrs : ℕ) (m : IoctlMapping)
    → IsBounded ioctl
    → length (ioctl_map ioctl with_hip ioaddrs m).1 ≡ m.range.n_pages
unfolding ioctl_map
length-ioctl_map ioctl with_hip ioaddrs m bounded =
    answered_length ioctl m.range.n_pages (map_call with_hip ioaddrs m m.kind) bounded
      (map_call-HasRoom with_hip ioaddrs m m.kind)

-- a range without overflow in 64 bits
abbrev pub IsFitting : VaRange → Type 0
IsFitting va = (0 < va.page_size) × (va.page_size * va.n_pages < u64_mod)

pub new_mapping-IsFitting :
    (ps : ℕ) (kind : MappingType) (buffer size : ℕ)
    → 0 < ps
    → IsFitting (new_mapping ps kind buffer (page_align size ps / ps)).range
new_mapping-IsFitting ps kind buffer size h =
    let wide : 0 < u64_mod = omega arith in
    (h, omega (arith, mul-div-le (page_align size ps) ps, mod-lt (size + ps + u64_mod - 1) wide))
