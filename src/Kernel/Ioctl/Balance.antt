-- ===== src/Kernel/Ioctl/Balance.antt =====
-- The accounts of what the kernel module takes and gives back, over its ioctl calls and at its exit.
use u_gds.Prelude.{
  ℕ, zero, suc, ◌+◌, ◌-◌, ◌*◌, ◌<◌, u64_mod, ◌≤◌, ◌≡◌, refl, ap, sym, Bool, either, ◌⊎◌, inl, inr,
  Option, none, some, List, [], ◌∷◌, ◌++◌, ltb, ◌/◌, length, arith,
}
use mathlib.Core.Path.{subst}
use u_gds.Kernel.Resources.{Resource, Held}
use u_gds.Kernel.Links.Segment.{NotIn, Distinct}
use u_gds.Kernel.Mapping.{
  Alloc, Map, Mapped, mapped, refused, map_find, unmap_and_release, descriptor_bytes, page_bytes,
  map_bytes,
}
use u_gds.Kernel.Ioctl.{
  Module, Request, map_host_memory, map_dmabuf_memory_request, unmap_memory, other_request, Outcome,
  host_mapped, dmabuf_mapped, with_devices, with_hosts, is_refused, found_device, found_host,
  map_ioctl, ioctls, clear_map_list, clear_lists,
}
use u_gds.Kernel.Ioctl.Accounts.{
  owes, all_owe, nodes, IsAccounted, remove_head, release_head, release_last, release_found,
  nodes_appended, all_owe-append,
}
use u_gds.Kernel.Ioctl.Enlisted.{
  IsMappable, IsArrayFreed, FreshIn, IsEnlisted, userspace-IsEnlisted, dmabuf-IsEnlisted,
}

-- of every resource, what is taken and not given back is what the mappings in the two lists owe
pub record IsBalanced (s : Module) : Type 0 where
  pub accounts :
      (q : Resource)
      → s.held.taken q ≡ s.held.given q + all_owe q s.host_list + all_owe q s.device_list
  pub host_nodes : Distinct (nodes s.host_list)
  pub device_nodes : Distinct (nodes s.device_list)

-- allocations are at new addresses, and every page that is pinned for DMA is mapped
abbrev pub IsServed : Alloc → Request → Module → Type 0
IsServed kvmalloc (map_host_memory copied_in copied_out answers vaddr_start n_pages) s =
    IsMappable n_pages answers × FreshIn (nodes s.host_list) (kvmalloc (descriptor_bytes n_pages))
IsServed kvmalloc (map_dmabuf_memory_request copied_in copied_out invalid answers r) s =
    FreshIn (nodes s.device_list) (kvmalloc (descriptor_bytes (r.size / page_bytes)))
IsServed kvmalloc (unmap_memory copied_in addr) s = Unit {0}
IsServed kvmalloc other_request s = Unit {0}

-- the addresses of a descriptor fit into what is allocated for it
abbrev pub HasAddresses : (n_pages : ℕ) → Type 0
HasAddresses n_pages = map_bytes - 8 + n_pages * 8 < u64_mod

-- Where `drv/map.c` stays within its memory and gives back what it has: descriptors have space for
-- their addresses, an array of pages that `kfree` gets is not `vmalloc`'s, and where a freed region
-- is read it reads as an errno or 0.
abbrev pub IsSafe : Request → Type 0
IsSafe (map_host_memory copied_in copied_out answers vaddr_start n_pages) =
    HasAddresses n_pages × IsArrayFreed answers.get_user_pages answers.vmalloced
IsSafe (map_dmabuf_memory_request copied_in copied_out invalid answers r) =
    HasAddresses (r.size / page_bytes)
    × (((answers.get ≡ 0) × (answers.attach ≡ 0)) ⊎ (answers.stale ≤ 4095))
IsSafe (unmap_memory copied_in addr) = Unit {0}
IsSafe other_request = Unit {0}

abbrev pub AreServed : List (Alloc × ℕ × Request) → Module → Type 0
AreServed [] s = Unit {0}
AreServed ((kvmalloc, task, r) ∷ rs) s =
    IsServed kvmalloc r s × IsSafe r × AreServed rs (map_ioctl kvmalloc task r s).1

abbrev devices_owe : Module → Resource → ℕ
devices_owe s q = all_owe q s.device_list

abbrev hosts_owe : Module → Resource → ℕ
hosts_owe s q = all_owe q s.host_list

host_accounts : (s : Module) → IsBalanced s → IsAccounted (devices_owe s) (s.host_list, s.held)
host_accounts s v = (v.accounts, v.host_nodes)

device_accounts : (s : Module) → IsBalanced s → IsAccounted (hosts_owe s) (s.device_list, s.held)
device_accounts s v = (λ q. omega (arith, v.accounts q), v.device_nodes)

with_hosts_lem :
    (s : Module) (after : List Map × Held)
    → Distinct (nodes s.device_list)
    → IsAccounted (devices_owe s) after
    → IsBalanced (with_hosts s after)
with_hosts_lem s (ms, h) d (a, e) = record { accounts = a; host_nodes = e; device_nodes = d }

with_devices_lem :
    (s : Module) (after : List Map × Held)
    → Distinct (nodes s.host_list)
    → IsAccounted (hosts_owe s) after
    → IsBalanced (with_devices s after)
with_devices_lem s (ms, h) d (a, e) = record {
  accounts = λ q. omega (arith, a q);
  host_nodes = d;
  device_nodes = e;
}

appended_accounts :
    (k : Resource → ℕ) (ms : List Map) (m : Map) (h : Held)
    → NotIn m.node (nodes ms)
    → Distinct (nodes ms)
    → ((q : Resource) → h.taken q ≡ h.given q + all_owe q ms + owes q m + k q)
    → IsAccounted k (ms ++ (m ∷ []), h)
appended_accounts k ms m h p d a =
    (λ q. omega (arith, a q, all_owe-append q ms m), nodes_appended ms m p d)

host_mapped_lem :
    (copied_out : Bool) (s : Module) (r : Mapped × (List Map × Held))
    → IsBalanced s
    → IsEnlisted (devices_owe s) s.host_list r
    → IsBalanced (host_mapped copied_out s r).1
host_mapped_lem copied_out s (mapped m, (ms, h)) v (e, p, a) = rw e (
    with_hosts_lem s (s.host_list ++ (m ∷ []), h) v.device_nodes
      (appended_accounts (devices_owe s) s.host_list m h p v.host_nodes a))
host_mapped_lem copied_out s (refused errno, (ms, h)) v w =
    with_hosts_lem s (ms, h) v.device_nodes w

dmabuf_mapped_lem :
    (copied_out invalid : Bool) (capacity : ℕ) (s : Module) (r : Mapped × (List Map × Held))
    → IsBalanced s
    → IsEnlisted (hosts_owe s) s.device_list r
    → IsBalanced (dmabuf_mapped copied_out invalid capacity s r).1
dmabuf_mapped_lem copied_out invalid capacity s (mapped m, (ms, h)) v (e, p, a) =
    let P : Outcome → Type 0 = λ o. IsBalanced o.1 in
    let kept : IsBalanced (with_devices s (ms, h)) =
      with_devices_lem s (ms, h) v.host_nodes
        (rw e (appended_accounts (hosts_owe s) s.device_list m h p v.device_nodes a)) in
    let undone : IsBalanced (with_devices s (unmap_and_release m (ms, h))) =
      with_devices_lem s (unmap_and_release m (ms, h)) v.host_nodes
        (rw e (release_last (hosts_owe s) s.device_list m h p v.device_nodes a)) in
    either P invalid _ _ (λ _. undone)
      λ _.
        either P (ltb capacity m.n_addrs) _ _ (λ _. undone)
          λ _. either P copied_out _ _ (λ _. kept) (λ _. undone)
dmabuf_mapped_lem copied_out invalid capacity s (refused errno, after) v w =
    with_devices_lem s after v.host_nodes w

option_cases : (o : Option Map) → (o ≡ none) ⊎ ((m : Map) × (o ≡ some m))
option_cases none = inl refl
option_cases (some m) = inr (m, refl)

found_device_lem :
    (task addr : ℕ) (s : Module)
    → IsBalanced s
    → IsBalanced (found_device s (map_find task addr s.device_list)).1
found_device_lem task addr s v = elim (option_cases (map_find task addr s.device_list)) [
  | inl missing ↦ rw missing v
  | inr (m, e) ↦ rw e (
      with_devices_lem s (unmap_and_release m (s.device_list, s.held)) v.host_nodes
        (release_found (hosts_owe s) task addr s.device_list m s.held e (device_accounts s v)))
]

found_host_lem :
    (task addr : ℕ) (s : Module)
    → IsBalanced s
    → IsBalanced (found_host task addr s (map_find task addr s.host_list)).1
found_host_lem task addr s v = elim (option_cases (map_find task addr s.host_list)) [
  | inl missing ↦ rw missing (found_device_lem task addr s v)
  | inr (m, e) ↦ rw e (
      with_hosts_lem s (unmap_and_release m (s.host_list, s.held)) v.device_nodes
        (release_found (devices_owe s) task addr s.host_list m s.held e (host_accounts s v)))
]

ioctl-IsBalanced :
    (kvmalloc : Alloc) (task : ℕ) (r : Request) (s : Module)
    → IsServed kvmalloc r s
    → IsSafe r
    → IsBalanced s
    → IsBalanced (map_ioctl kvmalloc task r s).1
unfolding map_ioctl
ioctl-IsBalanced kvmalloc task (map_host_memory copied_in copied_out answers start n) s (u, f)
      (l, z) v =
    either (λ (o : Outcome). IsBalanced o.1) copied_in _ _
      (λ _. host_mapped_lem copied_out s _ v (
        userspace-IsEnlisted (devices_owe s) s.host_list kvmalloc answers task start n s.held u z f
          (host_accounts s v)))
      (λ _. v)
ioctl-IsBalanced kvmalloc task (map_dmabuf_memory_request copied_in out invalid answers r) s f z v =
    let P : Outcome → Type 0 = λ o. IsBalanced o.1 in
    either P copied_in _ _
      (λ _.
        either P (is_refused r) _ _ (λ _. v)
          λ _. dmabuf_mapped_lem out invalid r.ioaddrs_capacity s _ v (
            dmabuf-IsEnlisted (hosts_owe s) s.device_list kvmalloc answers task r.gpu_ptr
              r.dmabuf_offset (r.size / page_bytes) r.ioaddrs_capacity s.held f
              (device_accounts s v)))
      (λ _. v)
ioctl-IsBalanced kvmalloc task (unmap_memory copied_in addr) s f z v =
    either (λ (o : Outcome). IsBalanced o.1) copied_in _ _ (λ _. found_host_lem task addr s v)
      (λ _. v)
ioctl-IsBalanced kvmalloc task other_request s f z v = v

pub ioctls-IsBalanced :
    (rs : List (Alloc × ℕ × Request)) (s : Module)
    → AreServed rs s
    → IsBalanced s
    → IsBalanced (ioctls rs s)
unfolding ioctls
ioctls-IsBalanced [] s u v = v
ioctls-IsBalanced ((kvmalloc, task, r) ∷ rs) s (u, z, us) v =
    ioctls-IsBalanced rs (map_ioctl kvmalloc task r s).1 us
      (ioctl-IsBalanced kvmalloc task r s u z v)

-- the loop takes every mapping
cleared_lem :
    (k : Resource → ℕ) (fuel : ℕ) (ms : List Map) (h : Held)
    → length ms ≤ fuel
    → IsAccounted k (ms, h)
    → ((clear_map_list fuel (ms, h)).0 ≡ []) × IsAccounted k ([], (clear_map_list fuel (ms, h)).1)
unfolding clear_map_list
cleared_lem k zero [] h few v = (refl, v)
cleared_lem k zero (m ∷ ms) h few v = absurd (omega arith)
cleared_lem k (suc fuel) [] h few v = (refl, v)
cleared_lem k (suc fuel) (m ∷ ms) h few v =
    let after = (unmap_and_release m (m ∷ ms, h)).1 in
    subst (λ (r : List Map × Held). (r.0 ≡ []) × IsAccounted k ([], r.1))
      (sym (ap (λ xs. clear_map_list fuel (xs, after)) (remove_head m ms)))
      (cleared_lem k fuel ms after (omega arith) (release_head k ms m h v))

-- Whatever processes map and unmap host memory and dma-bufs, in whatever order, and whatever else
-- than what the conditions exclude fails on the way: at the exit of the module, after
-- `clear_map_list` of both lists, these are empty and every resource that was taken has been given
-- back. The conditions are that the module was balanced before, that descriptors are allocated at
-- addresses of no live descriptor, that `dma_map_page` does not fail, that `get_user_pages` pins at
-- most the pages asked for, that the size of a descriptor does not overflow in 64 bits, that where
-- no page is pinned the array of pages is not memory of `vmalloc`, which `kfree` does not give
-- back, and that where `dma_buf_get` or `dma_buf_dynamic_attach` fails, the freed region reads as
-- an errno or 0.
pub clear_lists_lem :
    (rs : List (Alloc × ℕ × Request)) (s : Module) (q : Resource)
    → AreServed rs s
    → IsBalanced s
    → let after = clear_lists (ioctls rs s) in
      (after.host_list ≡ []) × (after.device_list ≡ []) × (after.held.taken q ≡ after.held.given q)
clear_lists_lem rs s q u v =
    let w = ioctls-IsBalanced rs s u v in
    let t = ioctls rs s in
    let devices =
      cleared_lem (hosts_owe t) (length t.device_list) t.device_list t.held (omega arith)
        (device_accounts t w) in
    let held = (clear_map_list (length t.device_list) (t.device_list, t.held)).1 in
    let hosts =
      cleared_lem (λ r. 0) (length t.host_list) t.host_list held (omega arith)
        (λ r. omega (arith, devices.1.0 r), w.host_nodes) in
    (hosts.0, devices.0, omega (arith, hosts.1.0 q))
