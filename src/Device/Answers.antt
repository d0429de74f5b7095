-- ===== src/Device/Answers.antt =====
-- The calls of the library answered by the kernel module, as drv/pci.c answers them in a HIP build.
use u_gds.Prelude.{
  ℕ, zero, suc, ◌+◌, ◌≤◌, ◌≡◌, refl, ap, ◌∙◌, Bool, Option, none, some, List, [], ◌∷◌, ltb, ◌==◌,
  either, length, length-take, length-replicate, arith,
}
use u_gds.Kernel.Resources.{page, Held, take as take_held}
use u_gds.Kernel.Mapping.{
  Alloc, Map, Mapped, mapped, refused, UserAnswers, Pinned, pin_failed, pinned, dma_map_pages,
  map_userspace, userspace_described, map_user_pages, pages_pinned, with_pages, described, new_map,
  descriptor_bytes, set_page_size, page_bytes, align_down, enlist, map_find,
}
use u_gds.Kernel.Dmabuf.{DmabufAnswers}
use u_gds.Kernel.Ioctl.{
  Module, Outcome, Request, map_host_memory, map_dmabuf_memory_request, unmap_memory, other_request,
  map_ioctl, host_mapped, dmabuf_mapped, found_host, found_device, is_refused,
}
use u_gds.Device.{IoctlCall, call_map_host, call_map_device, call_map_dmabuf, call_unmap, Ioctl}
use u_gds.Device.Ranges.{IsBounded}

-- what the system answers while the kernel module serves a call of a process
pub record Served : Type 0 where
  pub kvmalloc : Alloc
  pub task : ℕ
  pub copied_in : Bool
  pub copied_out : Bool
  pub invalid : Bool
  pub user : UserAnswers
  pub dmabuf : DmabufAnswers

-- the request that the module reads for a call
abbrev pub module_request : Served → IoctlCall → Request
module_request a (call_map_host vaddr_start n_pages) =
    map_host_memory a.copied_in a.copied_out a.user vaddr_start n_pages
module_request a (call_map_device vaddr_start n_pages) = other_request
module_request a (call_map_dmabuf r) =
    map_dmabuf_memory_request a.copied_in a.copied_out a.invalid a.dmabuf r
module_request a (call_unmap addr) = unmap_memory a.copied_in addr

-- the module as the library sees it: the errno and the addresses that it copies to the process
abbrev pub kernel_ioctl : Served → Module → Ioctl
kernel_ioctl a s call = (map_ioctl a.kvmalloc a.task (module_request a call) s).0

length-dma_map_pages :
    (dma_map_page : ℕ → ℕ × ℕ) (n i : ℕ) (addrs : List ℕ)
    → length (dma_map_pages dma_map_page n i addrs).1.0 ≡ length addrs
unfolding dma_map_pages
length-dma_map_pages dma_map_page zero i addrs = refl
length-dma_map_pages dma_map_page (suc n) i [] = refl
length-dma_map_pages dma_map_page (suc n) i (a ∷ addrs) =
    either (λ (r : ℕ × (List ℕ × ℕ)). length r.1.0 ≡ suc (length addrs)) ((dma_map_page i).1 == 0) _
      _ (λ _. ap suc (length-dma_map_pages dma_map_page n (i + 1) addrs)) (λ _. refl)

-- a mapping with room for n addresses
abbrev HasRoom : ℕ → Mapped → Type 0
HasRoom n (mapped m) = length m.addrs ≡ n
HasRoom n (refused errno) = Unit {0}

with_pages-length :
    (n k : ℕ) (m : Map) (r : ℕ × (List ℕ × ℕ)) (h : Held)
    → length r.1.0 ≡ n
    → length (with_pages m k r h).1.0.addrs ≡ n
with_pages-length n k m (err, (addrs, count)) h e = e

pinned-length :
    (answers : UserAnswers) (m : Map) (pins : Pinned) (h : Held)
    → length (pages_pinned answers m pins h).1.0.addrs ≡ length m.addrs
pinned-length answers m (pin_failed errno) h = refl
pinned-length answers m (pinned zero) h = refl
pinned-length answers m (pinned (suc n)) h =
    with_pages-length (length m.addrs) (suc n) m
      (dma_map_pages answers.dma_map_page (suc n) 0 m.addrs) (take_held page (suc n) h)
      (length-dma_map_pages answers.dma_map_page (suc n) 0 m.addrs)

enlist-HasRoom :
    (n : ℕ) (r : ℕ × (Map × Held)) (ms : List Map)
    → length r.1.0.addrs ≡ n
    → HasRoom n (enlist r ms).0
enlist-HasRoom n (err, (m, h)) ms e =
    either (λ (r : Mapped × (List Map × Held)). HasRoom n r.0) (err == 0) _ _ (λ _. e) (λ _. tt)

described-HasRoom :
    (answers : UserAnswers) (task vaddr n : ℕ) (o : Option ℕ) (h : Held) (ms : List Map)
    → HasRoom n (userspace_described answers (described task vaddr n o h) ms).0
described-HasRoom answers task vaddr n none h ms = tt
described-HasRoom answers task vaddr n (some node) h ms =
    let start = set_page_size page_bytes (new_map task vaddr n node) in
    let full : length start.addrs ≡ n = length-replicate n zero in
    enlist-HasRoom n (map_user_pages answers start _) ms (
      either (λ (r : ℕ × (Map × Held)). length r.1.0.addrs ≡ n) answers.page_array _ _
        (λ _. pinned-length answers start answers.get_user_pages _ ∙ full) (λ _. full))

userspace-HasRoom :
    (kvmalloc : Alloc) (answers : UserAnswers) (task vaddr n : ℕ) (h : Held) (ms : List Map)
    → HasRoom n (map_userspace kvmalloc answers task vaddr n (ms, h)).0
unfolding map_userspace
userspace-HasRoom kvmalloc answers task vaddr n h ms =
    either (λ (r : Mapped × (List Map × Held)). HasRoom n r.0) (ltb n 1) _ _ (λ _. tt)
      (λ _.
        described-HasRoom answers task (align_down page_bytes vaddr) n
          (kvmalloc (descriptor_bytes n)) h ms)

host-bounded :
    (n : ℕ) (copied_out : Bool) (s : Module) (r : Mapped × (List Map × Held))
    → HasRoom n r.0
    → length (host_mapped copied_out s r).0.1 ≤ n
host-bounded n copied_out s (mapped m, (ms, h)) e =
    either (λ (r : ℕ × List ℕ). length r.1 ≤ n) copied_out _ _
      (λ _. omega (arith, length-take m.n_addrs m.addrs, e)) (λ _. omega arith)
host-bounded n copied_out s (refused errno, (ms, h)) e = omega arith

dmabuf-bounded :
    (copied_out invalid : Bool) (n : ℕ) (s : Module) (r : Mapped × (List Map × Held))
    → length (dmabuf_mapped copied_out invalid n s r).0.1 ≤ n
dmabuf-bounded copied_out invalid n s (mapped m, after) =
    let P : Outcome → Type 0 = λ r. length r.0.1 ≤ n in
    either P invalid _ _ (λ _. omega arith)
      λ _.
        either P (ltb n m.n_addrs) _ _ (λ _. omega arith)
          λ fits.
            let few : m.n_addrs ≤ n = ground arith in
            either P copied_out _ _ (λ _. omega (arith, length-take m.n_addrs m.addrs))
              (λ _. omega arith)
dmabuf-bounded copied_out invalid n s (refused errno, after) = omega arith

device-bounded : (s : Module) (o : Option Map) → length (found_device s o).0.1 ≤ 0
device-bounded s none = omega arith
device-bounded s (some m) = omega arith

unmap-bounded :
    (task addr : ℕ) (s : Module) (o : Option Map) → length (found_host task addr s o).0.1 ≤ 0
unmap-bounded task addr s none = device-bounded s (map_find task addr s.device_list)
unmap-bounded task addr s (some m) = omega arith

-- The kernel module never copies more addresses to a process than its array has room for.
pub kernel_ioctl-IsBounded : (a : Served) (s : Module) → IsBounded (kernel_ioctl a s)
unfolding map_ioctl
kernel_ioctl-IsBounded a s (call_map_host vaddr_start n_pages) =
    either (λ (r : Outcome). length r.0.1 ≤ n_pages) a.copied_in _ _
      (λ _.
        host-bounded n_pages a.copied_out s _
          (userspace-HasRoom a.kvmalloc a.user a.task vaddr_start n_pages s.held s.host_list))
      (λ _. omega arith)
kernel_ioctl-IsBounded a s (call_map_device vaddr_start n_pages) = omega arith
kernel_ioctl-IsBounded a s (call_map_dmabuf r) =
    let P : Outcome → Type 0 = λ o. length o.0.1 ≤ r.ioaddrs_capacity in
    either P a.copied_in _ _
      (λ _.
        either P (is_refused r) _ _ (λ _. omega arith)
          (λ _. dmabuf-bounded a.copied_out a.invalid r.ioaddrs_capacity s _))
      (λ _. omega arith)
kernel_ioctl-IsBounded a s (call_unmap addr) =
    either (λ (r : Outcome). length r.0.1 ≤ 0) a.copied_in _ _
      (λ _. unmap-bounded a.task addr s (map_find a.task addr s.host_list)) (λ _. omega arith)
