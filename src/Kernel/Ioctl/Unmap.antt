-- ===== src/Kernel/Ioctl/Unmap.antt =====
-- `NVM_UNMAP_MEMORY` undoes `NVM_MAP_HOST_MEMORY`.
use u_gds.Prelude.{
  ℕ, zero, suc, ◌≡◌, refl, ap, sym, ◌∙◌, Bool, true, false, ◌&&◌, Bool-cases, inl, inr, either,
  Option, none, some, List, [], ◌∷◌, ◌++◌, ltb, ◌==◌, arith,
}
use mathlib.Core.Option.{none-ne-some}
use u_gds.Kernel.Resources.{Held, take, memory, page}
use u_gds.Kernel.Links.Segment.{NotIn}
use u_gds.Kernel.Mapping.{
  Alloc, Map, Mapped, mapped, refused, UserAnswers, Pinned, pin_failed, pinned, dma_map_pages,
  map_userspace, userspace_described, pages_pinned, with_pages, map_user_pages, described,
  set_page_size, new_map, page_bytes, descriptor_bytes, enlist, align_down, map_find, unlist_map,
}
use u_gds.Kernel.Ioctl.{Module, map_host_memory, unmap_memory, host_mapped, found_host, map_ioctl}
use u_gds.Kernel.Ioctl.Accounts.{nodes, remove_last}
use u_gds.Kernel.Ioctl.Enlisted.{FreshIn}
use u_gds.Kernel.Ioctl.Balance.{IsBalanced, IsServed}

-- a mapping that `map_find` finds
abbrev pub IsFor : (task vaddr : ℕ) → Map → Type 0
IsFor task vaddr m = (m.owner ≡ task) × (m.vaddr ≡ vaddr) × (m.page_size ≡ page_bytes)

-- it is at the end of the list, where its descriptor was not before
abbrev pub IsMappedFor : (task vaddr : ℕ) → List Map → Mapped × (List Map × Held) → Type 0
IsMappedFor task vaddr ms (mapped m, (after, h)) =
    IsFor task vaddr m × (after ≡ ms ++ (m ∷ [])) × NotIn m.node (nodes ms)
IsMappedFor task vaddr ms (refused errno, after) = Unit {0}

-- a mapping at an address that no descriptor of the list has
abbrev IsNewFor : (task vaddr : ℕ) → List Map → Map → Type 0
IsNewFor task vaddr ms m = IsFor task vaddr m × NotIn m.node (nodes ms)

with_pages-IsNewFor :
    (task vaddr n : ℕ) (ms : List Map) (m : Map) (r : ℕ × (List ℕ × ℕ)) (h : Held)
    → IsNewFor task vaddr ms m
    → IsNewFor task vaddr ms (with_pages m n r h).1.0
with_pages-IsNewFor task vaddr n ms m (err, (addrs, count)) h ((o, v, p), fresh) =
    ((o, v, refl), fresh)

pinned-IsNewFor :
    (answers : UserAnswers) (task vaddr : ℕ) (ms : List Map) (m : Map) (pins : Pinned) (h : Held)
    → IsNewFor task vaddr ms m
    → IsNewFor task vaddr ms (pages_pinned answers m pins h).1.0
pinned-IsNewFor answers task vaddr ms m (pin_failed errno) h w = w
pinned-IsNewFor answers task vaddr ms m (pinned zero) h w = w
pinned-IsNewFor answers task vaddr ms m (pinned (suc n)) h w =
    with_pages-IsNewFor task vaddr (suc n) ms m
      (dma_map_pages answers.dma_map_page (suc n) 0 m.addrs) (take page (suc n) h) w

enlist-IsMappedFor :
    (task vaddr : ℕ) (r : ℕ × (Map × Held)) (ms : List Map)
    → IsNewFor task vaddr ms r.1.0
    → IsMappedFor task vaddr ms (enlist r ms)
enlist-IsMappedFor task vaddr (err, (m, h)) ms w =
    either (IsMappedFor task vaddr ms) (err == 0) _ _ (λ _. (w.0, refl, w.1)) (λ _. tt)

described-IsMappedFor :
    (answers : UserAnswers) (task vaddr n_pages : ℕ) (o : Option ℕ) (h : Held) (ms : List Map)
    → FreshIn (nodes ms) o
    → IsMappedFor task vaddr ms (userspace_described answers (described task vaddr n_pages o h) ms)
described-IsMappedFor answers task vaddr n_pages none h ms fresh = tt
described-IsMappedFor answers task vaddr n_pages (some node) h ms fresh =
    let start = set_page_size page_bytes (new_map task vaddr n_pages node) in
    enlist-IsMappedFor task vaddr (map_user_pages answers start (take memory 1 h)) ms (
      either (λ (r : ℕ × (Map × Held)). IsNewFor task vaddr ms r.1.0) answers.page_array _ _
        (λ _.
          pinned-IsNewFor answers task vaddr ms start answers.get_user_pages
            (take memory 1 (take memory 1 h)) ((refl, refl, refl), fresh))
        (λ _. ((refl, refl, refl), fresh)))

userspace-IsMappedFor :
    (kvmalloc : Alloc) (answers : UserAnswers) (task vaddr n_pages : ℕ) (h : Held) (ms : List Map)
    → FreshIn (nodes ms) (kvmalloc (descriptor_bytes n_pages))
    → IsMappedFor task
        (align_down page_bytes vaddr)
        ms
        (map_userspace kvmalloc answers task vaddr n_pages (ms, h))
unfolding map_userspace
userspace-IsMappedFor kvmalloc answers task vaddr n_pages h ms fresh =
    either (IsMappedFor task (align_down page_bytes vaddr) ms) (ltb n_pages 1) _ _ (λ _. tt)
      (λ _.
        described-IsMappedFor answers task (align_down page_bytes vaddr) n_pages
          (kvmalloc (descriptor_bytes n_pages)) h ms fresh)

map_find-append :
    (task vaddr : ℕ) (ms : List Map) (m : Map)
    → map_find task vaddr ms ≡ none
    → IsFor task (align_down page_bytes vaddr) m
    → map_find task vaddr (ms ++ (m ∷ [])) ≡ some m
unfolding map_find
map_find-append task vaddr [] m e (o, v, p) =
    let aligned : align_down m.page_size vaddr ≡ align_down page_bytes vaddr =
      ap (λ d. align_down d vaddr) p in
    let this : (m.owner == task && (ltb 0 m.page_size && m.vaddr == align_down m.page_size vaddr))
        ≡ true =
      ground arith in
    rw this refl
map_find-append task vaddr (x ∷ ms) m e w =
    elim (Bool-cases
      (x.owner == task && (ltb 0 x.page_size && x.vaddr == align_down x.page_size vaddr))) [
        | inl here ↦ absurd (none-ne-some x (sym (rw here at e)))
        | inr behind ↦ rw behind (map_find-append task vaddr ms m (rw behind at e) w)
      ]

unmap_last :
    (task vaddr : ℕ) (s t : Module) (m : Map)
    → t.host_list ≡ s.host_list ++ (m ∷ [])
    → NotIn m.node (nodes s.host_list)
    → map_find task vaddr s.host_list ≡ none
    → IsFor task (align_down page_bytes vaddr) m
    → let after = found_host task vaddr t (map_find task vaddr t.host_list) in
      (after.0.0 ≡ 0) × (after.1.host_list ≡ s.host_list) × (after.1.device_list ≡ t.device_list)
unmap_last task vaddr s t m e p f w =
    let found : map_find task vaddr t.host_list ≡ some m =
      ap (map_find task vaddr) e ∙ map_find-append task vaddr s.host_list m f w in
    rw found (refl, ap (unlist_map m.node) e ∙ remove_last s.host_list m p, refl)

-- `!IS_ERR_OR_NULL(map)`
abbrev pub is_mapped : Mapped → Bool
is_mapped (mapped m) = true
is_mapped (refused errno) = false

unmap_mapped :
    (task vaddr : ℕ) (copied_out : Bool) (s : Module) (r : Mapped × (List Map × Held))
    → is_mapped r.0 ≡ true
    → IsMappedFor task (align_down page_bytes vaddr) s.host_list r
    → map_find task vaddr s.host_list ≡ none
    → let t = (host_mapped copied_out s r).1 in
      let after = found_host task vaddr t (map_find task vaddr t.host_list) in
      (after.0.0 ≡ 0) × (after.1.host_list ≡ s.host_list) × (after.1.device_list ≡ s.device_list)
unmap_mapped task vaddr copied_out s (mapped m, (ms, h)) made (w, e, p) f =
    unmap_last task vaddr s (host_mapped copied_out s (mapped m, (ms, h))).1 m e p f w
unmap_mapped task vaddr copied_out s (refused errno, after) made w f = absurd (ground arith)

-- Where `map_userspace` maps memory at an address for a process that has no mapping there, then
-- whether or not the addresses can be copied to the process, its `NVM_UNMAP_MEMORY` of that address
-- returns 0 and leaves the lists as they were before, if the module was balanced, the descriptor is
-- allocated at a new address, and all pages that are pinned, which are at most those asked for, are
-- mapped for DMA.
pub unmap-map :
    (kvmalloc kvmalloc2 : Alloc) (answers : UserAnswers) (task vaddr n_pages : ℕ)
    (copied_out : Bool) (s : Module)
    → IsBalanced s
    → IsServed kvmalloc (map_host_memory true copied_out answers vaddr n_pages) s
    → map_find task vaddr s.host_list ≡ none
    → is_mapped (map_userspace kvmalloc answers task vaddr n_pages (s.host_list, s.held)).0 ≡ true
    → let t =
        (map_ioctl kvmalloc task (map_host_memory true copied_out answers vaddr n_pages) s).1 in
      let after = map_ioctl kvmalloc2 task (unmap_memory true vaddr) t in
      (after.0.0 ≡ 0) × (after.1.host_list ≡ s.host_list) × (after.1.device_list ≡ s.device_list)
unfolding map_ioctl
unmap-map kvmalloc kvmalloc2 answers task vaddr n_pages copied_out s v (good, fresh) f made =
    unmap_mapped task vaddr copied_out s
      (map_userspace kvmalloc answers task vaddr n_pages (s.host_list, s.held)) made
      (userspace-IsMappedFor kvmalloc answers task vaddr n_pages s.held s.host_list fresh) f
