-- ===== src/Kernel/Mapping.antt =====
-- drv/map.c: the descriptors of mappings, and the mapping of pages of a process. A list of mappings
-- is the sequence that its linked list stands for.
pub mod Bounds
use u_gds.Prelude.{
  ℕ, zero, suc, ◌+◌, ◌-◌, ◌*◌, ◌%◌, Bool, true, false, ◌&&◌, Option, none, some, List, [], ◌∷◌,
  ◌++◌, ltb, ◌==◌, if◌then◌else◌, length, replicate, u64_mod,
}
use u_gds.Queue.{einval}
use u_gds.Dma.Lifetime.{enomem}
use u_gds.Kernel.Resources.{
  Resource, memory, page, dma, dmabuf, attachment, pin, table, Held, take, give,
}

-- `PAGE_SIZE`
abbrev pub page_bytes : ℕ
page_bytes = 4096

-- `x & ~(d - 1)` and `x & PAGE_MASK` for d a power of two
abbrev pub align_down : (d x : ℕ) → ℕ
align_down d x = x - x % d

-- The fields `data` and `release`, which are set and read together: NULL, an array of pages with
-- `release_user_pages`, or a dma-buf region with `release_dmabuf_memory`.
pub data Region : Type 0 where
  no_region user_region dmabuf_region : Region

-- `struct map`: node is its address
pub record Map : Type 0 where
  pub node : ℕ
  pub owner : ℕ
  pub vaddr : ℕ
  pub page_size : ℕ
  pub region : Region
  pub n_addrs : ℕ
  pub addrs : List ℕ

-- `sizeof(struct map)` on x86-64, where the field `addrs` is the last 8 bytes
abbrev pub map_bytes : ℕ
map_bytes = 104

-- the argument of `kvmalloc` in `create_descriptor`, a 64-bit size
unfoldable pub descriptor_bytes : ℕ → ℕ
descriptor_bytes n_pages = (map_bytes + (n_pages + u64_mod - 1) % u64_mod * 8 % u64_mod) % u64_mod

-- what `kvmalloc` and the like answer: NULL or an address
abbrev pub Alloc : Type 0
Alloc = ℕ → Option ℕ

abbrev pub new_map : (task vaddr n_pages : ℕ) → ℕ → Map
new_map task vaddr n_pages node = record {
  node = node;
  owner = task;
  vaddr = vaddr;
  page_size = 0;
  region = Region.no_region;
  n_addrs = n_pages;
  addrs = replicate n_pages 0;
}

abbrev pub described : (task vaddr n_pages : ℕ) → Option ℕ → Held → Option Map × Held
described task vaddr n_pages none h = (none, h)
described task vaddr n_pages (some node) h =
    (some (new_map task vaddr n_pages node), take memory 1 h)

-- `create_descriptor`, where the addresses that it sets to 0 fit into what is allocated, that is,
-- where `descriptor_bytes` does not overflow
abbrev pub create_descriptor : Alloc → (task vaddr n_pages : ℕ) → Held → Option Map × Held
create_descriptor kvmalloc task vaddr n_pages h =
    described task vaddr n_pages (kvmalloc (descriptor_bytes n_pages)) h

-- the callback that `release` holds: `release_user_pages` or `release_dmabuf_memory`
abbrev pub release_region : Region → (n_addrs : ℕ) → Held → Held
release_region Region.no_region n_addrs h = h
release_region Region.user_region n_addrs h = give memory 1 (give page n_addrs (give dma n_addrs h))
release_region Region.dmabuf_region n_addrs h =
    give memory 1 (give dmabuf 1 (give attachment 1 (give pin 1 (give table 1 h))))

-- `list_remove` of a mapping
unfoldable pub unlist_map : (node : ℕ) → List Map → List Map
unlist_map node [] = []
unlist_map node (m ∷ ms) = let rest = unlist_map node ms in if m.node == node then ms else m ∷ rest

-- `unmap_and_release`
abbrev pub unmap_and_release : Map → List Map × Held → List Map × Held
unmap_and_release m (ms, h) =
    (unlist_map m.node ms, give memory 1 (release_region m.region m.n_addrs h))

-- `map_find`
unfoldable pub map_find : (task vaddr : ℕ) → List Map → Option Map
map_find task vaddr [] = none
map_find task vaddr (m ∷ ms) =
    let rest = map_find task vaddr ms in
    if m.owner == task && (ltb 0 m.page_size && m.vaddr == align_down m.page_size vaddr)
    then some m
    else rest

-- the answer of `get_user_pages`
pub data Pinned : Type 0 where
  pin_failed : (errno : ℕ) → Pinned
  pinned : (n_pages : ℕ) → Pinned

-- the loop of `map_user_pages` over the pages from i on, and the pages that it has mapped:
-- `dma_map_page` and `dma_mapping_error` answer an address and an errno for each page
unfoldable pub dma_map_pages : (dma_map_page : ℕ → ℕ × ℕ) → (n i : ℕ) → List ℕ → ℕ × (List ℕ × ℕ)
dma_map_pages dma_map_page zero i addrs = (0, (addrs, 0))
dma_map_pages dma_map_page (suc n) i [] = (0, ([], 0))
dma_map_pages dma_map_page (suc n) i (a ∷ addrs) =
    let answer = dma_map_page i in
    let rest = dma_map_pages dma_map_page n (i + 1) addrs in
    if answer.1 == 0
    then (rest.0, (answer.0 ∷ rest.1.0, rest.1.1 + 1))
    else (answer.1, (answer.0 ∷ addrs, 0))

-- what the system answers to `map_user_pages`, and whether the memory of `kvcalloc` is `vmalloc`'s
pub record UserAnswers : Type 0 where
  pub page_array : Bool
  pub vmalloced : Bool
  pub get_user_pages : Pinned
  pub dma_map_page : ℕ → ℕ × ℕ

abbrev pub with_pages : Map → (n_pages : ℕ) → ℕ × (List ℕ × ℕ) → Held → ℕ × (Map × Held)
with_pages m n_pages (err, (addrs, mapped)) h = (
  err,
  (
    record {
      node = m.node;
      owner = m.owner;
      vaddr = m.vaddr;
      page_size = page_bytes;
      region = Region.user_region;
      n_addrs = n_pages;
      addrs = addrs;
    },
    take dma mapped h,
  ),
)

-- `kfree(pages)`, which gives back what `kmalloc` has allocated and not what `vmalloc` has
abbrev pub array_freed : UserAnswers → Held → Held
array_freed answers h = if answers.vmalloced then h else give memory 1 h

abbrev pub pages_pinned : UserAnswers → Map → Pinned → Held → ℕ × (Map × Held)
pages_pinned answers m (pin_failed errno) h = (errno, (m, array_freed answers h))
pages_pinned answers m (pinned zero) h = (0, (m, array_freed answers h))
pages_pinned answers m (pinned (suc n)) h =
    with_pages m (suc n) (dma_map_pages answers.dma_map_page (suc n) 0 m.addrs)
      (take page (suc n) h)

-- `map_user_pages`
abbrev pub map_user_pages : UserAnswers → Map → Held → ℕ × (Map × Held)
map_user_pages answers m h =
    if answers.page_array
    then pages_pinned answers m answers.get_user_pages (take memory 1 h)
    else (enomem, (m, h))

abbrev pub set_page_size : ℕ → Map → Map
set_page_size n m = record {
  node = m.node;
  owner = m.owner;
  vaddr = m.vaddr;
  page_size = n;
  region = m.region;
  n_addrs = m.n_addrs;
  addrs = m.addrs;
}

-- a mapping or an errno: what `ERR_PTR` encodes
pub data Mapped : Type 0 where
  mapped : Map → Mapped
  refused : (errno : ℕ) → Mapped

-- the end of `map_userspace` and `map_dmabuf`
abbrev pub enlist : ℕ × (Map × Held) → List Map → Mapped × (List Map × Held)
enlist (err, (m, h)) ms =
    if err == 0 then (mapped m, (ms ++ (m ∷ []), h)) else (refused err, unmap_and_release m (ms, h))

abbrev pub userspace_described :
    UserAnswers → Option Map × Held → List Map → Mapped × (List Map × Held)
userspace_described answers (none, h) ms = (refused enomem, (ms, h))
userspace_described answers (some m, h) ms =
    enlist (map_user_pages answers (set_page_size page_bytes m) h) ms

-- `map_userspace`
unfoldable pub map_userspace :
    Alloc → UserAnswers → (task vaddr n_pages : ℕ) → List Map × Held → Mapped × (List Map × Held)
map_userspace kvmalloc answers task vaddr n_pages (ms, h) =
    if ltb n_pages 1
    then (refused einval, (ms, h))
    else userspace_described answers
        (create_descriptor kvmalloc task (align_down page_bytes vaddr) n_pages h) ms
