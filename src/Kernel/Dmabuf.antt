-- ===== src/Kernel/Dmabuf.antt =====
-- drv/map.c: the mapping of a dma-buf (`map_dmabuf_memory`, `map_dmabuf`).
use u_gds.Prelude.{ℕ, Bool, Option, none, some, List, ◌++◌, ltb, ◌==◌, if◌then◌else◌, drop, length}
use u_gds.Queue.{einval}
use u_gds.Dma.Lifetime.{enomem}
use u_gds.Kernel.Resources.{memory, dmabuf, attachment, pin, table, Held, take, give}
use u_gds.Kernel.Flatten.{Sg, sg_flatten_to_addrs}
use u_gds.Kernel.Mapping.{
  Alloc, Map, Region, Mapped, refused, create_descriptor, enlist, page_bytes, set_page_size,
}

abbrev pub eoverflow : ℕ
eoverflow = 75

-- What the system answers to `map_dmabuf_memory`: whether `kmalloc` gives a region, an errno or 0
-- of `dma_buf_get`, `dma_buf_dynamic_attach`, `dma_buf_pin` and `dma_buf_map_attachment`, with the
-- entries of the table, and what the region's fields read as once it is freed, in the 32 bits of
-- `err` and negated: a mapping for 0, an errno up to 4095.
pub record DmabufAnswers : Type 0 where
  pub region : Bool
  pub get : ℕ
  pub attach : ℕ
  pub pinning : ℕ
  pub mapping : ℕ
  pub sgt : List Sg
  pub stale : ℕ

-- the release of what the failing paths have acquired, in the order of the code
abbrev pub put_region : Held → Held
put_region h = give memory 1 (give dmabuf 1 h)

abbrev pub detach_region : Held → Held
detach_region h = put_region (give attachment 1 h)

abbrev pub unpin_region : Held → Held
unpin_region h = detach_region (give pin 1 h)

-- `map->addrs` after `sg_flatten_to_addrs` has written its first entries
abbrev pub overwrite : (written addrs : List ℕ) → List ℕ
overwrite written addrs = written ++ drop (length written) addrs

abbrev pub flattened : Map → ℕ × List ℕ → Held → ℕ × (Map × Held)
flattened m (err, addrs) h =
    let region = if err == 0 then Region.dmabuf_region else Region.no_region in
    (
      err,
      (
        record {
          node = m.node;
          owner = m.owner;
          vaddr = m.vaddr;
          page_size = page_bytes;
          region = region;
          n_addrs = m.n_addrs;
          addrs = overwrite addrs m.addrs;
        },
        if err == 0 then h else unpin_region (give table 1 h),
      ),
    )

-- `map_dmabuf_memory` from `dma_buf_get` on, with a region; where a freed region is read, as an
-- errno or 0
abbrev pub region_given :
    DmabufAnswers → Map → (hsa_offset expected_pages : ℕ) → Held → ℕ × (Map × Held)
region_given answers m hsa_offset expected_pages h =
    if ltb 0 answers.get
    then (answers.stale, (m, give memory 1 h))
    else let got = take dmabuf 1 h in
      if ltb 0 answers.attach
      then (answers.stale, (m, put_region got))
      else let attached = take attachment 1 got in
        if ltb 0 answers.pinning
        then (answers.pinning, (m, detach_region attached))
        else let pinned = take pin 1 attached in
          if ltb 0 answers.mapping
          then (answers.mapping, (m, unpin_region pinned))
          else flattened m (sg_flatten_to_addrs answers.sgt expected_pages page_bytes hsa_offset)
              (take table 1 pinned)

-- `map_dmabuf_memory`
abbrev pub map_dmabuf_memory :
    DmabufAnswers → Map → (hsa_offset expected_pages ioaddrs_capacity : ℕ) → Held → ℕ × (Map × Held)
map_dmabuf_memory answers m hsa_offset expected_pages ioaddrs_capacity h =
    if ltb ioaddrs_capacity expected_pages
    then (eoverflow, (m, h))
    else if answers.region
    then region_given answers m hsa_offset expected_pages (take memory 1 h)
    else (enomem, (m, h))

abbrev pub dmabuf_described :
    DmabufAnswers
    → (dmabuf_offset n_pages ioaddrs_capacity : ℕ) → Option Map × Held
    → List Map
    → Mapped × (List Map × Held)
dmabuf_described answers dmabuf_offset n_pages ioaddrs_capacity (none, h) ms =
    (refused enomem, (ms, h))
dmabuf_described answers dmabuf_offset n_pages ioaddrs_capacity (some m, h) ms =
    enlist
      (map_dmabuf_memory answers (set_page_size page_bytes m) dmabuf_offset n_pages ioaddrs_capacity
        h)
      ms

-- `map_dmabuf`
unfoldable pub map_dmabuf :
    Alloc
    → DmabufAnswers
    → (task gpu_ptr dmabuf_offset n_pages ioaddrs_capacity : ℕ) → List Map × Held
    → Mapped × (List Map × Held)
map_dmabuf kvmalloc answers task gpu_ptr dmabuf_offset n_pages ioaddrs_capacity (ms, h) =
    if ltb n_pages 1
    then (refused einval, (ms, h))
    else dmabuf_described answers dmabuf_offset n_pages ioaddrs_capacity
        (create_descriptor kvmalloc task gpu_ptr n_pages h) ms
