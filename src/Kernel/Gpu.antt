-- ===== src/Kernel/Gpu.antt =====
-- drv/map.c in a CUDA build: the mapping of GPU memory for every controller. A controller is seen
-- as its PCI device.
pub mod Call
pub mod Undone
pub mod Returned
pub mod Balance
pub mod Answered
use u_gds.Prelude.{
  ℕ, zero, suc, ◌+◌, Bool, true, false, Option, none, some, List, [], ◌∷◌, ◌++◌, ltb, ◌==◌,
  if◌then◌else◌, length, take, replicate,
}
use u_gds.Queue.{einval}
use u_gds.Dma.Lifetime.{enomem}
use u_gds.Kernel.Resources.{memory, Held, take as take_held, give}
use u_gds.Kernel.Mapping.{Alloc, Map, create_descriptor, set_page_size, align_down}

-- `GPU_PAGE_SIZE`
abbrev pub gpu_page_size : ℕ
gpu_page_size = 65536

-- `max_num_ctrls`
abbrev pub max_num_ctrls : ℕ
max_num_ctrls = 64

-- `struct gpu_region` with the array that it points to: the entries of the page table, NULL before
-- there is one, and the DMA mappings, each with its addresses
pub record GpuRegion : Type 0 where
  pub pages : Option ℕ
  pub mappings : List (Option (List ℕ))

-- `struct map` of GPU memory, with its `data`; the field `region` of the mapping is not used
pub record GpuMap : Type 0 where
  pub map : Map
  pub data_region : Option GpuRegion

-- what is held: memory, the page tables taken and given back, and the devices that DMA mappings
-- were made and undone for, in order
pub record GpuHeld : Type 0 where
  pub held : Held
  pub tables_taken : ℕ
  pub tables_given : ℕ
  pub mapped_for : List ℕ
  pub unmapped_for : List ℕ

-- the answers of the kernel and of the NVIDIA driver
pub record GpuAnswers : Type 0 where
  pub region_memory : Bool
  pub mappings_memory : Bool
  pub get_pages : ℕ × ℕ
  pub p2p_map_pages : ℕ → ℕ × List ℕ

-- The loop over the controllers in the release of a mapping, with the mappings from j on: the
-- devices that it unmaps for. `none` is a read past the array.
unfoldable pub unmap_ctrls : (ctrls : List ℕ) → List (Option (List ℕ)) → Option (List ℕ)
unmap_ctrls [] mappings = some []
unmap_ctrls (ctrl ∷ ctrls) [] = none
unmap_ctrls (ctrl ∷ ctrls) (none ∷ mappings) = unmap_ctrls ctrls (none ∷ mappings)
unmap_ctrls (ctrl ∷ ctrls) (some addresses ∷ mappings) =
    let rest = unmap_ctrls ctrls mappings in
    elim rest [ none ↦ none | some devices ↦ some (ctrl ∷ devices) ]

-- the page table given back, by `nvidia_p2p_put_pages` or `nvidia_p2p_free_page_table`
abbrev pub give_table : Option ℕ → GpuHeld → GpuHeld
give_table none h = h
give_table (some entries) h = record h { tables_given = h.tables_given + 1 }

abbrev pub region_released : GpuRegion → GpuHeld → Option (List ℕ) → Option GpuHeld
region_released gd h none = none
region_released gd h (some devices) =
    let unmapped = record h { unmapped_for = h.unmapped_for ++ devices } in
    let given = give_table gd.pages (record unmapped { held = give memory 1 h.held }) in
    some (record given { held = give memory 1 given.held })

-- `release_gpu_memory`; `none` is a read out of bounds
unfoldable pub release_gpu_memory : (ctrls : List ℕ) → Option GpuRegion → GpuHeld → Option GpuHeld
release_gpu_memory ctrls none h = some h
release_gpu_memory ctrls (some gd) h = region_released gd h (unmap_ctrls ctrls gd.mappings)

-- `list_remove` of a mapping
unfoldable pub unlist_gpu_map : (node : ℕ) → List GpuMap → List GpuMap
unlist_gpu_map node [] = []
unlist_gpu_map node (m ∷ ms) =
    let rest = unlist_gpu_map node ms in if m.map.node == node then ms else m ∷ rest

abbrev pub map_freed : GpuMap → List GpuMap → Option GpuHeld → Option (List GpuMap × GpuHeld)
map_freed m ms none = none
map_freed m ms (some h) =
    some (unlist_gpu_map m.map.node ms, record h { held = give memory 1 h.held })

-- `unmap_and_release` of such a mapping, and `force_release_gpu_memory`, which gives the page table
-- back in another way
abbrev pub gpu_unmap_and_release :
    (ctrls : List ℕ) → GpuMap → List GpuMap × GpuHeld → Option (List GpuMap × GpuHeld)
gpu_unmap_and_release ctrls m (ms, h) = map_freed m ms (release_gpu_memory ctrls m.data_region h)

abbrev pub mapped_one :
    (ctrl : ℕ)
    → (addresses : List ℕ) → Option (ℕ × List (Option (List ℕ)) × List ℕ)
    → Option (ℕ × List (Option (List ℕ)) × List ℕ)
mapped_one ctrl addresses none = none
mapped_one ctrl addresses (some (err, mappings, devices)) =
    some (err, some addresses ∷ mappings, ctrl ∷ devices)

-- The loop over the controllers in `map_gpu_memory`, with the array from j on: the errno, the array
-- and the devices that are mapped for. `none` is a write past the array.
unfoldable pub map_ctrls :
    (ℕ → ℕ × List ℕ)
    → (ctrls : List ℕ) → List (Option (List ℕ))
    → Option (ℕ × List (Option (List ℕ)) × List ℕ)
map_ctrls p2p_map_pages [] mappings = some (0, mappings, [])
map_ctrls p2p_map_pages (ctrl ∷ ctrls) [] = none
map_ctrls p2p_map_pages (ctrl ∷ ctrls) (slot ∷ mappings) =
    let rest = map_ctrls p2p_map_pages ctrls mappings in
    if (p2p_map_pages ctrl).0 == 0
    then mapped_one ctrl (p2p_map_pages ctrl).1 rest
    else some ((p2p_map_pages ctrl).0, slot ∷ mappings, [])

-- the addresses of a mapping's first n pages; `none` is a read past them
abbrev pub first_addresses : (n : ℕ) → List ℕ → Option (List ℕ)
first_addresses n addresses = if ltb (length addresses) n then none else some (take n addresses)

-- `map->addrs` when the loop is over: those of the first controller, if there is one
abbrev pub copied_addresses : (n : ℕ) → (addrs : List ℕ) → List (Option (List ℕ)) → Option (List ℕ)
copied_addresses n addrs [] = some addrs
copied_addresses n addrs (none ∷ mappings) = some addrs
copied_addresses n addrs (some addresses ∷ mappings) = first_addresses n addresses

abbrev pub with_addresses : Map → (n_addrs : ℕ) → (addrs : List ℕ) → Map
with_addresses m n_addrs addrs = record {
  node = m.node;
  owner = m.owner;
  vaddr = m.vaddr;
  page_size = gpu_page_size;
  region = m.region;
  n_addrs = n_addrs;
  addrs = addrs;
}

abbrev pub GpuOutcome : Type 0
GpuOutcome = Option (ℕ × GpuMap × GpuHeld)

-- the end of `map_gpu_memory`, with the loop's result and the addresses
abbrev pub ctrls_copied :
    Map → (entries err : ℕ) → List (Option (List ℕ)) → GpuHeld → Option (List ℕ) → GpuOutcome
ctrls_copied m entries err mappings h none = none
ctrls_copied m entries err mappings h (some addrs) =
    let region = some (record { pages = some entries; mappings = mappings }) in
    some (
      err,
      record {
        map = with_addresses m (if err == 0 then entries else m.n_addrs) addrs;
        data_region = region;
      },
      h,
    )

abbrev pub ctrls_mapped :
    Map → (entries : ℕ) → GpuHeld → Option (ℕ × List (Option (List ℕ)) × List ℕ) → GpuOutcome
ctrls_mapped m entries h none = none
ctrls_mapped m entries h (some (err, mappings, devices)) =
    ctrls_copied m entries err mappings (record h { mapped_for = h.mapped_for ++ devices })
      (copied_addresses m.n_addrs m.addrs mappings)

-- from `nvidia_p2p_get_pages` on
abbrev pub region_made : GpuAnswers → (ctrls : List ℕ) → Map → GpuHeld → GpuOutcome
region_made answers ctrls m h =
    let slots = replicate max_num_ctrls none in
    if answers.get_pages.0 == 0
    then ctrls_mapped m answers.get_pages.1 (record h { tables_taken = h.tables_taken + 1 })
        (map_ctrls answers.p2p_map_pages ctrls slots)
    else some (
      answers.get_pages.0,
      record { map = m; data_region = some (record { pages = none; mappings = slots }) },
      h,
    )

-- `map_gpu_memory`
unfoldable pub map_gpu_memory : GpuAnswers → (ctrls : List ℕ) → Map → GpuHeld → GpuOutcome
map_gpu_memory answers ctrls m h =
    let allocated = record h { held = take_held memory 1 h.held } in
    let both = record h { held = take_held memory 1 allocated.held } in
    if answers.region_memory
    then if answers.mappings_memory
      then region_made answers ctrls m both
      else some (
        enomem,
        record { map = m; data_region = none },
        record h { held = give memory 1 allocated.held },
      )
    else some (enomem, record { map = m; data_region = none }, h)
