-- ===== src/Dma/Lifetime.antt =====
-- The life of a mapping in src/libnvm/dma.cpp: its descriptor with the reference count, the handles
-- that share it, and what the functions hold or give back on each of their paths.
use u_gds.Prelude.{
  ℕ, ◌+◌, ◌-◌, ◌*◌, ◌%◌, Bool, true, false, not, ◌||◌, Option, none, some, List, ◌==◌,
  if◌then◌else◌, u32_mod, u64_mod,
}
use u_gds.Queue.{einval}
use u_gds.Dma.{Dma, VaRange, populate_handle}

abbrev pub enospc : ℕ
enospc = 28

abbrev pub enomem : ℕ
enomem = 12

-- What is held: controller references, mapping descriptors, containers, ranges mapped for the
-- device, and the ranges that `release` has not been called on.
pub record Held : Type 0 where
  pub ctrl_refs : ℕ
  pub maps : ℕ
  pub containers : ℕ
  pub mapped : ℕ
  pub ranges : ℕ

-- `struct map`, less its lock and its pointer to the controller
pub record Map : Type 0 where
  pub count : ℕ
  pub va : VaRange
  pub can_unmap : Bool

-- What the calls out of the file answer: whether the controller reference is given, the errno of
-- the failed allocation of a descriptor or 0, the result of the mutex's initialisation, whether
-- the container's and the addresses' memory is had, and `map_range`, if the back end has it.
pub record Host : Type 0 where
  pub ctrl_ref : Bool
  pub map_errno : ℕ
  pub mutex : ℕ
  pub container_memory : Bool
  pub addresses_memory : Bool
  pub map_range : Option (VaRange → ℕ × List ℕ)

-- `create_map`
unfoldable pub create_map : Host → VaRange → Held → ℕ × Option Map × Held
create_map host va held =
    let ref = record held { ctrl_refs = held.ctrl_refs + 1 } in
    if not host.ctrl_ref
    then (enospc, none, held)
    else if not (host.map_errno == 0)
    then (host.map_errno, none, record ref { ctrl_refs = ref.ctrl_refs - 1 })
    else if not (host.mutex == 0)
    then (host.mutex, none, record ref { ctrl_refs = ref.ctrl_refs - 1 })
    else (
      0,
      some (record { count = 1; va = va; can_unmap = false }),
      record ref { maps = ref.maps + 1 },
    )

-- `remove_map`
unfoldable pub remove_map : Held → Held
remove_map held = record held { ctrl_refs = held.ctrl_refs - 1; maps = held.maps - 1 }

-- `create_container`: the errno
unfoldable pub create_container : Host → (ctrl_page : ℕ) → Map → Held → ℕ × Held
create_container host ctrl_page md held =
    if md.va.page_size == 0
      || md.va.n_pages == 0
      || not (md.va.page_size * md.va.n_pages % u64_mod % ctrl_page == 0)
    then (einval, held)
    else if not host.container_memory
    then (enomem, held)
    else (0, record held { containers = held.containers + 1 })

-- the handle of mapped addresses; `none` is a read past them
abbrev pub mapped_handle :
    (ctrl_page : ℕ) → Map → Held → ℕ × List ℕ → Option (ℕ × Option (Map × Dma) × Held)
mapped_handle ctrl_page md held (err, ioaddrs) =
    if not (err == 0)
    then some (err, none, held)
    else elim (populate_handle md.va ctrl_page (not md.va.remote) ioaddrs) [
      | none ↦ none
      | some dma ↦
          some (
            0,
            some (record md { can_unmap = true }, dma),
            record held { mapped = held.mapped + 1 },
          )
    ]

-- `dma_map`
unfoldable pub dma_map :
    Host → (ctrl_page : ℕ) → Map → Held → Option (ℕ × Option (Map × Dma) × Held)
dma_map host ctrl_page md held = elim host.map_range [
  | none ↦ some (einval, none, held)
  | some map_range ↦
      if not host.addresses_memory
      then some (enomem, none, held)
      else mapped_handle ctrl_page md held (map_range md.va)
]

-- the last step of `_nvm_dma_init`, and what it undoes
abbrev pub init_mapped :
    Option (ℕ × Option (Map × Dma) × Held) → Option (ℕ × Option (Map × Dma) × Held)
init_mapped none = none
init_mapped (some (err, none, held)) =
    some (err, none, record (remove_map held) { containers = held.containers - 1 })
init_mapped (some (err, some h, held)) = some (err, some h, held)

-- the step before
abbrev pub init_contained :
    Host → (ctrl_page : ℕ) → Map → ℕ × Held → Option (ℕ × Option (Map × Dma) × Held)
init_contained host ctrl_page md (err, held) =
    if not (err == 0)
    then some (err, none, remove_map held)
    else init_mapped (dma_map host ctrl_page md held)

abbrev pub init_created :
    Host → (ctrl_page : ℕ) → ℕ × Option Map × Held → Option (ℕ × Option (Map × Dma) × Held)
init_created host ctrl_page (err, none, held) = some (err, none, held)
init_created host ctrl_page (err, some md, held) =
    init_contained host ctrl_page md (create_container host ctrl_page md held)

-- `_nvm_dma_init`: the errno, and the descriptor and the handle if there is one.
unfoldable pub dma_init :
    Host
    → (ctrl_page : ℕ) → VaRange
    → (has_release : Bool) → Held
    → Option (ℕ × Option (Map × Dma) × Held)
dma_init host ctrl_page va has_release held =
    if not has_release
    then some (einval, none, held)
    else init_created host ctrl_page (create_map host va held)

-- `get_map`, with its lock taken
unfoldable pub get_map : Map → Map
get_map md = record md { count = (md.count + 1) % u32_mod }

-- `put_map`: the descriptor is gone with the last reference, and with it the mapping for the
-- device and the range.
unfoldable pub put_map : Map → Held → Option Map × Held
put_map md held =
    let count = (md.count + u32_mod - 1) % u32_mod in
    if count == 0
    then (
      none,
      remove_map (record held {
        mapped = if md.can_unmap then held.mapped - 1 else held.mapped;
        ranges = held.ranges - 1;
      }),
    )
    else (some (record md { count = count }), held)

-- `remove_container` of a handle, and so `nvm_dma_unmap`
unfoldable pub dma_unmap : Map → Held → Option Map × Held
dma_unmap md held =
    let (md', held') = put_map md held in (md', record held' { containers = held'.containers - 1 })

abbrev pub remapped :
    (ctrl_page : ℕ) → Map → (other : Dma) → ℕ × Held → Option (ℕ × Option Dma × Option Map × Held)
remapped ctrl_page md other (err, held) =
    if not (err == 0)
    then (let (md', held') = put_map md held in some (err, none, md', held'))
    else elim (populate_handle
        (record {
          remote = not other.is_local;
          vaddr = md.va.vaddr;
          page_size = other.page_size;
          n_pages = other.n_ioaddrs;
        })
        ctrl_page (not md.va.remote) other.ioaddrs) [
          | none ↦ none
          | some dma ↦ some (0, some dma, some md, held)
        ]

-- `nvm_dma_remap`: another handle on the same mapping
unfoldable pub dma_remap :
    Host
    → (ctrl_page : ℕ) → Map
    → (other : Dma) → Held
    → Option (ℕ × Option Dma × Option Map × Held)
dma_remap host ctrl_page md other held =
    remapped ctrl_page (get_map md) other (create_container host ctrl_page (get_map md) held)
