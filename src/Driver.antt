-- ===== src/Driver.antt =====
-- The driver's state and its registry of buffers: src/ugds_driver.cpp and src/ugds_buf.cpp. The
-- registry is a map from base addresses; `nvm_dma_map_device` is a parameter, its calls that hand
-- out a descriptor and those of `nvm_dma_unmap` are counted.
pub mod Balance
mod Tests
use u_gds.Prelude.{
  ℕ, zero, suc, ◌+◌, Bool, true, false, not, ◌||◌, Option, none, some, List, [], ◌∷◌, ◌==◌,
  if◌then◌else◌, length,
}
use u_gds.Dma.{Dma}

-- `uGDSOpError`
pub data OpError : Type 0 where
  success driver_not_initialized driver_invalid_props driver_unsupported_limit
        driver_version_mismatch driver_version_read_error driver_closing platform_not_supported
        io_not_supported device_not_supported nvfs_driver_error cuda_driver_error
        cuda_pointer_invalid cuda_memory_type_invalid cuda_pointer_range_error cuda_context_mismatch
        invalid_mapping_size invalid_mapping_range invalid_file_type invalid_file_open_flag
        dio_not_set invalid_value memory_already_registered memory_not_registered permission_denied
        driver_already_open handle_not_registered handle_already_registered device_not_found
        internal_error getnewfd_failed nvfs_setup_error io_disabled gpu_memory_pinning_failed :
      OpError

-- `DriverState`; a controller is known or not.
pub record DriverState : Type 0 where
  pub initialized : Bool
  pub has_ctrl : Bool
  pub registry : List (ℕ × Dma)
  pub maps : ℕ
  pub unmaps : ℕ

-- `buf_registry.find`, `buf_registry[k] = dma` and `buf_registry.erase`
abbrev pub lookup : ℕ → List (ℕ × Dma) → Option Dma
lookup k [] = none
lookup k ((j, dma) ∷ rest) = if j == k then some dma else lookup k rest

abbrev pub insert : ℕ → Dma → List (ℕ × Dma) → List (ℕ × Dma)
insert k dma [] = (k, dma) ∷ []
insert k dma ((j, old) ∷ rest) = if j == k then (k, dma) ∷ rest else (j, old) ∷ insert k dma rest

abbrev pub erase : ℕ → List (ℕ × Dma) → List (ℕ × Dma)
erase k [] = []
erase k ((j, dma) ∷ rest) = if j == k then rest else (j, dma) ∷ erase k rest

-- `uGDSDriverOpen` and `uGDSDriverClose`
unfoldable pub driver_open : DriverState → OpError × DriverState
driver_open s = (success, if s.initialized then s else record s { initialized = true })

unfoldable pub driver_close : DriverState → OpError × DriverState
driver_close s = if not s.initialized then (driver_not_initialized, s) else (
  success,
  record s {
    initialized = false;
    has_ctrl = false;
    registry = [];
    unmaps = s.unmaps + length s.registry;
  },
)

-- what `nvm_dma_map_device` answered is registered
abbrev pub registered : ℕ → DriverState → ℕ × Option Dma → OpError × DriverState
registered base s (status, none) = (gpu_memory_pinning_failed, s)
registered base s (status, some dma) =
    if status == 0
    then (success, record s { registry = insert base dma s.registry; maps = s.maps + 1 })
    else (gpu_memory_pinning_failed, s)

abbrev pub unless_found : DriverState → Option Dma → OpError × DriverState → OpError × DriverState
unless_found s (some _) rest = (memory_already_registered, s)
unless_found s none rest = rest

-- `uGDSBufRegister`
unfoldable pub buf_register :
    (map_device : ℕ → ℕ → ℕ × Option Dma) → (base size : ℕ) → DriverState → OpError × DriverState
buf_register map_device base size s =
    if not s.initialized
    then (driver_not_initialized, s)
    else if base == 0 || size == 0
    then (invalid_value, s)
    else unless_found s (lookup base s.registry) (
        if not s.has_ctrl
        then (driver_not_initialized, s)
        else registered base s (map_device base size))

abbrev pub if_found : DriverState → ℕ → Option Dma → OpError × DriverState
if_found s base none = (memory_not_registered, s)
if_found s base (some dma) =
    (success, record s { registry = erase base s.registry; unmaps = s.unmaps + 1 })

-- `uGDSBufDeregister`
unfoldable pub buf_deregister : (base : ℕ) → DriverState → OpError × DriverState
buf_deregister base s =
    if not s.initialized
    then (driver_not_initialized, s)
    else if_found s base (lookup base s.registry)

-- the calls of an application, and a run of them
pub data Call : Type 0 where
  open_driver close_driver : Call
  register : (base size : ℕ) → Call
  deregister : (base : ℕ) → Call

unfoldable pub call : (map_device : ℕ → ℕ → ℕ × Option Dma) → Call → DriverState → DriverState
call map_device open_driver s = (driver_open s).1
call map_device close_driver s = (driver_close s).1
call map_device (register base size) s = (buf_register map_device base size s).1
call map_device (deregister base) s = (buf_deregister base s).1

unfoldable pub calls : (map_device : ℕ → ℕ → ℕ × Option Dma) → List Call → DriverState → DriverState
calls map_device [] s = s
calls map_device (c ∷ cs) s = calls map_device cs (call map_device c s)
