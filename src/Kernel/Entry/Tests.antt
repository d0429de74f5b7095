-- ===== src/Kernel/Entry/Tests.antt =====
-- The life of the module at a concrete input, and the mapping of registers.
use u_gds.Prelude.{ℕ, ◌+◌, ◌*◌, ◌≡◌, refl, true, false, some, none, List, [], ◌∷◌, arith}
use u_gds.Queue.{einval}
use u_gds.Device.Calls.{ebadf}
use u_gds.Kernel.Mapping.{Alloc, UserAnswers, pinned}
use u_gds.Kernel.Ioctl.{map_host_memory, unmap_memory, map_ioctl}
use u_gds.Kernel.Devices.{ProbeAnswers, add_pci_dev}
use u_gds.Kernel.Devices.Balance.{probe}
use u_gds.Kernel.Entry.{
  ModuleState, EntryAnswers, Bar, ModuleCall, device, file, drv_entry, find_by_inode,
  mmap_registers, module_life,
}
use u_gds.Kernel.Entry.Parts.{served_part, device_part}
use u_gds.Kernel.Entry.Life.{IsUnloaded, SameRegistered, module_life-IsUnloaded}

abbrev at_node : ℕ → Alloc
at_node node size = some node

-- two pages of a process
abbrev user_pages : UserAnswers
user_pages = record {
  page_array = true;
  vmalloced = false;
  get_user_pages = pinned 2;
  dma_map_page = λ i. (1048576 + i * 4096, 0);
}

abbrev all_well : ProbeAnswers
all_well = record {
  allocated = true;
  region = 0;
  enable = 0;
  cdev_add = 0;
  device_create = 0;
  mask64 = 0;
  mask32 = 0;
}

abbrev registers : EntryAnswers
registers = record { chrdev_region = 0; class_create = 0; register_driver = 0 }

abbrev unloaded : ModuleState
unloaded = record {
  devices = record {
    ctrl_list = [];
    curr_ctrls = 0;
    regions = 0;
    enabled = 0;
    masters = 0;
    cdevs = 0;
    chrdevs = 0;
    memory = 0;
  };
  lists = record {
    host_list = [];
    device_list = [];
    held = record { taken = λ q. 0; given = λ q. 0 };
  };
  registrations = record { chrdev_regions = 0; classes = 0; drivers = 0 };
  bound = [];
}

unloaded-IsUnloaded : IsUnloaded unloaded
unloaded-IsUnloaded = (
  refl,
  refl,
  record {
    counted = refl;
    regions_held = refl;
    enabled_held = refl;
    masters_held = refl;
    memory_held = refl;
    cdevs_held = refl;
    chrdevs_held = refl;
    all_named = refl;
  },
  refl,
  refl,
  λ q. refl,
)

abbrev unregister : List ℕ → List ℕ
unregister bound = bound

-- a device comes, a process maps two pages through its file, and another asks a file without one
abbrev calls : List ModuleCall
calls =
    device (probe all_well 7)
    ∷ file (at_node 4096) 1 7 (map_host_memory true true user_pages 8192 2)
    ∷ file (at_node 8192) 2 9 (unmap_memory true 8192)
    ∷ []

module_life-IsUnloaded_example :
    IsUnloaded (module_life registers unregister 64 calls unloaded)
    × SameRegistered
        (module_life registers unregister 64 calls unloaded).registrations
        unloaded.registrations
unfolding drv_entry device_part served_part find_by_inode add_pci_dev map_ioctl
module_life-IsUnloaded_example =
    module_life-IsUnloaded registers unregister 64 calls unloaded (λ bound q. refl)
      unloaded-IsUnloaded (omega arith, tt) (tt, tt)
      (((λ i. refl, omega arith), tt), (omega arith, tt), tt)

abbrev bars : Bar
bars pdev = (65536 * pdev, 16384)

abbrev loaded : ModuleState
loaded = record unloaded {
  devices = record unloaded.devices {
    ctrl_list = record { pdev = 7; number = 0; has_chrdev = true } ∷ [];
  };
}

mapped_registers : mmap_registers bars 7 4096 12288 0 loaded ≡ (0, some (458752, 8192))
unfolding mmap_registers find_by_inode
mapped_registers = refl

too_many_registers : mmap_registers bars 7 4096 24576 0 loaded ≡ (einval, none)
unfolding mmap_registers find_by_inode
too_many_registers = refl

other_registers : mmap_registers bars 8 4096 8192 0 loaded ≡ (ebadf, none)
unfolding mmap_registers find_by_inode
other_registers = refl
