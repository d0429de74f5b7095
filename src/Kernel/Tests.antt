-- ===== src/Kernel/Tests.antt =====
-- The kernel module at concrete inputs.
use u_gds.Prelude.{
  ℕ, ◌+◌, ◌*◌, ◌-◌, ◌≤◌, ◌<◌, ◌↔◌, ◌≡◌, refl, inl, true, false, some, List, [], ◌∷◌, if◌then◌else◌,
  ◌==◌, arith,
}
use u_gds.Kernel.Resources.{dma}
use u_gds.Kernel.Flatten.{Sg, flatten, sg_flatten_to_addrs}
use u_gds.Kernel.Flatten.Pages.{Flattened, flatten-Flattened}
use u_gds.Kernel.Flatten.Enough.{flatten-zero}
use u_gds.Kernel.Links.{Store, list_init, elements}
use u_gds.Kernel.Links.Segment.{without}
use u_gds.Kernel.Links.Refine.{
  ListCall, insert_node, remove_node, list_calls, sequence_calls, list_calls_lem,
}
use u_gds.Kernel.Mapping.{
  Alloc, refused, UserAnswers, pinned, map_bytes, descriptor_bytes, dma_map_pages, map_find,
  map_userspace,
}
use u_gds.Kernel.Mapping.Bounds.{descriptor_bytes_lem}
use u_gds.Kernel.Dmabuf.{DmabufAnswers}
use u_gds.Kernel.Ioctl.{
  Module, Request, DmabufRequest, map_host_memory, map_dmabuf_memory_request, unmap_memory,
  map_ioctl, ioctls, clear_lists,
}
use u_gds.Kernel.Ioctl.Balance.{IsBalanced, clear_lists_lem}
use u_gds.Kernel.Ioctl.Faults.{map_userspace-dma}
use u_gds.Kernel.Devices.{Devices, ProbeAnswers, find_ctrl, add_pci_dev}
use u_gds.Kernel.Devices.Balance.{
  IsHeld, DeviceCall, probe, remove, device_calls, device_calls-IsHeld,
}
use u_gds.Kernel.Ioctl.Unmap.{unmap-map}
use u_gds.Kernel.Gpu.{GpuHeld, GpuAnswers}

abbrev two_entries : List Sg
two_entries = record { addr = 1048576; len = 8192 } ∷ record { addr = 4194304; len = 4096 } ∷ []

flatten-Flattened_example : Flattened 4096 two_entries 2 4096 (flatten 4096 two_entries 2 4096)
flatten-Flattened_example = flatten-Flattened 4096 two_entries 2 4096

flatten-zero_example : (sg_flatten_to_addrs two_entries 2 4096 4096).0 ≡ 0
flatten-zero_example =
    flatten-zero 4096 (omega arith) two_entries 2 4096 (refl, (refl, tt)) refl (omega arith)

abbrev blank : Store
blank a = record { owner = 0; next = 0; prev = 0 }

abbrev list_schedule : List ListCall
list_schedule = insert_node 8 ∷ insert_node 16 ∷ remove_node 8 ∷ remove_node 24 ∷ insert_node 8 ∷ []

list_calls_lem_example :
    elements 2 4 (list_calls 4 list_schedule (list_init 4 blank)) ≡ sequence_calls list_schedule []
unfolding without sequence_calls
list_calls_lem_example =
    list_calls_lem 4 (omega arith) list_schedule blank 2 (λ c. refl) (omega arith) (omega arith)

descriptor_bytes_lem_example :
    (map_bytes - 8 + 4 * 8 ≤ descriptor_bytes 4) ↔ (4 < 2305843009213693940)
descriptor_bytes_lem_example = descriptor_bytes_lem 4 (omega arith) (omega arith)

abbrev alloc_at : ℕ → Alloc
alloc_at node size = some node

abbrev good_pages : UserAnswers
good_pages = record {
  page_array = true;
  vmalloced = false;
  get_user_pages = pinned 2;
  dma_map_page = λ i. (1048576 + i * 4096, 0);
}

abbrev good_dmabuf : DmabufAnswers
good_dmabuf = record {
  region = true;
  get = 0;
  attach = 0;
  pinning = 0;
  mapping = 0;
  sgt = two_entries;
  stale = 0;
}

abbrev two_pages : DmabufRequest
two_pages = record {
  gpu_ptr = 65536;
  dmabuf_fd = 3;
  dmabuf_offset = 4096;
  size = 8192;
  ioaddrs_capacity = 2;
  ioaddrs = 4096;
}

abbrev idle : Module
idle = record { host_list = []; device_list = []; held = record { taken = λ q. 0; given = λ q. 0 } }

idle-IsBalanced : IsBalanced idle
idle-IsBalanced = record { accounts = λ q. refl; host_nodes = tt; device_nodes = tt }

abbrev schedule : List (Alloc × ℕ × Request)
schedule =
    (alloc_at 4096, 1, map_host_memory true true good_pages 8192 2)
    ∷ (alloc_at 8192, 1, map_dmabuf_memory_request true true false good_dmabuf two_pages)
    ∷ (alloc_at 8192, 1, unmap_memory true 8192)
    ∷ []

clear_lists_lem_example :
    let after = clear_lists (ioctls schedule idle) in
    (after.host_list ≡ [])
    × (after.device_list ≡ [])
    × (after.held.taken dma ≡ after.held.given dma)
unfolding map_ioctl map_userspace dma_map_pages
clear_lists_lem_example =
    clear_lists_lem schedule idle dma
      (
        ((λ i. refl, omega arith), tt),
        (omega arith, tt),
        (tt, (omega arith, inl (refl, refl)), (tt, tt, tt)),
      )
      idle-IsBalanced

unmap-map_example :
    let t = (map_ioctl (alloc_at 4096) 1 (map_host_memory true false good_pages 8192 2) idle).1 in
    let after = map_ioctl (alloc_at 4096) 1 (unmap_memory true 8192) t in
    (after.0.0 ≡ 0) × (after.1.host_list ≡ []) × (after.1.device_list ≡ [])
unfolding map_find map_userspace dma_map_pages
unmap-map_example =
    unmap-map (alloc_at 4096) (alloc_at 4096) good_pages 1 8192 2 false idle idle-IsBalanced
      ((λ i. refl, omega arith), tt) refl refl

abbrev second_fails : UserAnswers
second_fails = record {
  page_array = true;
  vmalloced = false;
  get_user_pages = pinned 3;
  dma_map_page = λ i. (1048576 + i * 4096, if i == 1 then 12 else 0);
}

map_userspace-dma_example :
    let after = map_userspace (alloc_at 4096) second_fails 1 8192 3 ([], idle.held) in
    (after.0 ≡ refused 12) × (after.1.1.taken dma ≡ 1) × (after.1.1.given dma ≡ 3)
map_userspace-dma_example =
    map_userspace-dma (alloc_at 4096) second_fails 1 8192 2 1 4096 [] idle.held refl refl refl
      (λ j p q. ground arith, λ e. absurd (omega (arith, e))) (omega arith)

abbrev probed : ProbeAnswers
probed = record {
  allocated = true;
  region = 0;
  enable = 0;
  cdev_add = 0;
  device_create = 0;
  mask64 = 5;
  mask32 = 0;
}

abbrev no_devices : Devices
no_devices = record {
  ctrl_list = [];
  curr_ctrls = 0;
  regions = 0;
  enabled = 0;
  masters = 0;
  cdevs = 0;
  chrdevs = 0;
  memory = 0;
}

no_devices-IsHeld : IsHeld no_devices
no_devices-IsHeld = record {
  counted = refl;
  regions_held = refl;
  enabled_held = refl;
  masters_held = refl;
  memory_held = refl;
  cdevs_held = refl;
  chrdevs_held = refl;
  all_named = refl;
}

abbrev device_schedule : List DeviceCall
device_schedule = probe probed 7 ∷ probe (record probed { device_create = 17 }) 8 ∷ remove 7 ∷ []

device_calls-IsHeld_example : IsHeld (device_calls 64 device_schedule no_devices)
unfolding add_pci_dev find_ctrl
device_calls-IsHeld_example =
    device_calls-IsHeld 64 device_schedule no_devices (tt, (tt, (λ e. cc, tt))) no_devices-IsHeld

abbrev gpu_pages : List ℕ
gpu_pages = 1048576 ∷ 2097152 ∷ []

-- two pages of a GPU for two controllers, the second of which cannot map them
abbrev gpu_answers : GpuAnswers
gpu_answers = record {
  region_memory = true;
  mappings_memory = true;
  get_pages = (0, 2);
  p2p_map_pages = λ ctrl. if ctrl == 2 then (5, gpu_pages) else (0, gpu_pages);
}

abbrev gpu_idle : GpuHeld
gpu_idle = record {
  held = record { taken = λ q. 0; given = λ q. 0 };
  tables_taken = 0;
  tables_given = 0;
  mapped_for = [];
  unmapped_for = [];
}
