-- ===== src/Kernel/Entry/Parts.antt =====
-- The calls that a loaded module gets, apart: those of its devices, and those of its files.
use u_gds.Prelude.{ℕ, ◌≡◌, refl, ◌∙◌, Option, none, some, List, [], ◌∷◌}
use u_gds.Kernel.Mapping.{Alloc}
use u_gds.Kernel.Ioctl.{Module, Request, ioctls}
use u_gds.Kernel.Devices.{KernelCtrl, Devices}
use u_gds.Kernel.Devices.Balance.{DeviceCall, device_call, device_calls}
use u_gds.Kernel.Entry.{
  ModuleState, find_by_inode, found_ioctl, file_ioctl, ModuleCall, device, file, module_call,
  module_calls,
}

-- the probes and removals among the calls
unfoldable pub device_part : List ModuleCall → List DeviceCall
device_part [] = []
device_part (device c ∷ cs) = c ∷ device_part cs
device_part (file kvmalloc task i_cdev r ∷ cs) = device_part cs

-- a call of a file that has its controller in the list, before others
abbrev pub served_one :
    Alloc × ℕ × Request
    → List (Alloc × ℕ × Request)
    → Option KernelCtrl
    → List (Alloc × ℕ × Request)
served_one c rest none = rest
served_one c rest (some ctrl) = c ∷ rest

-- the ioctl calls of files that have their controller in the list when they are made
unfoldable pub served_part :
    (max_num_ctrls : ℕ) → List ModuleCall → Devices → List (Alloc × ℕ × Request)
served_part max_num_ctrls [] s = []
served_part max_num_ctrls (device c ∷ cs) s =
    served_part max_num_ctrls cs (device_call max_num_ctrls c s)
served_part max_num_ctrls (file kvmalloc task i_cdev r ∷ cs) s =
    served_one (kvmalloc, task, r) (served_part max_num_ctrls cs s)
      (find_by_inode i_cdev s.ctrl_list)

ioctls-found :
    (kvmalloc : Alloc) (task : ℕ) (r : Request) (s : Module) (rs : List (Alloc × ℕ × Request))
    (o : Option KernelCtrl)
    → ioctls rs (found_ioctl kvmalloc task r s o).1 ≡ ioctls (served_one (kvmalloc, task, r) rs o) s
unfolding ioctls
ioctls-found kvmalloc task r s rs none = refl
ioctls-found kvmalloc task r s rs (some ctrl) = refl

pub devices-module_calls :
    (max_num_ctrls : ℕ) (cs : List ModuleCall) (d : ModuleState)
    → (module_calls max_num_ctrls cs d).devices
      ≡ device_calls max_num_ctrls (device_part cs) d.devices
unfolding module_calls device_calls device_part
devices-module_calls max_num_ctrls [] d = refl
devices-module_calls max_num_ctrls (device c ∷ cs) d =
    devices-module_calls max_num_ctrls cs (module_call max_num_ctrls (device c) d)
devices-module_calls max_num_ctrls (file kvmalloc task i_cdev r ∷ cs) d =
    devices-module_calls max_num_ctrls cs
      (module_call max_num_ctrls (file kvmalloc task i_cdev r) d)

pub registrations-module_calls :
    (max_num_ctrls : ℕ) (cs : List ModuleCall) (d : ModuleState)
    → (module_calls max_num_ctrls cs d).registrations ≡ d.registrations
unfolding module_calls
registrations-module_calls max_num_ctrls [] d = refl
registrations-module_calls max_num_ctrls (device c ∷ cs) d =
    registrations-module_calls max_num_ctrls cs (module_call max_num_ctrls (device c) d)
registrations-module_calls max_num_ctrls (file kvmalloc task i_cdev r ∷ cs) d =
    registrations-module_calls max_num_ctrls cs
      (module_call max_num_ctrls (file kvmalloc task i_cdev r) d)

pub lists-module_calls :
    (max_num_ctrls : ℕ) (cs : List ModuleCall) (d : ModuleState)
    → (module_calls max_num_ctrls cs d).lists
      ≡ ioctls (served_part max_num_ctrls cs d.devices) d.lists
unfolding module_calls served_part ioctls file_ioctl
lists-module_calls max_num_ctrls [] d = refl
lists-module_calls max_num_ctrls (device c ∷ cs) d =
    lists-module_calls max_num_ctrls cs (module_call max_num_ctrls (device c) d)
lists-module_calls max_num_ctrls (file kvmalloc task i_cdev r ∷ cs) d =
    lists-module_calls max_num_ctrls cs (module_call max_num_ctrls (file kvmalloc task i_cdev r) d)
    ∙ ioctls-found kvmalloc task r d.lists (served_part max_num_ctrls cs d.devices)
        (find_by_inode i_cdev d.devices.ctrl_list)
