-- ===== src/Kernel/Entry.antt =====
-- drv/pci.c: the module from its entry to its exit, with the files of its controllers.
pub mod Parts
pub mod Bound
pub mod Life
mod Tests
use u_gds.Prelude.{
  ℕ, ◌+◌, ◌-◌, Bool, true, false, not, Option, none, some, List, [], ◌∷◌, ltb, ◌==◌, if◌then◌else◌,
}
use u_gds.Queue.{einval}
use u_gds.Device.Calls.{ebadf}
use u_gds.Kernel.Mapping.{Alloc}
use u_gds.Kernel.Ioctl.{Module, Outcome, Request, map_ioctl, clear_lists}
use u_gds.Kernel.Devices.{KernelCtrl, Devices, add_pci_dev, remove_pci_dev}
use u_gds.Kernel.Devices.Balance.{DeviceCall, probe, remove, device_call}

-- what is registered with the kernel: ranges of device numbers, device classes and PCI drivers
pub record Registered : Type 0 where
  pub chrdev_regions : ℕ
  pub classes : ℕ
  pub drivers : ℕ

-- The static state of the module, and the devices that the PCI core has bound to the driver: those
-- whose `add_pci_dev` has returned 0 and for which it has not called `remove_pci_dev` since.
pub record ModuleState : Type 0 where
  pub devices : Devices
  pub lists : Module
  pub registrations : Registered
  pub bound : List ℕ

-- errnos or 0 of `alloc_chrdev_region`, `class_create` and `pci_register_driver`
pub record EntryAnswers : Type 0 where
  pub chrdev_region : ℕ
  pub class_create : ℕ
  pub register_driver : ℕ

-- the three lists after `list_init`
abbrev pub with_empty_lists : ModuleState → ModuleState
with_empty_lists d = record d {
  devices = record d.devices { ctrl_list = [] };
  lists = record { host_list = []; device_list = []; held = d.lists.held };
}

abbrev pub register : Registered → ModuleState → ModuleState
register r d = record d { registrations = r }

-- `ugds_drv_entry`: the errno and the state
unfoldable pub drv_entry : EntryAnswers → ModuleState → ℕ × ModuleState
drv_entry answers d =
    let start = with_empty_lists d in
    let r = d.registrations in
    let region = record r { chrdev_regions = r.chrdev_regions + 1 } in
    let class = record region { classes = r.classes + 1 } in
    if not (answers.chrdev_region == 0)
    then (answers.chrdev_region, start)
    else if not (answers.class_create == 0)
    then (
      answers.class_create,
      register (record region { chrdev_regions = region.chrdev_regions - 1 }) start,
    )
    else if not (answers.register_driver == 0)
    then (
      answers.register_driver,
      register
          (record class { classes = class.classes - 1; chrdev_regions = class.chrdev_regions - 1 })
          start,
    )
    else (0, register (record class { drivers = class.drivers + 1 }) start)

-- `ctrl_find_by_inode`: the character device of an inode is named by its controller's device
unfoldable pub find_by_inode : (i_cdev : ℕ) → List KernelCtrl → Option KernelCtrl
find_by_inode i_cdev [] = none
find_by_inode i_cdev (c ∷ cs) =
    let rest = find_by_inode i_cdev cs in if c.pdev == i_cdev then some c else rest

abbrev pub found_ioctl : Alloc → (task : ℕ) → Request → Module → Option KernelCtrl → Outcome
found_ioctl kvmalloc task r s none = ((ebadf, []), s)
found_ioctl kvmalloc task r s (some ctrl) = map_ioctl kvmalloc task r s

-- `map_ioctl` of a file
unfoldable pub file_ioctl : Alloc → (task i_cdev : ℕ) → Request → ModuleState → Outcome
file_ioctl kvmalloc task i_cdev r d =
    found_ioctl kvmalloc task r d.lists (find_by_inode i_cdev d.devices.ctrl_list)

-- the memory that a file maps: its first address and its size
abbrev pub Window : Type 0
Window = ℕ × ℕ

-- the range of a device's registers, as `pci_resource_start` and `pci_resource_len` give it
abbrev pub Bar : Type 0
Bar = ℕ → ℕ × ℕ

abbrev pub found_window : Bar → (size iomap_errno : ℕ) → Option KernelCtrl → ℕ × Option Window
found_window bar size iomap_errno none = (ebadf, none)
found_window bar size iomap_errno (some ctrl) =
    if ltb (bar ctrl.pdev).1 size
    then (einval, none)
    else if iomap_errno == 0
    then (0, some ((bar ctrl.pdev).0, size))
    else (iomap_errno, none)

-- `mmap_registers` of a range of the process, with the errno of `vm_iomap_memory` or 0
unfoldable pub mmap_registers :
    Bar → (i_cdev vm_start vm_end iomap_errno : ℕ) → ModuleState → ℕ × Option Window
mmap_registers bar i_cdev vm_start vm_end iomap_errno d =
    found_window bar (vm_end - vm_start) iomap_errno (find_by_inode i_cdev d.devices.ctrl_list)

-- what happens to the module while it is loaded
pub data ModuleCall : Type 0 where
  device : DeviceCall → ModuleCall
  file : Alloc → (task i_cdev : ℕ) → Request → ModuleCall

-- a device that is bound no more
abbrev pub unbind : (pdev : ℕ) → List ℕ → List ℕ
unbind pdev [] = []
unbind pdev (p ∷ ps) = if p == pdev then ps else p ∷ unbind pdev ps

-- the devices that are bound after the PCI core has called the driver
abbrev pub bound_after : (max_num_ctrls : ℕ) → DeviceCall → Devices → List ℕ → List ℕ
bound_after max_num_ctrls (probe answers pdev) s bound =
    if (add_pci_dev answers max_num_ctrls pdev s).0 == 0 then pdev ∷ bound else bound
bound_after max_num_ctrls (remove pdev) s bound = unbind pdev bound

abbrev pub module_call : (max_num_ctrls : ℕ) → ModuleCall → ModuleState → ModuleState
module_call max_num_ctrls (device c) d = record d {
  devices = device_call max_num_ctrls c d.devices;
  bound = bound_after max_num_ctrls c d.devices d.bound;
}
module_call max_num_ctrls (file kvmalloc task i_cdev r) d = record d {
  lists = (file_ioctl kvmalloc task i_cdev r d).1;
}

unfoldable pub module_calls : (max_num_ctrls : ℕ) → List ModuleCall → ModuleState → ModuleState
module_calls max_num_ctrls [] d = d
module_calls max_num_ctrls (c ∷ cs) d =
    module_calls max_num_ctrls cs (module_call max_num_ctrls c d)

-- the calls of `remove_pci_dev` that `pci_unregister_driver` makes
unfoldable pub remove_all : List ℕ → Devices → Devices
remove_all [] s = s
remove_all (pdev ∷ pdevs) s = remove_all pdevs (remove_pci_dev pdev s)

-- `ugds_drv_exit`, where `unregister` gives the devices that `pci_unregister_driver` removes of
-- those that are bound
unfoldable pub drv_exit : (unregister : List ℕ → List ℕ) → ModuleState → ModuleState
drv_exit unregister d = record {
  devices = remove_all (unregister d.bound) d.devices;
  lists = clear_lists d.lists;
  registrations = record {
    chrdev_regions = d.registrations.chrdev_regions - 1;
    classes = d.registrations.classes - 1;
    drivers = d.registrations.drivers - 1;
  };
  bound = [];
}

-- The module is entered, and if that succeeds it is used and exited.
unfoldable pub module_life :
    EntryAnswers
    → (unregister : List ℕ → List ℕ) → (max_num_ctrls : ℕ) → List ModuleCall
    → ModuleState
    → ModuleState
module_life answers unregister max_num_ctrls cs d =
    let entered = drv_entry answers d in
    if entered.0 == 0
    then drv_exit unregister (module_calls max_num_ctrls cs entered.1)
    else entered.1
