-- ===== src/Kernel/Entry/Life.antt =====
-- The life of the kernel module of drv/pci.c, from its entry to its exit.
use u_gds.Prelude.{ℕ, ◌+◌, ◌≡◌, ◌≢◌, refl, sym, ap, ◌∙◌, not, either, List, [], ◌==◌, length, arith}
use mathlib.Core.Path.{subst}
use u_gds.Kernel.Resources.{memory, Resource}
use u_gds.Kernel.Ioctl.{Module, clear_lists}
use u_gds.Kernel.Links.Segment.{Distinct}
use u_gds.Kernel.Ioctl.Accounts.{nodes, all_owe}
use u_gds.Kernel.Ioctl.Balance.{AreServed, IsBalanced, clear_lists_lem}
use u_gds.Kernel.Devices.{Devices}
use u_gds.Kernel.Devices.Balance.{AreKnown, IsHeld, all_chrdevs, device_calls-IsHeld}
use u_gds.Kernel.Entry.Bound.{
  devices_of, count, SameDevices, HaveRoom, module_calls-SameDevices, remove_all-IsHeld,
}
use u_gds.Kernel.Entry.Parts.{
  device_part, served_part, devices-module_calls, registrations-module_calls, lists-module_calls,
}
use u_gds.Kernel.Entry.{
  Registered, ModuleState, EntryAnswers, drv_entry, ModuleCall, module_calls, drv_exit, module_life,
  with_empty_lists,
}

-- as much is registered as before
abbrev pub SameRegistered : Registered → Registered → Type 0
SameRegistered p r =
    (p.chrdev_regions ≡ r.chrdev_regions) × (p.classes ≡ r.classes) × (p.drivers ≡ r.drivers)

-- no device is bound, the module holds nothing of any device, and all that its mappings took has
-- been given back
abbrev pub IsUnloaded : ModuleState → Type 0
IsUnloaded d =
    (d.bound ≡ [])
    × (d.devices.ctrl_list ≡ [])
    × IsHeld d.devices
    × (d.lists.host_list ≡ [])
    × (d.lists.device_list ≡ [])
    × ((q : Resource) → d.lists.held.taken q ≡ d.lists.held.given q)

-- after an entry: with an errno as much is registered as before, without one each once more
abbrev IsEntered : ModuleState → ℕ × ModuleState → Type 0
IsEntered d (err, e) =
    IsUnloaded e
    × (err ≢ 0 → SameRegistered e.registrations d.registrations)
    × (err ≡ 0
        → (e.registrations.chrdev_regions ≡ d.registrations.chrdev_regions + 1)
          × (e.registrations.classes ≡ d.registrations.classes + 1)
          × (e.registrations.drivers ≡ d.registrations.drivers + 1))

emptied-IsUnloaded : (d : ModuleState) → IsUnloaded d → IsUnloaded (with_empty_lists d)
emptied-IsUnloaded d (none_bound, none_listed, held, hosts, devices, given) =
    let none_left : length d.devices.ctrl_list ≡ 0 = ap length none_listed in
    let no_chrdevs : all_chrdevs d.devices.ctrl_list ≡ 0 = ap all_chrdevs none_listed in
    (
      none_bound,
      refl,
      record {
        counted = omega (arith, held.counted);
        regions_held = omega (arith, held.regions_held);
        enabled_held = omega (arith, held.enabled_held);
        masters_held = omega (arith, held.masters_held);
        memory_held = omega (arith, held.memory_held);
        cdevs_held = omega (arith, held.cdevs_held);
        chrdevs_held = omega (arith, held.chrdevs_held);
        all_named = refl;
      },
      refl,
      refl,
      given,
    )

drv_entry-IsEntered :
    (answers : EntryAnswers) (d : ModuleState) → IsUnloaded d → IsEntered d (drv_entry answers d)
unfolding drv_entry
drv_entry-IsEntered answers d v =
    let P : ℕ × ModuleState → Type 0 = IsEntered d in
    let start = emptied-IsUnloaded d v in
    either P (not (answers.chrdev_region == 0)) _ _
      (λ bad. (start, (λ ne. (refl, refl, refl)), λ e. absurd (ground arith)))
      λ _.
        either P (not (answers.class_create == 0)) _ _
          (λ bad. (start, (λ ne. (omega arith, refl, refl)), λ e. absurd (ground arith)))
          λ _.
            either P (not (answers.register_driver == 0)) _ _
              (λ bad. (start, (λ ne. (omega arith, omega arith, refl)), λ e. absurd (ground arith)))
              (λ _. (start, (λ ne. absurd (ne refl)), λ e. (refl, refl, refl)))

unloaded-IsBalanced : (d : ModuleState) → IsUnloaded d → IsBalanced d.lists
unloaded-IsBalanced d (none_bound, none_listed, held, hosts, devices, given) = record {
  accounts = λ q.
      let no_host : all_owe q d.lists.host_list ≡ 0 = ap (all_owe q) hosts in
      let no_device : all_owe q d.lists.device_list ≡ 0 = ap (all_owe q) devices in
      omega (arith, given q);
  host_nodes = subst (λ ms. Distinct (nodes ms)) (sym hosts) tt;
  device_nodes = subst (λ ms. Distinct (nodes ms)) (sym devices) tt;
}

-- Where the module is entered with nothing held: whatever devices are probed and removed and
-- whatever processes map and unmap through the files of its controllers, in whatever order, and
-- whatever else than what the conditions exclude fails: after its exit, or after an entry that
-- fails, nothing is held of any device, both lists are empty, all that the mappings took has been
-- given back, and the device numbers, the class and the driver are registered no more than before.
-- The conditions are that `pci_unregister_driver` removes the devices that are bound, in any order,
-- a device being bound from a probe that returns 0 until its removal; that each probe finds fewer
-- than `max_num_ctrls` controllers; and that a device that is removed before has a controller in
-- the list. Of the ioctl calls that are served, descriptors are allocated at addresses of no live
-- descriptor and their size does not overflow in 64 bits, `dma_map_page` does not fail,
-- `get_user_pages` pins at most the pages asked for, and where it pins none the array of pages is
-- not memory of `vmalloc`; where `dma_buf_get` or `dma_buf_dynamic_attach` fails, the freed region
-- reads as an errno or 0.
pub module_life-IsUnloaded :
    (answers : EntryAnswers) (unregister : List ℕ → List ℕ) (max_num_ctrls : ℕ)
    (cs : List ModuleCall) (d : ModuleState)
    → ((bound : List ℕ) → SameDevices (unregister bound) bound)
    → IsUnloaded d
    → HaveRoom max_num_ctrls (device_part cs) (drv_entry answers d).1.devices
    → AreKnown max_num_ctrls (device_part cs) (drv_entry answers d).1.devices
    → AreServed
        (served_part max_num_ctrls cs (drv_entry answers d).1.devices)
        (drv_entry answers d).1.lists
    → IsUnloaded (module_life answers unregister max_num_ctrls cs d)
      × SameRegistered
          (module_life answers unregister max_num_ctrls cs d).registrations
          d.registrations
unfolding module_life drv_exit
module_life-IsUnloaded answers unregister max_num_ctrls cs d removes v room known served =
    let (entered, failed, succeeded) = drv_entry-IsEntered answers d v in
    let e = (drv_entry answers d).1 in
    let loaded = module_calls max_num_ctrls cs e in
    let P : ModuleState → Type 0 =
      λ t. IsUnloaded t × SameRegistered t.registrations d.registrations in
    either P ((drv_entry answers d).0 == 0) _ _
      (λ good.
        let held : IsHeld loaded.devices =
          subst (λ (s : Devices). IsHeld s) (sym (devices-module_calls max_num_ctrls cs e))
            (device_calls-IsHeld max_num_ctrls (device_part cs) e.devices known entered.2) in
        let bound =
          module_calls-SameDevices max_num_ctrls cs e room known
            (λ q. ap (count q) entered.0 ∙ sym (ap (λ cs. count q (devices_of cs)) entered.1)) in
        let (gone, none_left) =
          remove_all-IsHeld (unregister loaded.bound) loaded.devices
            (λ q. removes loaded.bound q ∙ bound q) held in
        let cleared : (q : Resource)
            → ((clear_lists loaded.lists).host_list ≡ [])
              × ((clear_lists loaded.lists).device_list ≡ [])
              × ((clear_lists loaded.lists).held.taken q
                  ≡ (clear_lists loaded.lists).held.given q) =
          λ q.
            subst
              (λ (s : Module).
                ((clear_lists s).host_list ≡ [])
                × ((clear_lists s).device_list ≡ [])
                × ((clear_lists s).held.taken q ≡ (clear_lists s).held.given q))
              (sym (lists-module_calls max_num_ctrls cs e))
              (clear_lists_lem (served_part max_num_ctrls cs e.devices) e.lists q served
                (unloaded-IsBalanced e entered)) in
        let same = registrations-module_calls max_num_ctrls cs e in
        let (regions, classes, drivers) = succeeded (ground arith) in
        let r1 : loaded.registrations.chrdev_regions ≡ e.registrations.chrdev_regions =
          ap (λ (r : Registered). r.chrdev_regions) same in
        let r2 : loaded.registrations.classes ≡ e.registrations.classes =
          ap (λ (r : Registered). r.classes) same in
        let r3 : loaded.registrations.drivers ≡ e.registrations.drivers =
          ap (λ (r : Registered). r.drivers) same in
        (
          (refl, none_left, gone, (cleared memory).0, (cleared memory).1, λ q. (cleared q).2),
          (omega (arith, regions, r1), omega (arith, classes, r2), omega (arith, drivers, r3)),
        ))
      (λ bad. (entered, failed (ground arith)))
