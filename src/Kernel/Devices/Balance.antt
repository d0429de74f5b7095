-- ===== src/Kernel/Devices/Balance.antt =====
-- The devices that the module holds are those of its controllers.
use u_gds.Prelude.{
  ℕ, ◌+◌, ◌-◌, ◌≤◌, ◌≡◌, ◌≢◌, refl, ap, Bool, true, false, not, ◌&&◌, Bool-cases, either, inl, inr,
  Option, none, some, List, [], ◌∷◌, ◌++◌, leb, ◌==◌, length, arith,
}
use mathlib.Core.Option.{some-injective, none-ne-some}
use u_gds.Kernel.Devices.{
  KernelCtrl, Devices, ProbeAnswers, one_chrdev, find_ctrl, unlist_ctrl, kernel_ctrl_get,
  kernel_ctrl_put, chrdev_made, add_pci_dev, remove_pci_dev,
}

abbrev pub all_chrdevs : List KernelCtrl → ℕ
all_chrdevs [] = 0
all_chrdevs (c ∷ cs) = one_chrdev c.has_chrdev + all_chrdevs cs

-- one of each resource for each controller in the list, and every controller has its character
-- device
pub record IsHeld (s : Devices) : Type 0 where
  pub counted : s.curr_ctrls ≡ length s.ctrl_list
  pub regions_held : s.regions ≡ length s.ctrl_list
  pub enabled_held : s.enabled ≡ length s.ctrl_list
  pub masters_held : s.masters ≡ length s.ctrl_list
  pub memory_held : s.memory ≡ length s.ctrl_list
  pub cdevs_held : s.cdevs ≡ all_chrdevs s.ctrl_list
  pub chrdevs_held : s.chrdevs ≡ all_chrdevs s.ctrl_list
  pub all_named : all_chrdevs s.ctrl_list ≡ length s.ctrl_list

pub data DeviceCall : Type 0 where
  probe : ProbeAnswers → (pdev : ℕ) → DeviceCall
  remove : (pdev : ℕ) → DeviceCall

abbrev pub device_call : (max_num_ctrls : ℕ) → DeviceCall → Devices → Devices
device_call max_num_ctrls (probe answers pdev) s = (add_pci_dev answers max_num_ctrls pdev s).1
device_call max_num_ctrls (remove pdev) s = remove_pci_dev pdev s

unfoldable pub device_calls : (max_num_ctrls : ℕ) → List DeviceCall → Devices → Devices
device_calls max_num_ctrls [] s = s
device_calls max_num_ctrls (c ∷ cs) s =
    device_calls max_num_ctrls cs (device_call max_num_ctrls c s)

-- a device that is removed has a controller in the list
abbrev pub IsKnown : DeviceCall → Devices → Type 0
IsKnown (probe answers pdev) s = Unit {0}
IsKnown (remove pdev) s = find_ctrl pdev s.ctrl_list ≢ none

abbrev pub AreKnown : (max_num_ctrls : ℕ) → List DeviceCall → Devices → Type 0
AreKnown max_num_ctrls [] s = Unit {0}
AreKnown max_num_ctrls (c ∷ cs) s =
    IsKnown c s × AreKnown max_num_ctrls cs (device_call max_num_ctrls c s)

snoc_sums :
    (cs : List KernelCtrl) (c : KernelCtrl)
    → (length (cs ++ (c ∷ [])) ≡ length cs + 1)
      × (all_chrdevs (cs ++ (c ∷ [])) ≡ all_chrdevs cs + one_chrdev c.has_chrdev)
snoc_sums [] c = (refl, omega arith)
snoc_sums (x ∷ cs) c = (omega (arith, (snoc_sums cs c).0), omega (arith, (snoc_sums cs c).1))

found_sums :
    (pdev : ℕ) (cs : List KernelCtrl) (c : KernelCtrl)
    → find_ctrl pdev cs ≡ some c
    → (length cs ≡ length (unlist_ctrl pdev cs) + 1)
      × (all_chrdevs cs ≡ all_chrdevs (unlist_ctrl pdev cs) + one_chrdev c.has_chrdev)
unfolding find_ctrl unlist_ctrl
found_sums pdev [] c e = absurd (none-ne-some c e)
found_sums pdev (x ∷ cs) c e = elim (Bool-cases (x.pdev == pdev)) [
  | inl here ↦
      let same : one_chrdev x.has_chrdev ≡ one_chrdev c.has_chrdev =
        ap (λ (k : KernelCtrl). one_chrdev k.has_chrdev) (some-injective x c (rw here at e)) in
      rw here (omega arith, omega (arith, same))
  | inr behind ↦
      let rest = found_sums pdev cs c (rw behind at e) in
      rw behind (omega (arith, rest.0), omega (arith, rest.1))
]

one_at_most : (cs : List KernelCtrl) → all_chrdevs cs ≤ length cs
one_at_most [] = omega arith
one_at_most (c ∷ cs) = omega (arith, one_at_most cs, at_most_one c.has_chrdev)
  where
    at_most_one : (b : Bool) → one_chrdev b ≤ 1
    at_most_one true = omega arith
    at_most_one false = omega arith

one_bound : (b : Bool) → one_chrdev b ≤ 1
one_bound true = omega arith
one_bound false = omega arith

removed-IsHeld :
    (pdev : ℕ) (s : Devices) (o : Option KernelCtrl)
    → find_ctrl pdev s.ctrl_list ≡ o
    → o ≢ none
    → IsHeld s
    → IsHeld (remove_pci_dev pdev s)
unfolding remove_pci_dev
removed-IsHeld pdev s none e n v = absurd (n refl)
removed-IsHeld pdev s (some c) e n v =
    let sums = found_sums pdev s.ctrl_list c e in
    let most = one_at_most (unlist_ctrl pdev s.ctrl_list) in
    let single = one_bound c.has_chrdev in
    rw e (record {
      counted = omega (arith, v.counted, sums.0);
      regions_held = omega (arith, v.regions_held, sums.0);
      enabled_held = omega (arith, v.enabled_held, sums.0);
      masters_held = omega (arith, v.masters_held, sums.0);
      memory_held = omega (arith, v.memory_held, sums.0);
      cdevs_held = omega (arith, v.cdevs_held, sums.1);
      chrdevs_held = omega (arith, v.chrdevs_held, sums.1);
      all_named = omega (arith, v.all_named, sums.0, sums.1, most, single);
    })

-- a state with the list of controllers of another, and the same counts
abbrev IsUndone : Devices → Devices → Type 0
IsUndone s t =
    (t.ctrl_list ≡ s.ctrl_list)
    × (t.curr_ctrls ≡ s.curr_ctrls)
    × (t.regions ≡ s.regions)
    × (t.enabled ≡ s.enabled)
    × (t.masters ≡ s.masters)
    × (t.chrdevs ≡ s.chrdevs)
    × (t.memory ≡ s.memory)
    × (t.cdevs ≡ s.cdevs)

undone-IsHeld : (s t : Devices) → IsUndone s t → IsHeld s → IsHeld t
undone-IsHeld s t (a, b, c, d, e, f, g, h) v =
    let size : length t.ctrl_list ≡ length s.ctrl_list = ap (length {A = KernelCtrl}) a in
    let named : all_chrdevs t.ctrl_list ≡ all_chrdevs s.ctrl_list = ap all_chrdevs a in
    record {
      counted = omega (arith, v.counted, size, b);
      regions_held = omega (arith, v.regions_held, size, c);
      enabled_held = omega (arith, v.enabled_held, size, d);
      masters_held = omega (arith, v.masters_held, size, e);
      memory_held = omega (arith, v.memory_held, size, g);
      cdevs_held = omega (arith, v.cdevs_held, named, h);
      chrdevs_held = omega (arith, v.chrdevs_held, named, f);
      all_named = omega (arith, v.all_named, named, size);
    }

data Probed (s : Devices) (r : ℕ × Devices) : Type 0 where
  undone : IsUndone s r.1 → Probed s r
  holds : IsHeld r.1 → Probed s r

settle : (s : Devices) (r : ℕ × Devices) → IsHeld s → Probed s r → IsHeld r.1
settle s r v (undone u) = undone-IsHeld s r.1 u v
settle s r v (holds w) = w

probe-IsHeld :
    (answers : ProbeAnswers) (max_num_ctrls pdev : ℕ) (s : Devices)
    → IsHeld s
    → Probed s (add_pci_dev answers max_num_ctrls pdev s)
unfolding add_pci_dev
probe-IsHeld answers max_num_ctrls pdev s v =
    let P : ℕ × Devices → Type 0 = Probed s in
    let got = kernel_ctrl_get pdev s.curr_ctrls s in
    let bare : KernelCtrl = record { pdev = pdev; number = s.curr_ctrls; has_chrdev = false } in
    let named : KernelCtrl = record { pdev = pdev; number = s.curr_ctrls; has_chrdev = true } in
    let requested = record got { regions = got.regions + 1 } in
    let on = record requested { enabled = requested.enabled + 1 } in
    let Q : ℕ × Devices → Type 0 =
      λ r. Probed s (chrdev_made answers pdev s.curr_ctrls s.ctrl_list r) in
    let made = record on {
      ctrl_list = s.ctrl_list ++ (named ∷ []);
      cdevs = on.cdevs + 1;
      chrdevs = on.chrdevs + 1;
      masters = on.masters + 1;
    } in
    let no_region : IsUndone s (kernel_ctrl_put bare s.ctrl_list got) =
      (refl, refl, refl, refl, refl, omega arith, omega arith, omega arith) in
    let not_enabled : IsUndone s
        (kernel_ctrl_put bare s.ctrl_list (record requested { regions = requested.regions - 1 })) =
      (refl, refl, omega arith, refl, refl, omega arith, omega arith, omega arith) in
    let no_chrdev : IsUndone s (
        kernel_ctrl_put bare s.ctrl_list
          (record on { enabled = on.enabled - 1; regions = on.regions - 1 })) =
      (refl, refl, omega arith, omega arith, refl, omega arith, omega arith, omega arith) in
    let no_device : IsUndone s (
        kernel_ctrl_put bare s.ctrl_list (record on {
          cdevs = on.cdevs + 1 - 1;
          enabled = on.enabled - 1;
          regions = on.regions - 1;
        })) =
      (refl, refl, omega arith, omega arith, refl, omega arith, omega arith, omega arith) in
    let no_mask : IsUndone s (
        kernel_ctrl_put named s.ctrl_list (record made {
          masters = made.masters - 1;
          enabled = made.enabled - 1;
          regions = made.regions - 1;
        })) =
      (refl, refl, omega arith, omega arith, omega arith, omega arith, omega arith, omega arith) in
    let sums = snoc_sums s.ctrl_list named in
    let added : IsHeld (record made { curr_ctrls = made.curr_ctrls + 1 }) = record {
      counted = omega (arith, v.counted, sums.0);
      regions_held = omega (arith, v.regions_held, sums.0);
      enabled_held = omega (arith, v.enabled_held, sums.0);
      masters_held = omega (arith, v.masters_held, sums.0);
      memory_held = omega (arith, v.memory_held, sums.0);
      cdevs_held = omega (arith, v.cdevs_held, sums.1);
      chrdevs_held = omega (arith, v.chrdevs_held, sums.1);
      all_named = omega (arith, v.all_named, sums.0, sums.1);
    } in
    either P (leb max_num_ctrls s.curr_ctrls) _ _ (λ _. holds v)
      λ _.
        either P (not answers.allocated) _ _ (λ _. holds v)
          λ _.
            either P (not (answers.region == 0)) _ _ (λ _. undone no_region)
              λ _.
                either P (not (answers.enable == 0)) _ _ (λ _. undone not_enabled)
                  λ _.
                    either Q (not (answers.cdev_add == 0)) _ _ (λ e. rw e (undone no_chrdev))
                      λ _.
                        either Q (not (answers.device_create == 0)) _ _
                          (λ e. rw e (undone no_device))
                          (λ _.
                            either P (not (answers.mask64 == 0) && not (answers.mask32 == 0)) _ _
                              (λ _. undone no_mask) (λ _. holds added))

-- Whatever devices are probed and removed in whatever order, and whatever fails in a probe: from a
-- state on in which the module holds a region, an enabled device, a bus master, a `cdev`, a
-- character device and a descriptor for each controller in its list, whose number is `curr_ctrls`,
-- it stays so, if each device that is removed has a controller in the list.
pub device_calls-IsHeld :
    (max_num_ctrls : ℕ) (cs : List DeviceCall) (s : Devices)
    → AreKnown max_num_ctrls cs s
    → IsHeld s
    → IsHeld (device_calls max_num_ctrls cs s)
unfolding device_calls
device_calls-IsHeld max_num_ctrls [] s u v = v
device_calls-IsHeld max_num_ctrls (probe answers pdev ∷ cs) s (u, us) v =
    device_calls-IsHeld max_num_ctrls cs (add_pci_dev answers max_num_ctrls pdev s).1 us (
      settle s (add_pci_dev answers max_num_ctrls pdev s) v
        (probe-IsHeld answers max_num_ctrls pdev s v))
device_calls-IsHeld max_num_ctrls (remove pdev ∷ cs) s (u, us) v =
    device_calls-IsHeld max_num_ctrls cs (remove_pci_dev pdev s) us
      (removed-IsHeld pdev s (find_ctrl pdev s.ctrl_list) refl u v)
