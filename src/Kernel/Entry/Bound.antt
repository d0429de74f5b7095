-- ===== src/Kernel/Entry/Bound.antt =====
-- The devices that are bound to the driver of drv/pci.c, and those of its controllers.
use u_gds.Prelude.{
  ℕ, ◌+◌, ◌<◌, ◌≡◌, ◌≢◌, refl, sym, ap, ◌∙◌, true, false, not, ◌&&◌, Bool-cases, either, ◌⊎◌, inl,
  inr, Option, none, some, List, [], ◌∷◌, ◌++◌, leb, ◌==◌, if◌then◌else◌, arith,
}
use mathlib.Core.Option.{none-ne-some}
use u_gds.Kernel.Devices.{
  KernelCtrl, Devices, ProbeAnswers, find_ctrl, unlist_ctrl, chrdev_made, add_pci_dev,
  remove_pci_dev,
}
use u_gds.Kernel.Devices.Balance.{
  DeviceCall, probe, remove, device_call, AreKnown, IsKnown, IsHeld, device_calls,
  device_calls-IsHeld,
}
use u_gds.Kernel.Entry.{
  ModuleState, ModuleCall, device, file, module_call, module_calls, unbind, bound_after, remove_all,
}
use u_gds.Kernel.Entry.Parts.{device_part}

-- the devices of controllers
abbrev pub devices_of : List KernelCtrl → List ℕ
devices_of [] = []
devices_of (c ∷ cs) = c.pdev ∷ devices_of cs

-- how often a device is in a list
abbrev pub count : (pdev : ℕ) → List ℕ → ℕ
count q [] = 0
count q (p ∷ ps) = (if p == q then 1 else 0) + count q ps

-- the same devices, in any order
abbrev pub SameDevices : List ℕ → List ℕ → Type 0
SameDevices ps qs = (q : ℕ) → count q ps ≡ count q qs

-- a probe finds fewer controllers than `max_num_ctrls`
abbrev pub HasRoom : (max_num_ctrls : ℕ) → DeviceCall → Devices → Type 0
HasRoom max_num_ctrls (probe answers pdev) s = s.curr_ctrls < max_num_ctrls
HasRoom max_num_ctrls (remove pdev) s = Unit {0}

abbrev pub HaveRoom : (max_num_ctrls : ℕ) → List DeviceCall → Devices → Type 0
HaveRoom max_num_ctrls [] s = Unit {0}
HaveRoom max_num_ctrls (c ∷ cs) s =
    HasRoom max_num_ctrls c s × HaveRoom max_num_ctrls cs (device_call max_num_ctrls c s)

count-unbind :
    (q p : ℕ) (ps : List ℕ)
    → 0 < count p ps
    → count q ps ≡ (if p == q then 1 else 0) + count q (unbind p ps)
count-unbind q p [] h = absurd (omega arith)
count-unbind q p (x ∷ ps) h = elim (Bool-cases (x == p)) [
  | inl here ↦ let same : x ≡ p = ground arith in rw (here, same) refl
  | inr behind ↦
      let rest = count-unbind q p ps (omega (arith, rw behind at h)) in
      rw behind (omega (arith, rest))
]

count-append :
    (q : ℕ) (cs : List KernelCtrl) (c : KernelCtrl)
    → count q (devices_of (cs ++ (c ∷ [])))
      ≡ (if c.pdev == q then 1 else 0) + count q (devices_of cs)
count-append q [] c = refl
count-append q (x ∷ cs) c = omega (arith, count-append q cs c)

count-unlist :
    (q p : ℕ) (cs : List KernelCtrl)
    → 0 < count p (devices_of cs)
    → count q (devices_of cs) ≡ (if p == q then 1 else 0) + count q (devices_of (unlist_ctrl p cs))
unfolding unlist_ctrl
count-unlist q p [] h = absurd (omega arith)
count-unlist q p (x ∷ cs) h = elim (Bool-cases (x.pdev == p)) [
  | inl here ↦ let same : x.pdev ≡ p = ground arith in rw (here, same) refl
  | inr behind ↦
      let rest = count-unlist q p cs (omega (arith, rw behind at h)) in
      rw behind (omega (arith, rest))
]

found_counts :
    (p : ℕ) (cs : List KernelCtrl)
    → ((find_ctrl p cs ≡ none) × (count p (devices_of cs) ≡ 0))
      ⊎ ((find_ctrl p cs ≢ none) × (0 < count p (devices_of cs)))
unfolding find_ctrl
found_counts p [] = inl (refl, refl)
found_counts p (x ∷ cs) = elim (Bool-cases (x.pdev == p)) [
  | inl here ↦ inr (rw here ((λ e. none-ne-some x (sym e)), omega arith))
  | inr behind ↦ elim (found_counts p cs) [
    | inl (lost, never) ↦ inl (rw behind (lost, omega (arith, never)))
    | inr (found, once) ↦ inr (rw behind (found, omega (arith, once)))
  ]
]

known_counts : (p : ℕ) (cs : List KernelCtrl) → find_ctrl p cs ≢ none → 0 < count p (devices_of cs)
known_counts p cs h = elim (found_counts p cs) [ inl a ↦ absurd (h a.0) | inr a ↦ a.1 ]

counted_known : (p : ℕ) (cs : List KernelCtrl) → 0 < count p (devices_of cs) → find_ctrl p cs ≢ none
counted_known p cs h = elim (found_counts p cs) [
  | inl a ↦ absurd (omega (arith, a.1))
  | inr a ↦ a.0
]

-- what a probe that finds room answers and leaves: one controller more, or as many as before
abbrev HasProbed : (pdev : ℕ) → List KernelCtrl → ℕ × Devices → Type 0
HasProbed pdev before (err, after) =
    (((err == 0) ≡ true)
      × ((c : KernelCtrl) × (c.pdev ≡ pdev) × (after.ctrl_list ≡ before ++ (c ∷ []))))
    ⊎ (((err == 0) ≡ false) × (after.ctrl_list ≡ before))

add_pci_dev-HasProbed :
    (answers : ProbeAnswers) (max_num_ctrls pdev : ℕ) (s : Devices)
    → s.curr_ctrls < max_num_ctrls
    → HasProbed pdev s.ctrl_list (add_pci_dev answers max_num_ctrls pdev s)
unfolding add_pci_dev
add_pci_dev-HasProbed answers max_num_ctrls pdev s room =
    let P : ℕ × Devices → Type 0 = HasProbed pdev s.ctrl_list in
    let Q : ℕ × Devices → Type 0 =
      λ r. HasProbed pdev s.ctrl_list (chrdev_made answers pdev s.curr_ctrls s.ctrl_list r) in
    let fits : leb max_num_ctrls s.curr_ctrls ≡ false = ground arith in
    rw fits (
      either P (not answers.allocated) _ _ (λ _. inr (refl, refl))
        λ _.
          either P (not (answers.region == 0)) _ _ (λ bad. inr (ground arith, refl))
            λ _.
              either P (not (answers.enable == 0)) _ _ (λ bad. inr (ground arith, refl))
                λ _.
                  either Q (not (answers.cdev_add == 0)) _ _
                    (λ bad. rw bad (inr (ground arith, refl)))
                    λ _.
                      either Q (not (answers.device_create == 0)) _ _
                        (λ bad. rw bad (inr (ground arith, refl)))
                        (λ _.
                          either P (not (answers.mask64 == 0) && not (answers.mask32 == 0)) _ _
                            (λ _. inr (refl, refl)) (λ _. inl (refl, (_, refl, refl)))))

removed_list :
    (pdev : ℕ) (s : Devices)
    → find_ctrl pdev s.ctrl_list ≢ none
    → (remove_pci_dev pdev s).ctrl_list ≡ unlist_ctrl pdev s.ctrl_list
unfolding remove_pci_dev
removed_list pdev s known = removed (find_ctrl pdev s.ctrl_list) refl
  where
    removed :
        (o : Option KernelCtrl)
        → find_ctrl pdev s.ctrl_list ≡ o
        → (remove_pci_dev pdev s).ctrl_list ≡ unlist_ctrl pdev s.ctrl_list
    removed none e = absurd (known e)
    removed (some c) e = rw e refl

bound_after-SameDevices :
    (max_num_ctrls : ℕ) (c : DeviceCall) (s : Devices) (bound : List ℕ)
    → HasRoom max_num_ctrls c s
    → IsKnown c s
    → SameDevices bound (devices_of s.ctrl_list)
    → SameDevices
        (bound_after max_num_ctrls c s bound)
        (devices_of (device_call max_num_ctrls c s).ctrl_list)
bound_after-SameDevices max_num_ctrls (probe answers pdev) s bound room known same q =
    elim (add_pci_dev-HasProbed answers max_num_ctrls pdev s room) [
      | inl (good, (c, named, listed)) ↦
          let counted : count q (devices_of (add_pci_dev answers max_num_ctrls pdev s).1.ctrl_list)
              ≡ (if pdev == q then 1 else 0) + count q (devices_of s.ctrl_list) =
            ap (λ cs. count q (devices_of cs)) listed
            ∙ count-append q s.ctrl_list c
            ∙ ap (λ p. (if p == q then 1 else 0) + count q (devices_of s.ctrl_list)) named in
          rw good (omega (arith, counted, same q))
      | inr (bad, listed) ↦ rw bad (same q ∙ ap (λ cs. count q (devices_of cs)) (sym listed))
    ]
bound_after-SameDevices max_num_ctrls (remove pdev) s bound room known same q =
    let there : 0 < count pdev (devices_of s.ctrl_list) = known_counts pdev s.ctrl_list known in
    let listed : count q (devices_of (remove_pci_dev pdev s).ctrl_list)
        ≡ count q (devices_of (unlist_ctrl pdev s.ctrl_list)) =
      ap (λ cs. count q (devices_of cs)) (removed_list pdev s known) in
    omega (
      arith,
      listed,
      same q,
      count-unbind q pdev bound (omega (arith, there, same pdev)),
      count-unlist q pdev s.ctrl_list there,
    )

-- after any calls of a loaded module, the devices that are bound are those of its controllers
pub module_calls-SameDevices :
    (max_num_ctrls : ℕ) (cs : List ModuleCall) (d : ModuleState)
    → HaveRoom max_num_ctrls (device_part cs) d.devices
    → AreKnown max_num_ctrls (device_part cs) d.devices
    → SameDevices d.bound (devices_of d.devices.ctrl_list)
    → SameDevices
        (module_calls max_num_ctrls cs d).bound
        (devices_of (module_calls max_num_ctrls cs d).devices.ctrl_list)
unfolding module_calls device_part
module_calls-SameDevices max_num_ctrls [] d rooms knowns same = same
module_calls-SameDevices max_num_ctrls (device c ∷ cs) d (room, rooms) (known, knowns) same =
    module_calls-SameDevices max_num_ctrls cs (module_call max_num_ctrls (device c) d) rooms knowns
      (bound_after-SameDevices max_num_ctrls c d.devices d.bound room known same)
module_calls-SameDevices max_num_ctrls (file kvmalloc task i_cdev r ∷ cs) d rooms knowns same =
    module_calls-SameDevices max_num_ctrls cs
      (module_call max_num_ctrls (file kvmalloc task i_cdev r) d) rooms knowns same

none_counted : (cs : List KernelCtrl) → SameDevices [] (devices_of cs) → cs ≡ []
none_counted [] same = refl
none_counted (c ∷ cs) same =
    let here : (c.pdev == c.pdev) ≡ true = ground arith in
    absurd (omega (arith, rw here at (same c.pdev)))

-- the removal of the controllers' devices, in any order, leaves no controller
pub remove_all-IsHeld :
    (ps : List ℕ) (s : Devices)
    → SameDevices ps (devices_of s.ctrl_list)
    → IsHeld s
    → IsHeld (remove_all ps s) × ((remove_all ps s).ctrl_list ≡ [])
unfolding remove_all device_calls
remove_all-IsHeld [] s same v = (v, none_counted s.ctrl_list same)
remove_all-IsHeld (p ∷ ps) s same v =
    let here : (p == p) ≡ true = ground arith in
    let there : 0 < count p (devices_of s.ctrl_list) = omega (arith, rw here at (same p)) in
    let known = counted_known p s.ctrl_list there in
    remove_all-IsHeld ps (remove_pci_dev p s)
      (λ q.
        let listed : count q (devices_of (remove_pci_dev p s).ctrl_list)
            ≡ count q (devices_of (unlist_ctrl p s.ctrl_list)) =
          ap (λ cs. count q (devices_of cs)) (removed_list p s known) in
        omega (arith, listed, same q, count-unlist q p s.ctrl_list there))
      (device_calls-IsHeld 0 (remove p ∷ []) s (known, tt) v)
