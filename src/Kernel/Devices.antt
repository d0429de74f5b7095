-- ===== src/Kernel/Devices.antt =====
-- drv/ctrl.c and drv/pci.c: the controllers of the module, with what it holds of their devices as
-- counts. The list of controllers is the sequence that its linked list stands for.
pub mod Balance
use u_gds.Prelude.{
  ℕ, ◌+◌, ◌-◌, Bool, true, false, not, ◌&&◌, Option, none, some, List, [], ◌∷◌, ◌++◌, leb, ◌==◌,
  if◌then◌else◌,
}
use u_gds.Io.Types.{eio}
use u_gds.Dma.Lifetime.{enomem}

-- `struct ctrl`, its device by a number
pub record KernelCtrl : Type 0 where
  pub pdev : ℕ
  pub number : ℕ
  pub has_chrdev : Bool

-- the list of controllers, `curr_ctrls`, and the regions requested, devices enabled, bus masters
-- set, `cdev` structures added, character devices created and descriptors
pub record Devices : Type 0 where
  pub ctrl_list : List KernelCtrl
  pub curr_ctrls : ℕ
  pub regions : ℕ
  pub enabled : ℕ
  pub masters : ℕ
  pub cdevs : ℕ
  pub chrdevs : ℕ
  pub memory : ℕ

-- what the system answers to `add_pci_dev`: whether there is memory, and errnos or 0
pub record ProbeAnswers : Type 0 where
  pub allocated : Bool
  pub region : ℕ
  pub enable : ℕ
  pub cdev_add : ℕ
  pub device_create : ℕ
  pub mask64 : ℕ
  pub mask32 : ℕ

-- `ctrl_get`
abbrev pub kernel_ctrl_get : (pdev number : ℕ) → Devices → Devices
kernel_ctrl_get pdev number s = record {
  ctrl_list = s.ctrl_list ++ (record { pdev = pdev; number = number; has_chrdev = false } ∷ []);
  curr_ctrls = s.curr_ctrls;
  regions = s.regions;
  enabled = s.enabled;
  masters = s.masters;
  cdevs = s.cdevs;
  chrdevs = s.chrdevs;
  memory = s.memory + 1;
}

abbrev pub one_chrdev : Bool → ℕ
one_chrdev true = 1
one_chrdev false = 0

-- `ctrl_find_by_pci_dev`
unfoldable pub find_ctrl : (pdev : ℕ) → List KernelCtrl → Option KernelCtrl
find_ctrl pdev [] = none
find_ctrl pdev (c ∷ cs) = let rest = find_ctrl pdev cs in if c.pdev == pdev then some c else rest

-- `list_remove` of a controller
unfoldable pub unlist_ctrl : (pdev : ℕ) → List KernelCtrl → List KernelCtrl
unlist_ctrl pdev [] = []
unlist_ctrl pdev (c ∷ cs) =
    let rest = unlist_ctrl pdev cs in if c.pdev == pdev then cs else c ∷ rest

-- `ctrl_put` of a controller that is in the list, with `ctrl_chrdev_remove`
abbrev pub kernel_ctrl_put : KernelCtrl → (others : List KernelCtrl) → Devices → Devices
kernel_ctrl_put c others s = record {
  ctrl_list = others;
  curr_ctrls = s.curr_ctrls;
  regions = s.regions;
  enabled = s.enabled;
  masters = s.masters;
  cdevs = s.cdevs - one_chrdev c.has_chrdev;
  chrdevs = s.chrdevs - one_chrdev c.has_chrdev;
  memory = s.memory - 1;
}

-- `ctrl_chrdev_create` for a new controller, which has no character device yet
abbrev pub chrdev_create : ProbeAnswers → Devices → ℕ × Devices
chrdev_create answers s =
    if not (answers.cdev_add == 0)
    then (answers.cdev_add, s)
    else let added = record s { cdevs = s.cdevs + 1 } in
      if not (answers.device_create == 0)
      then (answers.device_create, record added { cdevs = added.cdevs - 1 })
      else (0, record added { chrdevs = added.chrdevs + 1 })

-- `add_pci_dev` of a device that is enabled, behind `ctrl_chrdev_create`; others are the
-- controllers before
abbrev pub chrdev_made :
    ProbeAnswers → (pdev number : ℕ) → (others : List KernelCtrl) → ℕ × Devices → ℕ × Devices
chrdev_made answers pdev number others (err, on) =
    let bare : KernelCtrl = record { pdev = pdev; number = number; has_chrdev = false } in
    let named : KernelCtrl = record { pdev = pdev; number = number; has_chrdev = true } in
    if not (err == 0)
    then (
      err,
      kernel_ctrl_put bare others
          (record on { enabled = on.enabled - 1; regions = on.regions - 1 }),
    )
    else let made = record on { ctrl_list = others ++ (named ∷ []); masters = on.masters + 1 } in
      if not (answers.mask64 == 0) && not (answers.mask32 == 0)
      then (
        eio,
        kernel_ctrl_put named others (record made {
          masters = made.masters - 1;
          enabled = made.enabled - 1;
          regions = made.regions - 1;
        }),
      )
      else (0, record made { curr_ctrls = made.curr_ctrls + 1 })

-- `add_pci_dev`: the errno and the state
unfoldable pub add_pci_dev : ProbeAnswers → (max_num_ctrls pdev : ℕ) → Devices → ℕ × Devices
add_pci_dev answers max_num_ctrls pdev s =
    let got = kernel_ctrl_get pdev s.curr_ctrls s in
    let bare : KernelCtrl = record { pdev = pdev; number = s.curr_ctrls; has_chrdev = false } in
    if leb max_num_ctrls s.curr_ctrls
    then (0, s)
    else if not answers.allocated
    then (enomem, s)
    else if not (answers.region == 0)
    then (answers.region, kernel_ctrl_put bare s.ctrl_list got)
    else let requested = record got { regions = got.regions + 1 } in
      if not (answers.enable == 0)
      then (
        answers.enable,
        kernel_ctrl_put bare s.ctrl_list (record requested { regions = requested.regions - 1 }),
      )
      else let on = record requested { enabled = requested.enabled + 1 } in
        chrdev_made answers pdev s.curr_ctrls s.ctrl_list (chrdev_create answers on)

abbrev pub put_found : (pdev : ℕ) → Devices → Option KernelCtrl → Devices
put_found pdev s none = s
put_found pdev s (some c) = kernel_ctrl_put c (unlist_ctrl pdev s.ctrl_list) s

-- `remove_pci_dev`, for a device of a count that is not 0
unfoldable pub remove_pci_dev : (pdev : ℕ) → Devices → Devices
remove_pci_dev pdev s =
    let counted = record s { curr_ctrls = s.curr_ctrls - 1 } in
    let put = put_found pdev counted (find_ctrl pdev s.ctrl_list) in
    record put { regions = put.regions - 1; masters = put.masters - 1; enabled = put.enabled - 1 }
