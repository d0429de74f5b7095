-- ===== src/Device/Open.antt =====
-- `nvm_ctrl_init` of src/libnvm/linux_device.cpp: the device of a controller that is opened by its
-- file descriptor.
use u_gds.Prelude.{
  ℕ, ◌+◌, ◌-◌, ◌≡◌, ◌≢◌, refl, Bool, true, ◌&&◌, not, Bool-cases, inl, inr, either, Option, none,
  some, ◌==◌, if◌then◌else◌, arith,
}
use u_gds.Queue.{Ctrl}
use u_gds.Dma.Lifetime.{enomem}
use u_gds.Controller.{ctrl_init, ctrl_mem_minsize}
use u_gds.Controller.Init.{IsHandle, ctrl_init-IsHandle}

-- what is held: device descriptors, file descriptors and mappings of the controller's memory
pub record Opened : Type 0 where
  pub devices : ℕ
  pub fds : ℕ
  pub maps : ℕ

-- What the system answers: whether the device descriptor's memory is had, the errnos of `dup`,
-- `fcntl` and `mmap` or 0, the address of `mmap`, `none` for MAP_FAILED, and what `_nvm_ctrl_init`
-- meets, with CAP by the address that it is read from.
pub record OpenAnswers : Type 0 where
  pub memory : Bool
  pub dup_errno : ℕ
  pub fcntl_errno : ℕ
  pub mmap : Option ℕ
  pub mmap_errno : ℕ
  pub allocated : Bool
  pub mutex_err : ℕ
  pub page_size : ℕ
  pub cap : ℕ → ℕ

-- an errno, the handle if there is one and what is held; `none` is an access to memory that is not
-- mapped
abbrev pub Outcome : Type 0
Outcome = Option (ℕ × Option Ctrl × Opened)

-- `release_device`
unfoldable pub release_device : Opened → Opened
release_device o = record { devices = o.devices - 1; fds = o.fds - 1; maps = o.maps - 1 }

-- the end of `nvm_ctrl_init`
abbrev pub ctrl_inited : ℕ × Option Ctrl → Opened → Outcome
ctrl_inited (err, h) o =
    if not (err == 0) then some (err, none, release_device o) else some (0, h, o)

-- whether `_nvm_ctrl_init` comes to read CAP
abbrev pub reads_cap : OpenAnswers → Bool
reads_cap a = a.allocated && (a.mutex_err == 0 && not (a.page_size == 0))

-- `_nvm_ctrl_init` of the memory at the address of `mmap`. MAP_FAILED is not NULL, so the call is
-- made with it too; it unmaps nothing.
abbrev pub memory_mapped : OpenAnswers → Opened → Option ℕ → Outcome
memory_mapped a o none =
    if reads_cap a
    then none
    else some (
      (ctrl_init true a.allocated a.mutex_err a.page_size 0 0 ctrl_mem_minsize).0,
      none,
      record o { devices = o.devices - 1; fds = o.fds - 1 },
    )
memory_mapped a o (some mm_ptr) =
    if mm_ptr == 0
    then some (a.mmap_errno, none, record o { devices = o.devices - 1; fds = o.fds - 1 })
    else ctrl_inited
        (ctrl_init true a.allocated a.mutex_err a.page_size (a.cap mm_ptr) mm_ptr ctrl_mem_minsize)
        (record o { maps = o.maps + 1 })

-- `nvm_ctrl_init`
unfoldable pub open_ctrl : OpenAnswers → Opened → Outcome
open_ctrl a o =
    if not a.memory
    then some (enomem, none, o)
    else if not (a.dup_errno == 0)
    then some (a.dup_errno, none, record o { devices = o.devices + 1 - 1 })
    else if not (a.fcntl_errno == 0)
    then some (a.fcntl_errno, none, record o { devices = o.devices + 1 - 1; fds = o.fds + 1 - 1 })
    else memory_mapped a (record o { devices = o.devices + 1; fds = o.fds + 1 }) a.mmap

-- as much is held as before
abbrev pub SameOpened : Opened → Opened → Type 0
SameOpened p o = (p.devices ≡ o.devices) × (p.fds ≡ o.fds) × (p.maps ≡ o.maps)

-- An errno and nothing held more than before, or a handle of the memory at the address whose
-- device, when it is released, leaves what there was before.
abbrev pub IsOpened : OpenAnswers → (mm_ptr : ℕ) → Opened → Outcome → Type 0
IsOpened a mm_ptr o none = ⊥
IsOpened a mm_ptr o (some (err, none, p)) = (err ≢ 0) × SameOpened p o
IsOpened a mm_ptr o (some (err, some ctrl, p)) =
    IsHandle a.page_size (a.cap mm_ptr) mm_ptr ctrl_mem_minsize (err, some ctrl)
    × SameOpened (release_device p) o

inited-IsOpened :
    (a : OpenAnswers) (mm_ptr : ℕ) (o p : Opened) (r : ℕ × Option Ctrl)
    → SameOpened (release_device p) o
    → IsHandle a.page_size (a.cap mm_ptr) mm_ptr ctrl_mem_minsize r
    → IsOpened a mm_ptr o (ctrl_inited r p)
inited-IsOpened a mm_ptr o p (err, none) same handle = elim (Bool-cases (err == 0)) [
  | inl good ↦ absurd (handle (ground arith))
  | inr bad ↦ rw bad (handle, same)
]
inited-IsOpened a mm_ptr o p (err, some ctrl) same (good, b, c, d, e, f, g, h) =
    rw good ((refl, b, c, d, e, f, g, h), same)

-- When `mmap` does not fail, and the errno of a failed call is not 0, `nvm_ctrl_init` returns an
-- errno and holds nothing more than before, or it returns 0 and a handle of the memory that is
-- mapped, whose page size the controller supports; the device's release leaves what there was.
pub open_ctrl-IsOpened :
    (a : OpenAnswers) (o : Opened) (mm_ptr : ℕ)
    → a.mmap ≡ some mm_ptr
    → (mm_ptr ≡ 0 → a.mmap_errno ≢ 0)
    → IsOpened a mm_ptr o (open_ctrl a o)
unfolding open_ctrl release_device
open_ctrl-IsOpened a o mm_ptr mapped errno =
    let P : Outcome → Type 0 = IsOpened a mm_ptr o in
    either P (not a.memory) _ _ (λ _. ((λ e. absurd (omega (arith, e))), (refl, refl, refl)))
      λ _.
        either P (not (a.dup_errno == 0)) _ _ (λ bad. (ground arith, (omega arith, refl, refl)))
          λ _.
            either P (not (a.fcntl_errno == 0)) _ _
              (λ bad. (ground arith, (omega arith, omega arith, refl)))
              λ _. rw mapped (
                either P (mm_ptr == 0) _ _
                  (λ null. (errno (ground arith), (omega arith, omega arith, refl)))
                  λ _.
                    inited-IsOpened a mm_ptr o
                      (record o { devices = o.devices + 1; fds = o.fds + 1; maps = o.maps + 1 }) _
                      (omega arith, omega arith, omega arith)
                      (ctrl_init-IsHandle true a.allocated a.mutex_err a.page_size (a.cap mm_ptr)
                        mm_ptr ctrl_mem_minsize))
