-- ===== src/Device/Balance.antt =====
-- What the calls of src/libnvm/linux_dma.cpp take for a handle they give back: on each failure, and
-- at the unmapping.
use u_gds.Prelude.{
  ℕ, ◌+◌, ◌/◌, ◌%◌, ◌<◌, ◌≡◌, ◌≢◌, refl, true, not, ◌||◌, Bool-cases, inl, inr, either, Option,
  none, some, ◌==◌, length, arith,
}
use mathlib.Core.Option.{some-injective}
use mathlib.Core.Path.{subst}
use u_gds.Queue.{einval}
use u_gds.Io.Types.{eio}
use u_gds.Dma.Lifetime.{dma_init}
use u_gds.Dma.Balance.{dma_init-Balanced}
use u_gds.Device.{
  MappingType, map_type_api, map_type_host, map_type_cuda, map_type_dmabuf, IoctlMapping, Kept,
  page_align, new_mapping, create_mapping_descriptor, ioctl_map,
}
use u_gds.Device.Ranges.{IsBounded, IsFitting, length-ioctl_map, new_mapping-IsFitting}
use u_gds.Device.Settled.{IsSettled, own, Adds, inited-IsSettled, dmabuf_closed-IsSettled}
use u_gds.Device.Calls.{
  Outcome, Backend, System, host_for, init_descriptor, create_described, map_described, is_hip,
  dma_create, dma_map_host, ebadf, enotsup, HipAnswers, hip_aligned, hip, cuda, no_gpu,
  hip_exported, hip_described, hip_checks, dma_map_device, map_device_with,
}

-- either no descriptor, or a new one and its range
created_cases :
    (P : ℕ × Option IoctlMapping × Kept → Type 0) (malloc_errno ps : ℕ) (kind : MappingType)
    (buffer size : ℕ) (j : Kept)
    → ((err : ℕ) → err ≢ 0 → P (err, none, j))
    → P (
      0,
      some (new_mapping ps kind buffer (page_align size ps / ps)),
      record j { held = record j.held { ranges = j.held.ranges + 1 } },
    )
    → P (create_mapping_descriptor malloc_errno ps kind buffer size j)
unfolding create_mapping_descriptor
created_cases P malloc_errno ps kind buffer size j bad good =
    either P (page_align size ps / ps == 0) _ _ (λ _. bad einval (λ e. absurd (omega (arith, e))))
      (λ _.
        either P (not (malloc_errno == 0)) _ _ (λ e. bad malloc_errno (ground arith)) (λ _. good))

module _ (sys : System) (k : Kept) (page : 0 < sys.ctrl_page) (bounded : IsBounded sys.ioctl) where
  initialised-IsSettled :
      (m : IoctlMapping) (j : Kept)
      → Adds m.kind k j
      → IsFitting m.range
      → IsSettled k (init_descriptor sys m j)
  initialised-IsSettled m j added (p, fits) =
      inited-IsSettled m k j (dma_init (host_for sys m) sys.ctrl_page m.range true j.held) added (
        dma_init-Balanced (host_for sys m) sys.ctrl_page m.range j.held true page p fits
          (λ f e good.
            subst (λ g. length (g m.range).1 ≡ m.range.n_pages)
              (some-injective (λ va. ioctl_map sys.ioctl (is_hip sys.backend) sys.ioaddrs m) f e)
              (length-ioctl_map sys.ioctl (is_hip sys.backend) sys.ioaddrs m bounded)))

  -- what `nvm_dma_map_host` and the CUDA path of `nvm_dma_map_device` do with a descriptor
  map_described-IsSettled :
      (ps : ℕ) (kind : MappingType) (buffer size : ℕ)
      → own kind ≡ 0
      → 0 < ps
      → IsSettled k
          (map_described sys (create_mapping_descriptor sys.malloc_errno ps kind buffer size k))
  map_described-IsSettled ps kind buffer size none_owned p =
      created_cases (λ r. IsSettled k (map_described sys r)) sys.malloc_errno ps kind buffer size k
        (λ err ne. (ne, ((refl, refl, refl, refl, refl), refl, refl)))
        (initialised-IsSettled (new_mapping ps kind buffer (page_align size ps / ps))
          (record k { held = record k.held { ranges = k.held.ranges + 1 } })
          (refl, omega (arith, none_owned), refl) (new_mapping-IsFitting ps kind buffer size p))

  unchanged : (err : ℕ) → err ≢ 0 → IsSettled k (some (err, none, k))
  unchanged err ne = (ne, ((refl, refl, refl, refl, refl), refl, refl))

  dma_create-IsSettled : (size : ℕ) → IsSettled k (dma_create sys size k)
  unfolding dma_create
  dma_create-IsSettled size =
      let P : Outcome → Type 0 = IsSettled k in
      let n = page_align size sys.ctrl_page in
      either P (n == 0) _ _ (λ _. unchanged einval (λ e. absurd (omega (arith, e))))
        (λ _.
          either P (not sys.is_ioctl_device) _ _
            (λ _. unchanged ebadf (λ e. absurd (omega (arith, e))))
            (λ _.
              either P (not (sys.memalign_errno == 0)) _ _
                (λ bad. unchanged sys.memalign_errno (ground arith))
                (λ _.
                  created_cases (λ r. IsSettled k (create_described sys r)) sys.malloc_errno
                    sys.ctrl_page map_type_api sys.memalign_buffer n
                    (record k { buffers = k.buffers + 1 })
                    (λ err ne. (ne, ((refl, refl, refl, refl, refl), omega arith, refl)))
                    (initialised-IsSettled
                      (new_mapping sys.ctrl_page map_type_api sys.memalign_buffer
                        (page_align n sys.ctrl_page / sys.ctrl_page))
                      (record k {
                        held = record k.held { ranges = k.held.ranges + 1 };
                        buffers = k.buffers + 1;
                      })
                      (refl, refl, refl)
                      (new_mapping-IsFitting sys.ctrl_page map_type_api sys.memalign_buffer n
                        page)))))

  dma_map_host-IsSettled : (vaddr size : ℕ) → IsSettled k (dma_map_host sys vaddr size k)
  unfolding dma_map_host
  dma_map_host-IsSettled vaddr size =
      let P : Outcome → Type 0 = IsSettled k in
      let n = page_align size sys.ctrl_page in
      either P (n == 0) _ _ (λ _. unchanged einval (λ e. absurd (omega (arith, e))))
        (λ _.
          either P (not sys.is_ioctl_device) _ _
            (λ _. unchanged ebadf (λ e. absurd (omega (arith, e))))
            (λ _. map_described-IsSettled sys.ctrl_page map_type_host vaddr n refl page))

module _ (sys : System) (k : Kept) (page : 0 < sys.ctrl_page) (bounded : IsBounded sys.ioctl) where
  -- the path of a HIP build once the dma-buf is exported
  exported-IsSettled :
      (answers : HipAnswers) (devptr size : ℕ) (o : Option (ℕ × ℕ))
      → 0 < answers.page_size
      → IsSettled k (hip_exported sys answers devptr size k o)
  exported-IsSettled answers devptr size none p =
      unchanged sys k page bounded eio (λ e. absurd (omega (arith, e)))
  exported-IsSettled answers devptr size (some (fd, offset)) p =
      let k' : Kept = record k { dmabuf_fds = k.dmabuf_fds + 1 } in
      let m =
        new_mapping answers.page_size map_type_dmabuf devptr
          (page_align size answers.page_size / answers.page_size) in
      either (IsSettled k) (not (offset % answers.page_size == 0)) _ _
        (λ _.
          ((λ e. absurd (omega (arith, e))), ((refl, refl, refl, refl, refl), refl, omega arith)))
        (λ _.
          created_cases (λ r. IsSettled k (hip_described sys fd offset r)) sys.malloc_errno
            answers.page_size map_type_dmabuf devptr size k'
            (λ err ne. (ne, ((refl, refl, refl, refl, refl), refl, omega arith)))
            (dmabuf_closed-IsSettled k _ (
              initialised-IsSettled sys k' page bounded
                (record m { dmabuf_fd = fd; dmabuf_offset = offset })
                (record k' { held = record k.held { ranges = k.held.ranges + 1 } })
                (refl, omega arith, refl)
                (new_mapping-IsFitting answers.page_size map_type_dmabuf devptr size p))))

  hip_checks-page :
      (answers : HipAnswers) (devptr size : ℕ)
      → hip_checks answers devptr size ≡ 0
      → 0 < answers.page_size
  unfolding hip_checks
  hip_checks-page answers devptr size e = elim (Bool-cases (size == 0 || answers.page_size == 0)) [
    | inl bad ↦ let refused : einval ≡ 0 = rw bad at e in absurd (omega (arith, refused))
    | inr good ↦ ground arith
  ]

  map_device_with-IsSettled :
      (backend : Backend) (devptr size : ℕ)
      → IsSettled k (map_device_with sys backend devptr size k)
  map_device_with-IsSettled (hip answers) devptr size =
      either (IsSettled k) (not (hip_checks answers devptr size == 0)) _ _
        (λ bad. unchanged sys k page bounded (hip_checks answers devptr size) (ground arith))
        (λ good.
          exported-IsSettled answers devptr size
            (answers.exported devptr (hip_aligned answers size))
            (hip_checks-page answers devptr size (ground arith)))
  map_device_with-IsSettled cuda devptr size =
      map_described-IsSettled sys k page bounded 65536 map_type_cuda devptr size refl (omega arith)
  map_device_with-IsSettled no_gpu devptr size =
      unchanged sys k page bounded enotsup (λ e. absurd (omega (arith, e)))

  dma_map_device-IsSettled : (devptr size : ℕ) → IsSettled k (dma_map_device sys devptr size k)
  unfolding dma_map_device
  dma_map_device-IsSettled devptr size =
      either (IsSettled k) (not sys.is_ioctl_device) _ _
        (λ _. unchanged sys k page bounded ebadf (λ e. absurd (omega (arith, e))))
        (λ _. map_device_with-IsSettled sys.backend devptr size)

-- For a controller page size that is not 0 and a kernel module that writes no more addresses than
-- there is room for, each of `nvm_dma_create`, `nvm_dma_map_host` and `nvm_dma_map_device`, in
-- every build and whatever fails, reads nothing out of bounds; it returns an errno and keeps
-- nothing more than before, or it returns 0 with a handle and no file descriptor more, and
-- `nvm_dma_unmap` of that handle leaves everything as before, the buffer and the descriptor freed
-- once.
pub dma_calls-IsSettled :
    (sys : System) (k : Kept)
    → 0 < sys.ctrl_page
    → IsBounded sys.ioctl
    → (vaddr size : ℕ)
    → IsSettled k (dma_create sys size k)
      × IsSettled k (dma_map_host sys vaddr size k)
      × IsSettled k (dma_map_device sys vaddr size k)
dma_calls-IsSettled sys k page bounded vaddr size = (
  dma_create-IsSettled sys k page bounded size,
  dma_map_host-IsSettled sys k page bounded vaddr size,
  dma_map_device-IsSettled sys k page bounded vaddr size,
)
