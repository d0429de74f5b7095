-- ===== src/Device/Tests.antt =====
-- The library's device back end at concrete inputs.
use u_gds.Prelude.{ℕ, ◌+◌, ◌*◌, ◌/◌, ◌≤◌, ◌<◌, ◌≡◌, refl, true, some, [], arith}
use u_gds.Kernel.Ioctl.{Module}
use u_gds.Kernel.Dmabuf.{DmabufAnswers}
use u_gds.Device.{Kept}
use u_gds.Device.Calls.{hip, HipAnswers, System, dma_create, dma_map_host, dma_map_device}
use u_gds.Device.Answers.{kernel_ioctl, kernel_ioctl-IsBounded}
use u_gds.Device.Pages.{willing, serving}
use u_gds.Device.Settled.{IsSettled}
use u_gds.Device.Balance.{dma_calls-IsSettled}
use u_gds.Device.Whole.{IsListed, mapped_host, dma_map_host-IsListed}
use u_gds.Device.Open.{Opened, OpenAnswers, IsOpened, open_ctrl, open_ctrl-IsOpened}

-- the pages of a process at 16 MiB in the memory of the device
abbrev pages : ℕ → ℕ × ℕ
pages i = (16777216 + i * 4096, 0)

abbrev no_dmabuf : DmabufAnswers
no_dmabuf = record {
  region = true;
  get = 9;
  attach = 0;
  pinning = 0;
  mapping = 0;
  sgt = [];
  stale = 9;
}

-- a module without mappings
abbrev empty : Module
empty = record {
  host_list = [];
  device_list = [];
  held = record { taken = λ q. 0; given = λ q. 0 };
}

abbrev before : Kept
before = record {
  held = record { ctrl_refs = 1; maps = 0; containers = 0; mapped = 0; ranges = 0 };
  buffers = 0;
  dmabuf_fds = 0;
}

abbrev runtime : HipAnswers
runtime = record {
  page_size = 4096;
  is_device_memory = true;
  allocation = some (1048576, 65536);
  has_dmabuf_v2 = true;
  exported = λ devptr size. some (7, 0);
}

abbrev system : System
system = willing (hip runtime) 4096 (kernel_ioctl (serving 1 64 2 pages no_dmabuf) empty)

-- the first two succeed here, and the kernel module refuses the dma-buf
dma_calls-IsSettled_example :
    IsSettled before (dma_create system 8192 before)
    × IsSettled before (dma_map_host system 1048576 8192 before)
    × IsSettled before (dma_map_device system 1048576 8192 before)
dma_calls-IsSettled_example =
    dma_calls-IsSettled system before (omega arith)
      (kernel_ioctl-IsBounded (serving 1 64 2 pages no_dmabuf) empty) 1048576 8192

dma_map_host-IsListed_example :
    IsListed pages 1048576 2
      (mapped_host (hip runtime) pages 4096 1 64 1048576 8000 no_dmabuf empty before 2)
    × ((o : ℕ) → o < 8000 → (1048576 + o) / 4096 < 1048576 / 4096 + 2)
    × ((p : ℕ)
        → 1048576 / 4096 ≤ p
        → p < 1048576 / 4096 + 2
        → (o : ℕ) × (o < 8000) × ((1048576 + o) / 4096 ≡ p))
dma_map_host-IsListed_example =
    dma_map_host-IsListed (hip runtime) pages 4096 1 64 1048576 8000 no_dmabuf empty before
      (λ i. refl) (omega arith) (omega arith) refl

abbrev answers : OpenAnswers
answers = record {
  memory = true;
  dup_errno = 0;
  fcntl_errno = 0;
  mmap = some 65536;
  mmap_errno = 0;
  allocated = true;
  mutex_err = 0;
  page_size = 4096;
  cap = λ mm_ptr. 63;
}

abbrev nothing : Opened
nothing = record { devices = 0; fds = 0; maps = 0 }

open_ctrl-IsOpened_example : IsOpened answers 65536 nothing (open_ctrl answers nothing)
open_ctrl-IsOpened_example =
    open_ctrl-IsOpened answers nothing 65536 refl (λ e. absurd (omega (arith, e)))
