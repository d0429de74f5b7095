-- ===== src/Lib.antt =====
-- A verification library of uGDS: user-space GPU-direct storage over NVMe controllers.
--
-- The program moves data between files on an NVMe namespace and buffers. An application calls
-- uGDSRead and uGDSWrite (src/ugds_io.cpp) on a handle; a request is cut into commands, which are
-- built by include/libnvm/nvm_cmd.h, put into a submission queue and waited for in a completion queue
-- (include/libnvm/nvm_queue.h, src/libnvm/queue.cpp). A completion's status and errno values share one
-- integer (include/libnvm/nvm_error.h). A handle is set up over the admin queues (src/libnvm/admin.cpp
-- over src/libnvm/rpc.cpp) of a controller (src/libnvm/ctrl.cpp), and its buffers are DMA mappings
-- (src/libnvm/dma.cpp), for which the library asks the kernel module under drv/ by ioctl calls
-- (src/libnvm/linux_dma.cpp and linux_device.cpp). The module pins and maps pages of processes and of
-- GPUs and keeps lists of what it has mapped.
--
-- Files and what they model:
--   Prelude     shared names, machine words, bit fields (include/libnvm/nvm_util.h), lists by index.
--   Queue       nvm_ctrl_t, nvm_queue_t and nvm_cpl_t of include/libnvm/nvm_types.h and every queue
--               operation under its name without nvm_. Queue/Ring and Queue/Submission are
--               about the submission side, Queue/Completion, Queue/Line and Queue/Fifo about the
--               completion side, Queue/Blocking about the wait of nvm_cq_dequeue_block.
--   Command     nvm_cmd_t as a function from DWORD indexes and the builders; Command/Fields reads the
--               fields back as a controller does. Command/Prp has the PRP lists, Command/Prp/Chain
--               reads a chain of them back.
--   Status      the status words, and in Status/Messages the tables of src/libnvm/error.cpp;
--               Status/Packing is about their packing, Status/Lookup about the messages.
--   Admin       the admin commands of src/libnvm/admin.cpp over nvm_raw_rpc as a parameter;
--               Admin/Queues creates and deletes IO queues, Admin/Features asks for their number,
--               Admin/Info reads the controller's and a namespace's data, Admin/Created is about the
--               descriptors that are handed out.
--   Dma         nvm_dma_t and populate_handle of src/libnvm/dma.cpp, about which is Dma/Populate;
--               Dma/Lifetime the mapping descriptors, with what is held as counts, about which is
--               Dma/Balance, and Dma/Given nvm_dma_map.
--   Device      the ioctl back end: src/libnvm/linux_dma.cpp (Device/Calls) over the descriptors of
--               internal/map.h, and src/libnvm/linux_device.cpp (Device, and Device/Open for
--               nvm_ctrl_init). Device/Ranges, Device/Settled and Device/Balance are about what the
--               calls hold; Device/Answers has the kernel module answer them, and Device/Pages and
--               Device/Whole follow the addresses of a host buffer from the kernel to the handle.
--   Driver      the driver's state and the registry of buffers, src/ugds_driver.cpp and
--               src/ugds_buf.cpp; Driver/Balance is about the mappings that they make.
--   Controller  src/libnvm/ctrl.cpp: the logarithm of internal/lib_util.h (Controller/Log), the reset
--               (Controller/Reset, and Controller/Fields for its registers), the references
--               (Controller/Refs) and the set-up (Controller/Init).
--   Rpc         src/libnvm/rpc.cpp: the binding handles (Rpc/Handles), the life of a reference with
--               them (Rpc/Reference, Rpc/Life), the execution of admin commands (Rpc/Execute, and
--               Rpc/Status for their status) and the creation of the admin queues (Rpc/Create).
--   Handle      src/ugds_handle.cpp; Handle/Pairs is about what its queue pairs hold,
--               Handle/Balance about what a registration holds.
--   Kernel      the kernel module under drv/: Kernel/Links its linked lists on a store of nodes
--               (drv/list.c), Kernel/Flatten the page addresses of a scatter list, Kernel/Mapping and
--               Kernel/Dmabuf the mappings of drv/map.c, Kernel/Ioctl the calls of drv/pci.c, whose
--               children are about what the mappings hold, counted by Kernel/Resources,
--               Kernel/Devices the controllers of drv/ctrl.c, and Kernel/Gpu the mapping of GPU memory
--               in a CUDA build, with the calls in Kernel/Gpu/Call. The other files are those of a HIP
--               build. Kernel/Entry has the entry and the exit of the module and the files of its
--               controllers; Kernel/Entry/Bound is about the devices that are bound to the driver, and
--               Kernel/Entry/Life about all of that together.
--   Io          do_io of src/ugds_io.cpp. Io/Types has the state, Io/Transfer one round of its loop,
--               Io/Loop the loop, Io/Entry the checks and the search for the buffer. Io/Ends says how
--               a part of a request may end; Io/Slots, Io/Pointers, Io/Request, Io/Chunk, Io/Rounds,
--               Io/Served and Io/Whole carry that from one step to the whole request, and Io/Coverage
--               says what the commands sent transfer.
--
-- Integers are natural numbers with the wrap of their width written out. A command is sent when its
-- doorbell write is made; the controller is a parameter, `mems`, which gives the memory of the
-- completion queue at each poll, so that results hold for every behaviour of a controller. The loops
-- of nvm_cq_dequeue_block and of do_io run on fuel: one round per millisecond and one more, and one
-- round per byte of the request and one more, which the results show to be enough; the wait for a
-- slot needs two rounds. The waits of the controller's reset have one round per millisecond and one
-- more, _nvm_b2log one per bit, and the clearing of a list of mappings one per mapping. Allocation,
-- locks, and the calls into the operating system answer by parameters; what they hand out is counted.
-- Locks are left out: a request holds the lock of its queue pair, and the model runs one request at a
-- time. Cache flushes are empty in this build.
--
-- Not modelled: the wrappers of mutexes, the debug output and the encoding of the ioctl numbers, which
-- have no logic of their own; what lies in freed memory or beyond an allocation, where results have as
-- conditions that the code stays within its memory; and what the code only calls: the C library, the
-- operating system's kernel, the GPU runtimes and the devices.
pub mod Admin
pub mod Command
pub mod Controller
pub mod Device
pub mod Dma
pub mod Driver
pub mod Handle
pub mod Io
pub mod Kernel
pub mod Prelude
pub mod Queue
pub mod Rpc
pub mod Status
