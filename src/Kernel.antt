-- ===== src/Kernel.antt =====
-- The kernel module under drv/: its linked lists, the scatter lists of dma-bufs, the mappings of
-- memory and the ioctl calls.
mod Tests
pub mod Flatten
pub mod Links
pub mod Resources
pub mod Mapping
pub mod Dmabuf
pub mod Ioctl
pub mod Devices
pub mod Gpu
pub mod Entry
