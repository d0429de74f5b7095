-- ===== src/Kernel/Resources.antt =====
-- What the kernel module has taken from the kernel and given back, by kind.
use u_gds.Prelude.{ℕ, ◌+◌, ◌==◌, if◌then◌else◌}

-- allocations (kvmalloc), pinned pages (get_user_pages), DMA mappings of pages (dma_map_page),
-- references to dma-bufs (dma_buf_get), attachments (dma_buf_dynamic_attach), pins (dma_buf_pin)
-- and scatter tables (dma_buf_map_attachment)
pub data Resource : Type 0 where
  memory page dma dmabuf attachment pin table : Resource

abbrev pub index : Resource → ℕ
index memory = 0
index page = 1
index dma = 2
index dmabuf = 3
index attachment = 4
index pin = 5
index table = 6

pub record Held : Type 0 where
  pub taken : Resource → ℕ
  pub given : Resource → ℕ

abbrev pub take : Resource → ℕ → Held → Held
take r n h = record {
  taken = λ q. if index q == index r then h.taken q + n else h.taken q;
  given = h.given;
}

abbrev pub give : Resource → ℕ → Held → Held
give r n h = record {
  taken = h.taken;
  given = λ q. if index q == index r then h.given q + n else h.given q;
}
