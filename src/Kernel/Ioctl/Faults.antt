-- ===== src/Kernel/Ioctl/Faults.antt =====
-- What the failing path of `map_user_pages` in drv/map.c does that unmaps pages too many.
use u_gds.Prelude.{
  ℕ, zero, suc, ◌+◌, ◌≤◌, ◌<◌, ◌≡◌, ◌≢◌, refl, ap, sym, ◌∙◌, true, false, some, List, [], ◌∷◌, ltb,
  ◌==◌, length, length-replicate, arith,
}
use u_gds.Kernel.Resources.{dma, page, Held, take, memory}
use u_gds.Kernel.Mapping.{
  Alloc, Map, refused, UserAnswers, pinned, dma_map_pages, map_userspace, with_pages, set_page_size,
  new_map, page_bytes, descriptor_bytes, enlist, align_down,
}

-- the first page that `dma_map_page` fails for
abbrev pub FailsAt : (dma_map_page : ℕ → ℕ × ℕ) → (start count : ℕ) → Type 0
FailsAt dma_map_page start count =
    ((j : ℕ) → start ≤ j → j < start + count → (dma_map_page j).1 ≡ 0)
    × ((dma_map_page (start + count)).1 ≢ 0)

pages_until :
    (dma_map_page : ℕ → ℕ × ℕ) (n i count : ℕ) (addrs : List ℕ)
    → FailsAt dma_map_page i count
    → count < n
    → n ≤ length addrs
    → ((dma_map_pages dma_map_page n i addrs).0 ≡ (dma_map_page (i + count)).1)
      × ((dma_map_pages dma_map_page n i addrs).1.1 ≡ count)
unfolding dma_map_pages
pages_until f zero i count addrs w h l = absurd (omega arith)
pages_until f (suc n) i count [] w h l = absurd (omega arith)
pages_until f (suc n) i zero (a ∷ addrs) (before, at) h l =
    let here : (f (i + 0)).1 ≡ (f i).1 = ap (λ k. (f k).1) (omega arith) in
    let bad : ((f i).1 == 0) ≡ false = ground (arith, at, here) in rw bad (sym here, refl)
pages_until f (suc n) i (suc count) (a ∷ addrs) (before, at) h l =
    let good : ((f i).1 == 0) ≡ true = ground (arith, before i (omega arith) (omega arith)) in
    let shift : i + 1 + count ≡ i + suc count = omega arith in
    let rest =
      pages_until f n (i + 1) count addrs
        (λ j p q. before j (omega arith) (omega arith), λ e. at (ap (λ k. (f k).1) (sym shift) ∙ e))
        (omega arith) (omega arith) in
    rw good (rest.0 ∙ ap (λ k. (f k).1) shift, omega (arith, rest.1))

abbrev dma_map_page_error : UserAnswers → ℕ → ℕ
dma_map_page_error answers i = (answers.dma_map_page i).1

failed_enlist :
    (m : Map) (n : ℕ) (r : ℕ × (List ℕ × ℕ)) (h : Held) (ms : List Map)
    → r.0 ≢ 0
    → let after = enlist (with_pages m n r h) ms in
      (after.0 ≡ refused r.0)
      × (after.1.1.taken dma ≡ h.taken dma + r.1.1)
      × (after.1.1.given dma ≡ h.given dma + n)
failed_enlist m n (err, (addrs, count)) h ms bad =
    let failed : (err == 0) ≡ false = ground arith in rw failed (refl, refl, refl)

-- Where `get_user_pages` pins all of at least one page and `dma_map_page` fails first for the page
-- after count others, `map_userspace` returns that errno, having made count DMA mappings and
-- unmapped as many as there are pages, which is more.
pub map_userspace-dma :
    (kvmalloc : Alloc) (answers : UserAnswers) (task vaddr n count node : ℕ) (ms : List Map)
    (h : Held)
    → kvmalloc (descriptor_bytes (suc n)) ≡ some node
    → answers.page_array ≡ true
    → answers.get_user_pages ≡ pinned (suc n)
    → FailsAt answers.dma_map_page 0 count
    → count < suc n
    → let after = map_userspace kvmalloc answers task vaddr (suc n) (ms, h) in
      (after.0 ≡ refused (answers.dma_map_page count).1)
      × (after.1.1.taken dma ≡ h.taken dma + count)
      × (after.1.1.given dma ≡ h.given dma + suc n)
unfolding map_userspace
map_userspace-dma kvmalloc answers task vaddr n count node ms h alloc array pins fails few =
    let some_pages : ltb (suc n) 1 ≡ false = ground arith in
    let start = new_map task (align_down page_bytes vaddr) (suc n) node in
    let loop =
      pages_until answers.dma_map_page (suc n) 0 count start.addrs fails few
        (omega (arith, length-replicate {A = ℕ} (suc n) 0)) in
    let ends : (dma_map_page_error answers (0 + count)) ≡ dma_map_page_error answers count =
      ap (dma_map_page_error answers) (omega arith) in
    let after =
      failed_enlist (set_page_size page_bytes start) (suc n)
        (dma_map_pages answers.dma_map_page (suc n) 0 start.addrs)
        (take page (suc n) (take memory 1 (take memory 1 h))) ms (λ e. fails.1 (sym loop.0 ∙ e)) in
    rw (some_pages, alloc, array, pins)
      (after.0 ∙ ap refused (loop.0 ∙ ends), after.1 ∙ ap (λ k. h.taken dma + k) loop.1, after.2)
