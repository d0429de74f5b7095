-- ===== src/Device/Settled.antt =====
-- What one call of src/libnvm/linux_dma.cpp keeps, and what a descriptor adds.
use u_gds.Prelude.{ℕ, ◌+◌, ◌-◌, ◌≡◌, ◌≢◌, refl, sym, ◌∙◌, Option, none, some, arith}
use mathlib.Core.Option.{none-ne-some}
use mathlib.Core.Path.{subst}
use u_gds.Dma.{Dma}
use u_gds.Dma.Lifetime.{Held, Map, dma_unmap}
use u_gds.Dma.Balance.{Same, Balanced}
use u_gds.Device.{MappingType, IoctlMapping, Kept, remove_mapping_descriptor, free_buffer}
use u_gds.Device.Calls.{
  Mapping, Outcome, dma_inited, released, unmap_handle, close_dmabuf, dmabuf_closed,
}

-- as much is kept as before
abbrev pub SameKept : Kept → Kept → Type 0
SameKept j k = Same j.held k.held × (j.buffers ≡ k.buffers) × (j.dmabuf_fds ≡ k.dmabuf_fds)

-- Without a handle there is an errno, and as much is kept as before; with one there is none, and to
-- unmap it leaves as much as before.
abbrev pub IsSettled : Kept → Outcome → Type 0
IsSettled k none = ⊥
IsSettled k (some (err, none, j)) = (err ≢ 0) × SameKept j k
IsSettled k (some (err, some h, j)) =
    (err ≡ 0) × (j.dmabuf_fds ≡ k.dmabuf_fds) × SameKept (unmap_handle h j) k

-- the buffers that a descriptor owns
abbrev pub own : MappingType → ℕ
own MappingType.map_type_api = 1
own MappingType.map_type_host = 0
own MappingType.map_type_cuda = 0
own MappingType.map_type_dmabuf = 0

free_buffer-frees :
    (kind : MappingType) (k : Kept)
    → ((free_buffer kind k).held ≡ k.held)
      × ((free_buffer kind k).buffers ≡ k.buffers - own kind)
      × ((free_buffer kind k).dmabuf_fds ≡ k.dmabuf_fds)
free_buffer-frees MappingType.map_type_api k = (refl, refl, refl)
free_buffer-frees MappingType.map_type_host k = (refl, omega arith, refl)
free_buffer-frees MappingType.map_type_cuda k = (refl, omega arith, refl)
free_buffer-frees MappingType.map_type_dmabuf k = (refl, omega arith, refl)

-- what a descriptor adds to what is kept
abbrev pub Adds : MappingType → Kept → Kept → Type 0
Adds kind k j =
    (j.held ≡ record k.held { ranges = k.held.ranges + 1 })
    × (j.buffers ≡ k.buffers + own kind)
    × (j.dmabuf_fds ≡ k.dmabuf_fds)

-- held less the range that is released is what was held
gives_back :
    (kind : MappingType) (k j : Kept) (h : Held)
    → Adds kind k j
    → Same h (record j.held { ranges = j.held.ranges - 1 })
    → SameKept (free_buffer kind (record j { held = h })) k
gives_back kind k j h (held, buffers, fds) same =
    let (e, b, f) = free_buffer-frees kind (record j { held = h }) in
    let (refs, maps, boxes, mapped, ranges) =
      subst (λ (q : Held). Same h (record q { ranges = q.ranges - 1 })) held same in
    let back : Same h k.held = (refs, maps, boxes, mapped, omega (arith, ranges)) in
    (subst (λ (q : Held). Same q k.held) (sym e) back, omega (arith, b, buffers), f ∙ fds)

released_last :
    (m : IoctlMapping) (r : Option Map × Held) (k : Kept)
    → r.0 ≡ none
    → released m r k ≡ free_buffer m.kind (record k { held = r.1 })
released_last m (none, held) k e = refl
released_last m (some md, held) k e = absurd (none-ne-some md (sym e))

pub inited-IsSettled :
    (m : IoctlMapping) (k j : Kept) (r : Option (ℕ × Option (Map × Dma) × Held))
    → Adds m.kind k j
    → Balanced j.held r
    → IsSettled k (dma_inited m j r)
unfolding remove_mapping_descriptor unmap_handle
inited-IsSettled m k j none added balanced = balanced
inited-IsSettled m k j (some (err, none, h)) added (ne, (a, b, c, d, e)) = (
  ne,
  gives_back m.kind k j (record h { ranges = h.ranges - 1 }) added (a, b, c, d, omega (arith, e)),
)
inited-IsSettled m k j (some (err, some (md, dma), h)) added (zero_err, more, last, same) = (
  refl,
  added.2,
  subst (λ (q : Kept). SameKept q k)
      (sym (released_last m (dma_unmap md h) (record j { held = h }) last))
      (gives_back m.kind k j (dma_unmap md h).1 added same),
)

-- to unmap a handle frees no file descriptor, and does what it does without one
unmap-close :
    (h : Mapping) (j : Kept)
    → ((unmap_handle h (close_dmabuf j)).held ≡ (unmap_handle h j).held)
      × ((unmap_handle h (close_dmabuf j)).buffers ≡ (unmap_handle h j).buffers)
      × ((unmap_handle h (close_dmabuf j)).dmabuf_fds ≡ (unmap_handle h j).dmabuf_fds - 1)
unfolding unmap_handle
unmap-close (m, (md, dma)) j = at_release (dma_unmap md j.held)
  where
    at_release :
        (r : Option Map × Held)
        → ((released m r (close_dmabuf j)).held ≡ (released m r j).held)
          × ((released m r (close_dmabuf j)).buffers ≡ (released m r j).buffers)
          × ((released m r (close_dmabuf j)).dmabuf_fds ≡ (released m r j).dmabuf_fds - 1)
    at_release (none, held) =
        let (e, b, f) = free_buffer-frees m.kind (record (close_dmabuf j) { held = held }) in
        let (e', b', f') = free_buffer-frees m.kind (record j { held = held }) in
        (e ∙ sym e', omega (arith, b, b'), omega (arith, f, f'))
    at_release (some md', held) = (refl, refl, refl)

pub dmabuf_closed-IsSettled :
    (k : Kept) (r : Outcome)
    → IsSettled (record k { dmabuf_fds = k.dmabuf_fds + 1 }) r
    → IsSettled k (dmabuf_closed r)
dmabuf_closed-IsSettled k none settled = settled
dmabuf_closed-IsSettled k (some (err, none, j)) (ne, (same, buffers, fds)) =
    (ne, (same, buffers, omega (arith, fds)))
dmabuf_closed-IsSettled k (some (err, some h, j)) (good, fds, (same, buffers, after)) =
    let (e, b, f) = unmap-close h j in
    (
      good,
      omega (arith, fds),
      (subst (λ (q : Held). Same q k.held) (sym e) same, b ∙ buffers, omega (arith, f, after)),
    )
