-- ===== src/Kernel/Gpu/Undone.antt =====
-- The loops over the controllers in drv/map.c: the release of a mapping undoes what was mapped.
use u_gds.Prelude.{
  length-take, ℕ, zero, suc, ◌≤◌, ◌≡◌, refl, false, either, Option, none, some, List, [], ◌∷◌, ltb,
  ◌==◌, length, take, replicate, arith,
}
use u_gds.Kernel.Gpu.{unmap_ctrls, map_ctrls, mapped_one, copied_addresses}

-- what `nvidia_p2p_dma_map_pages` gives for a controller without an errno has n addresses or more
abbrev pub HasAddresses : (n : ℕ) → (ℕ → ℕ × List ℕ) → Type 0
HasAddresses n f = (ctrl : ℕ) → (f ctrl).0 ≡ 0 → n ≤ length (f ctrl).1

-- The loops of a mapping and of its release over the same controllers: the release undoes what was
-- mapped, in order, and n addresses are there, read in bounds.
abbrev pub Undone :
    (n : ℕ) → (ctrls : List ℕ) → Option (ℕ × List (Option (List ℕ)) × List ℕ) → Type 0
Undone n ctrls none = ⊥
Undone n ctrls (some (err, mappings, devices)) =
    (unmap_ctrls ctrls mappings ≡ some devices)
    × ((addrs : List ℕ)
        → length addrs ≡ n
        → (copied : List ℕ) × (copied_addresses n addrs mappings ≡ some copied)
          × (length copied ≡ n))

pub unmap_none :
    (ctrls : List ℕ) (mappings : List (Option (List ℕ)))
    → unmap_ctrls ctrls (none ∷ mappings) ≡ some []
unfolding unmap_ctrls
unmap_none [] mappings = refl
unmap_none (ctrl ∷ ctrls) mappings = unmap_none ctrls mappings

one-Undone :
    (n ctrl : ℕ) (addresses : List ℕ) (ctrls : List ℕ)
    (r : Option (ℕ × List (Option (List ℕ)) × List ℕ))
    → n ≤ length addresses
    → Undone n ctrls r
    → Undone n (ctrl ∷ ctrls) (mapped_one ctrl addresses r)
unfolding unmap_ctrls
one-Undone n ctrl addresses ctrls none enough undone = undone
one-Undone n ctrl addresses ctrls (some (err, mappings, devices)) enough (undone, copies) =
    let fits : ltb (length addresses) n ≡ false = ground arith in
    (
      rw undone refl,
      λ addrs full.
          (take n addresses, rw fits refl, omega (arith, length-take n addresses, enough)),
    )

pub map_ctrls-Undone :
    (f : ℕ → ℕ × List ℕ) (n : ℕ) (ctrls : List ℕ) (k : ℕ)
    → HasAddresses n f
    → length ctrls ≤ k
    → Undone n ctrls (map_ctrls f ctrls (replicate k none))
unfolding map_ctrls unmap_ctrls
map_ctrls-Undone f n [] zero enough room = (refl, λ addrs full. (addrs, refl, full))
map_ctrls-Undone f n [] (suc k) enough room = (refl, λ addrs full. (addrs, refl, full))
map_ctrls-Undone f n (ctrl ∷ ctrls) zero enough room = absurd (omega arith)
map_ctrls-Undone f n (ctrl ∷ ctrls) (suc k) enough room =
    either (Undone n (ctrl ∷ ctrls)) ((f ctrl).0 == 0) _ _
      (λ good.
        one-Undone n ctrl (f ctrl).1 ctrls (map_ctrls f ctrls (replicate k none))
          (enough ctrl (ground arith)) (map_ctrls-Undone f n ctrls k enough (omega arith)))
      (λ bad. (unmap_none ctrls (replicate k none), λ addrs full. (addrs, refl, full)))
