-- ===== src/Kernel/Ioctl/Accounts.antt =====
-- What the mappings of a list owe, and what the operations on mappings do to the accounts.
use u_gds.Prelude.{
  ℕ, ◌+◌, ◌≤◌, ◌≡◌, ◌≢◌, refl, ap, sym, ◌∙◌, true, false, Bool-cases, ◌&&◌, inl, inr, some, List,
  [], ◌∷◌, ◌++◌, ltb, leb, ◌==◌, if◌then◌else◌, arith,
}
use mathlib.Core.Option.{some-injective, none-ne-some}
use u_gds.Kernel.Resources.{
  Resource, memory, page, dma, dmabuf, attachment, pin, table, index, Held, give,
}
use u_gds.Kernel.Links.Segment.{NotIn, Distinct}
use u_gds.Kernel.Mapping.{
  Map, Region, map_find, unlist_map, unmap_and_release, release_region, align_down,
}

abbrev pub region_owes : Region → (n_addrs i : ℕ) → ℕ
region_owes Region.no_region n i = 0
region_owes Region.user_region n i =
    if i == 0 then 1 else if i == 1 then n else if i == 2 then n else 0
region_owes Region.dmabuf_region n i = if i == 0 then 1 else if leb 3 i then 1 else 0

-- what is given back when a mapping is released: its descriptor, and what its region holds
abbrev pub owes : Resource → Map → ℕ
owes q m = (if index q == 0 then 1 else 0) + region_owes m.region m.n_addrs (index q)

abbrev pub all_owe : Resource → List Map → ℕ
all_owe q [] = 0
all_owe q (m ∷ ms) = owes q m + all_owe q ms

abbrev pub nodes : List Map → List ℕ
nodes [] = []
nodes (m ∷ ms) = m.node ∷ nodes ms

pub index_bound : (q : Resource) → index q ≤ 6
index_bound memory = omega arith
index_bound page = omega arith
index_bound dma = omega arith
index_bound dmabuf = omega arith
index_bound attachment = omega arith
index_bound pin = omega arith
index_bound table = omega arith

region_given_back :
    (r : Region) (n : ℕ) (h : Held) (q : Resource)
    → (give memory 1 (release_region r n h)).given q
      ≡ h.given q + ((if index q == 0 then 1 else 0) + region_owes r n (index q))
region_given_back Region.no_region n h q = ground arith
region_given_back Region.user_region n h q = ground arith
region_given_back Region.dmabuf_region n h q = ground (arith, index_bound q)

region_taken :
    (r : Region) (n : ℕ) (h : Held) (q : Resource)
    → (give memory 1 (release_region r n h)).taken q ≡ h.taken q
region_taken Region.no_region n h q = refl
region_taken Region.user_region n h q = refl
region_taken Region.dmabuf_region n h q = refl

pub all_owe-append :
    (q : Resource) (ms : List Map) (m : Map) → all_owe q (ms ++ (m ∷ [])) ≡ all_owe q ms + owes q m
all_owe-append q [] m = omega arith
all_owe-append q (x ∷ ms) m = omega (arith, all_owe-append q ms m)

pub remove_absent : (c : ℕ) (ms : List Map) → NotIn c (nodes ms) → unlist_map c ms ≡ ms
unfolding unlist_map
remove_absent c [] p = refl
remove_absent c (x ∷ ms) (p, ps) =
    let other : (x.node == c) ≡ false = ground arith in
    rw other (ap (λ ys. x ∷ ys) (remove_absent c ms ps))

pub remove_last :
    (ms : List Map) (m : Map) → NotIn m.node (nodes ms) → unlist_map m.node (ms ++ (m ∷ [])) ≡ ms
unfolding unlist_map
remove_last [] m p = let same : (m.node == m.node) ≡ true = ground arith in rw same refl
remove_last (x ∷ ms) m (p, ps) =
    let other : (x.node == m.node) ≡ false = ground arith in
    rw other (ap (λ ys. x ∷ ys) (remove_last ms m ps))

pub remove_head : (m : Map) (ms : List Map) → unlist_map m.node (m ∷ ms) ≡ ms
unfolding unlist_map
remove_head m ms = let same : (m.node == m.node) ≡ true = ground arith in rw same refl

found_apart :
    (task vaddr c : ℕ) (ms : List Map) (m : Map)
    → map_find task vaddr ms ≡ some m
    → NotIn c (nodes ms)
    → c ≢ m.node
unfolding map_find
found_apart task vaddr c [] m e p = absurd (none-ne-some m e)
found_apart task vaddr c (x ∷ ms) m e (p, ps) =
    elim (Bool-cases
      (x.owner == task && (ltb 0 x.page_size && x.vaddr == align_down x.page_size vaddr))) [
        | inl here ↦ λ f. p (f ∙ ap (λ k. k.node) (sym (some-injective x m (rw here at e))))
        | inr behind ↦ found_apart task vaddr c ms m (rw behind at e) ps
      ]

pub find_owes :
    (task vaddr : ℕ) (q : Resource) (ms : List Map) (m : Map)
    → map_find task vaddr ms ≡ some m
    → Distinct (nodes ms)
    → all_owe q ms ≡ owes q m + all_owe q (unlist_map m.node ms)
unfolding map_find unlist_map
find_owes task vaddr q [] m e d = absurd (none-ne-some m e)
find_owes task vaddr q (x ∷ ms) m e (d, ds) =
    elim (Bool-cases
      (x.owner == task && (ltb 0 x.page_size && x.vaddr == align_down x.page_size vaddr))) [
        | inl here ↦
            let same : x ≡ m = some-injective x m (rw here at e) in
            let same_node : (x.node == m.node) ≡ true = ground (arith, ap (λ k. k.node) same) in
            rw same_node (ap (λ k. owes q k + all_owe q ms) same)
        | inr behind ↦
            let found : map_find task vaddr ms ≡ some m = rw behind at e in
            let other_node : (x.node == m.node) ≡ false =
              ground (arith, found_apart task vaddr x.node ms m found d) in
            rw other_node (omega (arith, find_owes task vaddr q ms m found ds))
      ]

apart_unlisted : (c n : ℕ) (ms : List Map) → NotIn c (nodes ms) → NotIn c (nodes (unlist_map n ms))
unfolding unlist_map
apart_unlisted c n [] p = tt
apart_unlisted c n (x ∷ ms) (p, ps) = elim (Bool-cases (x.node == n)) [
  | inl here ↦ rw here ps
  | inr behind ↦ rw behind (p, apart_unlisted c n ms ps)
]

pub nodes_unlisted :
    (n : ℕ) (ms : List Map) → Distinct (nodes ms) → Distinct (nodes (unlist_map n ms))
unfolding unlist_map
nodes_unlisted n [] p = tt
nodes_unlisted n (x ∷ ms) (p, ps) = elim (Bool-cases (x.node == n)) [
  | inl here ↦ rw here ps
  | inr behind ↦ rw behind (apart_unlisted x.node n ms p, nodes_unlisted n ms ps)
]

apart_appended :
    (c : ℕ) (ms : List Map) (m : Map)
    → NotIn c (nodes ms)
    → c ≢ m.node
    → NotIn c (nodes (ms ++ (m ∷ [])))
apart_appended c [] m p n = (n, tt)
apart_appended c (x ∷ ms) m (p, ps) n = (p, apart_appended c ms m ps n)

pub nodes_appended :
    (ms : List Map) (m : Map)
    → NotIn m.node (nodes ms)
    → Distinct (nodes ms)
    → Distinct (nodes (ms ++ (m ∷ [])))
nodes_appended [] m p d = (tt, tt)
nodes_appended (x ∷ ms) m (p, ps) (d, ds) =
    (apart_appended x.node ms m d (λ f. p (sym f)), nodes_appended ms m ps ds)

-- a list of mappings beside others that owe k
module _ (k : Resource → ℕ) where
  abbrev pub IsAccounted : List Map × Held → Type 0
  IsAccounted (ms, h) =
      ((q : Resource) → h.taken q ≡ h.given q + all_owe q ms + k q) × Distinct (nodes ms)

  -- a mapping m that is not in the list yet is accounted for
  abbrev pub IsPending : List Map → ℕ → Map × Held → Type 0
  IsPending ms node (m, h) =
      ((q : Resource) → h.taken q ≡ h.given q + all_owe q ms + owes q m + k q) × (m.node ≡ node)

  released_accounts :
      (m : Map) (h : Held) (n : ℕ) (q : Resource)
      → h.taken q ≡ h.given q + n + owes q m + k q
      → (give memory 1 (release_region m.region m.n_addrs h)).taken q
        ≡ (give memory 1 (release_region m.region m.n_addrs h)).given q + n + k q
  released_accounts m h n q e =
      omega
        (arith, e, region_given_back m.region m.n_addrs h q, region_taken m.region m.n_addrs h q)

  pub release_pending :
      (ms : List Map) (m : Map) (h : Held)
      → NotIn m.node (nodes ms)
      → Distinct (nodes ms)
      → ((q : Resource) → h.taken q ≡ h.given q + all_owe q ms + owes q m + k q)
      → IsAccounted (unmap_and_release m (ms, h))
  release_pending ms m h p d a =
      rw (remove_absent m.node ms p) (λ q. released_accounts m h (all_owe q ms) q (a q), d)

  pub release_last :
      (ms : List Map) (m : Map) (h : Held)
      → NotIn m.node (nodes ms)
      → Distinct (nodes ms)
      → ((q : Resource) → h.taken q ≡ h.given q + all_owe q ms + owes q m + k q)
      → IsAccounted (unmap_and_release m (ms ++ (m ∷ []), h))
  release_last ms m h p d a =
      rw (remove_last ms m p) (λ q. released_accounts m h (all_owe q ms) q (a q), d)

  pub release_found :
      (task vaddr : ℕ) (ms : List Map) (m : Map) (h : Held)
      → map_find task vaddr ms ≡ some m
      → IsAccounted (ms, h)
      → IsAccounted (unmap_and_release m (ms, h))
  release_found task vaddr ms m h e (a, d) = (
    λ q.
        released_accounts m h (all_owe q (unlist_map m.node ms)) q
          (omega (arith, a q, find_owes task vaddr q ms m e d)),
    nodes_unlisted m.node ms d,
  )

  pub release_head :
      (ms : List Map) (m : Map) (h : Held)
      → IsAccounted (m ∷ ms, h)
      → IsAccounted (ms, (unmap_and_release m (m ∷ ms, h)).1)
  release_head ms m h (a, (d, ds)) =
      (λ q. released_accounts m h (all_owe q ms) q (omega (arith, a q)), ds)
