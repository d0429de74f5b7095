-- ===== src/Io/Chunk.antt =====
-- The arithmetic of a chunk of the loop of `do_io` in src/ugds_io.cpp: its blocks and its pages.
use u_gds.Prelude.{
  ℕ, ◌+◌, ◌-◌, ◌*◌, ◌/◌, ◌%◌, ◌≤◌, ◌<◌, ◌≡◌, refl, ◌∙◌, ap, Bool-cases, ◌⊎◌, inl, inr, arith, min,
  ltb, u16_mod, div_mod_parts, mod_bound,
}
use native.Mathlib.Nat.{
  mul-div_left, le_of_mul-le-mul_right, lt_of_mul-lt-mul_right, mul-le-mul_right, div-mul-le_self,
  le-div_iff_mul-le, mod-eq_of_lt,
}
use u_gds.Io.Types.{Request}
use u_gds.Io.Loop.{chunk_of, pages_of}
use u_gds.Io.Coverage.{ceil_div}
use u_gds.Io.Request.{IsRequest}

-- The number of pages is the least that holds the bytes.
ceil_div-holds : (c d : ℕ) → 0 < d → c ≤ ceil_div c d * d
ceil_div-holds c d h = omega (arith, div_mod_parts (c + d - 1) d, mod_bound (c + d - 1) d h)

ceil_div-least : (c d q : ℕ) → 0 < d → c ≤ q * d → ceil_div c d ≤ q
ceil_div-least c d q h e =
    let under : ceil_div c d * d < (q + 1) * d = omega (arith, div-mul-le_self (c + d - 1) d) in
    omega (arith, lt_of_mul-lt-mul_right d under)

ceil_div-pos : (c d : ℕ) → 0 < d → 0 < c → 0 < ceil_div c d
ceil_div-pos c d h p = lt_of_mul-lt-mul_right d (omega (arith, ceil_div-holds c d h))

-- a whole number of pages
ceil_div-whole : (c d : ℕ) → 0 < d → c % d ≡ 0 → ceil_div c d * d ≡ c
ceil_div-whole c d h e =
    let exact : c ≡ c / d * d = omega (arith, div_mod_parts c d) in
    let up : ceil_div c d * d ≤ c / d * d =
      mul-le-mul_right d (ceil_div-least c d (c / d) h (omega arith)) in
    omega (arith, ceil_div-holds c d h)

difference : (p q : ℕ) → p ≤ q → (k : ℕ) × (q ≡ p + k)
difference p q h = (q - p, omega arith)

ℕ_order : (a b : ℕ) → (a ≤ b) ⊎ (b < a)
ℕ_order a b = elim (Bool-cases (ltb b a)) [
  | inl h ↦ inr (ground arith)
  | inr h ↦ inl (ground arith)
]

-- p pages and those of a chunk behind them are among the pages of what holds both
ceil_div-add : (c d p s : ℕ) → 0 < d → 0 < c → p * d + c ≤ s → p + ceil_div c d ≤ ceil_div s d
ceil_div-add c d p s h pos e =
    let q : ℕ = ceil_div s d in
    let holds : s ≤ q * d = ceil_div-holds s d h in
    let low : p ≤ q = le_of_mul-le-mul_right (omega arith) h in
    let (k, parts) = difference p q low in
    let all : q * d ≡ (p + k) * d = ap (λ j. j * d) parts in
    let rest : c ≤ k * d = omega arith in omega (arith, ceil_div-least c d k h rest)

-- The chunk at block k of the request, which starts p pages into the buffer: its blocks n and its
-- pages, and where the next one starts.
pub record FitsRound (r : Request) (k p n pages : ℕ) : Type 0 where
  pub chunk_eq : chunk_of r (k * r.block_size) ≡ n * r.block_size
  pub blocks_eq : n * r.block_size / r.block_size ≡ n
  pub counted : pages_of r.page_size (n * r.block_size) ≡ pages
  pub pages_eq : ceil_div (n * r.block_size) r.page_size ≡ pages
  pub n_pos : 0 < n
  pub n_in : n ≤ u16_mod
  pub limit : n * r.block_size ≤ r.max_xfer
  pub pages_pos : 0 < pages
  pub pages_fit : pages ≤ r.prp_capacity + 1
  pub pages_in : p + pages ≤ ceil_div r.size r.page_size
  pub moves : 0 < n * r.block_size
  pub inside : (k + n) * r.block_size ≤ r.size
  pub next : (k + n) * r.block_size < r.size → (k + n) * r.block_size ≡ (p + pages) * r.page_size

module _ (r : Request) (lba0 page0 : ℕ) (v : IsRequest r lba0 page0) (k p : ℕ)
    (left : k * r.block_size < r.size) (aligned : k * r.block_size ≡ p * r.page_size) where
  bytes : ℕ
  bytes = min (r.size - k * r.block_size) r.max_xfer

  blocks : ℕ
  blocks = bytes / r.block_size

  whole_size : r.size / r.block_size * r.block_size ≡ r.size
  whole_size = omega (arith, div_mod_parts r.size r.block_size, v.whole)

  one-left : r.block_size ≤ r.size - k * r.block_size
  one-left =
      let more : k < r.size / r.block_size =
        lt_of_mul-lt-mul_right r.block_size (omega (arith, whole_size, left)) in
      let up : (k + 1) * r.block_size ≤ r.size / r.block_size * r.block_size =
        mul-le-mul_right r.block_size (omega arith) in
      omega (arith, whole_size)

  blocks_pos : 0 < blocks
  unfolding blocks bytes
  blocks_pos = (le-div_iff_mul-le v.block_pos).1 (ground (arith, one-left, v.chunk_pos))

  blocks_limit : blocks * r.block_size ≤ bytes
  unfolding blocks
  blocks_limit = div-mul-le_self bytes r.block_size

  bytes_max : bytes ≤ r.max_xfer
  unfolding bytes
  bytes_max = ground arith

  blocks_in : blocks ≤ u16_mod
  blocks_in =
      le_of_mul-le-mul_right (omega (arith, blocks_limit, bytes_max, v.count_fits)) v.block_pos

  blocks_inside : (k + blocks) * r.block_size ≤ r.size
  unfolding bytes
  blocks_inside =
      let below : bytes ≤ r.size - k * r.block_size = ground arith in
      omega (arith, blocks_limit, below, left)

  moving : 0 < blocks * r.block_size
  moving = omega (arith, mul-le-mul_right r.block_size blocks_pos, v.block_pos)

  pages : ℕ
  pages = ceil_div (blocks * r.block_size) r.page_size

  counting : pages_of r.page_size (blocks * r.block_size) ≡ pages
  unfolding pages
  counting =
      ap (λ c. c / r.page_size) (mod-eq_of_lt (omega (arith, blocks_inside, v.no_wrap, moving)))

  pages_eq_lem : ceil_div (blocks * r.block_size) r.page_size ≡ pages
  unfolding pages
  pages_eq_lem = refl

  pages_positive : 0 < pages
  unfolding pages
  pages_positive = ceil_div-pos (blocks * r.block_size) r.page_size v.page_pos moving

  pages_few : pages ≤ r.prp_capacity + 1
  unfolding pages
  pages_few =
      ceil_div-least (blocks * r.block_size) r.page_size (r.prp_capacity + 1) v.page_pos
        (omega (arith, blocks_limit, bytes_max, v.prp_fits))

  pages_inside : p + pages ≤ ceil_div r.size r.page_size
  unfolding pages
  pages_inside =
      ceil_div-add (blocks * r.block_size) r.page_size p r.size v.page_pos moving
        (omega (arith, blocks_inside, aligned))

  -- The last chunk is all that is left.
  last_blocks : r.size - k * r.block_size ≤ r.max_xfer → (k + blocks) * r.block_size ≡ r.size
  unfolding blocks bytes
  last_blocks small =
      let below : k ≤ r.size / r.block_size =
        le_of_mul-le-mul_right (omega (arith, whole_size, left)) v.block_pos in
      let (t, parts) = difference k (r.size / r.block_size) below in
      let all : r.size / r.block_size * r.block_size ≡ (k + t) * r.block_size =
        ap (λ j. j * r.block_size) parts in
      let these : bytes ≡ t * r.block_size = ground (arith, whole_size) in
      let count : blocks ≡ t = ap (λ j. j / r.block_size) these ∙ mul-div_left t v.block_pos in
      ap (λ j. (k + j) * r.block_size) count ∙ omega (arith, whole_size)

  -- A chunk that is not the last is as large as a chunk can be, which is whole pages.
  next_aligned :
      (k + blocks) * r.block_size < r.size → (k + blocks) * r.block_size ≡ (p + pages) * r.page_size
  unfolding blocks bytes pages
  next_aligned more = elim (ℕ_order (r.size - k * r.block_size) r.max_xfer) [
    | inl small ↦ absurd (omega (arith, last_blocks small))
    | inr large ↦
        let most : bytes ≡ r.max_xfer = ground arith in
        let even : blocks * r.block_size % r.page_size ≡ 0 =
          ap (λ j. j / r.block_size * r.block_size % r.page_size) most ∙ v.chunk_pages in
        let exact : pages * r.page_size ≡ blocks * r.block_size =
          ceil_div-whole (blocks * r.block_size) r.page_size v.page_pos even in
        omega (arith, aligned)
  ]

  -- The chunk at hand is such a chunk.
  pub chunk_of-FitsRound : (n : ℕ) × (c : ℕ) × FitsRound r k p n c
  unfolding blocks bytes
  chunk_of-FitsRound = (
    blocks,
    pages,
    record {
      chunk_eq = refl;
      blocks_eq = mul-div_left blocks v.block_pos;
      counted = counting;
      pages_eq = pages_eq_lem;
      n_pos = blocks_pos;
      n_in = blocks_in;
      limit = omega (arith, blocks_limit, bytes_max);
      pages_pos = pages_positive;
      pages_fit = pages_few;
      pages_in = pages_inside;
      moves = moving;
      inside = blocks_inside;
      next = next_aligned;
    },
  )
