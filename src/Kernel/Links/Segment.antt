-- ===== src/Kernel/Links/Segment.antt =====
-- Segments of the linked lists, and what the operations of drv/list.c do to them.
use u_gds.Prelude.{
  ℕ, ◌≡◌, ◌≢◌, ◌∙◌, sym, Bool, true, false, Bool-cases, inl, inr, List, [], ◌∷◌, ◌==◌,
  if◌then◌else◌, arith,
}
use u_gds.Kernel.Links.{Store}

abbrev pub NotIn : ℕ → List ℕ → Type 0
NotIn c [] = Unit {0}
NotIn c (x ∷ xs) = (c ≢ x) × NotIn c xs

abbrev pub Distinct : List ℕ → Type 0
Distinct [] = Unit {0}
Distinct (x ∷ xs) = NotIn x xs × Distinct xs

unfoldable pub elem : ℕ → List ℕ → Bool
elem c [] = false
elem c (x ∷ xs) = if x == c then true else elem c xs

unfoldable pub without : ℕ → List ℕ → List ℕ
without c [] = []
without c (x ∷ xs) = if x == c then xs else x ∷ without c xs

-- b stands behind a
abbrev pub Linked : Store → (a b : ℕ) → Type 0
Linked s a b = ((s a).next ≡ b) × ((s b).prev ≡ a)

-- the nodes xs of list l stand between a and b
abbrev pub Segment : Store → (l a : ℕ) → List ℕ → (b : ℕ) → Type 0
Segment s l a [] b = Linked s a b
Segment s l a (x ∷ xs) b = Linked s a x × ((s x).owner ≡ l) × Segment s l x xs b

-- what a segment reads of its nodes is the same in two stores
abbrev pub SameNodes : (s t : Store) → List ℕ → Type 0
SameNodes s t [] = Unit {0}
SameNodes s t (x ∷ xs) =
    ((t x).next ≡ (s x).next)
    × ((t x).prev ≡ (s x).prev)
    × ((t x).owner ≡ (s x).owner)
    × SameNodes s t xs

pub frame_lem :
    (s t : Store) (l a : ℕ) (xs : List ℕ) (b : ℕ)
    → (t a).next ≡ (s a).next
    → (t b).prev ≡ (s b).prev
    → SameNodes s t xs
    → Segment s l a xs b
    → Segment t l a xs b
frame_lem s t l a [] b e f same (g, h) = (e ∙ g, f ∙ h)
frame_lem s t l a (x ∷ xs) b e f (n, p, o, same) ((g, h), k, rest) =
    ((e ∙ g, p ∙ h), o ∙ k, frame_lem s t l x xs b n f same rest)

-- the node before the end is one of the segment, or its start
pub last_apart :
    (s : Store) (l a : ℕ) (xs : List ℕ) (b c : ℕ)
    → Segment s l a xs b
    → c ≢ a
    → NotIn c xs
    → c ≢ (s b).prev
last_apart s l a [] b c (g, h) n m = λ e. n (e ∙ h)
last_apart s l a (x ∷ xs) b c (g, k, rest) n (p, m) = last_apart s l x xs b c rest p m

-- the node before an element is one of the segment, or its start
pub prev_apart :
    (s : Store) (l a : ℕ) (xs : List ℕ) (b c e : ℕ)
    → Segment s l a xs b
    → elem e xs ≡ true
    → c ≢ a
    → NotIn c xs
    → c ≢ (s e).prev
unfolding elem
prev_apart s l a [] b c e seg h n m = absurd (ground arith)
prev_apart s l a (x ∷ xs) b c e ((g, k), o, rest) h n (p, m) = elim (Bool-cases (x == e)) [
  | inl here ↦ let same : x ≡ e = ground arith in λ q. n (q ∙ (λ i. (s (sym same i)).prev) ∙ k)
  | inr behind ↦ prev_apart s l x xs b c e rest (rw behind at h) p m
]

-- the node behind an element is one of the segment, or its end
pub next_apart :
    (s : Store) (l a : ℕ) (xs : List ℕ) (b c e : ℕ)
    → Segment s l a xs b
    → elem e xs ≡ true
    → c ≢ b
    → NotIn c xs
    → c ≢ (s e).next
unfolding elem
next_apart s l a [] b c e seg h n m = absurd (ground arith)
next_apart s l a (x ∷ xs) b c e (k, o, rest) h n (p, m) = elim (Bool-cases (x == e)) [
  | inl here ↦
      let same : x ≡ e = ground arith in λ q. first xs rest m (q ∙ (λ i. (s (sym same i)).next))
  | inr behind ↦ next_apart s l x xs b c e rest (rw behind at h) n m
]
  where
    first : (ys : List ℕ) → Segment s l x ys b → NotIn c ys → c ≢ (s x).next
    first [] (f, f2) m2 = λ q. n (q ∙ f)
    first (y ∷ ys) ((f, f2), o2, r2) (p2, m2) = λ q. p2 (q ∙ f)
