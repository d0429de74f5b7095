-- ===== src/Kernel/Links/Members.antt =====
-- The members of a list, and the nodes of a segment.
use u_gds.Prelude.{
  ℕ, ◌≡◌, ◌≢◌, refl, ap, ◌∙◌, sym, true, false, Bool-cases, inl, inr, List, [], ◌∷◌, ◌++◌, ◌==◌,
  arith,
}
use u_gds.Kernel.Links.{Store}
use u_gds.Kernel.Links.Segment.{NotIn, Distinct, elem, without, Segment}

pub NotIn-without : (c e : ℕ) (xs : List ℕ) → NotIn c xs → NotIn c (without e xs)
unfolding without
NotIn-without c e [] p = tt
NotIn-without c e (x ∷ xs) (p, ps) = elim (Bool-cases (x == e)) [
  | inl here ↦ rw here ps
  | inr further ↦ rw further (p, NotIn-without c e xs ps)
]

pub Distinct-without : (e : ℕ) (xs : List ℕ) → Distinct xs → Distinct (without e xs)
unfolding without
Distinct-without e [] p = tt
Distinct-without e (x ∷ xs) (p, ps) = elim (Bool-cases (x == e)) [
  | inl here ↦ rw here ps
  | inr further ↦ rw further (NotIn-without x e xs p, Distinct-without e xs ps)
]

pub apart_before : (c e : ℕ) (xs : List ℕ) → c ≢ e → NotIn c (without e xs) → NotIn c xs
unfolding without
apart_before c e [] n p = tt
apart_before c e (x ∷ xs) n p = elim (Bool-cases (x == e)) [
  | inl here ↦ (λ f. ground arith, (rw here at p))
  | inr further ↦
      let apart : (c ≢ x) × NotIn c (without e xs) = rw further at p in
      (apart.0, apart_before c e xs n apart.1)
]

pub without_absent : (e : ℕ) (xs : List ℕ) → elem e xs ≡ false → without e xs ≡ xs
unfolding elem without
without_absent e [] h = refl
without_absent e (x ∷ xs) h = elim (Bool-cases (x == e)) [
  | inl here ↦ absurd (ground arith)
  | inr further ↦ rw further (ap (λ ys. x ∷ ys) (without_absent e xs (rw further at h)))
]

pub absent_apart : (e : ℕ) (xs : List ℕ) → elem e xs ≡ false → NotIn e xs
unfolding elem
absent_apart e [] h = tt
absent_apart e (x ∷ xs) h = elim (Bool-cases (x == e)) [
  | inl here ↦ absurd (ground arith)
  | inr further ↦ (λ f. ground arith, absent_apart e xs (rw further at h))
]

pub NotIn-append : (c : ℕ) (xs ys : List ℕ) → NotIn c xs → NotIn c ys → NotIn c (xs ++ ys)
NotIn-append c [] ys p q = q
NotIn-append c (x ∷ xs) ys (p, ps) q = (p, NotIn-append c xs ys ps q)

pub apart_parts : (c e : ℕ) (xs : List ℕ) → NotIn c (xs ++ (e ∷ [])) → NotIn c xs × (c ≢ e)
apart_parts c e [] (p, ps) = (tt, p)
apart_parts c e (x ∷ xs) (p, ps) = ((p, (apart_parts c e xs ps).0), (apart_parts c e xs ps).1)

pub Distinct-append : (e : ℕ) (xs : List ℕ) → NotIn e xs → Distinct xs → Distinct (xs ++ (e ∷ []))
Distinct-append e [] p d = (tt, tt)
Distinct-append e (x ∷ xs) (p, ps) (d, ds) =
    (NotIn-append x xs (e ∷ []) d (λ f. p (sym f), tt), Distinct-append e xs ps ds)

pub owner_inside :
    (s : Store) (l a : ℕ) (xs : List ℕ) (e : ℕ)
    → Segment s l a xs l
    → elem e xs ≡ true
    → (s e).owner ≡ l
unfolding elem
owner_inside s l a [] e seg h = absurd (ground arith)
owner_inside s l a (x ∷ xs) e (g, o, rest) h = elim (Bool-cases (x == e)) [
  | inl here ↦ own (ground arith) o
  | inr further ↦ owner_inside s l x xs e rest (rw further at h)
]
  where
    own : x ≡ e → (s x).owner ≡ l → (s e).owner ≡ l
    own f o2 = rw (← f) o2

pub self_prev :
    (s : Store) (l a : ℕ) (xs : List ℕ) (e : ℕ)
    → Segment s l a xs l
    → elem e xs ≡ true
    → NotIn a xs
    → Distinct xs
    → e ≢ (s e).prev
unfolding elem
self_prev s l a [] e seg h u d = absurd (ground arith)
self_prev s l a (x ∷ xs) e ((g, k), o, rest) h (u, us) (d, ds) = elim (Bool-cases (x == e)) [
  | inl here ↦
      let same : x ≡ e = ground arith in λ q. u (sym (same ∙ q ∙ (λ i. (s (sym same i)).prev) ∙ k))
  | inr further ↦ self_prev s l x xs e rest (rw further at h) d ds
]

pub self_next :
    (s : Store) (l a : ℕ) (xs : List ℕ) (e : ℕ)
    → Segment s l a xs l
    → elem e xs ≡ true
    → NotIn l xs
    → Distinct xs
    → e ≢ (s e).next
unfolding elem
self_next s l a [] e seg h r d = absurd (ground arith)
self_next s l a (x ∷ xs) e (g, o, rest) h (r, rs) (d, ds) = elim (Bool-cases (x == e)) [
  | inl here ↦
      let same : x ≡ e = ground arith in
      λ q. first xs rest d (same ∙ q ∙ (λ i. (s (sym same i)).next))
  | inr further ↦ self_next s l x xs e rest (rw further at h) rs ds
]
  where
    first : (ys : List ℕ) → Segment s l x ys l → NotIn x ys → x ≢ (s x).next
    first [] (f, f2) m = λ q. r (sym (q ∙ f))
    first (y ∷ ys) ((f, f2), o2, r2) (p2, m2) = λ q. p2 (q ∙ f)
