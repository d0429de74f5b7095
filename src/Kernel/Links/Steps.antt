-- ===== src/Kernel/Links/Steps.antt =====
-- What `list_insert` and `list_remove` write, and the segments after them.
use u_gds.Prelude.{
  ℕ, ◌≡◌, ◌≢◌, sym, true, Bool-cases, inl, inr, List, [], ◌∷◌, ◌++◌, ◌==◌, if◌then◌else◌, arith,
}
use u_gds.Kernel.Links.{Store, list_insert, unlink, list_node_init}
use u_gds.Kernel.Links.Segment.{
  NotIn, Distinct, elem, without, Segment, SameNodes, frame_lem, last_apart, prev_apart, next_apart,
}

at_node : (xs : List ℕ) {x y : ℕ} → x ≡ y → NotIn x xs → NotIn y xs
at_node xs f k = rw (← f) k

module _ (l e : ℕ) (s : Store) (apart : e ≢ l) where
  insert_next :
      (c : ℕ)
      → (list_insert l e s c).next
        ≡ (if c == e then l else if c == (s l).prev then e else (s c).next)
  insert_next c = ground arith

  insert_prev :
      (c : ℕ)
      → (list_insert l e s c).prev
        ≡ (if c == l then e else if c == e then (s l).prev else (s c).prev)
  insert_prev c = ground arith

  pub insert_owner : (c : ℕ) → (list_insert l e s c).owner ≡ (if c == e then l else (s c).owner)
  insert_owner c = ground arith

  same_inserted :
      (xs : List ℕ)
      → NotIn l xs
      → NotIn e xs
      → NotIn (s l).prev xs
      → SameNodes s (list_insert l e s) xs
  same_inserted [] p q r = tt
  same_inserted (x ∷ xs) (p, ps) (q, qs) (r, rs) = (
    ground (arith, insert_next x),
    ground (arith, insert_prev x),
    ground (arith, insert_owner x),
    same_inserted xs ps qs rs,
  )

  pub insert_lem :
      (a : ℕ) (xs : List ℕ)
      → Segment s l a xs l
      → e ≢ a
      → NotIn e xs
      → NotIn l xs
      → NotIn a xs
      → Distinct xs
      → Segment (list_insert l e s) l a (xs ++ (e ∷ [])) l
  insert_lem a [] (g, h) p q r u d = (
    (ground (arith, insert_next a), ground (arith, insert_prev e)),
    ground (arith, insert_owner e),
    (ground (arith, insert_next e), ground (arith, insert_prev l)),
  )
  insert_lem a (x ∷ xs) ((g, h), o, rest) p (q, qs) (r, rs) (u, us) (d, ds) =
      let inner : a ≢ (s l).prev = last_apart s l x xs l a rest u us in
      (
        (ground (arith, insert_next a), ground (arith, insert_prev x)),
        ground (arith, insert_owner x),
        insert_lem x xs rest q qs rs d ds,
      )

module _ (e : ℕ) (s : Store) (before : e ≢ (s e).prev) (behind : e ≢ (s e).next) where
  remove_next :
      (c : ℕ)
      → (list_node_init e (unlink e s) c).next
        ≡ (if c == e then 0 else if c == (s e).prev then (s e).next else (s c).next)
  remove_next c = ground arith

  remove_prev :
      (c : ℕ)
      → (list_node_init e (unlink e s) c).prev
        ≡ (if c == e then 0 else if c == (s e).next then (s e).prev else (s c).prev)
  remove_prev c = ground arith

  pub remove_owner :
      (c : ℕ) → (list_node_init e (unlink e s) c).owner ≡ (if c == e then 0 else (s c).owner)
  remove_owner c = ground arith

  same_removed :
      (xs : List ℕ)
      → NotIn e xs
      → NotIn (s e).prev xs
      → NotIn (s e).next xs
      → SameNodes s (list_node_init e (unlink e s)) xs
  same_removed [] p q r = tt
  same_removed (x ∷ xs) (p, ps) (q, qs) (r, rs) = (
    ground (arith, remove_next x),
    ground (arith, remove_prev x),
    ground (arith, remove_owner x),
    same_removed xs ps qs rs,
  )

  same_start : (l : ℕ) (xs : List ℕ) {x : ℕ} → x ≡ e → Segment s l x xs l → Segment s l e xs l
  same_start l xs f seg = rw (← f) seg

  same_prev : (a : ℕ) {x : ℕ} → x ≡ e → (s x).prev ≡ a → (s e).prev ≡ a
  same_prev a f k = rw (← f) k

  -- the neighbours of the removed node are linked
  closed :
      (l a : ℕ) (ys : List ℕ)
      → NotIn e ys
      → Segment s l e ys l
      → a ≢ e
      → l ≢ e
      → NotIn l ys
      → NotIn a ys
      → Distinct ys
      → (s e).prev ≡ a
      → Segment (list_node_init e (unlink e s)) l a ys l
  closed l a [] u (g, h) p q r v d k =
      (ground (arith, remove_next a), ground (arith, remove_prev l))
  closed l a (y ∷ ys) (u, us) ((g, h), o, rest) p q (r, rs) (v, vs) (d, ds) k = (
    (ground (arith, remove_next a), ground (arith, remove_prev y)),
    ground (arith, remove_owner y),
    frame_lem s (list_node_init e (unlink e s)) l y ys l (ground (arith, remove_next y))
        (ground (arith, remove_prev l))
        (same_removed ys us (at_node ys (sym k) vs) (at_node ys (sym g) d)) rest,
  )

  pub remove_lem :
      (l a : ℕ) (xs : List ℕ)
      → Segment s l a xs l
      → elem e xs ≡ true
      → e ≢ a
      → e ≢ l
      → NotIn l xs
      → NotIn a xs
      → Distinct xs
      → Segment (list_node_init e (unlink e s)) l a (without e xs) l
  unfolding elem without
  remove_lem l a [] seg h p q r u d = absurd (ground arith)
  remove_lem l a (x ∷ xs) ((g, k), o, rest) h p q (r, rs) (u, us) (d, ds) =
      elim (Bool-cases (x == e)) [
        | inr further ↦
            let there : elem e xs ≡ true = rw further at h in
            let inner : a ≢ (s e).prev = prev_apart s l x xs l a e rest there u us in
            let outer : x ≢ (s e).next = next_apart s l x xs l x e rest there (λ f. r (sym f)) d in
            rw further (
              (ground (arith, remove_next a), ground (arith, remove_prev x)),
              ground (arith, remove_owner x),
              remove_lem l x xs rest there (λ f. ground arith) q rs d ds,
            )
        | inl here ↦ rw here (
            closed l a xs (at_node xs (ground arith) d) (same_start l xs (ground arith) rest)
              (λ f. p (sym f)) (λ f. q (sym f)) rs us ds (same_prev a (ground arith) k))
      ]
