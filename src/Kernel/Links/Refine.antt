-- ===== src/Kernel/Links/Refine.antt =====
-- The lists of drv/list.c implement sequences: insertion at the end, removal, and the walk.
use u_gds.Prelude.{
  ℕ, zero, suc, ◌≤◌, ◌≡◌, ◌≢◌, refl, ap, sym, Bool, true, false, not, ◌&&◌, Bool-cases, inl, inr,
  List, [], ◌∷◌, ◌++◌, ◌==◌, if◌then◌else◌, length, arith,
}
use u_gds.Kernel.Links.{
  Store, list_next, list_insert, list_remove, list_init, elements, unlink, list_node_init,
}
use u_gds.Kernel.Links.Segment.{NotIn, Distinct, elem, without, Segment}
use u_gds.Kernel.Links.Steps.{insert_owner, insert_lem, remove_owner, remove_lem}
use u_gds.Kernel.Links.Members.{
  Distinct-without, NotIn-without, apart_before, without_absent, absent_apart, NotIn-append,
  apart_parts, Distinct-append, owner_inside, self_prev, self_next,
}

-- the list l holds the nodes xs, and the nodes outside are as `list_node_init` leaves them
pub record IsList (l : ℕ) (xs : List ℕ) (s : Store) : Type 0 where
  pub head_owner : (s l).owner ≡ l
  pub segment : Segment s l l xs l
  pub apart : NotIn l xs
  pub real : NotIn 0 xs
  pub distinct : Distinct xs
  pub free : (c : ℕ) → c ≢ l → NotIn c xs → (s c).owner ≡ 0

pub data ListCall : Type 0 where
  insert_node : ℕ → ListCall
  remove_node : ℕ → ListCall

abbrev pub list_call : ℕ → ListCall → Store → Store
list_call l (insert_node e) s = list_insert l e s
list_call l (remove_node e) s = list_remove e s

unfoldable pub list_calls : ℕ → List ListCall → Store → Store
list_calls l [] s = s
list_calls l (c ∷ cs) s = list_calls l cs (list_call l c s)

-- the sequence that a list stands for
abbrev pub sequence_call : ListCall → List ℕ → List ℕ
sequence_call (insert_node e) xs = xs ++ (e ∷ [])
sequence_call (remove_node e) xs = without e xs

unfoldable pub sequence_calls : List ListCall → List ℕ → List ℕ
sequence_calls [] xs = xs
sequence_calls (c ∷ cs) xs = sequence_calls cs (sequence_call c xs)

-- a node that is inserted is none of the list's
abbrev pub IsUsable : ℕ → ListCall → List ℕ → Type 0
IsUsable l (insert_node e) xs = (0 ≢ e) × (l ≢ e) × NotIn e xs
IsUsable l (remove_node e) xs = Unit {0}

abbrev pub AreUsable : ℕ → List ListCall → List ℕ → Type 0
AreUsable l [] xs = Unit {0}
AreUsable l (c ∷ cs) xs = IsUsable l c xs × AreUsable l cs (sequence_call c xs)

module _ (l : ℕ) (head_real : 0 ≢ l) where
  insert-IsList :
      (e : ℕ) (xs : List ℕ) (s : Store)
      → 0 ≢ e
      → l ≢ e
      → NotIn e xs
      → IsList l xs s
      → IsList l (xs ++ (e ∷ [])) (list_insert l e s)
  insert-IsList e xs s p q r v = record {
    head_owner = ground (arith, insert_owner l e s (λ f. q (sym f)) l, v.head_owner);
    segment =
        insert_lem l e s (λ f. q (sym f)) l xs v.segment (λ f. q (sym f)) r v.apart v.apart
          v.distinct;
    apart = NotIn-append l xs (e ∷ []) v.apart (q, tt);
    real = NotIn-append 0 xs (e ∷ []) v.real (p, tt);
    distinct = Distinct-append e xs r v.distinct;
    free = λ c n m.
        let parts : NotIn c xs × (c ≢ e) = apart_parts c e xs m in
        let owned : (s c).owner ≡ 0 = v.free c n parts.0 in
        let other : c ≢ e = parts.1 in ground (arith, insert_owner l e s (λ f. q (sym f)) c);
  }

  removed-IsList :
      (e : ℕ) (xs : List ℕ) (s : Store)
      → elem e xs ≡ true
      → e ≢ l
      → IsList l xs s
      → IsList l (without e xs) (list_node_init e (unlink e s))
  removed-IsList e xs s h p v =
      let before : e ≢ (s e).prev = self_prev s l l xs e v.segment h v.apart v.distinct in
      let behind : e ≢ (s e).next = self_next s l l xs e v.segment h v.apart v.distinct in
      record {
        head_owner = ground (arith, remove_owner e s before behind l, v.head_owner);
        segment = remove_lem e s before behind l l xs v.segment h p p v.apart v.apart v.distinct;
        apart = NotIn-without l e xs v.apart;
        real = NotIn-without 0 e xs v.real;
        distinct = Distinct-without e xs v.distinct;
        free = λ c n m. elim (Bool-cases (c == e)) [
          | inl same ↦ ground (arith, remove_owner e s before behind c)
          | inr other ↦
              let owned : (s c).owner ≡ 0 =
                v.free c n (apart_before c e xs (λ f. ground arith) m) in
              ground (arith, remove_owner e s before behind c)
        ];
      }

  inside_apart : (c e : ℕ) (xs : List ℕ) → elem e xs ≡ true → NotIn c xs → e ≢ c
  unfolding elem
  inside_apart c e [] h m = absurd (ground arith)
  inside_apart c e (x ∷ xs) h (m, ms) = elim (Bool-cases (x == e)) [
    | inl here ↦ λ f. m (ground arith)
    | inr further ↦ inside_apart c e xs (rw further at h) ms
  ]

  same_members : (s : Store) {xs ys : List ℕ} → xs ≡ ys → IsList l xs s → IsList l ys s
  same_members s f v = rw (← f) v

  either_store :
      (b : Bool) (xs : List ℕ) (s t : Store)
      → (b ≡ true → IsList l xs s)
      → (b ≡ false → IsList l xs t)
      → IsList l xs (if b then s else t)
  either_store true xs s t f g = f refl
  either_store false xs s t f g = g refl

  outside_test :
      (e : ℕ) (xs : List ℕ) (s : Store)
      → elem e xs ≡ false
      → IsList l xs s
      → not (e == 0) && not ((s e).owner == 0) && not (e == (s e).owner) ≢ true
  outside_test e xs s h v f = elim (Bool-cases (e == l)) [
    | inl same ↦
        let e_is : l ≡ e = ground arith in
        let owned : (s e).owner ≡ e = rw (← e_is) v.head_owner in ground arith
    | inr other ↦
        let owned : (s e).owner ≡ 0 = v.free e (λ g. ground arith) (absent_apart e xs h) in
        ground arith
  ]

  -- the test of `list_remove` holds for the elements of the list alone
  remove-IsList :
      (e : ℕ) (xs : List ℕ) (s : Store) → IsList l xs s → IsList l (without e xs) (list_remove e s)
  remove-IsList e xs s v = elim (Bool-cases (elem e xs)) [
    | inl inside ↦
        let owned : (s e).owner ≡ l = owner_inside s l l xs e v.segment inside in
        let head : e ≢ l = inside_apart l e xs inside v.apart in
        let real : e ≢ 0 = inside_apart 0 e xs inside v.real in
        either_store _ (without e xs) _ s (λ _. removed-IsList e xs s inside head v)
          (λ h. absurd (ground arith))
    | inr outside ↦
        same_members (list_remove e s) (sym (without_absent e xs outside))
          (either_store _ xs _ s (λ h. absurd (outside_test e xs s outside v h)) (λ _. v))
  ]

  pub calls-IsList :
      (cs : List ListCall) (xs : List ℕ) (s : Store)
      → AreUsable l cs xs
      → IsList l xs s
      → IsList l (sequence_calls cs xs) (list_calls l cs s)
  unfolding sequence_calls list_calls
  calls-IsList [] xs s u v = v
  calls-IsList (insert_node e ∷ cs) xs s ((p, q, r), u) v =
      calls-IsList cs (xs ++ (e ∷ [])) (list_insert l e s) u (insert-IsList e xs s p q r v)
  calls-IsList (remove_node e ∷ cs) xs s (p, u) v =
      calls-IsList cs (without e xs) (list_remove e s) u (remove-IsList e xs s v)

  walk_lem :
      (a : ℕ) (xs : List ℕ) (fuel : ℕ) (s : Store)
      → (s a).owner ≡ l
      → Segment s l a xs l
      → NotIn l xs
      → NotIn 0 xs
      → length xs ≤ fuel
      → elements fuel a s ≡ xs
  unfolding elements
  walk_lem a [] zero s o g p q h = refl
  walk_lem a [] (suc fuel) s o (g, k) p q h =
      let back : ((s a).next == (s a).owner) ≡ true = ground arith in rw back refl
  walk_lem a (x ∷ xs) zero s o g p q h = absurd (omega arith)
  walk_lem a (x ∷ xs) (suc fuel) s o ((g, k), w, rest) (p, ps) (q, qs) h =
      let next_is : list_next a s ≡ x = ground arith in
      let some_node : (x == 0) ≡ false = ground arith in
      rw next_is
        (rw some_node (ap (λ ys. x ∷ ys) (walk_lem x xs fuel s w rest ps qs (omega arith))))

  -- a new list on a store whose nodes are as `list_node_init` leaves them
  init-IsList : (s : Store) → ((c : ℕ) → (s c).owner ≡ 0) → IsList l [] (list_init l s)
  init-IsList s blank = record {
    head_owner = ground arith;
    segment = (ground arith, ground arith);
    apart = tt;
    real = tt;
    distinct = tt;
    free = λ c n m. let owned : (s c).owner ≡ 0 = blank c in ground arith;
  }

  -- A list that `list_init` has made at an address that is not NULL, among nodes that
  -- `list_node_init` has made, stands for a sequence: after any calls of `list_insert` and
  -- `list_remove` in which a node that is inserted is not NULL, the head or in the list already,
  -- the walk by `list_next` with fuel for every element visits exactly the nodes inserted and not
  -- removed since, in the order of their insertion. A removal of any other node changes nothing.
  pub list_calls_lem :
      (cs : List ListCall) (s : Store) (fuel : ℕ)
      → ((c : ℕ) → (s c).owner ≡ 0)
      → AreUsable l cs []
      → length (sequence_calls cs []) ≤ fuel
      → elements fuel l (list_calls l cs (list_init l s)) ≡ sequence_calls cs []
  list_calls_lem cs s fuel blank u h =
      let v = calls-IsList cs [] (list_init l s) u (init-IsList s blank) in
      walk_lem l (sequence_calls cs []) fuel (list_calls l cs (list_init l s)) v.head_owner
        v.segment v.apart v.real h
