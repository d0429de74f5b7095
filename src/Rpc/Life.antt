-- ===== src/Rpc/Life.antt =====
-- The life of a reference of src/libnvm/rpc.cpp, from `_nvm_ref_get` to `_nvm_ref_put`.
use mathlib.Core.List.{append-nil}
use u_gds.Prelude.{
  ℕ, ◌+◌, ◌≡◌, ◌≢◌, refl, sym, ap, ◌∙◌, Bool, true, false, not, either, Option, none, some, List,
  [], ◌∷◌, ◌++◌, ◌==◌, arith,
}
use u_gds.Rpc.Handles.{handle_remove-none}
use u_gds.Rpc.{
  RpcHandle, has_key, handle_insert, handle_remove, cons_kept, release_handles, rpc_bind,
}
use u_gds.Rpc.Reference.{
  Reference, new_reference, due, BindingCall, handle_inserted, handle_removed, is_bound,
  bind_reference, binding_call, and_then, binding_calls, put_reference, insert_handle,
  remove_handle, bind_to,
}

-- the weight of handles: with all weights, which handles a list has and how often
unfoldable pub total : (RpcHandle → ℕ) → List RpcHandle → ℕ
total w [] = 0
total w (h ∷ hs) = w h + total w hs

total-append :
    (w : RpcHandle → ℕ) (xs ys : List RpcHandle) → total w (xs ++ ys) ≡ total w xs + total w ys
unfolding total
total-append w [] ys = omega arith
total-append w (x ∷ xs) ys = omega (arith, total-append w xs ys)

total_last :
    (w : RpcHandle → ℕ) (xs : List RpcHandle) (h : RpcHandle)
    → total w (xs ++ (h ∷ [])) ≡ total w xs + w h
unfolding total
total_last w xs h = total-append w xs (h ∷ []) ∙ omega arith

-- handles are in the list or released, and so is the data
abbrev pub IsKept : Reference → Type 0
IsKept r =
    ((w : RpcHandle → ℕ) → total w r.released + total w r.handles ≡ total w r.inserted)
    × (r.unbound ++ due r.binding ≡ r.bound)

abbrev pub IsKeptBy : Option Reference → Type 0
IsKeptBy none = ⊥
IsKeptBy (some r) = IsKept r

inserted-IsKept :
    (h : RpcHandle) (r : Reference) (valid allocated : Bool) (lock_err : ℕ)
    → IsKept r
    → IsKept (handle_inserted h (handle_insert valid allocated lock_err h r.handles) r)
unfolding handle_insert
inserted-IsKept h r valid allocated lock_err (handles, data_kept) =
    let P : ℕ × List RpcHandle → Type 0 = λ s. IsKept (handle_inserted h s r) in
    either P (not valid) _ _ (λ _. (handles, data_kept))
      λ _.
        either P (not allocated) _ _ (λ _. (handles, data_kept))
          λ _.
            either P (not (lock_err == 0)) _ _
              (λ bad.
                let failed : (lock_err == 0) ≡ false = ground arith in
                rw failed (handles, data_kept))
              λ _.
                either P (has_key h.key r.handles) _ _ (λ _. (handles, data_kept))
                  (λ _. (
                    λ w.
                        omega
                          (arith, handles w, total_last w r.handles h, total_last w r.inserted h),
                    data_kept,
                  ))

-- a handle that is removed, and those that are kept, weigh what the list did
abbrev Weighs : (RpcHandle → ℕ) → List RpcHandle → Option (List RpcHandle × RpcHandle) → Type 0
Weighs w hs none = Unit {0}
Weighs w hs (some (kept, h)) = total w hs ≡ w h + total w kept

cons_kept-Weighs :
    (w : RpcHandle → ℕ) (x : RpcHandle) (hs : List RpcHandle)
    (o : Option (List RpcHandle × RpcHandle))
    → Weighs w hs o
    → Weighs w (x ∷ hs) (cons_kept x o)
unfolding total
cons_kept-Weighs w x hs none e = tt
cons_kept-Weighs w x hs (some (kept, h)) e = omega (arith, e)

remove-Weighs :
    (w : RpcHandle → ℕ) (key : ℕ) (hs : List RpcHandle) → Weighs w hs (handle_remove key hs)
unfolding handle_remove total
remove-Weighs w key [] = tt
remove-Weighs w key (x ∷ hs) =
    either (Weighs w (x ∷ hs)) (x.key == key) _ _ (λ _. refl)
      (λ _. cons_kept-Weighs w x hs (handle_remove key hs) (remove-Weighs w key hs))

removed-IsKept :
    (r : Reference) (o : Option (List RpcHandle × RpcHandle))
    → o ≢ none
    → ((w : RpcHandle → ℕ) → Weighs w r.handles o)
    → IsKept r
    → IsKeptBy (handle_removed o r)
removed-IsKept r none found weighs kept = absurd (found refl)
removed-IsKept r (some (hs, h)) found weighs (handles, data_kept) =
    (λ w. omega (arith, handles w, weighs w, total_last w r.released h), data_kept)

rpc_bind-free : (lock_err : ℕ) (b : Bool) → ((rpc_bind lock_err b).0 == 0) ≡ true → b ≡ false
rpc_bind-free lock_err true e = ground arith
rpc_bind-free lock_err false e = refl

none_due : (o : Option (ℕ × Bool)) → is_bound o ≡ false → due o ≡ []
none_due none e = refl
none_due (some b) e = cc

bound-IsKept :
    (lock_err : ℕ) (b : ℕ × Bool) (r : Reference) → IsKept r → IsKept (bind_reference lock_err b r)
bound-IsKept lock_err b r (handles, data_kept) =
    either IsKept ((rpc_bind lock_err (is_bound r.binding)).0 == 0) _ _
      (λ good.
        let free : due r.binding ≡ [] =
          none_due r.binding (rpc_bind-free lock_err (is_bound r.binding) good) in
        let all : r.unbound ≡ r.bound =
          sym (append-nil r.unbound) ∙ (ap (λ xs. r.unbound ++ xs) (sym free) ∙ data_kept) in
        (handles, ap (λ xs. xs ++ due (some b)) all))
      (λ bad. (handles, data_kept))

-- a handle is removed only by a key that the list has
abbrev pub IsKeyed : BindingCall → Reference → Type 0
IsKeyed (insert_handle valid allocated lock_err h) r = Unit {0}
IsKeyed (remove_handle key) r = has_key key r.handles ≡ true
IsKeyed (bind_to lock_err data_name has_release) r = Unit {0}

binding_call-IsKept :
    (c : BindingCall) (r : Reference) → IsKeyed c r → IsKept r → IsKeptBy (binding_call c r)
binding_call-IsKept (insert_handle valid allocated lock_err h) r u v =
    inserted-IsKept h r valid allocated lock_err v
binding_call-IsKept (remove_handle key) r u v =
    removed-IsKept r (handle_remove key r.handles)
      (λ lost. let absent = (handle_remove-none key r.handles).0 lost in absurd (ground arith))
      (λ w. remove-Weighs w key r.handles) v
binding_call-IsKept (bind_to lock_err data_name has_release) r u v =
    bound-IsKept lock_err (data_name, has_release) r v

abbrev pub AreKeyed : List BindingCall → Reference → Type 0
AreKeyed [] r = Unit {0}
AreKeyed (c ∷ cs) r = IsKeyed c r × ((s : Reference) → binding_call c r ≡ some s → AreKeyed cs s)

-- every handle that was inserted has been released, as often as it was inserted, and the data that
-- was bound with a release too
abbrev pub IsReleased : Option Reference → Type 0
IsReleased none = ⊥
IsReleased (some r) =
    let t = put_reference r in
    (t.handles ≡ [])
    × ((w : RpcHandle → ℕ) → total w t.released ≡ total w t.inserted)
    × (t.unbound ≡ t.bound)

released_handles : (hs : List RpcHandle) → release_handles hs ≡ ([], hs)
unfolding release_handles
released_handles [] = refl
released_handles (h ∷ hs) = rw (released_handles hs) refl

put-IsReleased : (r : Reference) → IsKept r → IsReleased (some r)
unfolding put_reference
put-IsReleased r (handles, data_kept) =
    rw (released_handles r.handles)
      (refl, λ w. total-append w r.released r.handles ∙ handles w, data_kept)

-- what holds after the first call holds after all
and_then-IsReleased :
    (o : Option Reference) (f : Reference → Option Reference)
    → IsKeptBy o
    → ((s : Reference) → o ≡ some s → IsKept s → IsReleased (f s))
    → IsReleased (and_then o f)
and_then-IsReleased none f kept rest = kept
and_then-IsReleased (some s) f kept rest = rest s refl kept

binding_calls-IsReleased :
    (cs : List BindingCall) (r : Reference)
    → AreKeyed cs r
    → IsKept r
    → IsReleased (binding_calls cs r)
unfolding binding_calls
binding_calls-IsReleased [] r u v = put-IsReleased r v
binding_calls-IsReleased (c ∷ cs) r (u, us) v =
    and_then-IsReleased (binding_call c r) (λ s. binding_calls cs s) (binding_call-IsKept c r u v)
      (λ s e k. binding_calls-IsReleased cs s (us s e) k)

-- Whatever is inserted, removed and bound on a new reference in whatever order and whatever fails,
-- if handles are removed only by keys that are there: no call reads through NULL, and after
-- `_nvm_ref_put` no handle is left, each handle that was inserted has been released as often as it
-- was inserted, by its removal or at the end, and so has the data that was bound with a release.
pub new_reference-IsReleased :
    (cs : List BindingCall)
    → AreKeyed cs new_reference
    → IsReleased (binding_calls cs new_reference)
unfolding total
new_reference-IsReleased cs u = binding_calls-IsReleased cs new_reference u (λ w. refl, refl)
