-- ===== src/Rpc/Handles.antt =====
-- The binding handles of a reference: insertion and removal.
use u_gds.Prelude.{
  ℕ, ◌≡◌, ◌↔◌, refl, ap, sym, Bool, true, false, Bool-cases, inl, inr, Option, none, some, List, [],
  ◌∷◌, ◌++◌, ◌==◌, arith,
}
use mathlib.Core.Option.{none-ne-some}
use u_gds.Rpc.{RpcHandle, has_key, handle_insert, handle_remove, cons_kept}

remove-append :
    (h : RpcHandle) (hs : List RpcHandle)
    → has_key h.key hs ≡ false
    → handle_remove h.key (hs ++ (h ∷ [])) ≡ some (hs, h)
unfolding has_key handle_remove
remove-append h [] e = let same : (h.key == h.key) ≡ true = ground arith in rw same refl
remove-append h (x ∷ hs) e = elim (Bool-cases (x.key == h.key)) [
  | inl here ↦ absurd (ground arith)
  | inr behind ↦ rw behind (ap (cons_kept x) (remove-append h hs (rw behind at e)))
]

inserted :
    (b c : Bool) (err : ℕ) (h : RpcHandle) (hs : List RpcHandle)
    → (handle_insert b c err h hs).0 ≡ 0
    → (has_key h.key hs ≡ false) × ((handle_insert b c err h hs).1 ≡ hs ++ (h ∷ []))
unfolding handle_insert
inserted false c err h hs e = absurd (omega (arith, e))
inserted true false err h hs e = absurd (omega (arith, e))
inserted true true err h hs e = elim (Bool-cases (err == 0)) [
  | inr failed ↦ absurd (ground (arith, e))
  | inl locked ↦ elim (Bool-cases (has_key h.key hs)) [
    | inl there ↦ absurd (ground (arith, e))
    | inr fresh ↦ (fresh, rw (locked, fresh) refl)
  ]
]

-- Where `_nvm_rpc_handle_insert` returns 0, `_nvm_rpc_handle_remove` of the same key releases
-- exactly the handle inserted and leaves the list as it was before.
pub remove-insert :
    (valid allocated : Bool) (lock_err : ℕ) (handle : RpcHandle) (handles : List RpcHandle)
    → (handle_insert valid allocated lock_err handle handles).0 ≡ 0
    → handle_remove handle.key (handle_insert valid allocated lock_err handle handles).1
      ≡ some (handles, handle)
remove-insert valid allocated lock_err handle handles e =
    let parts = inserted valid allocated lock_err handle handles e in
    rw parts.1 (remove-append handle handles parts.0)

cons_kept-none :
    (x : RpcHandle) (r : Option (List RpcHandle × RpcHandle)) → cons_kept x r ≡ none → r ≡ none
cons_kept-none x none e = refl
cons_kept-none x (some (kept, h)) e = absurd (none-ne-some (x ∷ kept, h) (sym e))

absent-none : (key : ℕ) (hs : List RpcHandle) → has_key key hs ≡ false → handle_remove key hs ≡ none
unfolding has_key handle_remove
absent-none key [] e = refl
absent-none key (x ∷ hs) e = elim (Bool-cases (x.key == key)) [
  | inl here ↦ absurd (ground arith)
  | inr behind ↦ rw behind (ap (cons_kept x) (absent-none key hs (rw behind at e)))
]

none_absent : (key : ℕ) (hs : List RpcHandle) → handle_remove key hs ≡ none → has_key key hs ≡ false
unfolding has_key handle_remove
none_absent key [] e = refl
none_absent key (x ∷ hs) e = elim (Bool-cases (x.key == key)) [
  | inl here ↦ absurd (none-ne-some (hs, x) (sym (rw here at e)))
  | inr behind ↦
      rw behind (none_absent key hs (cons_kept-none x (handle_remove key hs) (rw behind at e)))
]

-- `_nvm_rpc_handle_remove` reads through NULL exactly when no handle has the key.
pub handle_remove-none :
    (key : ℕ) (handles : List RpcHandle)
    → (handle_remove key handles ≡ none) ↔ (has_key key handles ≡ false)
handle_remove-none key handles = (none_absent key handles, absent-none key handles)
