-- ===== src/Rpc/Reference.antt =====
-- A reference of src/libnvm/rpc.cpp: its binding handles and its binding, with the releases that
-- are called.
use u_gds.Prelude.{
  ℕ, Bool, true, false, Option, none, some, List, [], ◌∷◌, ◌++◌, ◌==◌, if◌then◌else◌,
}
use u_gds.Rpc.{RpcHandle, handle_insert, handle_remove, release_handles, rpc_bind}

-- `struct nvm_admin_reference`: its handles and, when it is bound, its data with whether there is a
-- `release` for it; and so far, the handles that were inserted and released, and the data with a
-- release that it was bound to and that was released
pub record Reference : Type 0 where
  pub handles : List RpcHandle
  pub binding : Option (ℕ × Bool)
  pub inserted : List RpcHandle
  pub released : List RpcHandle
  pub bound : List ℕ
  pub unbound : List ℕ

-- a reference that `_nvm_ref_get` made
abbrev pub new_reference : Reference
new_reference = record {
  handles = [];
  binding = none;
  inserted = [];
  released = [];
  bound = [];
  unbound = [];
}

-- the data that a release is due for
abbrev pub due : Option (ℕ × Bool) → List ℕ
due none = []
due (some (data_name, has_release)) = if has_release then data_name ∷ [] else []

-- calls with a reference; the data that is bound is not NULL
pub data BindingCall : Type 0 where
  insert_handle : (valid allocated : Bool) → (lock_err : ℕ) → RpcHandle → BindingCall
  remove_handle : (key : ℕ) → BindingCall
  bind_to : (lock_err : ℕ) → (data_name : ℕ) → (has_release : Bool) → BindingCall

abbrev pub handle_inserted : RpcHandle → ℕ × List RpcHandle → Reference → Reference
handle_inserted h (err, handles) r =
    if err == 0
    then record r { handles = handles; inserted = r.inserted ++ (h ∷ []) }
    else record r { handles = handles }

abbrev pub handle_removed : Option (List RpcHandle × RpcHandle) → Reference → Option Reference
handle_removed none r = none
handle_removed (some (kept, h)) r =
    some (record r { handles = kept; released = r.released ++ (h ∷ []) })

abbrev pub is_bound : Option (ℕ × Bool) → Bool
is_bound none = false
is_bound (some b) = true

-- `_nvm_rpc_bind`
abbrev pub bind_reference : (lock_err : ℕ) → (ℕ × Bool) → Reference → Reference
bind_reference lock_err b r =
    if (rpc_bind lock_err (is_bound r.binding)).0 == 0
    then record r { binding = some b; bound = r.bound ++ due (some b) }
    else r

-- one call; `none` is a read through NULL
abbrev pub binding_call : BindingCall → Reference → Option Reference
binding_call (insert_handle valid allocated lock_err h) r =
    some (handle_inserted h (handle_insert valid allocated lock_err h r.handles) r)
binding_call (remove_handle key) r = handle_removed (handle_remove key r.handles) r
binding_call (bind_to lock_err data_name has_release) r =
    some (bind_reference lock_err (data_name, has_release) r)

abbrev pub and_then : Option Reference → (Reference → Option Reference) → Option Reference
and_then none f = none
and_then (some r) f = f r

unfoldable pub binding_calls : List BindingCall → Reference → Option Reference
binding_calls [] r = some r
binding_calls (c ∷ cs) r = and_then (binding_call c r) (λ s. binding_calls cs s)

-- `_nvm_ref_put`, and so `nvm_aq_destroy` and `nvm_rpc_unbind`
unfoldable pub put_reference : Reference → Reference
put_reference r =
    let (kept, gone) = release_handles r.handles in
    record r {
      handles = kept;
      released = r.released ++ gone;
      binding = none;
      unbound = r.unbound ++ due r.binding;
    }
