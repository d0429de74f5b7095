-- ===== src/Kernel/Links.antt =====
-- drv/list.c: the doubly linked lists of the kernel module, on a store of nodes. A pointer is the
-- address of a node, 0 is NULL, and a list is its head's address (`head` is its first field). The
-- spin lock makes each operation one step.
pub mod Segment
pub mod Steps
pub mod Members
pub mod Refine
use u_gds.Prelude.{ℕ, Bool, ◌&&◌, not, List, [], ◌∷◌, zero, suc, ◌==◌, if◌then◌else◌}

-- `struct list_node`
pub record ListNode : Type 0 where
  pub owner : ℕ
  pub next : ℕ
  pub prev : ℕ

abbrev pub Store : Type 0
Store = ℕ → ListNode

abbrev pub store : ℕ → ListNode → Store → Store
store a n s = λ b. if b == a then n else s b

-- `a->next = b`
abbrev pub set_next : (a b : ℕ) → Store → Store
set_next a b s = store a (record { owner = (s a).owner; next = b; prev = (s a).prev }) s

-- `a->prev = b`
abbrev pub set_prev : (a b : ℕ) → Store → Store
set_prev a b s = store a (record { owner = (s a).owner; next = (s a).next; prev = b }) s

-- `list_node_init`
abbrev pub list_node_init : ℕ → Store → Store
list_node_init e s = store e (record { owner = 0; next = 0; prev = 0 }) s

-- `list_init`
abbrev pub list_init : ℕ → Store → Store
list_init l s = store l (record { owner = l; next = l; prev = l }) s

-- `list_next`
abbrev pub list_next : ℕ → Store → ℕ
list_next a s = if (s a).next == (s a).owner then 0 else (s a).next

-- `element->prev->next = element->next; element->next->prev = element->prev`
abbrev pub unlink : ℕ → Store → Store
unlink e s =
    let skipped = set_next (s e).prev (s e).next s in
    set_prev (skipped e).next (skipped e).prev skipped

-- `list_remove`
abbrev pub list_remove : ℕ → Store → Store
list_remove e s =
    if not (e == 0) && not ((s e).owner == 0) && not (e == (s e).owner)
    then list_node_init e (unlink e s)
    else s

-- `list_insert`
abbrev pub list_insert : (l e : ℕ) → Store → Store
list_insert l e s =
    let last = (s l).prev in
    let linked = set_next last e s in
    set_prev l e (store e (record { owner = l; next = l; prev = last }) linked)

-- The loop of `map_find` and of the other walks: the elements from `list_next` of a node on, at
-- most fuel of them.
unfoldable pub elements : (fuel : ℕ) → ℕ → Store → List ℕ
elements zero a s = []
elements (suc fuel) a s =
    let rest = elements fuel (list_next a s) s in
    if list_next a s == 0 then [] else list_next a s ∷ rest
