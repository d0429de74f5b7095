-- ===== src/Kernel/Flatten.antt =====
-- `sg_flatten_to_addrs` of drv/map.c: the page addresses of a scatter list.
pub mod Pages
pub mod Enough
use u_gds.Prelude.{
  ℕ, zero, suc, ◌+◌, ◌-◌, ◌%◌, Bool, ◌&&◌, Option, none, some, List, [], ◌∷◌, ◌++◌, ltb, leb, ◌==◌,
  if◌then◌else◌, length, u64_mod,
}
use u_gds.Queue.{einval}

-- an entry of the list: `sg_dma_address` and `sg_dma_len`
pub record Sg : Type 0 where
  pub addr : ℕ
  pub len : ℕ

abbrev pub cons_page : ℕ → List ℕ × ℕ → List ℕ × ℕ
cons_page a (addrs, left) = (a ∷ addrs, left)

-- `while (len >= ctrl_page_size && page_idx < expected_pages)`: the addresses written while room
-- lasts, and the bytes that are left of the entry
unfoldable pub take_pages : (page_size room addr len : ℕ) → List ℕ × ℕ
take_pages page_size zero addr len = ([], len)
take_pages page_size (suc room) addr len =
    let rest = take_pages page_size room ((addr + page_size) % u64_mod) (len - page_size) in
    if ltb len page_size then ([], len) else cons_page addr rest

abbrev pub more_pages : List ℕ → ℕ × List ℕ → ℕ × List ℕ
more_pages before (err, after) = (err, before ++ after)

-- the end of an entry: a residual that is no page fails while pages are missing
abbrev pub entry_done : (room : ℕ) → List ℕ × ℕ → (rest : ℕ → ℕ × List ℕ) → ℕ × List ℕ
entry_done room (addrs, left) rest =
    let missing = room - length addrs in
    if ltb 0 left && ltb 0 missing
    then (einval, addrs)
    else if missing == 0
    then (0, addrs)
    else more_pages addrs (rest missing)

-- The loop over the entries, with the pages still expected and the offset still to be consumed:
-- the errno and the addresses written.
unfoldable pub flatten : (page_size : ℕ) → List Sg → (room offset : ℕ) → ℕ × List ℕ
flatten page_size [] room offset = (if room == 0 then 0 else einval, [])
flatten page_size (sg ∷ sgs) room offset =
    let skipped = flatten page_size sgs room (offset - sg.len) in
    let used =
      entry_done room (take_pages page_size room ((sg.addr + offset) % u64_mod) (sg.len - offset))
        (λ missing. flatten page_size sgs missing 0) in
    if ltb 0 offset && leb sg.len offset then skipped else used

-- `sg_flatten_to_addrs`
abbrev pub sg_flatten_to_addrs :
    List Sg → (expected_pages ctrl_page_size hsa_offset : ℕ) → ℕ × List ℕ
sg_flatten_to_addrs sgs expected_pages ctrl_page_size hsa_offset =
    flatten ctrl_page_size sgs expected_pages hsa_offset

-- the device address of a byte of the buffer that the list describes
abbrev pub byte_address : List Sg → ℕ → Option ℕ
byte_address [] k = none
byte_address (sg ∷ sgs) k =
    if ltb k sg.len then some ((sg.addr + k) % u64_mod) else byte_address sgs (k - sg.len)
