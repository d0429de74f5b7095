-- ===== src/Command/Prp.antt =====
-- PRP lists: `nvm_prp_list`, `nvm_prp_list_chain` and `nvm_cmd_data` of include/libnvm/nvm_cmd.h.
-- The memory of the lists is a function from a list's address and an entry's index.
pub mod Entries
pub mod Chain
use u_gds.Prelude.{
  ℕ, zero, suc, ◌+◌, ◌-◌, ◌/◌, Bool, ◌&&◌, not, List, [], ◌∷◌, ltb, leb, ◌==◌, if◌then◌else◌,
  length, drop, get_or,
}
use u_gds.Command.{Cmd, cmd_data_ptr}

-- `nvm_prp_list_t`
pub record PrpList : Type 0 where
  pub vaddr : ℕ
  pub page_size : ℕ
  pub ioaddr : ℕ

abbrev pub PrpMem : Type 0
PrpMem = ℕ → ℕ → ℕ

-- `entries[i] = a` of the list at v
abbrev pub put_entry : (v i a : ℕ) → PrpMem → PrpMem
put_entry v i a mem = λ w j. if w == v && j == i then a else mem w j

-- the loop that populates a list, from the entry i on
unfoldable pub put_entries : (v i n : ℕ) → List ℕ → PrpMem → PrpMem
put_entries v i zero ioaddrs mem = mem
put_entries v i (suc n) ioaddrs mem =
    put_entries v (i + 1) n (drop 1 ioaddrs) (put_entry v i (get_or ioaddrs 0 0) mem)

-- the entries that a list takes of those that are left
abbrev pub list_prps : PrpList → (n_pages : ℕ) → ℕ
list_prps list n_pages =
    let n_prps = list.page_size / 8 in
    if n_pages == 0 then 0 else if ltb n_prps n_pages then n_prps - 1 else n_pages

-- `nvm_prp_list`
abbrev pub prp_list : PrpList → (n_pages : ℕ) → List ℕ → PrpMem → ℕ × PrpMem
prp_list list n_pages ioaddrs mem =
    let n_prps = list_prps list n_pages in (n_prps, put_entries list.vaddr 0 n_prps ioaddrs mem)

-- the loop of `nvm_prp_list_chain` behind the list prev, which has count entries
unfoldable pub chain_loop :
    PrpList → (count n_prps : ℕ) → List PrpList → (n_pages : ℕ) → List ℕ → PrpMem → ℕ × PrpMem
chain_loop prev count n_prps [] n_pages ioaddrs mem = (n_prps, mem)
chain_loop prev count n_prps (list ∷ lists) n_pages ioaddrs mem =
    let added =
      prp_list list (n_pages - n_prps) (drop n_prps ioaddrs)
        (put_entry prev.vaddr count list.ioaddr mem) in
    let rest = chain_loop list added.0 (n_prps + added.0) lists n_pages ioaddrs added.1 in
    if ltb n_prps n_pages then rest else (n_prps, mem)

-- `nvm_prp_list_chain`
unfoldable pub prp_list_chain : List PrpList → (n_pages : ℕ) → List ℕ → PrpMem → ℕ × PrpMem
prp_list_chain [] n_pages ioaddrs mem = (0, mem)
prp_list_chain (list ∷ lists) n_pages ioaddrs mem =
    let first = prp_list list n_pages ioaddrs mem in
    chain_loop list first.0 first.0 lists n_pages ioaddrs first.1

abbrev pub first_ioaddr : List PrpList → ℕ
first_ioaddr [] = 0
first_ioaddr (list ∷ lists) = list.ioaddr

-- `nvm_cmd_data`: the entries used, the command and the memory of the lists
unfoldable pub cmd_data : Cmd → List PrpList → (n_pages : ℕ) → List ℕ → PrpMem → ℕ × (Cmd × PrpMem)
cmd_data cmd lists n_pages ioaddrs mem =
    let dptr0 = get_or ioaddrs 0 0 in
    let chained = prp_list_chain lists (n_pages - 1) (drop 1 ioaddrs) mem in
    if n_pages == 0
    then (0, (cmd, mem))
    else if ltb 2 n_pages && not (length lists == 0)
    then (1 + chained.0, (cmd_data_ptr cmd dptr0 (first_ioaddr lists), chained.1))
    else if leb 2 n_pages
    then (2, (cmd_data_ptr cmd dptr0 (get_or ioaddrs 1 0), mem))
    else (1, (cmd_data_ptr cmd dptr0 0, mem))
