-- ===== src/Command/Prp/Chain.antt =====
-- A controller that follows a chain of PRP lists finds the addresses that went in.
use mathlib.Core.Path.{subst}
use u_gds.Prelude.{
  ℕ, zero, suc, ◌+◌, ◌-◌, ◌*◌, ◌≤◌, ◌<◌, ◌≡◌, refl, ap, sym, ◌∙◌, true, false, Bool-cases, inl, inr,
  List, [], ◌∷◌, ◌++◌, ltb, length, drop, take, length-drop, arith,
}
use u_gds.Command.Prp.{
  PrpList, PrpMem, put_entry, put_entries, list_prps, chain_loop, prp_list_chain,
}
use u_gds.Command.Prp.Entries.{
  read_entries, read_lists, NotAt, AreLists, IsSeen, entries_put, chain_other, chain_next,
  take_split,
}

chain_stop :
    (prev : PrpList) (count n_prps : ℕ) (lists : List PrpList) (n_pages : ℕ) (ioaddrs : List ℕ)
    (mem : PrpMem)
    → n_pages ≤ n_prps
    → chain_loop prev count n_prps lists n_pages ioaddrs mem ≡ (n_prps, mem)
unfolding chain_loop
chain_stop prev count n_prps [] n_pages ioaddrs mem h = refl
chain_stop prev count n_prps (list ∷ lists) n_pages ioaddrs mem h =
    let over : ltb n_prps n_pages ≡ false = ground arith in rw over refl

chain_more :
    (prev list : PrpList) (count n_prps : ℕ) (lists : List PrpList) (n_pages : ℕ) (ioaddrs : List ℕ)
    (mem : PrpMem)
    → n_prps < n_pages
    → let added = list_prps list (n_pages - n_prps) in
      chain_loop prev count n_prps (list ∷ lists) n_pages ioaddrs mem
      ≡ chain_loop list added (n_prps + added) lists n_pages ioaddrs (
          put_entries list.vaddr 0 added
            (drop n_prps ioaddrs)
            (put_entry prev.vaddr count list.ioaddr mem))
unfolding chain_loop
chain_more prev list count n_prps lists n_pages ioaddrs mem h =
    let more : ltb n_prps n_pages ≡ true = ground arith in rw more refl

read_stop :
    (dma : ℕ → ℕ → ℕ) (n_entries fuel a n : ℕ)
    → n ≤ n_entries
    → read_lists dma n_entries fuel a n ≡ read_entries (dma a) 0 n
unfolding read_lists
read_stop dma n_entries zero a n h = refl
read_stop dma n_entries (suc fuel) a n h =
    let fits : ltb n_entries n ≡ false = ground arith in rw fits refl

read_more :
    (dma : ℕ → ℕ → ℕ) (n_entries fuel a n : ℕ)
    → n_entries < n
    → read_lists dma n_entries (suc fuel) a n
      ≡ read_entries (dma a) 0 (n_entries - 1)
        ++ read_lists dma n_entries fuel (dma a (n_entries - 1)) (n - (n_entries - 1))
unfolding read_lists
read_more dma n_entries fuel a n h =
    let long : ltb n_entries n ≡ true = ground arith in rw long refl

module _ (dma : ℕ → ℕ → ℕ) (n_entries : ℕ) (some_entries : 2 ≤ n_entries) where
  -- the lists from one on, after k addresses
  abbrev IsFollowed : PrpList → List PrpList → (k n_pages : ℕ) → List ℕ → ℕ × PrpMem → Type 0
  IsFollowed list lists k n_pages ioaddrs after =
      (after.0 ≡ n_pages)
      × (read_lists dma n_entries (length lists) list.ioaddr (n_pages - k)
          ≡ take (n_pages - k) (drop k ioaddrs))

  read_last :
      (list : PrpList) (lists : List PrpList) (k n_pages : ℕ) (ioaddrs : List ℕ) (mem : PrpMem)
      (c : ℕ)
      → let after =
          chain_loop list c
            (k + c)
            lists
            n_pages
            ioaddrs
            (put_entries list.vaddr 0 c (drop k ioaddrs) mem) in
        ((i : ℕ) → dma list.ioaddr i ≡ after.1 list.vaddr i)
        → c ≡ n_pages - k
        → k < n_pages
        → n_pages ≤ length ioaddrs
        → n_pages - k ≤ n_entries
        → IsFollowed list lists k n_pages ioaddrs after
  read_last list lists k n_pages ioaddrs mem c seen e h l fits =
      let stop =
        chain_stop list c (k + c) lists n_pages ioaddrs
          (put_entries list.vaddr 0 c (drop k ioaddrs) mem) (omega arith) in
      (
        ap (λ r. r.0) stop ∙ omega arith,
        read_stop dma n_entries (length lists) list.ioaddr (n_pages - k) fits
            ∙ entries_put list.vaddr 0 (n_pages - k) (drop k ioaddrs) mem (dma list.ioaddr)
                (omega (arith, length-drop k ioaddrs))
                (λ j p q.
                  seen j
                  ∙ ap (λ r. r.1 list.vaddr j) stop
                  ∙ ap (λ m. put_entries list.vaddr 0 m (drop k ioaddrs) mem list.vaddr j) e),
      )

  -- a list that is full, and the lists behind it
  read_full :
      (list next : PrpList) (lists : List PrpList) (k n_pages : ℕ) (ioaddrs : List ℕ) (mem : PrpMem)
      (c : ℕ)
      → let first = put_entries list.vaddr 0 c (drop k ioaddrs) mem in
        let after = chain_loop list c (k + c) (next ∷ lists) n_pages ioaddrs first in
        ((i : ℕ) → dma list.ioaddr i ≡ after.1 list.vaddr i)
        → NotAt list.vaddr (next ∷ lists)
        → c ≡ n_entries - 1
        → n_pages ≤ length ioaddrs
        → n_entries < n_pages - k
        → IsFollowed next lists (k + c) n_pages ioaddrs after
        → IsFollowed list (next ∷ lists) k n_pages ioaddrs after
  read_full list next lists k n_pages ioaddrs mem c seen apart e l long (all, behind) =
      let first = put_entries list.vaddr 0 c (drop k ioaddrs) mem in
      let here : read_entries (dma list.ioaddr) 0 (n_entries - 1) ≡ take c (drop k ioaddrs) =
        ap (read_entries (dma list.ioaddr) 0) (sym e)
        ∙ entries_put list.vaddr 0 c (drop k ioaddrs) mem (dma list.ioaddr)
            (omega (arith, length-drop k ioaddrs))
            (λ j p q.
              seen j
              ∙ chain_other list c (k + c) (next ∷ lists) n_pages ioaddrs first list.vaddr j apart
                  (inr (omega arith))) in
      let pointer : dma list.ioaddr (n_entries - 1) ≡ next.ioaddr =
        ap (dma list.ioaddr) (sym e)
        ∙ seen c
        ∙ chain_next list next c (k + c) lists n_pages ioaddrs first (omega arith) apart in
      let left : n_pages - k - (n_entries - 1) ≡ n_pages - (k + c) = omega arith in
      (
        all,
        read_more dma n_entries (length lists) list.ioaddr (n_pages - k) long
            ∙ ap
                (λ xs.
                  xs
                  ++ read_lists dma n_entries (length lists) (dma list.ioaddr (n_entries - 1))
                      (n_pages - k - (n_entries - 1)))
                here
            ∙ ap
                (λ a.
                  take c (drop k ioaddrs)
                  ++ read_lists dma n_entries (length lists) a (n_pages - k - (n_entries - 1)))
                pointer
            ∙ ap
                (λ m.
                  take c (drop k ioaddrs) ++ read_lists dma n_entries (length lists) next.ioaddr m)
                left
            ∙ ap (λ xs. take c (drop k ioaddrs) ++ xs) behind
            ∙ take_split c (n_pages - (k + c)) (n_pages - k) k ioaddrs (omega arith),
      )

  chain_read :
      (list : PrpList) (lists : List PrpList) (k n_pages : ℕ) (ioaddrs : List ℕ) (mem : PrpMem)
      (c : ℕ)
      → let after =
          chain_loop list c
            (k + c)
            lists
            n_pages
            ioaddrs
            (put_entries list.vaddr 0 c (drop k ioaddrs) mem) in
        c ≡ list_prps list (n_pages - k)
        → AreLists n_entries (list ∷ lists)
        → IsSeen dma after.1 (list ∷ lists)
        → k < n_pages
        → n_pages ≤ length ioaddrs
        → n_pages - k ≤ n_entries + length lists * (n_entries - 1)
        → IsFollowed list lists k n_pages ioaddrs after
  chain_read list [] k n_pages ioaddrs mem c f (e, w, ws) (seen, s) h l room =
      read_last list [] k n_pages ioaddrs mem c seen (ground arith) h l (omega arith)
  chain_read list (next ∷ lists) k n_pages ioaddrs mem c f (e, w, ws) (seen, s) h l room =
      let first = put_entries list.vaddr 0 c (drop k ioaddrs) mem in
      elim (Bool-cases (ltb n_entries (n_pages - k))) [
        | inr fits ↦
            read_last list (next ∷ lists) k n_pages ioaddrs mem c seen (ground arith) h l
              (ground arith)
        | inl long ↦
            let full : c ≡ n_entries - 1 = ground arith in
            let more = chain_more list next c (k + c) lists n_pages ioaddrs first (ground arith) in
            let behind =
              chain_read next lists (k + c) n_pages ioaddrs
                (put_entry list.vaddr c next.ioaddr first) (list_prps next (n_pages - (k + c))) refl
                ws (subst (λ (r : ℕ × PrpMem). IsSeen dma r.1 (next ∷ lists)) more s) (ground arith)
                l (ground arith) in
            read_full list next lists k n_pages ioaddrs mem c seen w full l (ground arith)
              (ap (λ (r : ℕ × PrpMem). r.0) more ∙ behind.0, behind.1)
      ]

-- On lists of the same number of entries, at least two, at different addresses, with room for all
-- of at least one page and no more pages than addresses: `nvm_prp_list_chain` returns the number of
-- pages, and a controller that reads the lists' memory by their IO addresses and follows the chain
-- from the first list finds exactly the addresses of the pages, in order.
pub prp_list_chain_read :
    (dma : ℕ → ℕ → ℕ) (n_entries : ℕ) (list : PrpList) (lists : List PrpList) (n_pages : ℕ)
    (ioaddrs : List ℕ) (mem : PrpMem)
    → 2 ≤ n_entries
    → AreLists n_entries (list ∷ lists)
    → let after = prp_list_chain (list ∷ lists) n_pages ioaddrs mem in
      IsSeen dma after.1 (list ∷ lists)
      → 1 ≤ n_pages
      → n_pages ≤ length ioaddrs
      → n_pages ≤ n_entries + length lists * (n_entries - 1)
      → (after.0 ≡ n_pages)
        × (read_lists dma n_entries (length lists) list.ioaddr n_pages ≡ take n_pages ioaddrs)
unfolding prp_list_chain
prp_list_chain_read dma n_entries list lists n_pages ioaddrs mem some_entries w seen h l room =
    let c = list_prps list n_pages in
    let first = put_entries list.vaddr 0 c ioaddrs mem in
    let start : 0 + c ≡ c = omega arith in
    let all : n_pages - 0 ≡ n_pages = omega arith in
    let same = ap (λ j. chain_loop list c j lists n_pages ioaddrs first) start in
    let found =
      chain_read dma n_entries some_entries list lists 0 n_pages ioaddrs mem c
        (ap (list_prps list) (sym all)) w
        (subst (λ (r : ℕ × PrpMem). IsSeen dma r.1 (list ∷ lists)) (sym same) seen) (omega arith) l
        (omega arith) in
    (
      ap (λ (r : ℕ × PrpMem). r.0) (sym same) ∙ found.0,
      ap (read_lists dma n_entries (length lists) list.ioaddr) (sym all)
          ∙ found.1
          ∙ ap (λ m. take m ioaddrs) all,
    )
