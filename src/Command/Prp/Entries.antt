-- ===== src/Command/Prp/Entries.antt =====
-- The entries that the PRP list builders write, and a controller's reading of them.
use u_gds.Prelude.{
  ℕ, zero, suc, ◌+◌, ◌-◌, ◌/◌, ◌≤◌, ◌<◌, ◌≡◌, ◌≢◌, refl, ap, ◌∙◌, true, Bool-cases, ◌⊎◌, inl, inr,
  List, [], ◌∷◌, ◌++◌, ltb, if◌then◌else◌, length, drop, take, get_or, arith,
}
use u_gds.Command.Prp.{PrpList, PrpMem, put_entry, put_entries, list_prps, chain_loop}

-- entries of a list that the controller reads, from the index i on
unfoldable pub read_entries : (page : ℕ → ℕ) → (i n : ℕ) → List ℕ
read_entries page i zero = []
read_entries page i (suc n) = page i ∷ read_entries page (i + 1) n

-- What a controller reads for n pages from the list at a: where these are more than the entries of
-- a list, the last entry is the address of the next list. The fuel counts the lists behind the
-- first.
unfoldable pub read_lists : (dma : ℕ → ℕ → ℕ) → (n_entries : ℕ) → (fuel a n : ℕ) → List ℕ
read_lists dma n_entries zero a n = read_entries (dma a) 0 n
read_lists dma n_entries (suc fuel) a n =
    let rest = read_lists dma n_entries fuel (dma a (n_entries - 1)) (n - (n_entries - 1)) in
    if ltb n_entries n
    then read_entries (dma a) 0 (n_entries - 1) ++ rest
    else read_entries (dma a) 0 n

abbrev pub NotAt : ℕ → List PrpList → Type 0
NotAt v [] = Unit {0}
NotAt v (list ∷ lists) = (v ≢ list.vaddr) × NotAt v lists

-- lists of n_entries entries at different addresses
abbrev pub AreLists : ℕ → List PrpList → Type 0
AreLists n_entries [] = Unit {0}
AreLists n_entries (list ∷ lists) =
    (list.page_size / 8 ≡ n_entries) × NotAt list.vaddr lists × AreLists n_entries lists

-- the controller reads the lists' memory at their IO addresses
abbrev pub IsSeen : (dma : ℕ → ℕ → ℕ) → PrpMem → List PrpList → Type 0
IsSeen dma mem [] = Unit {0}
IsSeen dma mem (list ∷ lists) =
    ((i : ℕ) → dma list.ioaddr i ≡ mem list.vaddr i) × IsSeen dma mem lists

pub put_entries_other :
    (v i n : ℕ) (ioaddrs : List ℕ) (mem : PrpMem) (w j : ℕ)
    → (w ≢ v) ⊎ ((j < i) ⊎ (i + n ≤ j))
    → put_entries v i n ioaddrs mem w j ≡ mem w j
unfolding put_entries
put_entries_other v i zero ioaddrs mem w j h = refl
put_entries_other v i (suc n) ioaddrs mem w j h =
    put_entries_other v (i + 1) n (drop 1 ioaddrs) (put_entry v i (get_or ioaddrs 0 0) mem) w j
      (later h)
    ∙ ground arith
  where
    later : (w ≢ v) ⊎ ((j < i) ⊎ (i + suc n ≤ j)) → (w ≢ v) ⊎ ((j < i + 1) ⊎ (i + 1 + n ≤ j))
    later (inl p) = inl p
    later (inr (inl p)) = inr (inl (omega arith))
    later (inr (inr p)) = inr (inr (omega arith))

pub entries_put :
    (v i n : ℕ) (ioaddrs : List ℕ) (mem : PrpMem) (page : ℕ → ℕ)
    → n ≤ length ioaddrs
    → ((j : ℕ) → i ≤ j → j < i + n → page j ≡ put_entries v i n ioaddrs mem v j)
    → read_entries page i n ≡ take n ioaddrs
unfolding put_entries read_entries
entries_put v i zero ioaddrs mem page h p = refl
entries_put v i (suc n) [] mem page h p = absurd (omega arith)
entries_put v i (suc n) (a ∷ ioaddrs) mem page h p =
    let here : page i ≡ a =
      p i (omega arith) (omega arith)
      ∙ put_entries_other v (i + 1) n ioaddrs (put_entry v i a mem) v i (inr (inl (omega arith)))
      ∙ ground arith in
    rw here (
      ap (λ xs. a ∷ xs)
        (entries_put v (i + 1) n ioaddrs (put_entry v i a mem) page (omega arith)
          (λ j q r. p j (omega arith) (omega arith))))

-- the loop writes at the lists that are left, and one entry of the list before them
pub chain_other :
    (prev : PrpList) (count n_prps : ℕ) (lists : List PrpList) (n_pages : ℕ) (ioaddrs : List ℕ)
    (mem : PrpMem) (w j : ℕ)
    → NotAt w lists
    → (w ≢ prev.vaddr) ⊎ (j ≢ count)
    → (chain_loop prev count n_prps lists n_pages ioaddrs mem).1 w j ≡ mem w j
unfolding chain_loop
chain_other prev count n_prps [] n_pages ioaddrs mem w j p h = refl
chain_other prev count n_prps (list ∷ lists) n_pages ioaddrs mem w j (p, ps) h =
    elim (Bool-cases (ltb n_prps n_pages)) [
      | inr done ↦ rw done refl
      | inl more ↦ rw more (
          chain_other list _ _ lists n_pages ioaddrs _ w j ps (inl p)
          ∙ put_entries_other list.vaddr 0 (list_prps list (n_pages - n_prps)) (drop n_prps ioaddrs)
              (put_entry prev.vaddr count list.ioaddr mem) w j (inl p)
          ∙ ground arith)
    ]

pub chain_next :
    (prev list : PrpList) (count n_prps : ℕ) (lists : List PrpList) (n_pages : ℕ) (ioaddrs : List ℕ)
    (mem : PrpMem)
    → n_prps < n_pages
    → NotAt prev.vaddr (list ∷ lists)
    → (chain_loop prev count n_prps (list ∷ lists) n_pages ioaddrs mem).1 prev.vaddr count
      ≡ list.ioaddr
unfolding chain_loop
chain_next prev list count n_prps lists n_pages ioaddrs mem h (p, ps) =
    let more : ltb n_prps n_pages ≡ true = ground arith in
    rw more (
      chain_other list _ _ lists n_pages ioaddrs _ prev.vaddr count ps (inl p)
      ∙ put_entries_other list.vaddr 0 (list_prps list (n_pages - n_prps)) (drop n_prps ioaddrs)
          (put_entry prev.vaddr count list.ioaddr mem) prev.vaddr count (inl p)
      ∙ ground arith)

drop-drop : (k c : ℕ) (xs : List ℕ) → drop (k + c) xs ≡ drop c (drop k xs)
drop-drop zero c xs = ap (λ j. drop j xs) (omega arith)
drop-drop (suc k) zero [] =
    let step : suc k + zero ≡ suc k = omega arith in ap (λ j. drop j []) step
drop-drop (suc k) (suc c) [] =
    let step : suc k + suc c ≡ suc (k + suc c) = omega arith in ap (λ j. drop j []) step
drop-drop (suc k) c (x ∷ xs) =
    let step : suc k + c ≡ suc (k + c) = omega arith in
    ap (λ j. drop j (x ∷ xs)) step ∙ drop-drop k c xs

take-take : (c m : ℕ) (xs : List ℕ) → take c xs ++ take m (drop c xs) ≡ take (c + m) xs
take-take zero m xs = ap (λ j. take j xs) (omega arith)
take-take (suc c) zero [] =
    let step : suc c ≡ suc c + zero = omega arith in ap (λ j. take j []) step
take-take (suc c) (suc m) [] =
    let step : suc (c + suc m) ≡ suc c + suc m = omega arith in ap (λ j. take j []) step
take-take (suc c) m (x ∷ xs) =
    let step : suc (c + m) ≡ suc c + m = omega arith in
    ap (λ ys. x ∷ ys) (take-take c m xs) ∙ ap (λ j. take j (x ∷ xs)) step

-- a part and the rest of the addresses that are left
pub take_split :
    (c m n k : ℕ) (xs : List ℕ)
    → c + m ≡ n
    → take c (drop k xs) ++ take m (drop (k + c) xs) ≡ take n (drop k xs)
take_split c m n k xs e =
    ap (λ ys. take c (drop k xs) ++ take m ys) (drop-drop k c xs)
    ∙ take-take c m (drop k xs)
    ∙ ap (λ j. take j (drop k xs)) e
