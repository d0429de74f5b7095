-- ===== src/Io/Tests.antt =====
-- An IO request at a concrete handle.
use u_gds.Prelude.{
  ℕ, zero, suc, ◌≤◌, ◌<◌, ◌≡◌, refl, true, Option, some, List, [], ◌∷◌, arith, get_elem?, get_or,
  length, u64_mod, pos,
}
use mathlib.Core.Path.{subst}
use mathlib.Core.Option.{some-injective, none-ne-some}
use u_gds.Queue.{Queue, Mem}
use u_gds.Dma.{Dma}
use u_gds.Io.Types.{QueuePair, HandleState}
use u_gds.Io.Entry.{find_source, do_io}
use u_gds.Io.Slots.{IsReady}
use u_gds.Io.Served.{IsHandle, IsBuffer, Served}
use u_gds.Io.Whole.{do_io-Served}

abbrev queue : (es : ℕ) → Queue
queue es = record {
  head_lock = 0;
  tail_lock = 0;
  head = 0;
  tail = 0;
  in_ticket = 0;
  cid_ticket = 0;
  no = 1;
  es = es;
  qs = 64;
  phase = true;
  is_local = true;
  last = 0;
  db = some 4104;
  vaddr = 4096;
  ioaddr = 8192;
}

abbrev buffer : List ℕ → Dma
buffer pages = record {
  vaddr = 65536;
  is_local = true;
  contiguous = true;
  page_size = 4096;
  n_ioaddrs = length pages;
  ioaddrs = pages;
}

abbrev pair : QueuePair
pair = record { sq = queue 64; cq = queue 16; prp_dma = buffer (12288 ∷ []) }

abbrev handle : HandleState
handle = record {
  ctrl = record {
    page_size = 4096;
    dstrd = 0;
    timeout = 1;
    max_qs = 64;
    mm_size = 8192;
    mm_ptr = 0;
  };
  ns_id = 1;
  block_size = 512;
  max_transfer_size = 8192;
  num_qps = 1;
  qps = pair ∷ [];
  rr_counter = 5;
}

pair-IsReady : IsReady pair.sq
pair-IsReady = record {
  ring = record {
    two_le = omega arith;
    small = omega arith;
    head_in = omega arith;
    tail_in = omega arith;
  };
  divides = refl;
  bell = 4104;
  has_bell = refl;
  told = refl;
}

-- what holds of every element holds of the element at an index
AllOf : {A : Type 0} → (A → Type 0) → List A → Type 0
AllOf P [] = Unit {0}
AllOf P (x ∷ xs) = P x × AllOf P xs

at_index :
    {A : Type 0} (P : A → Type 0) (xs : List A)
    → AllOf P xs
    → (i : ℕ) (v : A) → get_elem? xs i ≡ some v
    → P v
unfolding AllOf
at_index P [] a i v e = absurd (none-ne-some v e)
at_index P (x ∷ xs) a zero v e = subst P (some-injective x v e) a.0
at_index P (x ∷ xs) a (suc i) v e = at_index P xs a.1 i v e

the_pair :
    (i : ℕ) (qp : QueuePair)
    → get_elem? handle.qps i ≡ some qp
    → IsReady qp.sq × (get_or qp.prp_dma.ioaddrs 0 0 < u64_mod)
unfolding AllOf
the_pair =
    at_index (λ qp. IsReady qp.sq × (get_or qp.prp_dma.ioaddrs 0 0 < u64_mod)) handle.qps
      ((pair-IsReady, omega arith), tt)

handle-IsHandle : IsHandle handle
handle-IsHandle = record {
  page_pos = omega arith;
  block_pages = refl;
  limit_pages = refl;
  default_pages = refl;
  count_fits = omega arith;
  some_qps = omega arith;
  all_qps = omega arith;
  few_qps = omega arith;
  ready = the_pair;
}

abbrev pages : List ℕ
pages = 1048576 ∷ 2097152 ∷ 3145728 ∷ 4194304 ∷ []

pages-IsBuffer : IsBuffer (buffer pages)
unfolding AllOf
pages-IsBuffer = record {
  counted = refl;
  addrs_in =
      at_index (λ v. v < u64_mod) pages
        (omega arith, (omega arith, (omega arith, (omega arith, tt))));
}

abbrev no_entries : ℕ → ℕ → Mem
no_entries idx t a = record { dword0 = 0; dword1 = 0; dword2 = 0; dword3 = 0 }

-- the driver's answer for a buffer that is not registered
abbrev map_device : ℕ → ℕ → ℕ × Option Dma
map_device ptr size = (0, some (buffer pages))

do_io-Served_example :
    Served handle 12288 512 2
      (find_source handle (some (buffer pages)) map_device 65536 12288 4096)
      (do_io
        (some handle)
        (some (buffer pages))
        map_device
        no_entries
        (λ _ _. 0)
        65536
        12288
        (pos 512)
        (pos 4096)
        2)
do_io-Served_example =
    do_io-Served handle handle-IsHandle 65536 12288 512 2 (omega arith) no_entries (λ _ _. 0)
      (some (buffer pages)) map_device 4096
      (λ dma e. subst IsBuffer (some-injective _ dma e) pages-IsBuffer)
      (λ dma _ e.
        subst (λ d. IsBuffer d × (3 ≤ d.n_ioaddrs)) (some-injective _ dma e)
          (pages-IsBuffer, omega arith))
      (omega arith)
