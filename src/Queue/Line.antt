-- ===== src/Queue/Line.antt =====
-- A completion queue between a controller and `nvm_cq_dequeue`, as a FIFO of entries.
-- The controller is not part of the repository: it is taken to do what NVM Express says of it. It
-- keeps a tail and a tag of its own, starts where the consumer starts, writes an entry with the
-- tag at its tail, flips the tag when the tail comes round, and stops at qs - 1 untaken entries.
use u_gds.Prelude.{
  ℕ, zero, suc, ◌+◌, ◌-◌, ◌*◌, ◌/◌, ◌%◌, ◌^◌, ◌≡◌, Bool, false, not, Option, none, some, List, [],
  ◌∷◌, ◌++◌, ltb, ◌==◌, if◌then◌else◌, length,
}
use u_gds.Queue.{Queue, Cpl, Mem, cq_dequeue}
use u_gds.Queue.Ring.{slot_at}
use u_gds.Queue.Completion.{Posted, entry_at, fresh_tag}

-- an entry with its phase tag set
abbrev pub stamp : Bool → Cpl → Cpl
stamp tag c = record c {
  dword3 = c.dword3 / 2 ^ 17 * 2 ^ 17 + (if tag then 2 ^ 16 else 0) + c.dword3 % 2 ^ 16;
}

abbrev pub write : Mem → ℕ → Cpl → Mem
write mem a c b = if b == a then c else mem b

-- the consumer's descriptor, the shared memory, the controller's tail and tag, and the count of
-- entries that are posted and not taken
pub record Line : Type 0 where
  pub cq : Queue
  pub mem : Mem
  pub tail : ℕ
  pub tag : Bool
  pub count : ℕ

pub data Event : Type 0 where
  post : Cpl → Event
  take : Event

unfoldable pub controller_post : Line → Cpl → Line
controller_post l c =
    if ltb (l.count + 1) l.cq.qs
    then record l {
      mem = write l.mem (l.cq.vaddr + l.cq.es * l.tail) (stamp l.tag c);
      tail = if l.tail + 1 == l.cq.qs then 0 else l.tail + 1;
      tag = if l.tail + 1 == l.cq.qs then not l.tag else l.tag;
      count = l.count + 1;
    }
    else l

unfoldable pub taken : Line → Option ℕ × Queue → Option Cpl × Line
taken l (none, cq) = (none, record l { cq = cq })
taken l (some a, cq) = (some (stamp false (l.mem a)), record l { cq = cq; count = l.count - 1 })

-- what `nvm_cq_dequeue` hands out, its tag put aside
unfoldable pub consumer_take : Line → Option Cpl × Line
consumer_take l = taken l (cq_dequeue l.cq l.mem)

unfoldable pub run : List Event → Line → List (Option Cpl)
run [] l = []
run (post c ∷ es) l = run es (controller_post l c)
run (take ∷ es) l = let (got, l') = consumer_take l in got ∷ run es l'

-- The FIFO of at most `cap` entries.
unfoldable pub fifo_run : ℕ → List Event → List Cpl → List (Option Cpl)
fifo_run cap [] xs = []
fifo_run cap (post c ∷ es) xs =
    fifo_run cap es (if ltb (length xs) cap then xs ++ (stamp false c ∷ []) else xs)
fifo_run cap (take ∷ es) [] = none ∷ fifo_run cap es []
fifo_run cap (take ∷ es) (x ∷ xs) = some x ∷ fifo_run cap es xs

-- k entries from the place i behind the head on, their tags put aside
abbrev pub entries : Queue → Mem → ℕ → ℕ → List Cpl
entries q mem i zero = []
entries q mem i (suc k) = stamp false (mem (entry_at q i)) ∷ entries q mem (suc i) k

-- the line holds the entries xs
pub record Holds (l : Line) (xs : List Cpl) : Type 0 where
  pub posted : Posted l.cq l.mem l.count
  pub size : length xs ≡ l.count
  pub tail_at : l.tail ≡ slot_at l.cq.qs l.cq.head l.count
  pub tag_at : l.tag ≡ fresh_tag l.cq l.count
  pub held : entries l.cq l.mem 0 l.count ≡ xs
