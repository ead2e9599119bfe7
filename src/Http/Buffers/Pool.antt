-- ===== src/Http/Buffers/Pool.antt =====
-- `buffer_pool_t` and `buffer_lease_t`. The allocator is not the program's: `heap` records the blocks that it
-- has handed out and their sizes, and what `malloc` answers is an argument, none for a null pointer.
mod Count
pub mod Ledger
pub mod Kept
pub mod Runs
mod Tests
use cornet.Base.{
  ℕ, zero, suc, ◌+◌, Bool, true, false, not, if◌then◌else◌, leb, ◌==◌, Option, none, some, List, [],
  ◌∷◌, ◌++◌, get_or, update,
}

-- A valid lease; `pooled` is that `pool_` is not null.
pub record Lease : Type 0 where
  pub pooled : Bool
  pub block : ℕ
  pub cap : ℕ

pub record Pool : Type 0 where
  pub heap : ℕ → Option ℕ
  pub free : ℕ → List ℕ
  pub allocations : ℕ
  pub hits : ℕ
  pub oversized : ℕ

-- `kClassSize`
abbrev pub class_sizes : List ℕ
class_sizes = 4096 ∷ 16384 ∷ 65536 ∷ 262144 ∷ []

abbrev pub class_size : ℕ → ℕ
class_size c = get_or class_sizes c 0

pub class_from : ℕ → List ℕ → ℕ → Option ℕ
class_from i [] bytes = none
class_from i (size ∷ sizes) bytes =
    if leb bytes size then some i else class_from (i + 1) sizes bytes

pub class_of : ℕ → Option ℕ
class_of bytes = class_from 0 class_sizes bytes

-- The allocator hands out `block`, or takes it back.
pub allocated : Pool → ℕ → ℕ → Pool
allocated p block bytes = record p { heap = update p.heap block (some bytes) }

pub freed : Pool → ℕ → Pool
freed p block = record p { heap = update p.heap block none }

-- A block from the allocator, with what `malloc` answered.
pub from_malloc : Pool → Bool → ℕ → Option ℕ → Pool × Option Lease
from_malloc p pooled bytes none = (p, none)
from_malloc p pooled bytes (some block) =
    (allocated p block bytes, some (record { pooled = pooled; block = block; cap = bytes }))

-- A block of class `cls`, from its free list or the allocator.
pub from_class : Pool → ℕ → Option ℕ → List ℕ → Pool × Option Lease
from_class p cls answer [] =
    from_malloc (record p { allocations = p.allocations + 1 }) true (class_size cls) answer
from_class p cls answer (node ∷ rest) = (
  record p { free = update p.free cls rest; hits = p.hits + 1 },
  some (record { pooled = true; block = node; cap = class_size cls }),
)

pub acquire_in : Pool → ℕ → Option ℕ → Option ℕ → Pool × Option Lease
acquire_in p min_bytes answer none =
    from_malloc (record p { oversized = p.oversized + 1 }) false min_bytes answer
acquire_in p min_bytes answer (some cls) = from_class p cls answer (p.free cls)

pub acquire : Pool → ℕ → Option ℕ → Pool × Option Lease
acquire p min_bytes answer = acquire_in p min_bytes answer (class_of min_bytes)

pub recycle_in : Pool → ℕ → ℕ → Option ℕ → Pool
recycle_in p block cap none = freed p block
recycle_in p block cap (some cls) =
    if not (class_size cls == cap)
    then freed p block
    else record p { free = update p.free cls (block ∷ p.free cls) }

pub recycle : Pool → ℕ → ℕ → Pool
recycle p block cap = recycle_in p block cap (class_of cap)

-- `buffer_lease_t::release`, of a valid lease.
pub release_lease : Pool → Lease → Pool
release_lease p l = if l.pooled then recycle p l.block l.cap else freed p l.block

-- `buffer_lease_t::release`; an empty lease has nothing to give back.
pub release : Pool → Option Lease → Pool
release p none = p
release p (some l) = release_lease p l

-- `~buffer_pool_t`: a free list, and then all four.
pub free_nodes : Pool → List ℕ → Pool
free_nodes p [] = p
free_nodes p (node ∷ nodes) = free_nodes (freed p node) nodes

pub free_class : Pool → ℕ → Pool
free_class p i = let q = free_nodes p (p.free i) in record q { free = update q.free i [] }

pub destroy : Pool → Pool
destroy p = free_class (free_class (free_class (free_class p 0) 1) 2) 3
