-- ===== src/StackAllocator.antt =====
-- include/coroutine/stack_allocator.h, src/stack_allocator.cpp, on Linux: where coroutine stacks come
-- from. An address is a number. The page size and what `mmap`, `mprotect` and `new` answer are
-- arguments; what is asked of the kernel is the trace. The pool is under its mutex in each step, and
-- its vector can grow.
pub mod Sizes
pub mod Reuse
use coroutine_library.Prelude.{
  ℕ, ◌+◌, ◌-◌, ◌*◌, ◌/◌, Bool, true, false, Option, none, some, if◌then◌else◌, List, [], ◌∷◌, ◌++◌,
  ltb, ◌==◌, ◌&&◌, length,
}
use coroutine_library.Prelude.Int.{ℤ, pos, negsuc}
use coroutine_library.Prelude.Words.{add64, sub64}

pub record Options : Type 0 where
  pub size : ℕ
  pub max_size : ℕ
  pub guard_page : Bool
  pub pool : Bool

pub record PooledBlock : Type 0 where
  pub mapping : ℕ
  pub mapping_size : ℕ
  pub usable_size : ℕ

-- A stack on the heap has `storage`, one of its own mapping has `mapping`.
pub record StackAllocator : Type 0 where
  pub storage : Option ℕ
  pub mapping : Option ℕ
  pub mapping_size : ℕ
  pub size : ℕ
  pub pooled : Bool

pub data StackError : Type 0 where
  too_small exceeds_maximum out_of_memory : StackError

pub data Created : Type 0 where
  made : StackAllocator → Created
  refused : StackError → Created

-- A range that is mapped, unmapped, or filled with zeros.
pub data MemoryEffect : Type 0 where
  mapped unmapped cleared : ℕ → ℕ → MemoryEffect

pub record Memory : Type 0 where
  pub pool : List PooledBlock
  pub trace : List MemoryEffect

-- What the system answers to one construction; `none` is a failure of `mmap` or of `new`.
pub record SystemAnswers : Type 0 where
  pub mmap : Option ℕ
  pub mprotect : Bool
  pub heap : Option ℕ

abbrev pub minimum_stack : ℕ
minimum_stack = 16 * 1024

abbrev pub pool_limit : ℕ
pool_limit = 64

-- From the answer of `sysconf`.
unfoldable pub page_size : ℤ → ℕ
page_size (pos n) = if n == 0 then 4096 else n
page_size (negsuc n) = 4096

abbrev pub noted : MemoryEffect → Memory → Memory
noted e m = record m { trace = m.trace ++ e ∷ [] }

-- `options.size` rounded up to whole pages.
unfoldable pub rounded : ℕ → ℕ → ℕ
rounded page size = sub64 (add64 size page) 1 / page * page

unfoldable pub keep_block :
    PooledBlock → Option (PooledBlock × List PooledBlock) → Option (PooledBlock × List PooledBlock)
keep_block b none = none
keep_block b (some (found, bs)) = some (found, b ∷ bs)

-- The first block of this size, and the pool without it.
unfoldable pub find_block : ℕ → List PooledBlock → Option (PooledBlock × List PooledBlock)
unfolding keep_block
find_block size [] = none
find_block size (b ∷ bs) =
    let rest = find_block size bs in
    if b.usable_size == size then some (b, bs) else keep_block b rest

abbrev pub on_mapping : ℕ → ℕ → ℕ → Bool → StackAllocator
on_mapping mapping mapping_size size pooled = record {
  storage = none;
  mapping = some mapping;
  mapping_size = mapping_size;
  size = size;
  pooled = pooled;
}

unfoldable pub map_new : ℕ → Option ℕ → Bool → ℕ → Bool → Memory → Created × Memory
map_new page none mprotect size pooled m = (refused out_of_memory, m)
map_new page (some a) mprotect size pooled m =
    let total = add64 size page in
    if mprotect
    then (made (on_mapping a total size pooled), noted (mapped a total) m)
    else (refused out_of_memory, noted (unmapped a total) (noted (mapped a total) m))

unfoldable pub reuse_or_map :
    ℕ → SystemAnswers → ℕ → Memory → Option (PooledBlock × List PooledBlock) → Created × Memory
unfolding map_new
reuse_or_map page os size m none = map_new page os.mmap os.mprotect size true m
reuse_or_map page os size m (some (b, rest)) =
    (made (on_mapping b.mapping b.mapping_size size true), record m { pool = rest })

-- A stack on the heap; `new` throws where it fails.
unfoldable pub on_heap : Option ℕ → ℕ → Created
on_heap none size = refused out_of_memory
on_heap (some a) size =
    made
      (record { storage = some a; mapping = none; mapping_size = 0; size = size; pooled = false })

unfoldable pub create : ℕ → SystemAnswers → Options → Memory → Created × Memory
unfolding rounded find_block map_new reuse_or_map on_heap
create page os o m =
    if ltb o.size minimum_stack
    then (refused too_small, m)
    else if ltb o.max_size o.size
    then (refused exceeds_maximum, m)
    else if o.guard_page
    then (let size = rounded page o.size in
        if o.pool
        then reuse_or_map page os size m (find_block size m.pool)
        else map_new page os.mmap os.mprotect size false m)
    else (on_heap os.heap o.size, m)

unfoldable pub destroy_mapping : ℕ → StackAllocator → Memory → Option ℕ → Memory
destroy_mapping page s m none = m
destroy_mapping page s m (some a) =
    if s.pooled && ltb (length m.pool) pool_limit
    then noted (cleared (a + page) s.size) (record m {
      pool =
          m.pool
          ++ record { mapping = a; mapping_size = s.mapping_size; usable_size = s.size } ∷ [];
    })
    else noted (unmapped a s.mapping_size) m

-- The destructor.
unfoldable pub destroy : ℕ → StackAllocator → Memory → Memory
unfolding destroy_mapping
destroy page s m = destroy_mapping page s m s.mapping

-- The move constructor: the new stack, and what is left of the other.
unfoldable pub move_from : StackAllocator → StackAllocator × StackAllocator
move_from other =
    (other, record other { storage = none; mapping = none; mapping_size = 0; pooled = false })

-- The move assignment between two objects: this one and the other, afterwards.
unfoldable pub move_assign : StackAllocator → StackAllocator → StackAllocator × StackAllocator
move_assign self other = (other, self)

data_at : ℕ → Option ℕ → Option ℕ → Option ℕ
data_at page storage none = storage
data_at page storage (some a) = some (a + page)

unfoldable pub data_of : ℕ → StackAllocator → Option ℕ
unfolding data_at
data_of page s = data_at page s.storage s.mapping
