-- ===== src/Tests/Stacks.antt =====
-- Coroutine stacks on concrete inputs, with pages of 4096 bytes.
use coroutine_library.Prelude.{◌+◌, ◌≡◌, refl, true, none, some, [], ◌∷◌, arith}
use coroutine_library.StackAllocator.{
  Options, StackAllocator, made, cleared, Memory, SystemAnswers, noted, on_mapping, create, destroy,
  rounded, find_block, keep_block,
}
use coroutine_library.StackAllocator.Sizes.{PoolFits, Promised, create-Promised}
use coroutine_library.StackAllocator.Reuse.{create-destroy}

abbrev guarded : Options
guarded = record { size = 20_000; max_size = 100_000; guard_page = true; pool = true }

abbrev answers : SystemAnswers
answers = record { mmap = some 1_000_000; mprotect = true; heap = some 7 }

abbrev one_block : Memory
one_block = record {
  pool = record { mapping = 500_000; mapping_size = 36_864; usable_size = 32_768 } ∷ [];
  trace = [];
}

one_block-PoolFits : PoolFits 4096 one_block
one_block-PoolFits = record { blocks = (refl, tt); limited = omega arith }

create-Promised_example :
    Promised 4096 answers guarded (create 4096 answers guarded one_block).0
    × PoolFits 4096 (create 4096 answers guarded one_block).1
create-Promised_example =
    create-Promised 4096 answers guarded one_block (omega arith) (omega arith) one_block-PoolFits

abbrev a_stack : StackAllocator
a_stack = on_mapping 900_000 24_576 20_480 true

no_such_block : find_block 20_480 one_block.pool ≡ none
unfolding find_block keep_block
no_such_block = refl

guarded-rounded : rounded 4096 guarded.size ≡ 20_480
unfolding rounded
guarded-rounded = refl

create-destroy_example : create 4096 answers guarded (destroy 4096 a_stack one_block) ≡ (
  made (on_mapping 900_000 24_576 20_480 true),
  noted (cleared (900_000 + 4096) 20_480) one_block,
)
create-destroy_example =
    create-destroy 4096 answers guarded a_stack one_block 900_000 refl refl (omega arith)
      no_such_block (omega arith) (omega arith) refl refl guarded-rounded
