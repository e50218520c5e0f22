-- ===== src/StackAllocator/Sizes.antt =====
-- src/stack_allocator.cpp: when a stack is refused, and how large the one that is made is.
use native.Mathlib.Nat.{div-add-mod', mod-lt}
use coroutine_library.Prelude.{
  ℕ, suc, ◌+◌, ◌-◌, ◌*◌, ◌%◌, ◌≤◌, ◌<◌, ◌≡◌, inl, inr, refl, Bool, true, false, Option, none, some,
  if◌then◌else◌, List, [], ◌∷◌, ltb, ◌==◌, ==_iff, length, length-append, All, All-append,
  Bool-cases, is_some, ◌&&◌, arith,
}
use coroutine_library.Prelude.Words.{add64, sub64, size_mod}
use coroutine_library.StackAllocator.{
  Options, PooledBlock, StackAllocator, too_small, exceeds_maximum, out_of_memory, Created, made,
  refused, Memory, SystemAnswers, minimum_stack, pool_limit, rounded, keep_block, find_block,
  map_new, reuse_or_map, on_heap, create, destroy, destroy_mapping,
}

-- A size in whole pages that is no more than a page above the size asked for.
pub record IsRounded (page wanted size : ℕ) : Type 0 where
  pub enough : wanted ≤ size
  pub close : size < wanted + page
  pub whole : (pages : ℕ) × (size ≡ pages * page)

rounded-IsRounded :
    (page size : ℕ) → 0 < page → size + page < size_mod → IsRounded page size (rounded page size)
unfolding rounded
rounded-IsRounded page size p small =
    let n : sub64 (add64 size page) 1 ≡ size + page - 1 = ground arith in
    let d = div-add-mod' (size + page - 1) page in
    let r : (size + page - 1) % page < page = mod-lt (size + page - 1) (omega arith) in
    rw n (record { enough = omega (arith, d, r); close = omega (arith, d); whole = (_, refl) })

-- A block of the pool is a stack above its guard page.
abbrev pub BlockFits : ℕ → PooledBlock → Type 0
BlockFits page b = b.mapping_size ≡ b.usable_size + page

pub record PoolFits (page : ℕ) (m : Memory) : Type 0 where
  pub blocks : All (BlockFits page) m.pool
  pub limited : length m.pool ≤ pool_limit

-- The same of a stack in use.
abbrev pub StackFits : ℕ → StackAllocator → Option ℕ → Type 0
StackFits page s none = Unit
StackFits page s (some a) = s.mapping_size ≡ s.size + page

abbrev FoundFits : ℕ → ℕ → ℕ → Option (PooledBlock × List PooledBlock) → Type 0
FoundFits page size n none = Unit {0}
FoundFits page size n (some (b, rest)) =
    (b.mapping_size ≡ size + page) × All (BlockFits page) rest × (length rest ≤ n)

keep_block-FoundFits :
    (page size n : ℕ) (b : PooledBlock) (o : Option (PooledBlock × List PooledBlock))
    → BlockFits page b
    → FoundFits page size n o
    → FoundFits page size (suc n) (keep_block b o)
unfolding keep_block
keep_block-FoundFits page size n b none h k = tt
keep_block-FoundFits page size n b (some (c, rest)) h k = (k.0, (h, k.1), omega (arith, k.2))

-- A block that is found is of the size asked for, and what is left are blocks of the pool.
find_block-FoundFits :
    (page size : ℕ) (bs : List PooledBlock)
    → All (BlockFits page) bs
    → FoundFits page size (length bs) (find_block size bs)
unfolding find_block
find_block-FoundFits page size [] h = tt
find_block-FoundFits page size (x ∷ bs) h = elim (Bool-cases (x.usable_size == size)) [
  | inl e ↦
      let p : x.usable_size ≡ size = (==_iff x.usable_size size).0 e in
      rw e (omega (arith, h.0, p), h.1, omega arith)
  | inr e ↦
      rw e
        (keep_block-FoundFits page size (length bs) x _ h.0 (find_block-FoundFits page size bs h.1))
]

-- What a construction promises. Where memory is refused, the size is allowed and a call has failed:
-- `mmap` or `mprotect` with a guard page, and `new` without one.
abbrev pub Promised : ℕ → SystemAnswers → Options → Created → Type 0
Promised page os o (refused too_small) = o.size < minimum_stack
Promised page os o (refused exceeds_maximum) = (minimum_stack ≤ o.size) × (o.max_size < o.size)
Promised page os o (refused out_of_memory) =
    (minimum_stack ≤ o.size)
    × (o.size ≤ o.max_size)
    × (if o.guard_page then (is_some os.mmap && os.mprotect) ≡ false else is_some os.heap ≡ false)
Promised page os o (made s) =
    (minimum_stack ≤ o.size)
    × (o.size ≤ o.max_size)
    × (if o.guard_page
        then IsRounded page o.size s.size
          × is_some s.mapping ≡ true
          × (s.mapping_size ≡ s.size + page)
        else (s.size ≡ o.size) × (is_some s.storage ≡ true) × (s.storage ≡ os.heap))

map_new-Promised :
    (page : ℕ) (mmap heap : Option ℕ) (mprotect : Bool) (size : ℕ) (pooled : Bool) (o : Options)
    (m : Memory)
    → o.guard_page ≡ true
    → minimum_stack ≤ o.size
    → o.size ≤ o.max_size
    → IsRounded page o.size size
    → size + page < size_mod
    → PoolFits page m
    → Promised page
        (record { mmap = mmap; mprotect = mprotect; heap = heap })
        o
        (map_new page mmap mprotect size pooled m).0
      × PoolFits page (map_new page mmap mprotect size pooled m).1
unfolding map_new
map_new-Promised page none heap mprotect size pooled o m g a b r small f = rw g ((a, b, refl), f)
map_new-Promised page (some x) heap false size pooled o m g a b r small f =
    rw g ((a, b, refl), record { blocks = f.blocks; limited = f.limited })
map_new-Promised page (some x) heap true size pooled o m g a b r small f =
    let t : add64 size page ≡ size + page = ground arith in
    rw (g, t) ((a, b, (r, refl, refl)), record { blocks = f.blocks; limited = f.limited })

on_heap-Promised :
    (page : ℕ) (mmap heap : Option ℕ) (mprotect : Bool) (o : Options)
    → o.guard_page ≡ false
    → minimum_stack ≤ o.size
    → o.size ≤ o.max_size
    → Promised page
        (record { mmap = mmap; mprotect = mprotect; heap = heap })
        o
        (on_heap heap o.size)
unfolding on_heap
on_heap-Promised page mmap none mprotect o g a b = rw g (a, b, refl)
on_heap-Promised page mmap (some x) mprotect o g a b = rw g (a, b, (refl, refl, refl))

reuse_or_map-Promised :
    (page : ℕ) (os : SystemAnswers) (size : ℕ) (o : Options) (m : Memory)
    (found : Option (PooledBlock × List PooledBlock))
    → o.guard_page ≡ true
    → minimum_stack ≤ o.size
    → o.size ≤ o.max_size
    → IsRounded page o.size size
    → size + page < size_mod
    → PoolFits page m
    → FoundFits page size (length m.pool) found
    → Promised page os o (reuse_or_map page os size m found).0
      × PoolFits page (reuse_or_map page os size m found).1
unfolding reuse_or_map
reuse_or_map-Promised page os size o m none g a b r small f k =
    map_new-Promised page os.mmap os.heap os.mprotect size true o m g a b r small f
reuse_or_map-Promised page os size o m (some (x, rest)) g a b r small f k =
    simp g
      ((a, b, (r, refl, k.0)), record { blocks = k.1; limited = omega (arith, k.2, f.limited) })

-- Whatever the system answers: a stack is refused as too small or above its maximum only where it
-- is, and for want of memory only where its size is allowed and `mmap` or `mprotect` fails, with a
-- guard page, or `new` fails, without one. One that is made has the size asked for, rounded up to
-- whole pages if it has a guard page, and its mapping is then that size and one page, also when it
-- comes from the pool; without a guard page its storage is what `new` gave. That each block of the
-- pool is one page longer than its usable size, and that there are at most 64, is kept. The size and
-- two pages are below 2 ^ 64.
pub create-Promised :
    (page : ℕ) (os : SystemAnswers) (o : Options) (m : Memory)
    → 0 < page
    → o.size + 2 * page < size_mod
    → PoolFits page m
    → Promised page os o (create page os o m).0 × PoolFits page (create page os o m).1
unfolding create
create-Promised page os o m p small f = elim (Bool-cases (ltb o.size minimum_stack)) [
  | inl a ↦ rw a (ground arith, f)
  | inr a ↦ elim (Bool-cases (ltb o.max_size o.size)) [
    | inl b ↦ rw (a, b) ((ground arith, ground arith), f)
    | inr b ↦
        let low : minimum_stack ≤ o.size = ground arith in
        let high : o.size ≤ o.max_size = ground arith in
        let r = rounded-IsRounded page o.size p (omega arith) in
        elim (Bool-cases o.guard_page) [
          | inr g ↦
              simp (a, b, g) (on_heap-Promised page os.mmap os.heap os.mprotect o g low high, f)
          | inl g ↦ elim (Bool-cases o.pool) [
            | inl q ↦
                simp (a, b, g, q)
                  (reuse_or_map-Promised page os _ o m _ g low high r (omega (arith, r.close)) f
                    (find_block-FoundFits page _ m.pool f.blocks))
            | inr q ↦
                simp (a, b, g, q)
                  (map_new-Promised page os.mmap os.heap os.mprotect _ false o m g low high r
                    (omega (arith, r.close)) f)
          ]
        ]
  ]
]

-- The destructor keeps this of the pool: it has at most 64 blocks, and each mapping is one page longer
-- than the block's usable size. It needs that of the stack's own mapping.
pub destroy-PoolFits :
    (page : ℕ) (s : StackAllocator) (m : Memory)
    → StackFits page s s.mapping
    → PoolFits page m
    → PoolFits page (destroy page s m)
unfolding destroy destroy_mapping
destroy-PoolFits page s m h f = by_mapping s.mapping h
  where
    by_mapping : (o : Option ℕ) → StackFits page s o → PoolFits page (destroy_mapping page s m o)
    by_mapping none k = f
    by_mapping (some a) k = elim (Bool-cases s.pooled) [
      | inr p ↦ simp p (record { blocks = f.blocks; limited = f.limited })
      | inl p ↦ elim (Bool-cases (ltb (length m.pool) pool_limit)) [
        | inr b ↦ simp (p, b) (record { blocks = f.blocks; limited = f.limited })
        | inl b ↦
            let block : PooledBlock = record {
              mapping = a;
              mapping_size = s.mapping_size;
              usable_size = s.size;
            } in
            simp (p, b)
              (record {
                blocks = All-append (BlockFits page) m.pool (block ∷ []) f.blocks (k, tt);
                limited = ground (arith, length-append m.pool (block ∷ []), b);
              })
      ]
    ]
