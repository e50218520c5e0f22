-- ===== src/StackAllocator/Reuse.antt =====
-- src/stack_allocator.cpp: a stack that goes back to the pool and is taken from there again.
use coroutine_library.Prelude.{
  ℕ, ◌+◌, ◌≤◌, ◌<◌, ◌≡◌, refl, sym, ap, ◌∙◌, true, false, Option, none, some, List, [], ◌∷◌, ◌++◌,
  ltb, ◌==◌, ==_iff, ◌&&◌, length, Bool-cases, inl, inr, if_true, if_false, arith,
}
use coroutine_library.StackAllocator.{
  Options, PooledBlock, StackAllocator, made, cleared, Memory, SystemAnswers, minimum_stack,
  pool_limit, noted, rounded, keep_block, find_block, on_mapping, reuse_or_map, create, destroy,
  destroy_mapping,
}

keep_block-none :
    (b : PooledBlock) (o : Option (PooledBlock × List PooledBlock))
    → keep_block b o ≡ none
    → o ≡ none
unfolding keep_block
keep_block-none b none e = refl
keep_block-none b (some (c, rest)) e = cc

find_block-append :
    (size : ℕ) (bs : List PooledBlock) (b : PooledBlock)
    → find_block size bs ≡ none
    → b.usable_size ≡ size
    → find_block size (bs ++ b ∷ []) ≡ some (b, bs)
unfolding find_block
find_block-append size [] b e s =
    let q : (b.usable_size == size) ≡ true = (==_iff b.usable_size size).1 s in if_true _ _ q
find_block-append size (x ∷ bs) b e s = elim (Bool-cases (x.usable_size == size)) [
  | inl q ↦ absurd (let p : some (x, bs) ≡ none = sym (if_true _ _ q) ∙ e in cc)
  | inr q ↦
      let none_left : find_block size bs ≡ none = keep_block-none x _ (sym (if_false _ _ q) ∙ e) in
      if_false _ _ q
      ∙ ap (keep_block x) (find_block-append size bs b none_left s)
      ∙ (unfold keep_block in refl)
]

-- A pooled stack is destroyed while the pool has room and no block of its size. The next
-- construction with a guard page and the pool, of a size that rounds to the same, gets that mapping
-- without asking the system for one; the pool is then as it was, and the stack has been filled with
-- zeros.
pub create-destroy :
    (page : ℕ) (os : SystemAnswers) (o : Options) (s : StackAllocator) (m : Memory) (a : ℕ)
    → s.mapping ≡ some a
    → s.pooled ≡ true
    → length m.pool < pool_limit
    → find_block s.size m.pool ≡ none
    → minimum_stack ≤ o.size
    → o.size ≤ o.max_size
    → o.guard_page ≡ true
    → o.pool ≡ true
    → rounded page o.size ≡ s.size
    → create page os o (destroy page s m)
      ≡ (made (on_mapping a s.mapping_size s.size true), noted (cleared (a + page) s.size) m)
unfolding create destroy destroy_mapping reuse_or_map
create-destroy page os o s m a e p room free low high g q r =
    let block : PooledBlock = record {
      mapping = a;
      mapping_size = s.mapping_size;
      usable_size = s.size;
    } in
    let pooled : Memory =
      noted (cleared (a + page) s.size) (record m { pool = m.pool ++ block ∷ [] }) in
    let given_back : destroy page s m ≡ pooled =
      ap (destroy_mapping page s m) e
      ∙ if_true {b = s.pooled && ltb (length m.pool) pool_limit} _ _ (ground (arith, p)) in
    let b1 : ltb o.size minimum_stack ≡ false = ground arith in
    let b2 : ltb o.max_size o.size ≡ false = ground arith in
    ap (create page os o) given_back
    ∙ if_false _ _ b1
    ∙ if_false _ _ b2
    ∙ if_true _ _ g
    ∙ if_true _ _ q
    ∙ ap (λ n. reuse_or_map page os n pooled (find_block n pooled.pool)) r
    ∙ ap (reuse_or_map page os s.size pooled) (find_block-append s.size m.pool block free refl)
