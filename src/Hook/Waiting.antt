-- ===== src/Hook/Waiting.antt =====
-- src/hook.cpp: calls that wait for a descriptor.
use coroutine_library.Prelude.{
  ℕ, ◌+◌, ◌≡◌, refl, ap, ◌∙◌, Bool, true, false, none, some, List, [], ◌∷◌, ◌++◌, length, All,
  arith,
}
use coroutine_library.Events.{accepted}
use coroutine_library.Hook.{
  Surroundings, CallResult, succeeded, would_block, Turn, Waited, count_wait, io_turn, io_loop,
  set_nonblocking, io_wait,
}

-- A coroutine can wait here.
pub record CanWait (e : Surroundings) : Type 0 where
  pub enabled : e.enabled ≡ true
  pub in_coroutine : e.in_coroutine ≡ true
  pub has_loop : e.has_loop ≡ true
  pub has_owner : e.has_owner ≡ true

-- A turn in which the descriptor is not ready and the wait comes to its end.
pub record Blocks (t : Turn) : Type 0 where
  pub call : t.call ≡ would_block
  pub registration : t.registration ≡ accepted
  pub waited : t.waited ≡ true

abbrev counted : ℕ → Waited CallResult → Waited CallResult
counted n none = none
counted n (some (r, k)) = some (r, n + k)

Blocks-io_turn :
    (e : Surroundings) (t : Turn) (rest : Waited CallResult)
    → CanWait e
    → Blocks t
    → io_turn e false t t.call rest ≡ count_wait rest
unfolding io_turn
Blocks-io_turn e t rest c b =
    simp (b.call, c.enabled, c.in_coroutine, c.has_loop, c.has_owner, b.registration, b.waited) refl

io_loop-Blocks :
    (e : Surroundings) (ts us : List Turn) (r : CallResult) (k : ℕ)
    → CanWait e
    → All Blocks ts
    → io_loop e false us ≡ some (r, k)
    → io_loop e false (ts ++ us) ≡ some (r, length ts + k)
unfolding io_loop count_wait
io_loop-Blocks e [] us r k c b h = h ∙ ap (λ n. some (r, n)) (omega arith)
io_loop-Blocks e (t ∷ ts) us r k c b h =
    Blocks-io_turn e t _ c b.0
    ∙ ap count_wait (io_loop-Blocks e ts us r k c b.1 h)
    ∙ ap (λ n. some (r, n)) (omega arith)

-- On a descriptor that blocks, in a coroutine with the hook on, a call that is not ready `n` times
-- and then succeeds has that result, and has waited `n` times.
pub io_wait-ready :
    (e : Surroundings) (ts us : List Turn) (t : Turn) (n : ℕ)
    → CanWait e
    → All Blocks ts
    → t.call ≡ succeeded n
    → (io_wait e (some false) (ts ++ t ∷ us)).0 ≡ some (succeeded n, length ts)
unfolding io_wait io_loop io_turn
io_wait-ready e ts us t n c b h =
    io_loop-Blocks e ts (t ∷ us) (succeeded n) 0 c b
      (ap (λ r. io_turn e false t r (io_loop e false us)) h)
    ∙ ap (λ k. some (succeeded n, k)) (omega arith)

-- A first call leaves the descriptor non-blocking. The next call on it that is not ready answers
-- that at once, and never waits, though the descriptor was a blocking one.
pub io_wait-io_wait :
    (e : Surroundings) (ts us : List Turn) (t : Turn) (nonblocking : Bool)
    → t.call ≡ would_block
    → (io_wait e (io_wait e (some nonblocking) ts).1 (t ∷ us)).0 ≡ some (would_block, 0)
unfolding io_wait io_loop io_turn set_nonblocking
io_wait-io_wait e ts us t nonblocking h = ap (λ r. io_turn e true t r (io_loop e true us)) h
