-- ===== src/Legacy/Hooks/Reading.antt =====
-- fiber_lib/6hook/hook.cpp: what `do_io` answers on a socket that the program uses as a blocking one.
use coroutine_library.Prelude.{
  ℕ, suc, ◌+◌, ◌≡◌, refl, ap, ◌∙◌, Bool, true, false, Option, some, if◌then◌else◌, List, [], ◌∷◌,
  ◌++◌, ◌&&◌, arith,
}
use coroutine_library.Legacy.Descriptors.{FdCtx, get_timeout}
use coroutine_library.Legacy.Hooks.{
  IoAnswer, succeeded, interrupted, would_block, failed, Attempt, IoResult, answered, Done,
  has_timer, timers_of, io_round, io_rounds, do_io, after_wait,
}

-- A call that is interrupted, or one that would block, for which the fiber waits and is resumed
-- before a timer fires.
abbrev pub GoesOn : ℕ → Attempt → IoAnswer → Type 0
GoesOn timeout a interrupted = Unit {0}
GoesOn timeout a would_block = (a.added ≡ true) × (a.fired && has_timer timeout ≡ false)
GoesOn timeout a (succeeded n) = ⊥
GoesOn timeout a (failed e) = ⊥

abbrev pub AllGoOn : ℕ → List Attempt → Type 0
AllGoOn timeout [] = Unit {0}
AllGoOn timeout (a ∷ as') = GoesOn timeout a a.call × AllGoOn timeout as'

-- The waits among the attempts, and the timers set for them.
abbrev pub is_block : IoAnswer → Bool
is_block would_block = true
is_block _ = false

abbrev pub blocks : List Attempt → ℕ
blocks [] = 0
blocks (a ∷ as') = if is_block a.call then suc (blocks as') else blocks as'

abbrev pub block_timers : ℕ → List Attempt → List ℕ
block_timers timeout [] = []
block_timers timeout (a ∷ as') =
    if is_block a.call
    then timers_of timeout ++ block_timers timeout as'
    else block_timers timeout as'

-- An answer that ends the loop.
abbrev pub IsFinal : IoAnswer → Type 0
IsFinal (succeeded n) = Unit {0}
IsFinal (failed e) = Unit {0}
IsFinal _ = ⊥

round_final :
    (timeout : ℕ) (a : Attempt) (r : IoAnswer) (rest : Option Done)
    → IsFinal r
    → io_round timeout a r rest ≡ some (record { result = answered r; timers = []; waits = 0 })
unfolding io_round
round_final timeout a (succeeded n) rest h = refl
round_final timeout a (failed e) rest h = refl
round_final timeout a interrupted rest h = elim h [ ]
round_final timeout a would_block rest h = elim h [ ]

after_wait_lem :
    (timeout n : ℕ) (r : IoResult) (ts : List ℕ)
    → after_wait timeout (some (record { result = r; timers = ts; waits = n }))
      ≡ some (record { result = r; timers = timers_of timeout ++ ts; waits = n + 1 })
unfolding after_wait timers_of
after_wait_lem timeout n r ts = ground arith

round-GoesOn :
    (timeout n : ℕ) (a : Attempt) (c : IoAnswer) (r : IoResult) (ts : List ℕ)
    → GoesOn timeout a c
    → io_round timeout a c (some (record { result = r; timers = ts; waits = n }))
      ≡ some (record {
        result = r;
        timers = if is_block c then timers_of timeout ++ ts else ts;
        waits = if is_block c then suc n else n;
      })
unfolding io_round
round-GoesOn timeout n a interrupted r ts h = refl
round-GoesOn timeout n a would_block r ts h = ground (arith, after_wait_lem timeout n r ts)
round-GoesOn timeout n a (succeeded k) r ts h = elim h [ ]
round-GoesOn timeout n a (failed e) r ts h = elim h [ ]

io_rounds-append :
    (timeout : ℕ) (ps : List Attempt) (a : Attempt) (rest : List Attempt)
    → AllGoOn timeout ps
    → IsFinal a.call
    → io_rounds timeout (ps ++ a ∷ rest)
      ≡ some
          (record { result = answered a.call; timers = block_timers timeout ps; waits = blocks ps })
unfolding io_rounds
io_rounds-append timeout [] a rest h f = round_final timeout a a.call (io_rounds timeout rest) f
io_rounds-append timeout (p ∷ ps) a rest h f =
    ap (io_round timeout p p.call) (io_rounds-append timeout ps a rest h.1 f)
    ∙ round-GoesOn timeout (blocks ps) p p.call (answered a.call) (block_timers timeout ps) h.0

-- On a hooked, open socket that the program has not made non-blocking: after any attempts that are
-- interrupted, or that would block and whose fiber is resumed before a timer fires, `do_io` answers
-- what the next system call does, if that succeeds or fails otherwise. It has waited once for each
-- attempt that would block, and set a timer for each of these exactly if there is a timeout.
pub do_io-answered :
    (receives : Bool) (c : FdCtx) (ps : List Attempt) (a : Attempt) (rest : List Attempt)
    → c.is_closed ≡ false
    → c.is_socket ≡ true
    → c.user_nonblock ≡ false
    → AllGoOn (get_timeout receives c) ps
    → IsFinal a.call
    → do_io true receives (some c) (ps ++ a ∷ rest)
      ≡ some (record {
        result = answered a.call;
        timers = block_timers (get_timeout receives c) ps;
        waits = blocks ps;
      })
unfolding do_io
do_io-answered receives c ps a rest still_open socket blocking h f =
    let tail = io_rounds-append (get_timeout receives c) ps a rest h f in
    simp (still_open, socket, blocking) tail
