-- ===== src/SocketHooks.antt =====
-- src/socket_hooks.cpp: which way each interposed call takes. Whether `dlsym` has found the C
-- library's function, and what the calls answer, are arguments.
use coroutine_library.Prelude.{
  ◌≡◌, refl, Bool, true, false, Option, none, some, if◌then◌else◌, List, [], ◌∷◌, not, ◌||◌, ◌&&◌,
  Bool-cases, inl, inr,
}
use coroutine_library.Hook.{
  Surroundings, CallResult, succeeded, interrupted, would_block, failed, Waited, count_wait,
}

pub data SocketCall : Type 0 where
  read write readv writev recv recvfrom recvmsg send sendto sendmsg socket accept connect :
      SocketCall

-- The wrappers of src/hook.cpp that a call can go to.
pub data WaitCall : Type 0 where
  read_wait write_wait recv_wait send_wait accept_wait connect_wait : WaitCall

-- A wrapper that waits, the loop of `readv`, the system call, the C library's function, or -1.
pub data Route : Type 0 where
  waits : WaitCall → Route
  readv_loops system_call library_call gives_up : Route

-- The wrapper of a call that has one: those with an address use the one without.
unfoldable pub wait_call : SocketCall → Option WaitCall
wait_call read = some read_wait
wait_call write = some write_wait
wait_call recv = some recv_wait
wait_call recvfrom = some recv_wait
wait_call send = some send_wait
wait_call sendto = some send_wait
wait_call accept = some accept_wait
wait_call connect = some connect_wait
wait_call _ = none

-- Where a call goes outside coroutines.
unfoldable pub unhooked : Bool → SocketCall → Route
unhooked true c = library_call
unhooked false read = system_call
unhooked false write = system_call
unhooked false c = gives_up

hooked_with : Bool → SocketCall → Option WaitCall → Route
hooked_with found c (some w) = waits w
hooked_with found readv none = readv_loops
hooked_with found c none = unhooked found c

-- Where a call goes in a coroutine with the hook on.
unfoldable pub hooked : Bool → SocketCall → Route
unfolding hooked_with
hooked found c = hooked_with found c (wait_call c)

unfoldable pub route : Surroundings → Bool → SocketCall → Route
route e found c = if e.enabled && e.in_coroutine then hooked found c else unhooked found c

readv_turn : Bool → CallResult → Waited CallResult → Waited CallResult
readv_turn waited (succeeded n) rest = some (succeeded n, 0)
readv_turn waited interrupted rest = some (interrupted, 0)
readv_turn waited failed rest = some (failed, 0)
readv_turn waited would_block rest = if not waited then some (would_block, 0) else count_wait rest

-- The loop of `readv`: what each call answers, and whether `Coroutine::wait` succeeds after it. The
-- coroutine stays the current one.
unfoldable pub readv_loop : List (CallResult × Bool) → Waited CallResult
unfolding readv_turn
readv_loop [] = none
readv_loop ((r, waited) ∷ ts) = let rest = readv_loop ts in readv_turn waited r rest

-- The calls that only the C library's function answers, inside coroutines too.
abbrev pub is_plain : SocketCall → Bool
is_plain writev = true
is_plain recvmsg = true
is_plain sendmsg = true
is_plain socket = true
is_plain _ = false

-- With the C library's functions found: a call goes to the library's function outside coroutines,
-- with the hook off, and for the calls that the hook leaves alone; `readv` in a coroutine with the
-- hook on has its own loop, and every other call there goes to its wrapper.
pub route_found :
    (e : Surroundings) (c : SocketCall)
    → route e true c ≡ (
        if not (e.enabled && e.in_coroutine) || is_plain c
        then library_call
        else elim (wait_call c) [ none ↦ readv_loops | some w ↦ waits w ])
unfolding route hooked hooked_with wait_call unhooked
route_found e c = elim (Bool-cases (e.enabled && e.in_coroutine)) [
  | inr b ↦ rw b refl
  | inl b ↦ rw b (inside c)
]
  where
    inside :
        (c : SocketCall)
        → hooked true c ≡ (
            if is_plain c
            then library_call
            else elim (wait_call c) [ none ↦ readv_loops | some w ↦ waits w ])
    inside read = refl
    inside write = refl
    inside readv = refl
    inside writev = refl
    inside recv = refl
    inside recvfrom = refl
    inside recvmsg = refl
    inside send = refl
    inside sendto = refl
    inside sendmsg = refl
    inside socket = refl
    inside accept = refl
    inside connect = refl
