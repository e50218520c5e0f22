-- ===== src/Legacy/Hooks/Calls.antt =====
-- fiber_lib/6hook/hook.cpp: the ten calls that pass their arguments to `do_io`, with the event that
-- each waits for and the option whose timeout it takes.
use coroutine_library.Prelude.{ℕ, ◌≡◌, refl, ap, ◌∙◌, arith, Bool, true, false, Option, some, List}
use coroutine_library.Legacy.Descriptors.{FdCtx, get_timeout}
use coroutine_library.Legacy.EventSets.{Direction, reads, writes}
use coroutine_library.Legacy.Hooks.{Attempt, Done, do_io, io_rounds}

pub data HookedCall : Type 0 where
  read_call readv_call recv_call recvfrom_call recvmsg_call : HookedCall
  write_call writev_call send_call sendto_call sendmsg_call : HookedCall

-- The argument `event`: READ or WRITE.
unfoldable pub event_of : HookedCall → Direction
event_of read_call = reads
event_of readv_call = reads
event_of recv_call = reads
event_of recvfrom_call = reads
event_of recvmsg_call = reads
event_of write_call = writes
event_of writev_call = writes
event_of send_call = writes
event_of sendto_call = writes
event_of sendmsg_call = writes

-- The argument `timeout_so`: whether it is SO_RCVTIMEO.
unfoldable pub is_recv_timeout : HookedCall → Bool
is_recv_timeout read_call = true
is_recv_timeout readv_call = true
is_recv_timeout recv_call = true
is_recv_timeout recvfrom_call = true
is_recv_timeout recvmsg_call = true
is_recv_timeout write_call = false
is_recv_timeout writev_call = false
is_recv_timeout send_call = false
is_recv_timeout sendto_call = false
is_recv_timeout sendmsg_call = false

unfoldable pub hooked_call : HookedCall → Bool → Option FdCtx → List Attempt → Option Done
unfolding is_recv_timeout
hooked_call call enabled ctx as' = do_io enabled (is_recv_timeout call) ctx as'

-- Of a context, the timeout of the direction in which a call waits.
abbrev pub timeout_of : Direction → FdCtx → ℕ
timeout_of reads c = c.recv_timeout
timeout_of writes c = c.send_timeout

get_timeout-event_of :
    (call : HookedCall) (c : FdCtx)
    → get_timeout (is_recv_timeout call) c ≡ timeout_of (event_of call) c
unfolding is_recv_timeout event_of get_timeout
get_timeout-event_of read_call c = refl
get_timeout-event_of readv_call c = refl
get_timeout-event_of recv_call c = refl
get_timeout-event_of recvfrom_call c = refl
get_timeout-event_of recvmsg_call c = refl
get_timeout-event_of write_call c = refl
get_timeout-event_of writev_call c = refl
get_timeout-event_of send_call c = refl
get_timeout-event_of sendto_call c = refl
get_timeout-event_of sendmsg_call c = refl

waiting_call :
    (receives : Bool) (c : FdCtx) (attempts : List Attempt)
    → c.is_closed ≡ false
    → c.is_socket ≡ true
    → c.user_nonblock ≡ false
    → do_io true receives (some c) attempts ≡ io_rounds (get_timeout receives c) attempts
unfolding do_io
waiting_call receives c attempts still_open socket blocking = ground arith

-- On an open blocking socket every one of the ten calls makes its attempts with the timeout of the
-- direction that it waits for.
pub hooked_call-io_rounds :
    (call : HookedCall) (c : FdCtx) (attempts : List Attempt)
    → c.is_closed ≡ false
    → c.is_socket ≡ true
    → c.user_nonblock ≡ false
    → hooked_call call true (some c) attempts ≡ io_rounds (timeout_of (event_of call) c) attempts
unfolding hooked_call
hooked_call-io_rounds call c attempts still_open socket blocking =
    waiting_call (is_recv_timeout call) c attempts still_open socket blocking
    ∙ ap (λ t. io_rounds t attempts) (get_timeout-event_of call c)
