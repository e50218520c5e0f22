-- ===== src/Tests/Files.antt =====
-- Concrete descriptors, calls and timers of the earlier library.
use coroutine_library.Prelude.{ℕ, ◌≡◌, ◌≢◌, refl, true, false, none, some, [], ◌∷◌, ◌++◌, arith}
use coroutine_library.Prelude.Int.{pos}
use coroutine_library.Prelude.Maps.{put, empty_map, nat_eq}
use coroutine_library.Legacy.Descriptors.{FdCtx, FdManager, socket_file, new_ctx, get_timeout, del}
use coroutine_library.Legacy.Hooks.{
  Attempt, succeeded, interrupted, would_block, answered, has_timer, do_io,
}
use coroutine_library.Legacy.Hooks.Reading.{block_timers, do_io-answered}
use coroutine_library.Legacy.Options.{
  Descriptors, has_nonblock, find_ctx, find_socket, fcntl_setfl, fcntl_getfl, socket, close,
}
use coroutine_library.Legacy.Options.Flags.{fcntl_setfl-getfl}
use coroutine_library.Legacy.Options.Reopening.{close-socket}
use coroutine_library.Legacy.Timers.{Timer, TimerManager, list_expired}
use coroutine_library.Legacy.Due.{count_due, due_cbs}
use coroutine_library.Legacy.Collecting.{IsRegular, list_expired-due}

-- An open socket with a receive timeout of two seconds.
abbrev open_socket : FdCtx
open_socket = record {
  is_init = true;
  is_socket = true;
  sys_nonblock = true;
  user_nonblock = false;
  is_closed = false;
  fd = 1;
  recv_timeout = 2_000;
  send_timeout = 2_000;
}

abbrev table : FdManager
table = none ∷ some open_socket ∷ []

abbrev waits_once : Attempt
waits_once = record { call = would_block; added = true; fired = false }

abbrev signal : Attempt
signal = record { call = interrupted; added = true; fired = false }

abbrev ten_bytes : Attempt
ten_bytes = record { call = succeeded 10; added = true; fired = false }

do_io-answered_example :
    do_io true true (some open_socket) ((signal ∷ waits_once ∷ []) ++ ten_bytes ∷ [])
    ≡ some (record {
      result = answered (succeeded 10);
      timers = block_timers (get_timeout true open_socket) (signal ∷ waits_once ∷ []);
      waits = 1;
    })
unfolding has_timer
do_io-answered_example =
    do_io-answered true open_socket (signal ∷ waits_once ∷ []) ten_bytes [] refl refl refl
      (tt, ((refl, refl), tt)) tt

found : find_socket (pos 1) table ≡ some open_socket
unfolding find_socket
found = refl

found_ctx : find_ctx (pos 1) table ≡ some open_socket
unfolding find_ctx
found_ctx = refl

fcntl_setfl-getfl_example :
    (has_nonblock (fcntl_setfl (pos 1) 1_026 table).0 ≡ true)
    × (fcntl_getfl
          (pos 1)
          (some (fcntl_setfl (pos 1) 1_026 table).0)
          (fcntl_setfl (pos 1) 1_026 table).1
        ≡ pos 1_026)
fcntl_setfl-getfl_example = fcntl_setfl-getfl 1 1_026 table open_socket found

abbrev before : Descriptors ℕ ℕ
before = record { contexts = table; io = none }

abbrev afterwards : Descriptors ℕ ℕ
afterwards = record { contexts = none ∷ none ∷ []; io = none }

closed : close true (pos 1) true before ≡ some afterwards
unfolding close del
closed = refl

close-socket_example :
    (m : FdManager) × (socket true (pos 1) socket_file false afterwards.contexts ≡ some m)
    × (find_ctx (pos 1) m ≡ some (new_ctx 1 socket_file false))
close-socket_example =
    close-socket 1 true socket_file false before afterwards open_socket found_ctx closed

abbrev once : Timer ℕ
once = record { recurring = false; ms = 3; next = 3_000_000; cb = some 11 }

abbrev again : Timer ℕ
again = record { recurring = true; ms = 5; next = 5_000_000; cb = some 12 }

abbrev timers : TimerManager ℕ
timers = record {
  objects = put (put empty_map 0 once) 1 again;
  fresh = 2;
  timers = record { key = 3_000_000; object = 0 } ∷ record { key = 5_000_000; object = 1 } ∷ [];
  tickled = false;
  previous_time = 0;
  wakes = 1;
}

apart : ◌≢◌ {A = ℕ} 1 0
apart e = omega arith

regular : IsRegular timers.objects
regular id t e r = ground arith

list_expired-due_example :
    (m' : TimerManager ℕ) × (list_expired 2 6_000_000 6_000_000 timers
      ≡ some (due_cbs 6_000_000 timers.objects timers.timers, m'))
    × (count_due 6_000_000 m'.timers ≡ 0)
list_expired-due_example =
    list_expired-due 2 6_000_000 6_000_000 timers (omega arith) (omega arith)
      ((omega arith, tt), (tt, tt)) ((apart, tt), (tt, tt)) regular
