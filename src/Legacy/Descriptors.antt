-- ===== src/Legacy/Descriptors.antt =====
-- fiber_lib/6hook/fd_manager.h, fd_manager.cpp: `FdCtx` and `FdManager`. What `fstat` and `fcntl`
-- answer is an argument. A pointer to a context is the context; a null pointer is `none`.
use coroutine_library.Prelude.{
  ℕ, zero, suc, ◌*◌, ◌/◌, ◌≤◌, ◌<◌, ◌≡◌, refl, ap, ◌∙◌, Bool, true, false, Option, none, some,
  if◌then◌else◌, List, [], ◌∷◌, ltb, leb, length, get_elem?, get_elem?-set_self, set, is_some, not,
  ◌||◌, Bool-cases, inl, inr, if_true, arith,
}
use coroutine_library.Prelude.Int.{ℤ, pos, negsuc}
use coroutine_library.Prelude.Words.{size_max}

pub record FdCtx : Type 0 where
  pub is_init : Bool
  pub is_socket : Bool
  pub sys_nonblock : Bool
  pub user_nonblock : Bool
  pub is_closed : Bool
  pub fd : ℕ
  pub recv_timeout : ℕ
  pub send_timeout : ℕ

-- What `fstat` says of a descriptor.
pub data Stat : Type 0 where
  no_file socket_file other_file : Stat

-- `init`, and whether it makes the descriptor non-blocking; `nonblocking` is whether it was.
unfoldable pub init_stat : Bool → FdCtx → Stat → FdCtx × Bool
init_stat nonblocking c no_file =
    (record c { is_init = false; is_socket = false; sys_nonblock = false }, false)
init_stat nonblocking c other_file =
    (record c { is_init = true; is_socket = false; sys_nonblock = false }, false)
init_stat nonblocking c socket_file =
    (record c { is_init = true; is_socket = true; sys_nonblock = true }, not nonblocking)

unfoldable pub init : Stat → Bool → FdCtx → FdCtx × Bool
unfolding init_stat
init stat nonblocking c = if c.is_init then (c, false) else init_stat nonblocking c stat

-- The constructor.
unfoldable pub new_ctx : ℕ → Stat → Bool → FdCtx
unfolding init
new_ctx fd stat nonblocking =
    (init stat nonblocking (record {
      is_init = false;
      is_socket = false;
      sys_nonblock = false;
      user_nonblock = false;
      is_closed = false;
      fd = fd;
      recv_timeout = size_max;
      send_timeout = size_max;
    })).0

-- `setTimeout` and `getTimeout`; `receives` is `type == SO_RCVTIMEO`.
unfoldable pub set_timeout : Bool → ℕ → FdCtx → FdCtx
set_timeout receives v c =
    if receives then record c { recv_timeout = v } else record c { send_timeout = v }

unfoldable pub get_timeout : Bool → FdCtx → ℕ
get_timeout receives c = if receives then c.recv_timeout else c.send_timeout

abbrev pub FdManager : Type 0
FdManager = List (Option FdCtx)

-- `m_datas.resize(n)`.
unfoldable pub resize : ℕ → FdManager → FdManager
resize zero m = []
resize (suc n) [] = none ∷ resize n []
resize (suc n) (c ∷ m) = c ∷ resize n m

unfoldable pub new_manager : FdManager
unfolding resize
new_manager = resize 64 []

-- The part of `get` under the write lock; `none` is a write behind the end.
unfoldable pub create_ctx : ℕ → Stat → Bool → FdManager → Option (Option FdCtx × FdManager)
unfolding resize
create_ctx n stat nonblocking m =
    let c : FdCtx = new_ctx n stat nonblocking in
    let grown : FdManager = if leb (length m) n then resize (n * 3 / 2) m else m in
    if ltb n (length grown) then some (some c, set grown n (some c)) else none

get_found :
    ℕ → Bool → Stat → Bool → FdManager → Option (Option FdCtx) → Option (Option FdCtx × FdManager)
unfolding create_ctx
get_found n auto_create stat nonblocking m none =
    if auto_create then create_ctx n stat nonblocking m else some (none, m)
get_found n auto_create stat nonblocking m (some c) =
    if is_some c || not auto_create then some (c, m) else create_ctx n stat nonblocking m

-- `get`. Below -1 the number is a huge index, and the vector cannot grow so far.
unfoldable pub get : ℤ → Bool → Stat → Bool → FdManager → Option (Option FdCtx × FdManager)
unfolding get_found
get (pos n) auto_create stat nonblocking m =
    get_found n auto_create stat nonblocking m (get_elem? m n)
get (negsuc zero) auto_create stat nonblocking m = some (none, m)
get (negsuc (suc n)) auto_create stat nonblocking m = if auto_create then none else some (none, m)

-- `del`; an index out of range changes nothing.
unfoldable pub del : ℕ → FdManager → FdManager
del n m = set m n none

length-resize : (n : ℕ) (m : FdManager) → length (resize n m) ≡ n
unfolding resize
length-resize zero m = refl
length-resize (suc n) [] = ap suc (length-resize n [])
length-resize (suc n) (c ∷ m) = ap suc (length-resize n m)

create_ctx-get :
    (n : ℕ) (stat : Stat) (nonblocking : Bool) (m : FdManager)
    → 2 ≤ length m
    → (c : FdCtx) × (m' : FdManager) × (create_ctx n stat nonblocking m ≡ some (some c, m'))
      × (get_elem? m' n ≡ some (some c))
unfolding create_ctx
create_ctx-get n stat nonblocking m two =
    let c : FdCtx = new_ctx n stat nonblocking in
    let grown : FdManager = if leb (length m) n then resize (n * 3 / 2) m else m in
    let room : n < length grown = elim (Bool-cases (leb (length m) n)) [
      | inl b ↦ rw b (ground (arith, length-resize (n * 3 / 2) m, b))
      | inr b ↦ rw b (ground arith)
    ] in
    let fits : ltb n (length grown) ≡ true = ground arith in
    (c, set grown n (some c), if_true _ _ fits, get_elem?-set_self grown n (some c) room)

-- From a manager with at least two entries, `get` with `auto_create` answers a context for every
-- descriptor number, and a later `get` of the number answers the same context and changes nothing.
pub get-get :
    (n : ℕ) (stat stat' : Stat) (nonblocking nonblocking' auto_create : Bool) (m : FdManager)
    → 2 ≤ length m
    → (c : FdCtx) × (m' : FdManager) × (get (pos n) true stat nonblocking m ≡ some (some c, m'))
      × (get (pos n) auto_create stat' nonblocking' m' ≡ some (some c, m'))
unfolding get get_found
get-get n stat stat' nonblocking nonblocking' auto_create m two = by_entry (get_elem? m n) refl
  where
    again :
        (c : FdCtx) (m' : FdManager)
        → get_elem? m' n ≡ some (some c)
        → get_found n auto_create stat' nonblocking' m' (get_elem? m' n) ≡ some (some c, m')
    again c m' e = ap (get_found n auto_create stat' nonblocking' m') e

    by_entry :
        (o : Option (Option FdCtx))
        → get_elem? m n ≡ o
        → (c : FdCtx) × (m' : FdManager) × (get_found n true stat nonblocking m (get_elem? m n)
            ≡ some (some c, m'))
          × (get_found n auto_create stat' nonblocking' m' (get_elem? m' n) ≡ some (some c, m'))
    by_entry (some (some c)) e = (c, m, ap (get_found n true stat nonblocking m) e, again c m e)
    by_entry (some none) e =
        let (c, m', made, found) = create_ctx-get n stat nonblocking m two in
        (c, m', ap (get_found n true stat nonblocking m) e ∙ made, again c m' found)
    by_entry none e =
        let (c, m', made, found) = create_ctx-get n stat nonblocking m two in
        (c, m', ap (get_found n true stat nonblocking m) e ∙ made, again c m' found)
