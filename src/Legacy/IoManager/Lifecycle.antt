-- ===== src/Legacy/IoManager/Lifecycle.antt =====
-- fiber_lib/6hook/ioscheduler.cpp: the constructor of `IOManager`, which makes the scheduler, the
-- epoll descriptor with the pipe that wakes it, the table of contexts, and then the threads.
use coroutine_library.Prelude.{
  ℕ, ◌+◌, ◌<◌, ◌≡◌, refl, sym, ◌∙◌, Bool, false, Option, none, some, if◌then◌else◌, length, ltb,
  not, ◌==◌, ◌&&◌, Bool-cases, inl, inr, if_true, if_false, arith,
}
use coroutine_library.Prelude.Int.{ℤ}
use coroutine_library.Prelude.Words.{size_mod}
use coroutine_library.Legacy.Pool.{Pool, starts, construct, start, pool_step}
use coroutine_library.Legacy.Pool.Counts.{append-new_workers}
use coroutine_library.Legacy.Pool.Stopped.{PoolReached, constructed, advanced}
use coroutine_library.Legacy.IoManager.{IoManager, new_manager}
use coroutine_library.Legacy.IoManager.History.{Reached, started}

-- What the system calls of the constructor say: whether `epoll_create` gives a descriptor above 0,
-- and `pipe`, `fcntl` and `epoll_ctl` succeed.
pub record Setup : Type 0 where
  pub has_epoll : Bool
  pub has_pipe : Bool
  pub is_nonblocking : Bool
  pub is_registered : Bool

module _ {F C : Type 0} where
  with_manager : Option (Pool F C) → Option (Pool F C × IoManager F C)
  with_manager none = none
  with_manager (some p) = some (p, new_manager)

  set_up : Setup → (ℕ → ℤ) → Option (Pool F C) → Option (Pool F C × IoManager F C)
  unfolding with_manager
  set_up k ids none = none
  set_up k ids (some p) =
      if k.has_epoll && (k.has_pipe && (k.is_nonblocking && k.is_registered))
      then with_manager (start ids p)
      else none

  -- `IOManager(threads, use_caller, name)`.
  unfoldable pub make_io_manager :
      Setup → ℕ → Bool → Bool → ℤ → (ℕ → ℤ) → Option (Pool F C × IoManager F C)
  unfolding set_up
  make_io_manager k threads use_caller free root ids =
      set_up k ids (construct threads use_caller free root)

  with_manager-some :
      (o : Option (Pool F C)) (p : Pool F C) (m : IoManager F C)
      → with_manager o ≡ some (p, m)
      → (o ≡ some p) × (new_manager ≡ m)
  unfolding with_manager
  with_manager-some none p m h = absurd (cc)
  with_manager-some (some q) p m h = (cc, cc)

  from_some : {p : Pool F C} (q : Pool F C) → some p ≡ some q → p ≡ q
  from_some q e = cc

  constructed_workers :
      (threads : ℕ) (use_caller free : Bool) (root : ℤ) (p : Pool F C)
      → construct threads use_caller free root ≡ some p
      → (p.list.stopping ≡ false) × (p.held ≡ 0) × (length p.workers + p.thread_count ≡ threads)
  unfolding construct
  constructed_workers threads use_caller free root p h = elim (Bool-cases (ltb 0 threads && free)) [
    | inl e ↦ rw (sym (from_some p (sym (if_true _ _ e) ∙ h))) (elim (Bool-cases use_caller) [
      | inl u ↦ rw u (refl, refl, ground (arith, e))
      | inr u ↦ rw u (refl, refl, omega arith)
    ])
    | inr e ↦ absurd (let no = sym (if_false _ _ e) ∙ h in cc)
  ]

  started_workers :
      (ids : ℕ → ℤ) (p q : Pool F C)
      → p.list.stopping ≡ false
      → p.held ≡ 0
      → start ids p ≡ some q
      → length q.workers ≡ length p.workers + p.thread_count
  unfolding start
  started_workers ids p q e z h =
      let not_held : not (p.held == 0) ≡ false = ground (arith, z) in
      rw (sym (from_some q (sym (if_false _ _ e ∙ if_false _ _ not_held) ∙ h)))
        (append-new_workers p.workers p.thread_count ids).2

  set_up-Reached :
      (k : Setup) (threads : ℕ) (use_caller free : Bool) (root : ℤ) (ids : ℕ → ℤ)
      → (o : Option (Pool F C)) (q : Pool F C) (m : IoManager F C) → threads < size_mod
      → construct threads use_caller free root ≡ o
      → set_up k ids o ≡ some (q, m)
      → PoolReached q × Reached m × (length q.workers ≡ threads)
  unfolding set_up
  set_up-Reached k threads u f root ids none q m b c h = absurd (cc)
  set_up-Reached k threads u f root ids (some p) q m b c h =
      elim (Bool-cases (k.has_epoll && (k.has_pipe && (k.is_nonblocking && k.is_registered)))) [
        | inl e ↦
            let (went, same) = with_manager-some (start ids p) q m (sym (if_true _ _ e) ∙ h) in
            (
              (unfold pool_step in
                  advanced (starts ids) (constructed threads u f root b c) tt went),
              rw (sym same) started,
              (let (on, held, count) = constructed_workers threads u f root p c in
                  started_workers ids p q on held went ∙ count),
            )
        | inr e ↦ absurd (let no = sym (if_false _ _ e) ∙ h in cc)
      ]

  -- The constructor, where no assertion of it fails: its scheduler and its table are ones that the
  -- histories of each start from, and with the caller's thread, if it is used, there are as many
  -- threads as were asked for.
  pub make_io_manager-Reached :
      (k : Setup) (threads : ℕ) (use_caller free : Bool) (root : ℤ) (ids : ℕ → ℤ)
      → (q : Pool F C) (m : IoManager F C) → threads < size_mod
      → make_io_manager k threads use_caller free root ids ≡ some (q, m)
      → PoolReached q × Reached m × (length q.workers ≡ threads)
  unfolding make_io_manager
  make_io_manager-Reached k threads u f root ids q m b h =
      set_up-Reached k threads u f root ids (construct threads u f root) q m b refl h
