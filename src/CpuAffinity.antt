-- ===== src/CpuAffinity.antt =====
-- include/coroutine/cpu_affinity.h, src/cpu_affinity.cpp. What `sysconf`, `sched_getaffinity` and
-- `pthread_setaffinity_np` answer is an argument.
use coroutine_library.Prelude.{ℕ, zero, suc, Bool, false, if◌then◌else◌, List, [], ◌∷◌}
use coroutine_library.Prelude.Int.{ℤ, pos, is_negative, pos_part}

-- The processors from `cpu` on, `left` in number, that the thread may run on.
unfoldable pub allowed_cpus : (ℕ → Bool) → ℕ → ℕ → List ℤ
allowed_cpus is_set cpu zero = []
allowed_cpus is_set cpu (suc left) =
    let rest = allowed_cpus is_set (suc cpu) left in if is_set cpu then pos cpu ∷ rest else rest

unfoldable pub online_cpus : (ℕ → Bool) → ℤ → List ℤ
unfolding allowed_cpus
online_cpus is_set count = allowed_cpus is_set 0 (pos_part count)

unfoldable pub bind_current_thread : (ℤ → Bool) → ℤ → Bool
bind_current_thread set_affinity cpu_id = if is_negative cpu_id then false else set_affinity cpu_id
