-- ===== src/Legacy/Expiry.antt =====
-- fiber_lib/6hook/timer.cpp: a clock that has gone back.
use coroutine_library.Prelude.{
  ℕ, zero, suc, ◌+◌, ◌*◌, ◌<◌, ◌≡◌, refl, ap, ◌∙◌, true, none, some, [], ◌∷◌, ltb, ==_iff, if_true,
  arith,
}
use coroutine_library.Prelude.Maps.{put, nat_eq}
use coroutine_library.Legacy.Timers.{
  Timer, Keyed, TimerManager, ns_per_milli, insert_key, take_found, cons_cb, list_loop,
  list_expired, detect_rollover,
}

module _ {C : Type 0} where
  -- The loop on one recurring timer, with the clock gone back.
  list_loop-recurring :
      (fuel now : ℕ) (x : Keyed) (t : Timer C) (m : TimerManager C)
      → m.objects x.object ≡ some t
      → t.recurring ≡ true
      → list_loop fuel now true (x ∷ []) m ≡ none
  unfolding list_loop
  list_loop-recurring zero now x t m e r = refl
  list_loop-recurring (suc fuel) now x t m e r =
      let next : ℕ = now + t.ms * ns_per_milli in
      let m' : TimerManager C = record m {
        objects = put m.objects x.object (record t { next = next });
        timers = record { key = next; object = x.object } ∷ [];
      } in
      let taken : take_found now x [] m (m.objects x.object) ≡ (t.cb, m') =
        (unfold take_found in unfold insert_key in ap (take_found now x [] m) e ∙ if_true _ _ r) in
      let self : m'.objects x.object ≡ some (record t { next = next }) =
        if_true _ _ ((==_iff x.object x.object).1 refl) in
      ap (λ q. cons_cb q.0 (list_loop fuel now true q.1.timers q.1)) taken
      ∙ ap (cons_cb t.cb) (list_loop-recurring fuel now _ (record t { next = next }) m' self r)

  -- With one timer, a recurring one, and a clock that has gone back by more than an hour,
  -- `listExpiredCb` does not come to its end, however many turns its loop makes.
  pub list_expired-rollover :
      (fuel now later : ℕ) (x : Keyed) (t : Timer C) (m : TimerManager C)
      → m.timers ≡ x ∷ []
      → m.objects x.object ≡ some t
      → t.recurring ≡ true
      → later + 3_600_000 * ns_per_milli < m.previous_time
      → list_expired fuel now later m ≡ none
  unfolding list_expired detect_rollover
  list_expired-rollover fuel now later x t m e o r back =
      let b : ltb (later + 3_600_000 * ns_per_milli) m.previous_time ≡ true = ground arith in
      let m' : TimerManager C = record m { previous_time = later } in
      ap (λ q. list_loop fuel now q m.timers m') b
      ∙ ap (λ xs. list_loop fuel now true xs m') e
      ∙ list_loop-recurring fuel now x t m' o r
