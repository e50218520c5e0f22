-- ===== src/Legacy/Collecting.antt =====
-- fiber_lib/6hook/timer.cpp: the callbacks that `listExpiredCb` hands out.
use coroutine_library.Prelude.{
  ℕ, zero, suc, ◌+◌, ◌*◌, ◌≤◌, ◌<◌, ◌≡◌, refl, sym, subst, ap, ◌∙◌, true, false, Option, none, some,
  List, [], ◌∷◌, ltb, leb, ◌==◌, Bool-cases, inl, inr, if_true, if_false, arith,
}
use coroutine_library.Prelude.Maps.{Map, put, nat_eq}
use coroutine_library.Legacy.Timers.{
  Timer, Keyed, TimerManager, ns_per_milli, take_found, cons_cb, list_loop, list_expired,
  detect_rollover,
}
use coroutine_library.Legacy.Due.{
  count_due, IsOrdered, IsDistinct, insert_key-IsOrdered, insert_key-IsDistinct,
  insert_key-count_due, All-lt, count_due-zero, cb_of, due_cbs, due_cbs-insert_key, due_cbs-put,
  due_cbs-none,
}

module _ {C : Type 0} where
  -- Recurring timers have a period.
  abbrev pub IsRegular : Map ℕ (Timer C) → Type 0
  IsRegular objects = (id : ℕ) (t : Timer C) → objects id ≡ some t → t.recurring ≡ true → 0 < t.ms

  from_some : (t u : Timer C) → some t ≡ some u → t ≡ u
  from_some t u e = cc

  put-IsRegular :
      (objects : Map ℕ (Timer C)) (id : ℕ) (t : Timer C)
      → IsRegular objects
      → (t.recurring ≡ true → 0 < t.ms)
      → IsRegular (put objects id t)
  put-IsRegular objects id t h k j u e r = elim (Bool-cases (id == j)) [
    | inl d ↦
        (let same : t ≡ u = from_some t u (sym (if_true _ _ d) ∙ e) in
          subst (λ v. 0 < v.ms) same (k (ap (λ v. v.recurring) same ∙ r)))
    | inr d ↦ h j u (sym (if_false _ _ d) ∙ e) r
  ]

  -- What it is to take the first timer out.
  record Took (now : ℕ) (x : Keyed) (xs : List Keyed) (m : TimerManager C)
      (r : Option C × TimerManager C) : Type 0 where
    cb : r.0 ≡ cb_of (m.objects x.object)
    ordered : IsOrdered r.1.timers
    distinct : IsDistinct r.1.timers
    regular : IsRegular r.1.objects
    count : count_due now r.1.timers ≡ count_due now xs
    rest : due_cbs now r.1.objects r.1.timers ≡ due_cbs now m.objects xs

  take_found-Took :
      (now : ℕ) (x : Keyed) (xs : List Keyed) (m : TimerManager C)
      → IsOrdered (x ∷ xs)
      → IsDistinct (x ∷ xs)
      → IsRegular m.objects
      → (o : Option (Timer C)) → m.objects x.object ≡ o
      → Took now x xs m (take_found now x xs m o)
  unfolding take_found
  take_found-Took now x xs m ord dist reg none e = record {
    cb = sym (ap cb_of e);
    ordered = ord.1;
    distinct = dist.1;
    regular = reg;
    count = refl;
    rest = refl;
  }
  take_found-Took now x xs m ord dist reg (some t) e = elim (Bool-cases t.recurring) [
    | inl r ↦
        let next : ℕ = now + t.ms * ns_per_milli in
        let later : now < next = (let pos_ms = reg x.object t e r in omega arith) in
        let k : Keyed = record { key = next; object = x.object } in
        let t' : Timer C = record t { next = next } in
        subst (Took now x xs m) (sym (if_true _ _ r)) (record {
          cb = sym (ap cb_of e);
          ordered = insert_key-IsOrdered k xs ord.1;
          distinct = insert_key-IsDistinct k xs dist.0 dist.1;
          regular = put-IsRegular m.objects x.object t' reg (λ q. reg x.object t e q);
          count = insert_key-count_due now k xs later;
          rest =
              due_cbs-insert_key now (put m.objects x.object t') k xs later
              ∙ due_cbs-put now x.object t' m.objects xs dist.0;
        })
    | inr r ↦
        let t' : Timer C = record t { cb = none } in
        subst (Took now x xs m) (sym (if_false _ _ r)) (record {
          cb = sym (ap cb_of e);
          ordered = ord.1;
          distinct = dist.1;
          regular = put-IsRegular m.objects x.object t' reg (λ q. absurd (cc));
          count = refl;
          rest = due_cbs-put now x.object t' m.objects xs dist.0;
        })
  ]

  -- The loop on a set of timers, with turns enough for those that are due.
  Collects : ℕ → ℕ → List Keyed → TimerManager C → Type 0
  Collects fuel now xs m =
      (m' : TimerManager C) × (list_loop fuel now false xs m ≡ some (due_cbs now m.objects xs, m'))
      × (count_due now m'.timers ≡ 0)

  list_loop-due :
      (fuel now : ℕ) (x : Keyed) (xs : List Keyed) (m : TimerManager C)
      → leb x.key now ≡ true
      → (let r = take_found now x xs m (m.objects x.object) in
          Took now x xs m r → Collects fuel now r.1.timers r.1 → Collects (suc fuel) now (x ∷ xs) m)
  unfolding list_loop Collects cons_cb
  list_loop-due fuel now x xs m due t (m', e, z) =
      let r = take_found now x xs m (m.objects x.object) in
      (
        m',
        (let all = ap (cons_cb r.0) e in
            rw due (
              all
              ∙ ap (λ c. some (c ∷ due_cbs now r.1.objects r.1.timers, m')) t.cb
              ∙ ap (λ cs. some (cb_of (m.objects x.object) ∷ cs, m')) t.rest)),
        z,
      )

  list_loop-not_due :
      (fuel now : ℕ) (x : Keyed) (xs : List Keyed) (m : TimerManager C)
      → m.timers ≡ x ∷ xs
      → leb x.key now ≡ false
      → IsOrdered (x ∷ xs)
      → Collects fuel now (x ∷ xs) m
  unfolding Collects list_loop
  list_loop-not_due zero now x xs m e h ord =
      let after = All-lt now x.key xs (ground arith) ord.0 in
      let none_due = due_cbs-none now m.objects xs after in
      let zero_due = count_due-zero now xs after in
      (m, rw (h, none_due) refl, ap (count_due now) e ∙ rw h zero_due)
  list_loop-not_due (suc fuel) now x xs m e h ord =
      let after = All-lt now x.key xs (ground arith) ord.0 in
      let none_due = due_cbs-none now m.objects xs after in
      let zero_due = count_due-zero now xs after in
      (m, rw (h, none_due) refl, ap (count_due now) e ∙ rw h zero_due)

  list_loop-Collects :
      (fuel now : ℕ) (xs : List Keyed) (m : TimerManager C)
      → m.timers ≡ xs
      → count_due now xs ≤ fuel
      → IsOrdered xs
      → IsDistinct xs
      → IsRegular m.objects
      → Collects fuel now xs m
  unfolding Collects list_loop
  list_loop-Collects zero now [] m e few ord dist reg = (m, refl, ap (count_due now) e)
  list_loop-Collects (suc fuel) now [] m e few ord dist reg = (m, refl, ap (count_due now) e)
  list_loop-Collects zero now (x ∷ xs) m e few ord dist reg =
      list_loop-not_due zero now x xs m e (ground arith) ord
  list_loop-Collects (suc fuel) now (x ∷ xs) m e few ord dist reg =
      elim (Bool-cases (leb x.key now)) [
        | inl due ↦
            let r = take_found now x xs m (m.objects x.object) in
            let t = take_found-Took now x xs m ord dist reg (m.objects x.object) refl in
            list_loop-due fuel now x xs m due t (
              list_loop-Collects fuel now r.1.timers r.1 refl (ground (arith, t.count)) t.ordered
                t.distinct t.regular)
        | inr not_due ↦ list_loop-not_due (suc fuel) now x xs m e not_due ord
      ]

  -- The clock has not gone back by more than an hour, the set is in the order of its keys and holds
  -- no object twice, and recurring timers have a period: with as many turns as timers are due,
  -- `listExpiredCb` comes to its end, hands out the callbacks of exactly the timers that are due,
  -- soonest first, and leaves none in the set that is due.
  pub list_expired-due :
      (fuel now later : ℕ) (m : TimerManager C)
      → m.previous_time ≤ later + 3_600_000 * ns_per_milli
      → count_due now m.timers ≤ fuel
      → IsOrdered m.timers
      → IsDistinct m.timers
      → IsRegular m.objects
      → (m' : TimerManager C) × (list_expired fuel now later m
          ≡ some (due_cbs now m.objects m.timers, m'))
        × (count_due now m'.timers ≡ 0)
  unfolding list_expired detect_rollover Collects
  list_expired-due fuel now later m forward few ord dist reg =
      let m0 : TimerManager C = record m { previous_time = later } in
      let (m', e, z) = list_loop-Collects fuel now m.timers m0 refl few ord dist reg in
      let b : ltb (later + 3_600_000 * ns_per_milli) m.previous_time ≡ false = ground arith in
      (m', ap (λ q. list_loop fuel now q m.timers m0) b ∙ e, z)
