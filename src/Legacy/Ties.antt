-- ===== src/Legacy/Ties.antt =====
-- fiber_lib/6hook/timer.cpp: two timers with one deadline, which the set keeps one of.
use coroutine_library.Prelude.{
  ℕ, ◌+◌, ◌*◌, ◌<◌, ◌≡◌, refl, sym, subst, ap, ◌∙◌, Bool, true, false, some, List, [], ◌∷◌, ltb,
  ◌==◌, ==_iff, All, Bool-cases, inl, inr, if_true, arith,
}
use coroutine_library.Prelude.Maps.{put, nat_eq}
use coroutine_library.Legacy.Timers.{
  Timer, Keyed, TimerManager, ns_per_milli, insert_key, has_key, erase_key, add_timer, cancel,
  cancel_found, insert_timer,
}
use coroutine_library.Legacy.Due.{IsOrdered, All-lt}

has_key_below : (n : ℕ) (xs : List Keyed) → All (λ y. n < y.key) xs → has_key n xs ≡ false
unfolding has_key
has_key_below n [] h = refl
has_key_below n (x ∷ xs) h = ground (arith, has_key_below n xs h.1)

has_key-erase : (n : ℕ) (xs : List Keyed) → IsOrdered xs → has_key n (erase_key n xs) ≡ false
unfolding has_key erase_key
has_key-erase n [] h = refl
has_key-erase n (x ∷ xs) h = elim (Bool-cases (n == x.key)) [
  | inl e ↦
      rw e
        (has_key_below n xs (subst (λ k. All (λ y. k < y.key) xs) (sym ((==_iff n x.key).0 e)) h.0))
  | inr e ↦ ground (arith, has_key-erase n xs h.1)
]

-- A key that is in the set already is not inserted.
insert_key_present :
    (k : Keyed) (xs : List Keyed) → IsOrdered xs → has_key k.key xs ≡ true → insert_key k xs ≡ xs
unfolding insert_key has_key
insert_key_present k [] ord h = absurd (cc)
insert_key_present k (x ∷ xs) ord h = elim (Bool-cases (ltb k.key x.key)) [
  | inl e ↦
      let lt : k.key < x.key = ground arith in
      let none_there = has_key_below k.key xs (All-lt k.key x.key xs lt ord.0) in
      absurd (ground arith)
  | inr e ↦ ground (arith, insert_key_present k xs ord.1)
]

module _ {C : Type 0} where
  insert_timer_parts :
      (key object : ℕ) (m : TimerManager C)
      → ((insert_timer key object m).timers
          ≡ insert_key (record { key = key; object = object }) m.timers)
        × ((insert_timer key object m).objects ≡ m.objects)
  unfolding insert_timer
  insert_timer_parts key object m = (ground arith, ground arith)

  -- A new timer with the deadline of one that is in the set is not inserted. Its `cancel` answers
  -- true and takes the other out.
  pub add_timer-cancel :
      (now ms : ℕ) (cb : C) (recurring : Bool) (m : TimerManager C)
      → IsOrdered m.timers
      → has_key (now + ms * ns_per_milli) m.timers ≡ true
      → (let r = add_timer now ms cb recurring m in
          let q = cancel r.0 r.1 in
          (r.1.timers ≡ m.timers)
          × (q.0 ≡ true)
          × (has_key (now + ms * ns_per_milli) q.1.timers ≡ false))
  unfolding add_timer cancel
  add_timer-cancel now ms cb recurring m ord h =
      let next : ℕ = now + ms * ns_per_milli in
      let t : Timer C = record { recurring = recurring; ms = ms; next = next; cb = some cb } in
      let m0 : TimerManager C = record m {
        objects = put m.objects m.fresh t;
        fresh = m.fresh + 1;
      } in
      let m1 : TimerManager C = insert_timer next m.fresh m0 in
      let (timers, objects) = insert_timer_parts next m.fresh m0 in
      let same : m1.timers ≡ m.timers =
        timers ∙ insert_key_present (record { key = next; object = m.fresh }) m.timers ord h in
      let self : m1.objects m.fresh ≡ some t =
        ap (λ o. o m.fresh) objects ∙ if_true _ _ ((==_iff m.fresh m.fresh).1 refl) in
      let gone = ap (cancel_found m.fresh m1) self in
      (
        same,
        ap (λ q. q.0) gone,
        ap (λ q. has_key next q.1.timers) gone
            ∙ ap (λ l. has_key next (erase_key next l)) same
            ∙ has_key-erase next m.timers ord,
      )
