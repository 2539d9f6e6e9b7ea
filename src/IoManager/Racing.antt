-- ===== src/IoManager/Racing.antt =====
-- Two threads in add_event of acid/common/iomanager.cpp: the size is read under one lock, and the
-- vector is resized under another.
use mathlib.Core.Path.{subst}
use acid_compute.Prelude.{
  ℕ, ◌+◌, ◌*◌, ◌/◌, ◌^◌, ◌≤◌, ◌<◌, ◌≡◌, refl, sym, ap, ◌∙◌, arith, true, false, Option, some,
  ==_iff, lt→ltb, ge→ltb, le→leb, if◌then◌else◌,
}
use acid_compute.Descriptors.{pos, is_short}
use acid_compute.Descriptors.Table.{is_short-leb}
use acid_compute.IoManager.{
  Event, Events, no_events, has, FdContext, IoManager, Caller, register, make_room, add_event,
  new_context, context_resize, del_event, cancel_all,
}
use acid_compute.IoManager.Valid.{IsSound, IsValid}
use acid_compute.IoManager.Room.{new_context-IsSound}
use acid_compute.IoManager.Waiters.{pending_small}
use acid_compute.IoManager.Adding.{attached, with_waiter, register_joins, new-silent}

-- A descriptor outside the vector is not found.
del_event_outside :
    (s : IoManager) (fd : ℕ) (e : Event)
    → fd < 2 ^ 31
    → s.size ≤ fd
    → del_event false fd e s ≡ (false, s)
unfolding del_event
del_event_outside s fd e k h = rw (is_short-leb s.size fd (omega arith), le→leb s.size fd h) refl

cancel_all_outside :
    (s : IoManager) (fd : ℕ) → fd < 2 ^ 31 → s.size ≤ fd → cancel_all false fd s ≡ some (false, s)
unfolding cancel_all
cancel_all_outside s fd k h = rw (is_short-leb s.size fd (omega arith), le→leb s.size fd h) refl

module _ (memory : ℕ → Events) (blank : (i : ℕ) → memory i ≡ no_events) (s : IoManager) (a b : ℕ)
    (e f : Event) (mine yours : Caller) (cb db : Option ℕ) where
  abbrev grown_for : ℕ → IoManager → IoManager
  grown_for fd t = context_resize memory (fd * 3 / 2) t

  registered_fresh :
      (t : IoManager) (fd : ℕ) (g : Event) (who : Caller) (eb : Option ℕ)
      → fd < t.size
      → t.contexts fd ≡ new_context memory fd
      → who.running ≡ true
      → register false fd g who eb t ≡ some (pos 0, with_waiter fd g (attached who eb) t)
  registered_fresh t fd g who eb h w r =
      register_joins t fd g who eb (subst IsSound (sym w) (new_context-IsSound memory blank fd)) h
        (ap (λ (c : FdContext). has g c.events) w ∙ new-silent memory blank fd g) r

  room_for : (fd : ℕ) (t : IoManager) → 32 ≤ fd → fd < (grown_for fd t).size
  unfolding context_resize
  room_for fd t h = omega arith

  new_there : (fd : ℕ) → s.size ≤ fd → (grown_for fd s).contexts fd ≡ new_context memory fd
  unfolding context_resize
  new_there fd h = ap (λ b. if b then s.contexts fd else new_context memory fd) (ge→ltb fd s.size h)

  after_other : IoManager
  after_other = with_waiter b f (attached yours db) (grown_for b s)

  fresh_still :
      s.size ≤ a
      → a * 3 / 2 ≤ b
      → 32 ≤ s.size
      → (grown_for a after_other).contexts a ≡ new_context memory a
  unfolding context_resize after_other
  fresh_still h k l =
      rw (lt→ltb a (b * 3 / 2) (omega arith), ge→ltb a s.size h) (ground (arith, ==_iff a b))

  abbrev after_both : IoManager
  after_both = with_waiter a e (attached mine cb) (grown_for a after_other)

  size_small : a * 3 / 2 ≤ b → after_both.size ≤ b
  unfolding context_resize
  size_small k = k

  pending_two : IsValid s → after_both.pending_event_count ≡ s.pending_event_count + 2
  unfolding context_resize after_other
  pending_two v = omega (arith, pending_small s v)

  -- On a valid state, when the memory of new contexts holds no events, two threads whose fibers run find
  -- the vector too short for their descriptors a and b, with a * 3 / 2 at most b < 2 ^ 31. The one with b
  -- resizes and registers; then the other one resizes and registers. Both get 0, but the vector is too
  -- short for b again: del_event and cancel_all of b find nothing, while both events stay counted.
  pub resize_race :
      IsValid s
      → s.size ≤ a
      → a * 3 / 2 ≤ b
      → b < 2 ^ 31
      → mine.running ≡ true
      → yours.running ≡ true
      → (t u : IoManager) × (add_event memory false b f yours db s ≡ some (pos 0, t))
        × (register false a e mine cb (make_room memory (is_short s.size a) a t) ≡ some (pos 0, u))
        × (del_event false b f u ≡ (false, u))
        × (cancel_all false b u ≡ some (false, u))
        × (u.pending_event_count ≡ s.pending_event_count + 2)
  unfolding add_event make_room after_other
  resize_race v h k l r q =
      let w : (grown_for a after_other).contexts a ≡ new_context memory a =
        fresh_still h k v.large in
      let u : IoManager = after_both in
      (
        after_other,
        u,
        ap (λ c. register false b f yours db (if c then grown_for b s else s))
              (is_short-leb s.size b v.small ∙ le→leb s.size b (omega (arith, v.large)))
            ∙ registered_fresh (grown_for b s) b f yours db (room_for b s (omega (arith, v.large)))
                (new_there b (omega (arith, v.large))) q,
        ap (λ c. register false a e mine cb (if c then grown_for a after_other else after_other))
              (is_short-leb s.size a v.small ∙ le→leb s.size a h)
            ∙ registered_fresh (grown_for a after_other) a e mine cb
                (room_for a after_other (omega (arith, v.large))) w r,
        del_event_outside u b f l (size_small k),
        cancel_all_outside u b l (size_small k),
        pending_two v,
      )
