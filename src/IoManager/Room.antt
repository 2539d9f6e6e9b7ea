-- ===== src/IoManager/Room.antt =====
-- context_resize and the choice of a context in add_event, acid/common/iomanager.cpp: growing keeps the
-- state consistent where the memory of the new contexts holds no events.
use mathlib.Core.Path.{subst}
use acid_compute.Prelude.{
  ℕ, zero, suc, ◌*◌, ◌/◌, ◌^◌, ◌≤◌, ◌<◌, ◌≡◌, refl, sym, ap, ◌∙◌, arith, none, ltb, leb, lt→ltb,
  ge→ltb, leb→le, leb→lt, Bool-cases, inl, inr, if◌then◌else◌,
}
use acid_compute.Descriptors.Table.{is_short-leb}
use acid_compute.Descriptors.{is_short}
use acid_compute.IoManager.{
  Events, no_events, FdContext, IoManager, new_context, context_resize, make_room, new_manager,
}
use acid_compute.IoManager.Valid.{total, total_ext, IsSound, IsValid, replay}

module _ (memory : ℕ → Events) (blank : (i : ℕ) → memory i ≡ no_events) where
  pub new_context-IsSound : (i : ℕ) → IsSound (new_context memory i)
  new_context-IsSound i = ground (arith, blank i)

  total_grown :
      (n size : ℕ) (f : ℕ → FdContext)
      → size ≤ n
      → total n (λ i. if ltb i size then f i else new_context memory i) ≡ total size f
  unfolding total
  total_grown zero size f h = rw (let e : size ≡ 0 = omega arith in e) refl
  total_grown (suc n) size f h = elim (Bool-cases (leb size n)) [
    | inl p ↦ ground (arith, total_grown n size f, blank n)
    | inr p ↦
        let e : size ≡ suc n = ground arith in
        rw e (
          total_ext (suc n) (λ i. if ltb i (suc n) then f i else new_context memory i) f
            (λ i k. ap (λ b. if b then f i else new_context memory i) (lt→ltb i (suc n) k)))
  ]

  context_resize-IsValid :
      (n : ℕ) (s : IoManager)
      → IsValid s
      → s.size ≤ n
      → n < 2 ^ 31
      → IsValid (context_resize memory n s)
  unfolding context_resize
  context_resize-IsValid n s v h k = record {
    sound = λ i p. elim (Bool-cases (ltb i s.size)) [
      | inl q ↦ rw q (v.sound i (ground arith))
      | inr q ↦ rw q (new_context-IsSound i)
    ];
    counted = total_grown n s.size s.contexts h ∙ v.counted;
    large = omega (arith, v.large);
    small = k;
    watched = v.watched;
    accepted = v.accepted;
    agrees = λ i p. elim (Bool-cases (ltb i s.size)) [
      | inl q ↦ rw q (v.agrees i (ground arith))
      | inr q ↦ rw (q, blank i) (v.unknown i (ground arith))
    ];
    unknown = λ i p. v.unknown i (omega arith);
  }

  -- The state in which add_event registers the event.
  pub record Roomy (fd : ℕ) (s t : IoManager) : Type 0 where
    pub room : fd < t.size
    pub longer : s.size ≤ t.size
    pub old : (i : ℕ) → i < s.size → t.contexts i ≡ s.contexts i
    pub fresh : (i : ℕ) → s.size ≤ i → i < t.size → t.contexts i ≡ new_context memory i
    pub same_pending : t.pending_event_count ≡ s.pending_event_count
    pub same_ctls : t.ctls ≡ s.ctls
    pub same_scheduled : t.scheduled ≡ s.scheduled

  grown :
      (fd : ℕ) (s : IoManager)
      → IsValid s
      → fd < 2 ^ 31
      → s.size ≤ fd
      → Roomy fd s (context_resize memory (fd * 3 / 2) s)
  unfolding context_resize
  grown fd s v h k = record {
    room = omega (arith, v.large);
    longer = omega (arith, v.large);
    old = λ i q. ap (λ b. if b then s.contexts i else new_context memory i) (lt→ltb i s.size q);
    fresh = λ i q u. ap (λ b. if b then s.contexts i else new_context memory i) (ge→ltb i s.size q);
    same_pending = refl;
    same_ctls = refl;
    same_scheduled = refl;
  }

  pub make_room-Roomy :
      (fd : ℕ) (s : IoManager)
      → IsValid s
      → fd < 2 ^ 31
      → Roomy fd s (make_room memory (is_short s.size fd) fd s)
  unfolding make_room
  make_room-Roomy fd s v h = elim (Bool-cases (leb s.size fd)) [
    | inl p ↦ rw (is_short-leb s.size fd v.small, p) (grown fd s v h (leb→le s.size fd p))
    | inr p ↦
        rw (is_short-leb s.size fd v.small, p)
          (record {
            room = leb→lt s.size fd p;
            longer = omega arith;
            old = λ i q. refl;
            fresh = λ i q u. absurd (omega arith);
            same_pending = refl;
            same_ctls = refl;
            same_scheduled = refl;
          })
  ]

  pub make_room-IsValid :
      (fd : ℕ) (s : IoManager)
      → IsValid s
      → fd < 1431655766
      → IsValid (make_room memory (is_short s.size fd) fd s)
  unfolding make_room
  make_room-IsValid fd s v h = elim (Bool-cases (leb s.size fd)) [
    | inl p ↦
        let k : s.size ≤ fd = leb→le s.size fd p in
        rw (is_short-leb s.size fd v.small, p)
          (context_resize-IsValid (fd * 3 / 2) s v (omega (arith, v.large)) (omega arith))
    | inr p ↦ rw (is_short-leb s.size fd v.small, p) v
  ]

  pub room-IsSound : (fd : ℕ) (s t : IoManager) → IsValid s → Roomy fd s t → IsSound (t.contexts fd)
  room-IsSound fd s t v k = elim (Bool-cases (leb s.size fd)) [
    | inl p ↦ subst IsSound (sym (k.fresh fd (leb→le s.size fd p) k.room)) (new_context-IsSound fd)
    | inr p ↦
        let h : fd < s.size = leb→lt s.size fd p in subst IsSound (sym (k.old fd h)) (v.sound fd h)
  ]

  pub new_manager-IsValid : IsValid (new_manager memory)
  unfolding new_manager context_resize replay total
  new_manager-IsValid = record {
    sound = λ i p. rw (ge→ltb i 0 (omega arith)) (new_context-IsSound i);
    counted = total_grown 32 0 (new_context memory) (omega arith);
    large = omega arith;
    small = omega arith;
    watched = λ i. none;
    accepted = refl;
    agrees = λ i p. rw (ge→ltb i 0 (omega arith), blank i) refl;
    unknown = λ i p. refl;
  }
