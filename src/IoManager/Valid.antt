-- ===== src/IoManager/Valid.antt =====
-- When the state of an IOManager, acid/common/iomanager.{h,cpp}, is consistent: its counter, its
-- contexts, and what epoll watches after the logged calls.
use mathlib.Core.Option.{some-injective}
use acid_compute.Prelude.{
  ℕ, zero, suc, ◌+◌, ◌^◌, ◌≤◌, ◌<◌, ◌≡◌, refl, sym, ap, ◌∙◌, arith, Option, none, some, List, [],
  ◌∷◌, ◌++◌, ◌==◌, ==_iff, Bool-cases, inl, inr, option_clash, if◌then◌else◌,
}
use acid_compute.Tasks.Scheduler.{update}
use acid_compute.IoManager.{
  Events, is_none, FdContext, IoManager, is_some, occupied, CtlOp, add, modify, delete, Ctl, ◌>>=◌,
}

-- How many events a context waits for.
abbrev pub weight : FdContext → ℕ
weight c = (if c.events.reads then 1 else 0) + (if c.events.writes then 1 else 0)

unfoldable pub total : ℕ → (ℕ → FdContext) → ℕ
total zero f = 0
total (suc n) f = total n f + weight (f n)

pub total_ext :
    (n : ℕ) (f g : ℕ → FdContext) → ((i : ℕ) → i < n → f i ≡ g i) → total n f ≡ total n g
unfolding total
total_ext zero f g h = refl
total_ext (suc n) f g h =
    omega (arith, total_ext n f g (λ i k. h i (omega arith)), ap weight (h n (omega arith)))

pub total-update_over :
    (n fd : ℕ) (c : FdContext) (f : ℕ → FdContext) → n ≤ fd → total n (update fd c f) ≡ total n f
unfolding total
total-update_over zero fd c f h = refl
total-update_over (suc n) fd c f h = ground (arith, total-update_over n fd c f)

pub total-update :
    (n fd : ℕ) (c : FdContext) (f : ℕ → FdContext)
    → fd < n
    → total n (update fd c f) + weight (f fd) ≡ total n f + weight c
unfolding total
total-update zero fd c f h = absurd (omega arith)
total-update (suc n) fd c f h = elim (Bool-cases (n == fd)) [
  | inl p ↦
      rw (sym ((==_iff n fd).0 p))
        (ground (arith, total-update_over n n c f (omega arith), ==_iff n n))
  | inr p ↦ rw p (ground (arith, total-update n fd c f (ground (arith, ==_iff n fd))))
]

-- A context holds somebody to wake exactly for the events that it waits for.
pub record IsSound (c : FdContext) : Type 0 where
  pub read_scheduler : is_some c.read_context.scheduler ≡ c.events.reads
  pub read_occupied : occupied c.read_context ≡ c.events.reads
  pub write_scheduler : is_some c.write_context.scheduler ≡ c.events.writes
  pub write_occupied : occupied c.write_context ≡ c.events.writes

-- What epoll watches, by its documented interface: each descriptor that was added with its events.
-- `none` is a call that it refuses with EEXIST or ENOENT.
abbrev pub Watched : Type 0
Watched = ℕ → Option Events

abbrev pub changed : CtlOp → Option Events → Events → Option (Option Events)
changed add none es = some (some es)
changed add (some o) es = none
changed modify none es = none
changed modify (some o) es = some (some es)
changed delete none es = none
changed delete (some o) es = some none

abbrev pub watch : Option (Option Events) → ℕ → Watched → Option Watched
watch none fd k = none
watch (some o) fd k = some (update fd o k)

unfoldable pub replay : List Ctl → Watched → Option Watched
replay [] k = some k
replay (c ∷ cs) k = watch (changed c.op (k c.target) c.mask) c.target k >>= replay cs

abbrev pub shown : Events → Option Events
shown es = if is_none es then none else some es

>>=-some {ℓ} : {A : Type ℓ} (m : Option A) → (m >>= some) ≡ m
>>=-some none = refl
>>=-some (some a) = refl

-- One more call meets what the earlier ones left.
replay_on :
    (cs : List Ctl) (c : Ctl) (k' : Watched) (o : Option Watched)
    → ((k : Watched)
        → replay cs k ≡ some k'
        → replay (cs ++ (c ∷ [])) k ≡ watch (changed c.op (k' c.target) c.mask) c.target k')
    → (o >>= replay cs) ≡ some k'
    → (o >>= replay (cs ++ (c ∷ []))) ≡ watch (changed c.op (k' c.target) c.mask) c.target k'
replay_on cs c k' none ih h = option_clash h
replay_on cs c k' (some k) ih h = ih k h

pub replay-append :
    (cs : List Ctl) (c : Ctl) (k' k : Watched)
    → replay cs k ≡ some k'
    → replay (cs ++ (c ∷ [])) k ≡ watch (changed c.op (k' c.target) c.mask) c.target k'
unfolding replay
replay-append [] c k' k h =
    >>=-some (watch (changed c.op (k c.target) c.mask) c.target k)
    ∙ ap (λ (w : Watched). watch (changed c.op (w c.target) c.mask) c.target w)
        (some-injective k k' h)
replay-append (d ∷ cs) c k' k h =
    replay_on cs c k' (watch (changed d.op (k d.target) d.mask) d.target k)
      (λ w e. replay-append cs c k' w e) h

abbrev nothing_watched : Watched
nothing_watched i = none

pub record IsValid (s : IoManager) : Type 0 where
  pub sound : (i : ℕ) → i < s.size → IsSound (s.contexts i)
  pub counted : total s.size s.contexts ≡ s.pending_event_count
  pub large : 32 ≤ s.size
  pub small : s.size < 2 ^ 31
  pub watched : Watched
  pub accepted : replay s.ctls nothing_watched ≡ some watched
  pub agrees : (i : ℕ) → i < s.size → watched i ≡ shown (s.contexts i).events
  pub unknown : (i : ℕ) → s.size ≤ i → watched i ≡ none
