-- ===== src/IoManager/Moves.antt =====
-- A change of one context keeps an IOManager, acid/common/iomanager.{h,cpp}, consistent when epoll, the
-- counter and the context change together; so does more room.
use mathlib.Core.Path.{subst}
use acid_compute.Prelude.{
  ℕ, ◌+◌, ◌<◌, ◌≡◌, refl, sym, ap, ◌∙◌, arith, Bool, true, false, Option, none, some, List, [], ◌∷◌,
  ◌++◌, ◌==◌, ==_iff, if◌then◌else◌,
}
use acid_compute.Tasks.Scheduler.{update}
use acid_compute.IoManager.{Events, FdContext, IoManager, CtlOp, Ctl}
use acid_compute.IoManager.Valid.{
  weight, total, total_ext, total-update, IsSound, Watched, changed, watch, replay, shown,
  replay-append, IsValid,
}

-- The call that takes epoll from the old events to the new ones.
abbrev pub Fits : Events → Events → CtlOp → Type 0
Fits old new op = changed op (shown old) new ≡ some (shown new)

pub update-hit : {A : Type 0} (k : ℕ) (v : A) (f : ℕ → A) → update k v f k ≡ v
update-hit k v f = rw ((==_iff k k).1 refl)

pub if_both {ℓ κ} :
    {A : Type ℓ} (P : A → Type κ) (b : Bool) {x y : A} → P x → P y → P (if b then x else y)
if_both P true p q = p
if_both P false p q = q

watch-Fits :
    (fd : ℕ) (es : Events) (l : Ctl) (w : Watched)
    → l.target ≡ fd
    → l.mask ≡ es
    → changed l.op (w fd) es ≡ some (shown es)
    → watch (changed l.op (w l.target) l.mask) l.target w ≡ some (update fd (shown es) w)
watch-Fits fd es l w p q h =
    ap (λ n. watch (changed l.op (w n) l.mask) n w) p
    ∙ ap (λ m. watch (changed l.op (w fd) m) fd w) q
    ∙ ap (λ o. watch o fd w) h

agrees_at :
    (b : Bool) (c d : FdContext) (o : Option Events)
    → o ≡ shown d.events
    → (if b then shown c.events else o) ≡ shown (if b then c else d).events
agrees_at true c d o h = refl
agrees_at false c d o h = h

-- The new state `t` of `s`, in which the context of `fd` is `c`.
pub record Moved (s t : IoManager) (fd : ℕ) (c : FdContext) (l : Ctl) : Type 0 where
  pub inside : fd < s.size
  pub same_size : t.size ≡ s.size
  pub contexts : (i : ℕ) → t.contexts i ≡ update fd c s.contexts i
  pub sound : IsSound c
  pub counted : t.pending_event_count + weight (s.contexts fd) ≡ s.pending_event_count + weight c
  pub logged : t.ctls ≡ s.ctls ++ (l ∷ [])
  pub at_fd : l.target ≡ fd
  pub mask : l.mask ≡ c.events
  pub fits : Fits (s.contexts fd).events c.events l.op

pub Moved-IsValid :
    (s t : IoManager) (fd : ℕ) (c : FdContext) (l : Ctl) → IsValid s → Moved s t fd c l → IsValid t
Moved-IsValid s t fd c l v m = record {
  sound = λ i h.
      subst IsSound (sym (m.contexts i))
        (if_both IsSound (i == fd) m.sound (v.sound i (omega (arith, m.same_size))));
  counted = omega (
    arith,
    total_ext t.size t.contexts (update fd c s.contexts) (λ i h. m.contexts i),
    ap (λ n. total n (update fd c s.contexts)) m.same_size,
    total-update s.size fd c s.contexts m.inside,
    v.counted,
    m.counted,
  );
  large = omega (arith, v.large, m.same_size);
  small = omega (arith, v.small, m.same_size);
  watched = update fd (shown c.events) v.watched;
  accepted =
      ap (λ (ls : List Ctl). replay ls (λ i. none)) m.logged
      ∙ replay-append s.ctls l v.watched (λ i. none) v.accepted
      ∙ watch-Fits fd c.events l v.watched m.at_fd m.mask
          (ap (λ o. changed l.op o c.events) (v.agrees fd m.inside) ∙ m.fits);
  agrees = λ i h.
      agrees_at (i == fd) c (s.contexts i) (v.watched i) (v.agrees i (omega (arith, m.same_size)))
      ∙ ap (λ (d : FdContext). shown d.events) (sym (m.contexts i));
  unknown = λ i h. ground (arith, ==_iff i fd, m.inside, m.same_size, v.unknown i);
}
