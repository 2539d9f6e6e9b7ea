-- ===== src/Hooks/Flags/Nonblock.antt =====
-- fcntl, ioctl and sleep of acid/common/hook.cpp: O_NONBLOCK as the user and as the kernel see it.
use acid_compute.Prelude.{
  ℕ, zero, suc, ◌*◌, ◌<◌, ◌≡◌, ◌≢◌, refl, sym, ap, ◌∙◌, arith, Bool, true, false, ◌↔◌, Option, none,
  some, List, [], ◌∷◌, ◌==◌, ==_iff, Bool-cases, inl, inr, option_clash, bool_clash,
}
use acid_compute.Descriptors.{FdCtx}
use acid_compute.Hooks.{Answer}
use acid_compute.Hooks.Flags.{
  FileFlags, usable, is_usable, marked, fcntl_set, fcntl_get, fionbio, ioctl, sleep_ms,
}

-- For an open socket: the O_NONBLOCK of the kernel is that of the hooks.
abbrev pub Guarded : Option FdCtx → FileFlags → Type 0
Guarded none f = Unit
Guarded (some c) f = usable c ≡ true → f.nonblock ≡ c.sys_nonblock

module _ {K : Type 0} (set_flags : FileFlags → K → FileFlags × K) (get_flags : K → FileFlags) where
  -- F_SETFL with each of the arguments, through the hooks and without them.
  abbrev pub hooked_sets : List FileFlags → Option FdCtx × K → Option FdCtx × K
  hooked_sets [] x = x
  hooked_sets (f ∷ fs) (c, k) =
      let (r, c', k') = fcntl_set set_flags get_flags f c k in hooked_sets fs (c', k')

  abbrev pub plain_sets : List FileFlags → K → K
  plain_sets [] k = k
  plain_sets (f ∷ fs) k = plain_sets fs (set_flags f k).1

  -- The O_NONBLOCK that F_GETFL shows.
  abbrev pub shown : Option FdCtx × K → Bool
  shown (c, k) = (fcntl_get set_flags get_flags c k).nonblock

  module _
      (keeps : (f : FileFlags) (k : K) → (get_flags (set_flags f k).1).nonblock ≡ f.nonblock) where
    set-get :
        (f : FileFlags) (c : Option FdCtx) (k : K)
        → Guarded c (get_flags k)
        → (shown ((fcntl_set set_flags get_flags f c k).1, (fcntl_set set_flags get_flags f c k).2)
            ≡ f.nonblock)
          × Guarded
              (fcntl_set set_flags get_flags f c k).1
              (get_flags (fcntl_set set_flags get_flags f c k).2)
    unfolding fcntl_set fcntl_get
    set-get f none k g = (keeps f k, tt)
    set-get f (some c) k g = elim (Bool-cases (usable c)) [
      | inl p ↦
          (rw p (rw (shown, p) refl), rw p (λ u. keeps (record f { nonblock = c.sys_nonblock }) k))
      | inr p ↦ (rw p (rw (shown, p) (keeps f k)), rw p (λ u. bool_clash (sym u ∙ p)))
    ]

    -- With a kernel that keeps the O_NONBLOCK it is given, where the kernel of an open socket has the
    -- O_NONBLOCK of the hooks, and beside an unhooked descriptor that shows the same O_NONBLOCK: after the
    -- same calls of fcntl with F_SETFL on both, whatever the context of the hooked one is, F_GETFL shows
    -- the same O_NONBLOCK on both, and the kernel of an open socket still has that of the hooks.
    pub fcntl_transparent :
        (fs : List FileFlags) (c : Option FdCtx) (k plain : K)
        → Guarded c (get_flags k)
        → shown (c, k) ≡ (get_flags plain).nonblock
        → (shown (hooked_sets fs (c, k)) ≡ (get_flags (plain_sets fs plain)).nonblock)
          × Guarded (hooked_sets fs (c, k)).0 (get_flags (hooked_sets fs (c, k)).1)
    fcntl_transparent [] c k plain g e = (e, g)
    fcntl_transparent (f ∷ fs) c k plain g e =
        let (seen, g') = set-get f c k g in
        fcntl_transparent fs (fcntl_set set_flags get_flags f c k).1
          (fcntl_set set_flags get_flags f c k).2 (set_flags f plain).1 g'
          (seen ∙ sym (keeps f plain))

marked-usable : (flag : Bool) (c : Option FdCtx) → is_usable (marked flag c) ≡ is_usable c
marked-usable flag none = refl
marked-usable flag (some c) = refl

module _ (ioctl_f : ℕ → Bool → Answer) where
  ioctl_loops :
      (fuel request : ℕ) (arg : Bool) (c : Option FdCtx)
      → request ≢ fionbio
      → ioctl ioctl_f fuel request arg c ≡ none
  unfolding ioctl
  ioctl_loops zero request arg c h = refl
  ioctl_loops (suc fuel) request arg c h =
      ground (arith, ioctl_loops fuel request arg c h, ==_iff request fionbio)

  ioctl_marks :
      (fuel : ℕ) (arg : Bool) (c : Option FdCtx)
      → is_usable c ≡ true
      → ioctl ioctl_f fuel fionbio arg c ≡ none
  unfolding ioctl
  ioctl_marks zero arg c h = refl
  ioctl_marks (suc fuel) arg c h =
      rw h (ioctl_marks fuel arg (marked arg c) (marked-usable arg c ∙ h))

  -- The hooked ioctl returns, for some number of its calls of itself, exactly for FIONBIO on a descriptor
  -- that has no context, or one that is closed or no socket.
  pub ioctl-returns_iff :
      (request : ℕ) (arg : Bool) (c : Option FdCtx)
      → ((fuel : ℕ) × (r : Answer × Option FdCtx) × (ioctl ioctl_f fuel request arg c ≡ some r))
        ↔ ((request ≡ fionbio) × (is_usable c ≡ false))
  unfolding ioctl
  ioctl-returns_iff request arg c = (
    (λ (fuel, r, p). elim (Bool-cases (request == fionbio)) [
      | inl q ↦ elim (Bool-cases (is_usable c)) [
        | inl u ↦
            let e : request ≡ fionbio = (==_iff request fionbio).0 q in
            option_clash
              (sym (ioctl_marks fuel arg c u) ∙ ap (λ n. ioctl ioctl_f fuel n arg c) (sym e) ∙ p)
        | inr u ↦ ((==_iff request fionbio).0 q, u)
      ]
      | inr q ↦ option_clash (
          sym (
            ioctl_loops fuel request arg c
              (λ e. bool_clash (sym ((==_iff request fionbio).1 e) ∙ q)))
          ∙ p)
    ]),
    (λ (e, h). (1, (ioctl_f request arg, c), rw (e, h) refl)),
  )

sleep_ms-exact_iff : (seconds : ℕ) → (sleep_ms seconds ≡ seconds * 1000) ↔ (seconds < 4294968)
unfolding sleep_ms
sleep_ms-exact_iff seconds = ((λ h. omega arith), (λ h. omega arith))
