-- ===== src/Descriptors/Table.antt =====
-- The vector of FdManager, acid/common/fd_manager.cpp: what get() creates is found again.
use mathlib.Core.Path.{subst}
use acid_compute.Prelude.{
  ℕ, zero, suc, ◌-◌, ◌*◌, ◌/◌, ◌%◌, ◌^◌, ◌≤◌, ◌<◌, ◌≡◌, ◌≢◌, refl, sym, ap, ◌∙◌, arith, Bool, true,
  false, Option, none, some, List, [], ◌∷◌, ◌++◌, leb, if◌then◌else◌, length, get_elem?, set,
  replicate, length-append, length-replicate, take-all, lt→ltb, leb→le, leb→lt, Bool-cases,
  option_clash, inl, inr,
}
use acid_compute.Outcome.{ok, undefined, ◌>>=◌}
use acid_compute.Descriptors.{
  pos, FdCtx, FdManager, init, resize, is_short, looked, grown, store, create, found, get, del,
}

pub is_short-leb : (size fd : ℕ) → size < 2 ^ 31 → is_short size fd ≡ leb size fd
unfolding is_short
is_short-leb size fd h =
    let e : size % 2 ^ 32 ≡ size = omega arith in
    let k : leb (2 ^ 31) size ≡ false = ground arith in rw (e, k) refl

-- What get(fd) answers without creating.
abbrev pub held : Option (Option ℕ) → Option ℕ
held none = none
held (some o) = o

abbrev pub entry : List (Option ℕ) → ℕ → Option ℕ
entry v fd = held (get_elem? v fd)

get_elem?-over : (v : List (Option ℕ)) (fd : ℕ) → length v ≤ fd → get_elem? v fd ≡ none
get_elem?-over [] fd h = refl
get_elem?-over (x ∷ v) zero h = absurd (omega arith)
get_elem?-over (x ∷ v) (suc fd) h = get_elem?-over v fd (omega arith)

looked-get_elem? : (v : List (Option ℕ)) (fd : ℕ) → length v < 2 ^ 31 → looked fd v ≡ get_elem? v fd
looked-get_elem? v fd h = elim (Bool-cases (leb (length v) fd)) [
  | inl p ↦
      rw (is_short-leb (length v) fd h, p) (sym (get_elem?-over v fd (leb→le (length v) fd p)))
  | inr p ↦ rw (is_short-leb (length v) fd h, p) refl
]

length-set : (v : List (Option ℕ)) (i : ℕ) (o : Option ℕ) → length (set v i o) ≡ length v
length-set [] i o = refl
length-set (x ∷ v) zero o = refl
length-set (x ∷ v) (suc i) o = ap suc (length-set v i o)

entry-set : (v : List (Option ℕ)) (i : ℕ) (o : Option ℕ) → i < length v → entry (set v i o) i ≡ o
entry-set [] i o h = absurd (omega arith)
entry-set (x ∷ v) zero o h = refl
entry-set (x ∷ v) (suc i) o h = entry-set v i o (omega arith)

entry-set_other :
    (v : List (Option ℕ)) (i j : ℕ) (o : Option ℕ) → j ≢ i → entry (set v i o) j ≡ entry v j
entry-set_other [] i j o h = refl
entry-set_other (x ∷ v) zero zero o h = absurd (h refl)
entry-set_other (x ∷ v) zero (suc j) o h = refl
entry-set_other (x ∷ v) (suc i) zero o h = refl
entry-set_other (x ∷ v) (suc i) (suc j) o h = entry-set_other v i j o (λ e. h (ap suc e))

entry-replicate : (n i : ℕ) → entry (replicate n none) i ≡ none
entry-replicate zero i = refl
entry-replicate (suc n) zero = refl
entry-replicate (suc n) (suc i) = entry-replicate n i

entry-append : (v : List (Option ℕ)) (n i : ℕ) → entry (v ++ replicate n none) i ≡ entry v i
entry-append [] n i = entry-replicate n i
entry-append (x ∷ v) n zero = refl
entry-append (x ∷ v) n (suc i) = entry-append v n i

-- Growing keeps every entry and makes room, when the vector has at least two.
pub record Grows (fd : ℕ) (v w : List (Option ℕ)) : Type 0 where
  pub room : fd < length w
  pub longer : length v ≤ length w
  pub kept : (i : ℕ) → entry w i ≡ entry v i
  pub small : fd < 1431655766 → length v < 2 ^ 31 → length w < 2 ^ 31

resize-kept :
    (n : ℕ) (v : List (Option ℕ)) → length v ≤ n → resize n v ≡ v ++ replicate (n - length v) none
unfolding resize
resize-kept n v h = ap (λ w. w ++ replicate (n - length v) none) (take-all n v h)

length-resize : (n : ℕ) (v : List (Option ℕ)) → length v ≤ n → length (resize n v) ≡ n
length-resize n v h =
    ap length (resize-kept n v h)
    ∙ omega (
      arith,
      length-append v (replicate (n - length v) none),
      length-replicate {A = Option ℕ} (n - length v) none,
    )

resize-Grows :
    (fd : ℕ) (v : List (Option ℕ))
    → 2 ≤ length v
    → length v ≤ fd
    → Grows fd v (resize (fd * 3 / 2) v)
resize-Grows fd v h k =
    let n : ℕ = fd * 3 / 2 in
    let q : length v ≤ n = omega arith in
    record {
      room = omega (arith, length-resize n v q);
      longer = omega (arith, length-resize n v q);
      kept = λ i. ap (λ w. entry w i) (resize-kept n v q) ∙ entry-append v (n - length v) i;
      small = λ p s. omega (arith, length-resize n v q);
    }

leb_grown-Grows :
    (fd : ℕ) (v : List (Option ℕ))
    → 2 ≤ length v
    → Grows fd v (if leb (length v) fd then resize (fd * 3 / 2) v else v)
leb_grown-Grows fd v h = elim (Bool-cases (leb (length v) fd)) [
  | inl p ↦
      subst (Grows fd v) (sym (ap (λ b. if b then resize (fd * 3 / 2) v else v) p))
        (resize-Grows fd v h (leb→le (length v) fd p))
  | inr p ↦ subst (Grows fd v) (sym (ap (λ b. if b then resize (fd * 3 / 2) v else v) p)) (record {
    room = leb→lt (length v) fd p;
    longer = omega arith;
    kept = λ i. refl;
    small = λ q s. s;
  })
]

pub grown-Grows :
    (fd : ℕ) (v : List (Option ℕ)) → 2 ≤ length v → length v < 2 ^ 31 → Grows fd v (grown fd v)
unfolding grown
grown-Grows fd v h s =
    subst (λ b. Grows fd v (if b then resize (fd * 3 / 2) v else v))
      (sym (is_short-leb (length v) fd s)) (leb_grown-Grows fd v h)

del-set :
    (v : List (Option ℕ)) (fd : ℕ) (cs : List FdCtx)
    → fd < length v
    → length v < 2 ^ 31
    → del (pos fd) (record { fd_ctxs = v; contexts = cs })
      ≡ ok (record { fd_ctxs = set v fd none; contexts = cs })
unfolding del store
del-set v fd cs h k = rw (is_short-leb (length v) fd k) (ground arith)

module _ (fstat : ℕ → Option Bool) where
  found-none :
      (o : Option (Option ℕ)) (fd : ℕ) (m : FdManager)
      → held o ≡ none
      → found fstat o true fd m ≡ create fstat fd m
  found-none none fd m h = refl
  found-none (some none) fd m h = refl
  found-none (some (some c)) fd m h = option_clash (sym h)

  found-some :
      (o : Option (Option ℕ)) (b : Bool) (fd c : ℕ) (m : FdManager)
      → held o ≡ some c
      → found fstat o b fd m ≡ ok (some c, m)
  found-some none b fd c m h = option_clash h
  found-some (some none) b fd c m h = option_clash h
  found-some (some (some d)) b fd c m h = ap (λ o. ok (o, m)) h

  found-false :
      (o : Option (Option ℕ)) (fd : ℕ) (m : FdManager) → found fstat o false fd m ≡ ok (held o, m)
  found-false none fd m = refl
  found-false (some none) fd m = refl
  found-false (some (some c)) fd m = refl

  -- What get(fd, true) makes of a free descriptor, beside another one.
  pub record Created (fd other : ℕ) (auto_create : Bool) (m : FdManager) : Type 0 where
    pub after : FdManager
    pub created : get fstat (pos fd) true m ≡ ok (some (length m.contexts), after)
    pub found_again : get fstat (pos fd) auto_create after ≡ ok (some (length m.contexts), after)
    pub other_kept : get fstat (pos other) false after ≡ ok (entry m.fd_ctxs other, after)
    pub added : after.contexts ≡ m.contexts ++ (init fd (fstat fd) ∷ [])
    pub room : length m.fd_ctxs ≤ length after.fd_ctxs
    pub gone : FdManager
    pub deleted : del (pos fd) after ≡ ok gone
    pub free_again : get fstat (pos fd) false gone ≡ ok (none, gone)
    pub other_left : get fstat (pos other) false gone ≡ ok (entry m.fd_ctxs other, gone)

  -- In a vector of at least two places and fewer than 2 ^ 31, get(fd, true) of a descriptor below
  -- 1431655766 (where fd * 1.5 is an int) without a context appends one set up by the answer of fstat. The next get(fd) finds it, the vector does not shrink, and del(fd) then
  -- frees the descriptor. What get(other, false) finds is the same before, between and after.
  pub get-Created :
      (m : FdManager) (fd other : ℕ) (auto_create : Bool)
      → 2 ≤ length m.fd_ctxs
      → length m.fd_ctxs < 2 ^ 31
      → fd < 1431655766
      → entry m.fd_ctxs fd ≡ none
      → other ≢ fd
      → Created fd other auto_create m
  unfolding get create store del
  get-Created m fd other b h s p free ne =
      let v : List (Option ℕ) = grown fd m.fd_ctxs in
      let g : Grows fd m.fd_ctxs v = grown-Grows fd m.fd_ctxs h s in
      let id : ℕ = length m.contexts in
      let w : List (Option ℕ) = set v fd (some id) in
      let k : length w ≡ length v = length-set v fd (some id) in
      let l : length w < 2 ^ 31 = omega (arith, k, g.small p s) in
      let z : length (set w fd none) < 2 ^ 31 = omega (arith, l, length-set w fd none) in
      let look =
        λ (x : ℕ) (u : List (Option ℕ)) (q : length u < 2 ^ 31). ap held (looked-get_elem? u x q) in
      let ctxs : List FdCtx = m.contexts ++ (init fd (fstat fd) ∷ []) in
      let m1 : FdManager = record { fd_ctxs = w; contexts = ctxs } in
      let m2 : FdManager = record { fd_ctxs = set w fd none; contexts = ctxs } in
      let kept : entry w other ≡ entry m.fd_ctxs other =
        entry-set_other v fd other (some id) ne ∙ g.kept other in
      record {
        after = m1;
        created =
            found-none (looked fd m.fd_ctxs) fd m (look fd m.fd_ctxs s ∙ free)
            ∙ ap
                (λ c. (if c then ok w else undefined) >>= λ x.
                  ok (some id, record { fd_ctxs = x; contexts = ctxs }))
                (lt→ltb fd (length v) g.room);
        found_again =
            found-some (looked fd w) b fd id m1 (look fd w l ∙ entry-set v fd (some id) g.room);
        other_kept =
            found-false (looked other w) other m1 ∙ ap (λ o. ok (o, m1)) (look other w l ∙ kept);
        added = refl;
        room = omega (arith, k, g.longer);
        gone = m2;
        deleted = del-set w fd ctxs (omega (arith, k, g.room)) l;
        free_again =
            found-false (looked fd (set w fd none)) fd m2
            ∙ ap (λ o. ok (o, m2))
                (look fd (set w fd none) z ∙ entry-set w fd none (omega (arith, k, g.room)));
        other_left =
            found-false (looked other (set w fd none)) other m2
            ∙ ap (λ o. ok (o, m2))
                (look other (set w fd none) z ∙ entry-set_other w fd other none ne ∙ kept);
      }
