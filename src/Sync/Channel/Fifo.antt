-- ===== src/Sync/Channel/Fifo.antt =====
-- The values of a ChannelImpl come out in the order in which they went in.
use mathlib.Core.Path.{subst}
use acid_compute.Prelude.{
  ℕ, true, false, some, List, [], ◌∷◌, ◌++◌, ◌≡◌, refl, sym, ap, ◌∙◌, append_assoc, append-nil,
  Bool-cases, inl, inr, arith, ◌<◌, length, get_elem?, bool_clash,
}
use acid_compute.Sync.Channel.{
  Channel, Ending, received, push, pop, take_front, push_again, pop_again, close, open_channel,
  without,
}
use acid_compute.Sync.Channel.Delivery.{
  Run, start, pushes, pops, pushes_again, pops_again, closes, sent, got, push_again_cases,
  pop_again_cases, Run-IsSound,
}

some_first : (ws : List ℕ) → 0 < length ws → (i : ℕ) × (get_elem? ws 0 ≡ some i)
some_first [] h = absurd (omega arith)
some_first (i ∷ ws) h = (i, refl)

module _ {A : Type 0} where
  -- A piece of push(), by its end.
  record Puts (c d : Channel A) (r : Ending A) : Type 0 where
    still_open : d.is_close ≡ c.is_close
    queued : c.is_close ≡ false → d.queue ≡ c.queue ++ sent r

  record Gets (c d : Channel A) (r : Ending A) : Type 0 where
    still_open : d.is_close ≡ c.is_close
    unqueued : c.is_close ≡ false → c.queue ≡ got r ++ d.queue
    none_got : c.is_close ≡ true → got r ≡ []

  push-Puts : (i : ℕ) (x : A) (c : Channel A) → Puts c (push i x c).0 (push i x c).1
  unfolding push
  push-Puts i x c = ground (arith, append-nil c.queue)

  take_front-Gets :
      (i : ℕ) (xs : List A) (c : Channel A)
      → c.queue ≡ xs
      → c.is_close ≡ false
      → Gets c (take_front i xs c).0 (take_front i xs c).1
  unfolding take_front
  take_front-Gets i [] c e o = ground arith
  take_front-Gets i (x ∷ xs) c e o = ground arith

  pop-Gets : (i : ℕ) (c : Channel A) → Gets c (pop i c).0 (pop i c).1
  unfolding pop
  pop-Gets i c = elim (Bool-cases c.is_close) [
    | inl e ↦ simp e (ground arith)
    | inr e ↦ simp e (take_front-Gets i c.queue c refl e)
  ]

  record Pending (ps qs : List A) (c : Channel A) : Type 0 where
    rest : List A
    split : ps ≡ qs ++ rest
    waiting : c.is_close ≡ false → rest ≡ c.queue

  Puts-Pending :
      {ps qs : List A} {c d : Channel A} {r : Ending A}
      → Puts c d r
      → Pending ps qs c
      → Pending (ps ++ sent r) qs d
  Puts-Pending {qs = qs} {r = r} p v = record {
    rest = v.rest ++ sent r;
    split = rw (v.split, append_assoc) refl;
    waiting = λ o. ground (arith, p.queued);
  }

  Gets-Pending :
      {ps qs : List A} {c d : Channel A} {r : Ending A}
      → Gets c d r
      → Pending ps qs c
      → Pending ps (qs ++ got r) d
  Gets-Pending {qs = qs} {c} {d} {r} p v = elim (Bool-cases c.is_close) [
    | inl e ↦ record {
      rest = v.rest;
      split = rw (p.none_got e, append-nil) v.split;
      waiting = λ o. bool_clash (sym e ∙ sym p.still_open ∙ o);
    }
    | inr e ↦ record {
      rest = d.queue;
      split = rw append_assoc (rw (← p.unqueued e, ← v.waiting e) v.split);
      waiting = λ o. refl;
    }
  ]

  push_again-Puts :
      (k : ℕ) (c : Channel A) {d : Channel A} {r : Ending A}
      → push_again k c ≡ some (d, r)
      → Puts c d r
  push_again-Puts k c e =
      let (i, x, h, q) = push_again_cases k c e in
      let c' = record c { pushing = without k c.pushing } in
      let p = subst (λ a. Puts c' a.0 a.1) q (push-Puts i x c') in
      record { still_open = p.still_open; queued = p.queued }

  pop_again-Gets :
      (k : ℕ) (c : Channel A) {d : Channel A} {r : Ending A}
      → pop_again k c ≡ some (d, r)
      → Gets c d r
  pop_again-Gets k c e =
      let (i, h, q) = pop_again_cases k c e in
      let c' = record c { popping = without k c.popping } in
      let p = subst (λ a. Gets c' a.0 a.1) q (pop-Gets i c') in
      record { still_open = p.still_open; unqueued = p.unqueued; none_got = p.none_got }

  close-Pending : {ps qs : List A} (c : Channel A) → Pending ps qs c → Pending ps qs (close c)
  unfolding close
  close-Pending c v = record {
    rest = v.rest;
    split = v.split;
    waiting = λ o. ground (arith, v.waiting);
  }

  Run-Pending : {n : ℕ} (ps qs : List A) {c : Channel A} → Run n ps qs c → Pending ps qs c
  unfolding open_channel
  Run-Pending _ _ start = record { rest = []; split = refl; waiting = λ o. refl }
  Run-Pending _ _ (pushes i x r) = Puts-Pending (push-Puts i x _) (Run-Pending _ _ r)
  Run-Pending _ _ (pops i r) = Gets-Pending (pop-Gets i _) (Run-Pending _ _ r)
  Run-Pending _ _ (pushes_again k r e) = Puts-Pending (push_again-Puts k _ e) (Run-Pending _ _ r)
  Run-Pending _ _ (pops_again k r e) = Gets-Pending (pop_again-Gets k _ e) (Run-Pending _ _ r)
  Run-Pending _ _ (closes r) = close-Pending _ (Run-Pending _ _ r)

  -- Over all orders of the pieces of push(), pop() and close(): the values received are the first of
  -- the values accepted, in their order, and while the channel is open the rest is its queue.
  pub fifo_order :
      (n : ℕ) (ps qs : List A) (c : Channel A)
      → Run n ps qs c
      → (rest : List A) × (ps ≡ qs ++ rest) × (c.is_close ≡ false → rest ≡ c.queue)
  fifo_order n ps qs c r = let v = Run-Pending ps qs r in (v.rest, v.split, v.waiting)

  pop_front :
      (i : ℕ) (c : Channel A) (x : A) (xs : List A)
      → c.is_close ≡ false
      → c.queue ≡ x ∷ xs
      → ((pop i c).1 ≡ received x) × ((pop i c).0.queue ≡ xs)
  unfolding pop take_front
  pop_front i c x xs o e = ground arith

  -- While an open channel has a value and a coroutine waits in pop(), notify() has scheduled a coroutine
  -- of pop(), and the first of these receives the first value if it is the next to get the mutex again.
  waiting_served :
      (n : ℕ) (ps qs : List A) (c : Channel A) (x : A) (xs : List A)
      → Run n ps qs c
      → c.is_close ≡ false
      → c.queue ≡ x ∷ xs
      → 0 < length c.pop_cond.wait_queue
      → (d : Channel A) × (pop_again 0 c ≡ some (d, received x)) × (d.queue ≡ xs)
  unfolding pop_again
  waiting_served n ps qs c x xs r o e w =
      let v = Run-IsSound n ps qs c r in
      let (i, h) = some_first c.popping (ground (arith, v.wakes_pop w, ap length e)) in
      let c' = record c { popping = without 0 c.popping } in
      let p = pop_front i c' x xs o e in
      ((pop i c').0, rw (h, pop_again) (ap (λ a. some ((pop i c').0, a)) p.0), p.1)
