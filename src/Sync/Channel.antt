-- ===== src/Sync/Channel.antt =====
-- ChannelImpl of acid/common/channel.h. CoMutex lets one coroutine at a time into the code between a
-- lock or the return of wait() and the next wait() or the end, so each operation here is one such
-- piece. A coroutine in push() is its id with the value it sends, one in pop() is its id.
-- `pushing` and `popping` are those that notify() has scheduled and that have not gone on. wait() ends
-- with a lock() of the mutex, and a coroutine that still waits in it has not gone on: it does so any time
-- later, in any order, or, as CoMutex can leave a coroutine asleep, never.
pub mod Delivery
pub mod Fifo
use acid_compute.Prelude.{
  ℕ, suc, ◌<◌, Bool, true, false, Option, none, some, List, [], ◌∷◌, ◌++◌, ◌≡◌, if◌then◌else◌, leb,
  length, take, drop, get_elem?,
}
use acid_compute.Sync.Cond.{CoCond, quiet, notify, notify_all, enqueue}

pub record Channel (A : Type 0) : Type 0 where
  pub is_close : Bool
  pub capacity : ℕ
  pub push_cond : CoCond (ℕ × A)
  pub pop_cond : CoCond ℕ
  pub queue : List A
  pub pushing : List (ℕ × A)
  pub popping : List ℕ

-- How a piece ends: in wait(), with `false`, or with `true` and the value of push() or pop().
pub data Ending (A : Type 0) : Type 0 where
  waits refused : Ending A
  accepted received : A → Ending A

abbrev pub without : {B : Type 0} → ℕ → List B → List B
without k ws = take k ws ++ drop (suc k) ws

module _ {A : Type 0} where
  unfoldable pub open_channel : ℕ → Channel A
  open_channel n = record {
    is_close = false;
    capacity = n;
    push_cond = quiet;
    pop_cond = quiet;
    queue = [];
    pushing = [];
    popping = [];
  }

  abbrev pub queue_up : A → Channel A → CoCond ℕ × List ℕ → Channel A × Ending A
  queue_up x c (cond, woken) = (
    record c { queue = c.queue ++ (x ∷ []); pop_cond = cond; popping = c.popping ++ woken },
    accepted x,
  )

  unfoldable pub push : ℕ → A → Channel A → Channel A × Ending A
  unfolding notify enqueue
  push i x c =
      if c.is_close
      then (c, refused)
      else if leb c.capacity (length c.queue)
      then (record c { push_cond = enqueue (i, x) c.push_cond }, waits)
      else queue_up x c (notify c.pop_cond)

  abbrev pub hand_out :
      A → List A → Channel A → CoCond (ℕ × A) × List (ℕ × A) → Channel A × Ending A
  hand_out x xs c (cond, woken) =
      (record c { queue = xs; push_cond = cond; pushing = c.pushing ++ woken }, received x)

  unfoldable pub take_front : ℕ → List A → Channel A → Channel A × Ending A
  unfolding notify enqueue
  take_front i [] c = (record c { pop_cond = enqueue i c.pop_cond }, waits)
  take_front i (x ∷ xs) c = hand_out x xs c (notify c.push_cond)

  unfoldable pub pop : ℕ → Channel A → Channel A × Ending A
  unfolding take_front
  pop i c = if c.is_close then (c, refused) else take_front i c.queue c

  unfoldable pub close : Channel A → Channel A
  unfolding notify_all
  close c = if c.is_close then c else record c {
    is_close = true;
    push_cond = (notify_all c.push_cond).0;
    pushing = c.pushing ++ (notify_all c.push_cond).1;
    pop_cond = (notify_all c.pop_cond).0;
    popping = c.popping ++ (notify_all c.pop_cond).1;
    queue = [];
  }

  -- The k-th scheduled coroutine has the mutex again and goes on behind its wait().
  unfoldable pub push_again : ℕ → Channel A → Option (Channel A × Ending A)
  unfolding push
  push_again k c = elim (get_elem? c.pushing k) [
    | none ↦ none
    | some (i, x) ↦ some (push i x (record c { pushing = without k c.pushing }))
  ]

  unfoldable pub pop_again : ℕ → Channel A → Option (Channel A × Ending A)
  unfolding pop
  pop_again k c = elim (get_elem? c.popping k) [
    | none ↦ none
    | some i ↦ some (pop i (record c { popping = without k c.popping }))
  ]
