-- ===== src/Stream/Sockets/Silence.antt =====
-- What a socket is handed for a run of bytes within one block: nothing.
use acid_compute.Prelude.{
  ℕ, ◌+◌, ◌-◌, ◌/◌, ◌%◌, ◌^◌, ◌<◌, ◌≤◌, ◌≡◌, refl, Option, some, All, sub64, List, [], ◌∷◌, ◌++◌,
  arith, drop, sub64-eq, length,
}
use acid_compute.Outcome.{Outcome, ok, undefined}
use acid_compute.ByteArray.Store.{ByteArray, get_capacity, add_capacity}
use acid_compute.ByteArray.Store.Shape.{IsValid}
use acid_compute.ByteArray.Store.Cursor.{Located, locate}
use acid_compute.ByteArray.Store.Growth.{cur_inside, pos_test}
use acid_compute.ByteArray.Store.Slices.{room}
use acid_compute.ByteArray.Buffers.{get_write_buffers, buffers_from}
use acid_compute.ByteArray.Buffers.Views.{one_round}
use acid_compute.Stream.Sockets.{
  Arrival, disconnected, recv_failed, arrived, read_array, read_fix_array, scatter, moved,
  minus_one,
}

add_capacity_enough :
    (len : ℕ) (b : ByteArray) → IsValid b → len < b.capacity - b.position → add_capacity len b ≡ b
unfolding add_capacity get_capacity
add_capacity_enough len b v h = ground (arith, sub64-eq b.capacity b.position)

pub get_write_buffers_nothing :
    (len : ℕ) (b : ByteArray)
    → IsValid b
    → 0 < len
    → len < b.capacity - b.position
    → b.position % b.base_size + len ≤ b.base_size
    → get_write_buffers len b ≡ ok ([], len, b)
unfolding get_write_buffers buffers_from
get_write_buffers_nothing len b v p h fits =
    let at : ℕ = b.position in
    let inside : at < b.capacity = omega arith in
    let l : Located b.base_size b.nodes at =
      locate b.base_size b.nodes at v.positive v.shape (omega arith) in
    rw (
      add_capacity_enough len b v h,
      pos_test len p,
      cur_inside b v inside,
      room b at v inside,
      one_round (drop (at / b.base_size) b.nodes) (at / b.base_size) (at % b.base_size)
          (b.base_size - at % b.base_size) len (omega (arith, l.behind, l.index_lt)) p
          (omega arith),
    )

-- recv gave -1, or was not called.
abbrev pub IsError : Arrival → Type 0
IsError disconnected = Unit
IsError recv_failed = Unit
IsError (arrived bs) = ⊥

-- No bytes end the loop, and there is no iovec for others.
abbrev pub nothing_read :
    List ℕ → List Arrival → ByteArray → Outcome (Option (ℕ × ByteArray × List Arrival))
nothing_read [] more b = ok (some (0, b, more))
nothing_read (x ∷ bs) more b = undefined

after_error : (left : ℕ) → left + 1 < 2 ^ 64 → sub64 left minus_one ≡ left + 1
unfolding sub64
after_error left h = omega arith

read_array_error :
    (a : Arrival) (left : ℕ) (b : ByteArray)
    → IsError a
    → get_write_buffers left b ≡ ok ([], left, b)
    → read_array a left b ≡ ok (minus_one, b)
unfolding read_array
read_array_error disconnected left b e w = refl
read_array_error recv_failed left b e w = rw w refl
read_array_error (arrived bs) left b e w = absurd e

pub read_fix_array_nothing :
    (total : ℕ) (fs : List Arrival) (bs : List ℕ) (more : List Arrival) (left : ℕ) (b : ByteArray)
    → IsValid b
    → All IsError fs
    → 0 < left
    → left + length fs < b.capacity - b.position
    → b.position % b.base_size + left + length fs ≤ b.base_size
    → read_fix_array total (fs ++ (arrived bs ∷ more)) left b ≡ nothing_read bs more b
unfolding read_fix_array read_array scatter moved
read_fix_array_nothing total [] [] more left b v e p h fits =
    let w = get_write_buffers_nothing left b v p (omega arith) (omega arith) in
    rw (pos_test left p, w) refl
read_fix_array_nothing total [] (x ∷ bs) more left b v e p h fits =
    let w = get_write_buffers_nothing left b v p (omega arith) (omega arith) in
    rw (pos_test left p, w) refl
read_fix_array_nothing total (a ∷ fs) bs more left b v e p h fits =
    let w = get_write_buffers_nothing left b v p (omega arith) (omega arith) in
    let again =
      read_fix_array_nothing total fs bs more (left + 1) b v e.1 (omega arith) (omega arith)
        (omega arith) in
    rw (pos_test left p, read_array_error a left b e.0 w, after_error left (omega (arith, v.fits)))
      again
