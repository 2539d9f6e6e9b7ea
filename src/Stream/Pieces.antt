-- ===== src/Stream/Pieces.antt =====
-- The bytes arrive in pieces, whole, cut short, or with an error between.
use native.Mathlib.Nat.{mod-eq_of_lt}
use acid_compute.Prelude.{
  ℕ, suc, ◌+◌, ◌-◌, ◌%◌, ◌^◌, ◌≤◌, ◌<◌, ◌≡◌, refl, sym, ap, ◌∙◌, true, false, some, List, [], ◌∷◌,
  ◌++◌, append_assoc, append-nil, arith, leb, ◌==◌, length, take, drop, All, map, length-append,
  length-drop, take-append_le, take-length, drop-append_add, drop-drop, drop-all, sub64, sub64-eq,
  le→leb,
}
use acid_compute.Outcome.{ok}
use acid_compute.Stream.{Answer, received, failed, len, place, read_fix, read_fix_size}

abbrev pub concat : List (List ℕ) → List ℕ
concat [] = []
concat (c ∷ cs) = c ++ concat cs

abbrev pub IsPiece : List ℕ → Type 0
IsPiece c = 0 < length c

-- One piece that fits behind what is filled already.
one_piece :
    (total : ℕ) (more : List Answer) (done c left : List ℕ)
    → 0 < length c
    → length c ≤ length left
    → length done + length left < 2 ^ 64
    → read_fix total (received c ∷ more) (length done) (length left) (done ++ left)
      ≡ read_fix total more
          (length (done ++ c))
          (length (drop (length c) left))
          ((done ++ c) ++ drop (length c) left)
unfolding read_fix len place
one_piece total more done c left p h s =
    let left_some : (length left == 0) ≡ false = ground (arith, p, h) in
    let c_some : (length c == 0) ≡ false = ground (arith, p) in
    let fits : leb (length done + length c) (length (done ++ left)) ≡ true =
      le→leb _ _ (omega (arith, h, length-append done left)) in
    let front : take (length done) (done ++ left) ≡ done =
      take-append_le (length done) done left (omega arith) ∙ take-length done in
    let moved : (length done + length c) % 2 ^ 64 ≡ length (done ++ c) =
      mod-eq_of_lt (omega (arith, h, s)) ∙ sym (length-append done c) in
    let less : sub64 (length left) (length c) ≡ length (drop (length c) left) =
      sub64-eq (length left) (length c) h (omega (arith, s)) ∙ sym (length-drop (length c) left) in
    rw (
      left_some,
      c_some,
      fits,
      front,
      drop-append_add (length c) done left,
      moved,
      less,
      append_assoc done c (drop (length c) left),
    )

-- Pieces that fit, whatever comes behind them.
pieces :
    (total : ℕ) (more : List Answer) (cs : List (List ℕ)) (done left : List ℕ)
    → All IsPiece cs
    → length (concat cs) ≤ length left
    → length done + length left < 2 ^ 64
    → read_fix total (map received cs ++ more) (length done) (length left) (done ++ left)
      ≡ read_fix total more
          (length (done ++ concat cs))
          (length (drop (length (concat cs)) left))
          ((done ++ concat cs) ++ drop (length (concat cs)) left)
pieces total more [] done left a h s = rw (append-nil done)
pieces total more (c ∷ cs) done left a h s =
    let n : length (c ++ concat cs) ≡ length c + length (concat cs) = length-append c (concat cs) in
    let first = one_piece total (map received cs ++ more) done c left a.0 (omega (arith, h, n)) s in
    let others =
      pieces total more cs (done ++ c) (drop (length c) left) a.1
        (omega (arith, h, n, length-drop (length c) left))
        (omega (arith, h, n, s, length-append done c, length-drop (length c) left)) in
    first
    ∙ others
    ∙ rw (n, append_assoc done c (concat cs), drop-drop (length c) (length (concat cs)) left)

finished :
    (total : ℕ) (more : List Answer) (offset : ℕ) (buf : List ℕ)
    → read_fix total more offset 0 buf ≡ ok (some (total, buf))
unfolding read_fix
finished total [] offset buf = refl
finished total (a ∷ more) offset buf = refl

-- When the pieces, none of them empty, are together as long as the buffer and shorter than 2 ^ 64 bytes,
-- read_fix_size fills the buffer with them and gives its length, whatever would come behind.
pub read_fix_size_whole :
    (cs : List (List ℕ)) (more : List Answer) (buf : List ℕ)
    → All IsPiece cs
    → length (concat cs) ≡ length buf
    → length buf < 2 ^ 64
    → read_fix_size (map received cs ++ more) (length buf) buf ≡ ok (some (length buf, concat cs))
unfolding read_fix_size
read_fix_size_whole cs more buf a h s =
    let none_left : drop (length (concat cs)) buf ≡ [] =
      drop-all (length (concat cs)) buf (omega (arith, h)) in
    pieces (length buf) more cs [] buf a (omega (arith, h)) (omega (arith, s))
    ∙ rw (none_left, append-nil (concat cs)) (finished (length buf) more _ (concat cs))

-- When the connection ends after pieces, none of them empty, that are together shorter than the buffer,
-- which is shorter than 2 ^ 64 bytes, the result is 0 and the buffer's front holds what came.
pub read_fix_size_cut :
    (cs : List (List ℕ)) (more : List Answer) (buf : List ℕ)
    → All IsPiece cs
    → length (concat cs) < length buf
    → length buf < 2 ^ 64
    → read_fix_size (map received cs ++ (received [] ∷ more)) (length buf) buf
      ≡ ok (some (0, concat cs ++ drop (length (concat cs)) buf))
unfolding read_fix_size read_fix
read_fix_size_cut cs more buf a h s =
    let some_left : (length (drop (length (concat cs)) buf) == 0) ≡ false =
      ground (arith, h, length-drop (length (concat cs)) buf) in
    pieces (length buf) (received [] ∷ more) cs [] buf a (omega (arith, h)) (omega (arith, s))
    ∙ rw some_left

-- An error moves back by a byte.
one_back :
    (total : ℕ) (more : List Answer) (o left : ℕ) (buf : List ℕ)
    → 0 < left
    → suc left < 2 ^ 64
    → suc o < 2 ^ 64
    → read_fix total (failed ∷ more) (suc o) left buf ≡ read_fix total more o (suc left) buf
unfolding read_fix sub64
one_back total more o left buf p h s =
    let some_left : (left == 0) ≡ false = ground (arith, p) in
    let back : (suc o + (2 ^ 64 - 1)) % 2 ^ 64 ≡ o = omega (arith, s) in
    let grown : (left + 2 ^ 64 - (2 ^ 64 - 1)) % 2 ^ 64 ≡ suc left = omega (arith, h) in
    rw (some_left, back, grown)

-- An error between the pieces is not noticed. After pieces that end in a byte `x`, none of them empty,
-- which leave room in a buffer shorter than 2 ^ 64 - 1 bytes, comes an error and then one piece `ys` that is a byte
-- longer than the room: the result is the full length, and `x` is overwritten by the first byte of `ys`.
pub read_fix_size_hides_error :
    (cs : List (List ℕ)) (front : List ℕ) (x : ℕ) (ys buf : List ℕ) (more : List Answer)
    → All IsPiece cs
    → concat cs ≡ front ++ (x ∷ [])
    → length (concat cs) < length buf
    → length ys + length (concat cs) ≡ suc (length buf)
    → suc (length buf) < 2 ^ 64
    → read_fix_size (map received cs ++ (failed ∷ (received ys ∷ more))) (length buf) buf
      ≡ ok (some (length buf, front ++ ys))
unfolding read_fix_size
read_fix_size_hides_error cs front x ys buf more a e h l s =
    let got : List ℕ = concat cs in
    let room : List ℕ = drop (length got) buf in
    let n : length got ≡ suc (length front) =
      ap length e ∙ omega (arith, length-append front (x ∷ [])) in
    let r : length room ≡ length buf - length got = length-drop (length got) buf in
    let start =
      pieces (length buf) (failed ∷ (received ys ∷ more)) cs [] buf a (omega (arith, h))
        (omega (arith, s)) in
    let back =
      one_back (length buf) (received ys ∷ more) (length front) (length room) (got ++ room)
        (omega (arith, h, r)) (omega (arith, s, r)) (omega (arith, s, h, n)) in
    let again =
      one_piece (length buf) more front ys (x ∷ room) (omega (arith, h, l)) (omega (arith, h, l, r))
        (omega (arith, s, h, r, n)) in
    let none_left : drop (length ys) (x ∷ room) ≡ [] =
      drop-all (length ys) (x ∷ room) (omega (arith, h, l, r)) in
    let whole : got ++ room ≡ front ++ (x ∷ room) =
      ap (λ t. t ++ room) e ∙ append_assoc front (x ∷ []) room in
    start
    ∙ ap (λ k. read_fix (length buf) (failed ∷ (received ys ∷ more)) k (length room) (got ++ room))
        n
    ∙ back
    ∙ ap (read_fix (length buf) (received ys ∷ more) (length front) (suc (length room))) whole
    ∙ again
    ∙ rw (none_left, append-nil (front ++ ys)) (finished (length buf) more _ (front ++ ys))
