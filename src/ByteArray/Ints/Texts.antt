-- ===== src/ByteArray/Ints/Texts.antt =====
-- Strings behind a fixed-width length.
use mathlib.Core.Path.{subst}
use native.Mathlib.Nat.{mod-eq_of_lt}
use acid_compute.Prelude.{
  [], append-nil, ℕ, ◌+◌, ◌%◌, ◌^◌, ◌<◌, ◌≡◌, sym, ap, ◌∙◌, List, ◌++◌, append_assoc, arith, length,
  length-append,
}
use acid_compute.Outcome.{ok, out_of_range, ◌>>=◌}
use acid_compute.ByteArray.Store.{set_position, ByteArray, Endian}
use acid_compute.ByteArray.Streams.{
  set_position-Filled, drop-front, Filled, Ahead, write-Filled, read-Ahead, read-Ahead_short,
}
use acid_compute.ByteArray.Ints.{write_fix_int, read_fix_int, write_string_fix, read_string_fix}
use acid_compute.ByteArray.Ints.Wire.{wire, length-wire, write_fix_int-Filled, read_fix_int-Ahead}

-- A length that fits `w` bytes, and the string.
abbrev pub text_wire : Endian → ℕ → List ℕ → List ℕ
text_wire en w s = wire en w (length s % 256 ^ w) ++ s

-- Writing a string appends its length, as far as `w` bytes hold it, and all its bytes.
pub write_string_fix-Filled :
    (host : Endian) (w : ℕ) (s : List ℕ) {base : ℕ} {en : Endian} {bytes : List ℕ} {b : ByteArray}
    → Filled base en bytes b
    → length bytes + w + length s + base < 2 ^ 64
    → (b' : ByteArray) × (write_string_fix host w s b ≡ ok b')
      × Filled base en (bytes ++ text_wire en w s) b'
unfolding write_string_fix
write_string_fix-Filled host w s {base} {en} {bytes} {b} f h =
    let n : ℕ = length s % 256 ^ w in
    let (b1, e1, f1) = write_fix_int-Filled host w n f (omega arith) in
    let (b2, e2, f2) =
      write-Filled s f1 (omega (arith, length-append bytes (wire en w n), length-wire en w n)) in
    (b2, rw (e1, e2), subst (λ t. Filled base en t b2) (append_assoc bytes (wire en w n) s) f2)

-- Reading gives a string back whose length fits.
pub read_string_fix-Ahead :
    (host : Endian) (w : ℕ) (s : List ℕ) {base : ℕ} {en : Endian} {p : ℕ} {ys : List ℕ}
    {b : ByteArray}
    → Ahead base en p (text_wire en w s ++ ys) b
    → length s < 256 ^ w
    → p + w < base
    → (b' : ByteArray) × (read_string_fix host w b ≡ ok (s, b'))
      × Ahead base en (p + w + length s) ys b'
unfolding read_string_fix
read_string_fix-Ahead host w s {base} {en} {p} {ys} {b} a h k =
    let n : length s % 256 ^ w ≡ length s = mod-eq_of_lt h in
    let a0 : Ahead base en p (wire en w (length s) ++ (s ++ ys)) b =
      subst (λ t. Ahead base en p t b)
        (ap (λ m. (wire en w m ++ s) ++ ys) n ∙ append_assoc (wire en w (length s)) s ys) a in
    let (b1, e1, a1) = read_fix_int-Ahead host w (length s) a0 h (omega arith) in
    let (b2, e2, a2) = read-Ahead s a1 k in (b2, rw (e1, e2), a2)

-- A string cut short is refused.
pub read_string_fix_cut :
    (host : Endian) (w n : ℕ) (ys : List ℕ) {base : ℕ} {en : Endian} {p : ℕ} {b : ByteArray}
    → Ahead base en p (wire en w n ++ ys) b
    → n < 256 ^ w
    → p < base
    → length ys < n
    → read_string_fix host w b ≡ out_of_range
unfolding read_string_fix
read_string_fix_cut host w n ys a h k l =
    let (b1, e1, a1) = read_fix_int-Ahead host w n a h k in rw (e1, read-Ahead_short n a1 l)

-- An integer of `w` bytes and a string behind a length of `u` bytes, both within these widths,
-- appended by one machine and read back by another from where they begin, are what was written,
-- when the string itself starts in the first block and all is within 2 ^ 64.
pub fix_round_trip :
    (host host' : Endian) (w v u : ℕ) (s : List ℕ) {base : ℕ} {en : Endian} {bytes : List ℕ}
    {b : ByteArray}
    → Filled base en bytes b
    → v < 256 ^ w
    → length s < 256 ^ u
    → length bytes + w + u + length s + base < 2 ^ 64
    → length bytes + w + u < base
    → (do
      b1 ← write_fix_int host w v b
      b2 ← write_string_fix host u s b1
      b3 ← set_position (length bytes) b2
      (x, b4) ← read_fix_int host' w b3
      (t, b5) ← read_string_fix host' u b4
      let pair : ℕ × List ℕ = (x, t) in ok pair)
      ≡ ok (v, s)
fix_round_trip host host' w v u s {base} {en} {bytes} {b} f h k l m =
    let n : List ℕ = wire en w v in
    let t : List ℕ = text_wire en u s in
    let (b1, e1, f1) = write_fix_int-Filled host w v f (omega arith) in
    let (b2, e2, f2) =
      write_string_fix-Filled host u s f1
        (omega (arith, length-append bytes n, length-wire en w v)) in
    let f3 : Filled base en (bytes ++ (n ++ t)) b2 =
      subst (λ c. Filled base en c b2) (append_assoc bytes n t) f2 in
    let (b3, e3, a3) =
      set_position-Filled (length bytes) f3 (omega (arith, length-append bytes (n ++ t))) in
    let a4 : Ahead base en (length bytes) (n ++ (t ++ [])) b3 =
      subst (λ c. Ahead base en (length bytes) c b3)
        (drop-front bytes (n ++ t) ∙ ap (λ c. n ++ c) (sym (append-nil t))) a3 in
    let (b4, e4, a5) = read_fix_int-Ahead host' w v a4 h (omega arith) in
    let (b5, e5, a6) = read_string_fix-Ahead host' u s a5 k m in rw (e1, e2, e3, e4, e5)
