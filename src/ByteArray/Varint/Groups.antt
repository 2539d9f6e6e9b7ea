-- ===== src/ByteArray/Varint/Groups.antt =====
-- What the writers put into `tmp`, and what the readers make of it.
use native.Mathlib.Nat.{div-add-mod, mod-eq_of_lt, pow-suc}
use native.Mathlib.Numerals.{towards_suc}
use mathlib.Core.Path.{subst}
use acid_compute.Prelude.{
  ℕ, zero, suc, ◌+◌, ◌*◌, ◌/◌, ◌%◌, ◌^◌, ◌≤◌, ◌<◌, ◌≡◌, refl, ap, ◌∙◌, inl, inr, List, [], ◌∷◌,
  ◌++◌, arith, ltb, leb, if◌then◌else◌, length, Bool-cases, lt→ltb, ge→ltb,
}
use acid_compute.Outcome.{ok}
use acid_compute.ByteArray.Store.{ByteArray, Endian}
use acid_compute.ByteArray.Streams.{Ahead}
use acid_compute.ByteArray.Ints.{read_fix_uint8}
use acid_compute.ByteArray.Ints.Wire.{read_fix_uint8-Ahead}
use acid_compute.ByteArray.Varint.{groups, read_groups}

-- At most `k + 1` groups of seven bits, lowest first; all but the last carry the top bit.
pub code : ℕ → ℕ → List ℕ
code zero v = v ∷ []
code (suc k) v = if leb 128 v then (v % 128 + 128) ∷ code k (v / 128) else v ∷ []

-- A value below 128 ^ (k + 1) fits `k + 1` elements of `tmp`.
pub groups-code : (k v : ℕ) → v < 128 ^ suc k → groups (suc k) v ≡ ok (code k v)
unfolding groups code
groups-code zero v h = ground arith
groups-code (suc k) v h = ground (arith, groups-code k (v / 128), pow-suc 128 (suc k))

pub length-code : (k v : ℕ) → (1 ≤ length (code k v)) × (length (code k v) ≤ k + 1)
unfolding code
length-code zero v = omega arith
length-code (suc k) v = ground (arith, length-code k (v / 128))

shift_seven : (i : ℕ) → 2 ^ (i + 7) ≡ 128 * 2 ^ i
shift_seven i = simp towards_suc (omega arith)

-- The lowest group of `w` and the rest, both shifted by `i`.
split_group : (w i : ℕ) → w * 2 ^ i ≡ w % 128 * 2 ^ i + w / 128 * 2 ^ (i + 7)
split_group w i =
    omega (arith, ap (λ t. t * 2 ^ i) (div-add-mod w 128), ap (λ t. w / 128 * t) (shift_seven i))

-- One round of the readers, on a last group and on another.
last_group :
    (rounds bits i result w : ℕ) (b b' : ByteArray)
    → read_fix_uint8 b ≡ ok (w, b')
    → w < 128
    → w * 2 ^ i < 2 ^ bits
    → read_groups (suc rounds) bits i result b ≡ ok (result + w * 2 ^ i, b')
unfolding read_groups
last_group rounds bits i result w b b' e h fits = rw (e, lt→ltb w 128 h, mod-eq_of_lt fits)

more_group :
    (rounds bits i result g : ℕ) (b b' : ByteArray)
    → read_fix_uint8 b ≡ ok (g + 128, b')
    → g < 128
    → g * 2 ^ i < 2 ^ bits
    → read_groups (suc rounds) bits i result b
      ≡ read_groups rounds bits (i + 7) (result + g * 2 ^ i) b'
unfolding read_groups
more_group rounds bits i result g b b' e h fits =
    let low : (g + 128) % 128 ≡ g = omega arith in
    rw (e, ge→ltb (g + 128) 128 (omega arith), low, mod-eq_of_lt fits)

code_small : (k w : ℕ) → w < 128 → code k w ≡ w ∷ []
unfolding code
code_small zero w h = refl
code_small (suc k) w h = ground arith

code_large : (k w : ℕ) → 128 ≤ w → code (suc k) w ≡ (w % 128 + 128) ∷ code k (w / 128)
unfolding code
code_large k w h = ground arith

-- What reading `bytes` of a code for `w` leads to.
abbrev Reads : (k bits i result w base : ℕ) → Endian → (p : ℕ) (ys : List ℕ) → ByteArray → Type 0
Reads k bits i result w base en p ys b =
    (b' : ByteArray) × (read_groups (suc k) bits i result b ≡ ok (result + w * 2 ^ i, b'))
    × Ahead base en (p + length (code k w)) ys b'

one_group :
    (k bits i result w : ℕ) {base : ℕ} {en : Endian} {p : ℕ} (ys : List ℕ) {b : ByteArray}
    → Ahead base en p (code k w ++ ys) b
    → w < 128
    → result + w * 2 ^ i < 2 ^ bits
    → p + k < base
    → Reads k bits i result w base en p ys b
one_group k bits i result w {base} {en} {p} ys {b} a h fits near =
    let one : code k w ≡ w ∷ [] = code_small k w h in
    let a0 : Ahead base en p (w ∷ ys) b = subst (λ c. Ahead base en p (c ++ ys) b) one a in
    let (b', e, a') = read_fix_uint8-Ahead w a0 (omega arith) in
    (b', last_group k bits i result w b b' e h (omega arith), rw one a')

-- Reading the code of `w` adds `w`, shifted to the bit `i`, and takes the code off.
pub read_groups-code :
    (k bits i result w : ℕ) {base : ℕ} {en : Endian} {p : ℕ} (ys : List ℕ) {b : ByteArray}
    → Ahead base en p (code k w ++ ys) b
    → w < 128 ^ suc k
    → result + w * 2 ^ i < 2 ^ bits
    → p + k < base
    → Reads k bits i result w base en p ys b
read_groups-code zero bits i result w ys a h fits near =
    one_group zero bits i result w ys a (omega arith) fits near
read_groups-code (suc k) bits i result w {base} {en} {p} ys {b} a h fits near =
    elim (Bool-cases (ltb w 128)) [
      | inl small ↦ one_group (suc k) bits i result w ys a (ground arith) fits near
      | inr large ↦
          let more : code (suc k) w ≡ (w % 128 + 128) ∷ code k (w / 128) =
            code_large k w (ground arith) in
          let a0 : Ahead base en p ((w % 128 + 128) ∷ (code k (w / 128) ++ ys)) b =
            subst (λ c. Ahead base en p (c ++ ys) b) more a in
          let (b1, e1, a1) = read_fix_uint8-Ahead (w % 128 + 128) a0 (omega arith) in
          let sum : w * 2 ^ i ≡ w % 128 * 2 ^ i + w / 128 * 2 ^ (i + 7) = split_group w i in
          let total : result + w % 128 * 2 ^ i + w / 128 * 2 ^ (i + 7) ≡ result + w * 2 ^ i =
            omega arith in
          let (b2, e2, a2) =
            read_groups-code k bits (i + 7) (result + w % 128 * 2 ^ i) (w / 128) ys a1
              (omega (arith, pow-suc 128 (suc k))) (omega arith) (omega arith) in
          let n : p + 1 + length (code k (w / 128)) ≡ p + length (code (suc k) w) =
            omega (arith, ap length more) in
          (
            b2,
            more_group (suc k) bits i result (w % 128) b b1 e1 (omega arith) (omega arith)
                ∙ e2
                ∙ ap (λ t. ok (t, b2)) total,
            subst (λ m. Ahead base en m ys b2) n a2,
          )
    ]
