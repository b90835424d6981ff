-- ===== src/Std/Endian.antt =====
-- `encoding/binary`: `PutUint64`, `Uint64` and their shorter kin, on `k` bytes, in both orders.
use setrixdb.Base.{
  ℕ, zero, suc, ◌+◌, ◌*◌, ◌/◌, ◌%◌, ◌^◌, ◌<◌, ◌≡◌, refl, sym, subst, ap, ap₂, ◌∙◌, List, [], ◌∷◌,
  ◌++◌, length, length-append, arith, Below,
}
use native.Mathlib.Nat.{pow-suc}

unfoldable pub put_le : ℕ → ℕ → List ℕ
put_le zero n = []
put_le (suc k) n = n % 256 ∷ put_le k (n / 256)

unfoldable pub get_le : List ℕ → ℕ
get_le [] = 0
get_le (b ∷ bs) = b + 256 * get_le bs

pub length-put_le : (k n : ℕ) → length (put_le k n) ≡ k
unfolding put_le
length-put_le zero n = refl
length-put_le (suc k) n = ap suc (length-put_le k (n / 256))

pub put_le-Below : (k n : ℕ) → Below 256 (put_le k n)
unfolding put_le
put_le-Below zero n = tt
put_le-Below (suc k) n = (omega arith, put_le-Below k (n / 256))

-- Reading back what was written, for a number that fits the bytes.
pub get_le-put_le : (k n : ℕ) → n < 256 ^ k → get_le (put_le k n) ≡ n
unfolding put_le get_le
get_le-put_le zero n h = omega arith
get_le-put_le (suc k) n h = omega (arith, get_le-put_le k (n / 256) (omega (arith, pow-suc 256 k)))

-- Writing back what was read.
pub put_le-get_le : (bs : List ℕ) → Below 256 bs → put_le (length bs) (get_le bs) ≡ bs
unfolding put_le get_le
put_le-get_le [] h = refl
put_le-get_le (b ∷ bs) h =
    let low : (b + 256 * get_le bs) % 256 ≡ b = omega arith in
    let high : (b + 256 * get_le bs) / 256 ≡ get_le bs = omega arith in
    ap₂ ◌∷◌ low (ap (put_le (length bs)) high ∙ put_le-get_le bs h.1)

pub get_le-lt : (bs : List ℕ) → Below 256 bs → get_le bs < 256 ^ length bs
unfolding get_le
get_le-lt [] h = omega arith
get_le-lt (b ∷ bs) h = omega (arith, pow-suc 256 (length bs), get_le-lt bs h.1)

-- `BigEndian.PutUint32` and its kin: the `k` lower bytes, the highest first.
unfoldable pub put_be : ℕ → ℕ → List ℕ
put_be zero n = []
put_be (suc k) n = put_be k (n / 256) ++ (n % 256 ∷ [])

-- The bytes read after a number.
unfoldable pub get_be : ℕ → List ℕ → ℕ
get_be n [] = n
get_be n (b ∷ bs) = get_be (256 * n + b) bs

pub length-put_be : (k n : ℕ) → length (put_be k n) ≡ k
unfolding put_be
length-put_be zero n = refl
length-put_be (suc k) n =
    length-append (put_be k (n / 256)) (n % 256 ∷ []) ∙ omega (arith, length-put_be k (n / 256))

get_be-append : (n : ℕ) (xs : List ℕ) (b : ℕ) → get_be n (xs ++ (b ∷ [])) ≡ 256 * get_be n xs + b
unfolding get_be
get_be-append n [] b = refl
get_be-append n (x ∷ xs) b = get_be-append (256 * n + x) xs b

pub get_be-put_be : (k n : ℕ) → n < 256 ^ k → get_be 0 (put_be k n) ≡ n
unfolding put_be get_be
get_be-put_be zero n h = omega arith
get_be-put_be (suc k) n h =
    get_be-append 0 (put_be k (n / 256)) (n % 256)
    ∙ omega (arith, get_be-put_be k (n / 256) (omega (arith, pow-suc 256 k)))

last_of :
    (x : ℕ) (xs : List ℕ)
    → (ys : List ℕ) × (y : ℕ) × (x ∷ xs ≡ ys ++ (y ∷ [])) × (length ys ≡ length xs)
last_of x [] = ([], x, refl, refl)
last_of x (z ∷ xs) = let (ys, y, e, same) = last_of z xs in (x ∷ ys, y, ap (◌∷◌ x) e, ap suc same)

Below-front : (ys : List ℕ) (y : ℕ) → Below 256 (ys ++ (y ∷ [])) → Below 256 ys × (y < 256)
Below-front [] y h = (tt, h.0)
Below-front (x ∷ ys) y h = let (front, last) = Below-front ys y h.1 in ((h.0, front), last)

put_be-of_length :
    (k n : ℕ) (bs : List ℕ) → length bs ≡ k → Below 256 bs → put_be k (get_be n bs) ≡ bs
unfolding put_be
put_be-of_length zero n [] e h = refl
put_be-of_length zero n (b ∷ bs) e h = absurd (omega arith)
put_be-of_length (suc k) n [] e h = absurd (omega arith)
put_be-of_length (suc k) n (b ∷ bs) e h =
    let (ys, y, whole, same) = last_of b bs in
    let (front, last) = Below-front ys y (subst (Below 256) whole h) in
    let value : get_be n (b ∷ bs) ≡ 256 * get_be n ys + y =
      ap (get_be n) whole ∙ get_be-append n ys y in
    let high : (256 * get_be n ys + y) / 256 ≡ get_be n ys = omega (arith, last) in
    let low : (256 * get_be n ys + y) % 256 ≡ y = omega (arith, last) in
    rw (value, high, low)
      (ap (λ zs. zs ++ (y ∷ [])) (put_be-of_length k n ys (omega (arith, same, e)) front)
        ∙ sym whole)

-- Writing back what was read, the highest byte first.
pub put_be-get_be : (bs : List ℕ) → Below 256 bs → put_be (length bs) (get_be 0 bs) ≡ bs
put_be-get_be bs h = put_be-of_length (length bs) 0 bs refl h
