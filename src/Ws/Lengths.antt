-- ===== src/Ws/Lengths.antt =====
-- The length field of a frame: what length_bytes writes, read_length reads, and it reads nothing
-- else.
use open_remote_commander.Prelude.{
  ℕ, zero, suc, ◌+◌, ◌*◌, ◌/◌, ◌%◌, ◌^◌, ◌<◌, ◌≡◌, refl, sym, ap, subst, ◌∙◌, Bool, true, false,
  List, [], ◌∷◌, ◌++◌, append_assoc, append-nil, length-append, ok-injective, arith, Result, ok,
  err, >>=-eq-ok, fail_if-eq-ok, err-ne-ok, length, ltb, leb, ◌==◌, if◌then◌else◌, All, All-halves,
  fail_if, Bool-cases, inl, inr, String,
}
use open_remote_commander.Ws.{
  Error, protocol, put_front, read_full, uint_from, put_uint, extended, read_length, length_bytes,
  is_short, is_invalid,
}
use open_remote_commander.Ws.Bytes.{IsByte, second_byte}

pub read_full-append : (bs rest : List ℕ) → read_full (length bs) (bs ++ rest) ≡ ok (bs, rest)
unfolding read_full
read_full-append [] rest = refl
read_full-append (b ∷ bs) rest = rw (read_full-append bs rest)

put_front-eq-ok :
    (b : ℕ) (r : Result Error (List ℕ × List ℕ)) (bs rest : List ℕ)
    → put_front b r ≡ ok (bs, rest)
    → (xs : List ℕ) × (r ≡ ok (xs, rest)) × (b ∷ xs ≡ bs)
put_front-eq-ok b (err e) bs rest h = absurd (err-ne-ok h)
put_front-eq-ok b (ok (xs, s)) bs rest h =
    let e = ok-injective h in (xs, ap (λ s. ok (xs, s)) (ap (λ p. p.1) e), ap (λ p. p.0) e)

-- What read_full accepts is the front of the bytes, of that length.
pub read_full-front :
    (k : ℕ) (s bs rest : List ℕ)
    → read_full k s ≡ ok (bs, rest)
    → (s ≡ bs ++ rest) × (length bs ≡ k)
unfolding read_full
read_full-front zero s bs rest h =
    let e = ok-injective h in
    (ap (λ (p : List ℕ × List ℕ). p.0 ++ p.1) e, ap length (sym (ap (λ p. p.0) e)))
read_full-front (suc k) [] bs rest h = absurd (err-ne-ok h)
read_full-front (suc k) (b ∷ s) bs rest h =
    let (xs, read, e) = put_front-eq-ok b (read_full k s) bs rest h in
    let (front, n) = read_full-front k s xs rest read in
    (ap (λ t. b ∷ t) front ∙ ap (λ t. t ++ rest) e, sym (ap length e) ∙ ap suc n)

pub length-put_uint : (k n : ℕ) → length (put_uint k n) ≡ k
unfolding put_uint
length-put_uint zero n = refl
length-put_uint (suc k) n =
    omega (arith, length-append (put_uint k (n / 256)) (n % 256 ∷ []), length-put_uint k (n / 256))

uint_from-append : (n : ℕ) (xs ys : List ℕ) → uint_from n (xs ++ ys) ≡ uint_from (uint_from n xs) ys
unfolding uint_from
uint_from-append n [] ys = refl
uint_from-append n (x ∷ xs) ys = uint_from-append (n * 256 + x) xs ys

-- A number of k bytes is read back.
pub uint_from-put_uint : (k n : ℕ) → n < 256 ^ k → uint_from 0 (put_uint k n) ≡ n
unfolding put_uint uint_from
uint_from-put_uint zero n h = omega arith
uint_from-put_uint (suc k) n h = omega (
  arith,
  uint_from-append 0 (put_uint k (n / 256)) (n % 256 ∷ []),
  uint_from-put_uint k (n / 256) (omega arith),
)

put_uint-from :
    (k j n : ℕ) (bs : List ℕ)
    → k ≡ length bs + j
    → All IsByte bs
    → put_uint k (uint_from n bs) ≡ put_uint j n ++ bs
unfolding put_uint uint_from
put_uint-from k j n [] e h =
    let same : k ≡ j = omega arith in ap (λ i. put_uint i n) same ∙ sym (append-nil (put_uint j n))
put_uint-from k j n (b ∷ bs) e h =
    let high : (n * 256 + b) / 256 ≡ n = omega arith in
    let low : (n * 256 + b) % 256 ≡ b = omega arith in
    let front : put_uint j ((n * 256 + b) / 256) ++ (n * 256 + b) % 256 ∷ []
        ≡ put_uint j n ++ b ∷ [] =
      cc (high, low) in
    put_uint-from k (suc j) (n * 256 + b) bs (omega arith) h.1
    ∙ ap (λ t. t ++ bs) front
    ∙ append_assoc (put_uint j n) (b ∷ []) bs

-- And bytes are written back.
pub put_uint-uint_from :
    (k : ℕ) (bs : List ℕ) → length bs ≡ k → All IsByte bs → put_uint k (uint_from 0 bs) ≡ bs
unfolding put_uint
put_uint-uint_from k bs e h = put_uint-from k 0 0 bs (omega arith) h

uint_from-lt :
    (k j n : ℕ) (bs : List ℕ)
    → k ≡ length bs + j
    → All IsByte bs
    → n < 256 ^ j
    → uint_from n bs < 256 ^ k
unfolding uint_from
uint_from-lt k j n [] e h below = let same : k ≡ j = omega arith in rw same below
uint_from-lt k j n (b ∷ bs) e h below =
    uint_from-lt k (suc j) (n * 256 + b) bs (omega arith) h.1 (omega arith)

pub extended-put_uint :
    (k l : ℕ) (is_bad : ℕ → Bool) (reason : String) (rest : List ℕ)
    → l < 256 ^ k
    → is_bad l ≡ false
    → extended k is_bad reason (put_uint k l ++ rest) ≡ ok (l, rest)
unfolding extended
extended-put_uint k l is_bad reason rest below good = rw (
  subst (λ n. read_full n (put_uint k l ++ rest) ≡ ok (put_uint k l, rest)) (length-put_uint k l)
      (read_full-append (put_uint k l) rest),
  uint_from-put_uint k l below,
  good,
)

pub extended-eq-ok :
    (k l : ℕ) (is_bad : ℕ → Bool) (reason : String) (s rest : List ℕ)
    → All IsByte s
    → extended k is_bad reason s ≡ ok (l, rest)
    → (s ≡ put_uint k l ++ rest) × (is_bad l ≡ false) × (l < 256 ^ k)
unfolding extended
extended-eq-ok k l is_bad reason s rest bytes h =
    let ((b, r), read, checked) = >>=-eq-ok (read_full k s) _ h in
    let (u, fine, e) = >>=-eq-ok (fail_if (is_bad (uint_from 0 b)) (protocol reason)) _ checked in
    let (front, n) = read_full-front k s b r read in
    let value : uint_from 0 b ≡ l = ap (λ p. p.0) (ok-injective e) in
    let back : r ≡ rest = ap (λ p. p.1) (ok-injective e) in
    let bytes' = (All-halves IsByte b r (subst (All IsByte) front bytes)).0 in
    (
      front ∙ cc (put_uint-uint_from k b n bytes', value, back),
      subst (λ v. is_bad v ≡ false) value (fail_if-eq-ok (is_bad (uint_from 0 b)) _ fine),
      subst (λ v. v < 256 ^ k) value (uint_from-lt k 0 0 b (omega arith) bytes' (omega arith)),
    )

-- The length that follows the mask bit is read back.
pub read_length-length_bytes :
    (masked : Bool) (l : ℕ) (rest : List ℕ)
    → l < 0x8000000000000000
    → (n : ℕ) × (tail : List ℕ) × (length_bytes (if masked then 0x80 else 0) l ++ rest
        ≡ second_byte masked n ∷ tail)
      × (n < 128)
      × (read_length n tail ≡ ok (l, rest))
unfolding length_bytes read_length
read_length-length_bytes masked l rest h = elim (Bool-cases (ltb l 126)) [
  | inl small ↦ rw small (l, rest, refl, ground (arith, small), ground (arith, small))
  | inr big ↦ elim (Bool-cases (leb l 65535)) [
    | inl two ↦
        rw (big, two)
          (
            126,
            put_uint 2 l ++ rest,
            refl,
            omega arith,
            extended-put_uint 2 l is_short "non-canonical length" rest (ground (arith, two))
                (ground (arith, big)),
          )
    | inr eight ↦
        rw (big, eight)
          (
            127,
            put_uint 8 l ++ rest,
            refl,
            omega arith,
            extended-put_uint 8 l is_invalid "invalid length" rest (ground (arith, h))
                (ground (arith, eight, h)),
          )
  ]
]

-- A length that is read was written in the one way that length_bytes writes it.
pub read_length-eq-ok :
    (masked : Bool) (n l : ℕ) (s rest : List ℕ)
    → n < 128
    → All IsByte s
    → read_length n s ≡ ok (l, rest)
    → (second_byte masked n ∷ s ≡ length_bytes (if masked then 0x80 else 0) l ++ rest)
      × (l < 0x8000000000000000)
unfolding read_length length_bytes
read_length-eq-ok masked n l s rest small bytes = elim (Bool-cases (n == 126)) [
  | inl two ↦ rw two λ h.
      let (front, short, below) =
        extended-eq-ok 2 l is_short "non-canonical length" s rest bytes h in
      let code : n ≡ 126 = ground (arith, two) in
      let fits : leb l 65535 ≡ true = ground (arith, below) in
      (rw (short, fits, code, front) refl, omega (arith, below))
  | inr more ↦ elim (Bool-cases (n == 127)) [
    | inl eight ↦
        rw (more, eight)
          λ h.
            let (front, valid, below) =
              extended-eq-ok 8 l is_invalid "invalid length" s rest bytes h in
            let code : n ≡ 127 = ground (arith, eight) in
            let long : leb l 65535 ≡ false = ground (arith, valid) in
            let longer : ltb l 126 ≡ false = ground (arith, valid) in
            (rw (longer, long, code, front) refl, ground (arith, valid))
    | inr one ↦
        rw (more, one)
          λ h.
            let value : n ≡ l = ap (λ p. p.0) (ok-injective h) in
            let back : s ≡ rest = ap (λ p. p.1) (ok-injective h) in
            let short : ltb l 126 ≡ true = ground (arith, more, one, value, small) in
            (rw (short, value, back) refl, omega (arith, value, small))
  ]
]
