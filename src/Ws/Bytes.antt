-- ===== src/Ws/Bytes.antt =====
-- The bit operations that ws.go applies to bytes. Each law is a table of the values, by evaluation.
use Prim.Native.Nat.{bit_and, bit_or, bit_xor}
use open_remote_commander.Prelude.{
  ℕ, zero, suc, ◌<◌, ◌≡◌, refl, Bool, true, false, ◌&&◌, ◌||◌, not, List, [], ◌∷◌, arith, ltb, ◌==◌,
  length, ap, if◌then◌else◌, All,
}
use open_remote_commander.Ws.{Mask, mask_at, apply_mask}

abbrev pub IsByte : ℕ → Type 0
IsByte b = b < 256

abbrev pub IsByteMask : Mask → Type 0
IsByteMask m = IsByte m.m0 × IsByte m.m1 × IsByte m.m2 × IsByte m.m3

-- p holds of the numbers below n.
every : (ℕ → Bool) → ℕ → Bool
every p zero = true
every p (suc n) = every p n && p n

every_holds : (p : ℕ → Bool) (n : ℕ) → every p n ≡ true → (x : ℕ) → x < n → p x ≡ true
unfolding every
every_holds p zero table x below = absurd (omega arith)
every_holds p (suc n) table x below = ground (arith, every_holds p n (ground arith) x)

abbrev unmasks : ℕ → ℕ → Bool
unmasks x m = bit_xor (bit_xor x m) m == x && ltb (bit_xor x m) 256

xor_table : every (λ x. every (unmasks x) 256) 256 ≡ true
unfolding every
xor_table = refl

xor_lem : (x m : ℕ) → IsByte x → IsByte m → unmasks x m ≡ true
xor_lem x m hx hm =
    every_holds (unmasks x) 256 (every_holds (λ x. every (unmasks x) 256) 256 xor_table x hx) m hm

pub xor-xor : (x m : ℕ) → IsByte x → IsByte m → bit_xor (bit_xor x m) m ≡ x
xor-xor x m hx hm = ground (arith, xor_lem x m hx hm)

pub xor-IsByte : (x m : ℕ) → IsByte x → IsByte m → IsByte (bit_xor x m)
xor-IsByte x m hx hm = ground (arith, xor_lem x m hx hm)

-- The first byte of a frame: the final bit and the opcode.
abbrev pub first_byte : Bool → ℕ → ℕ
first_byte fin opcode = bit_or (if fin then 0x80 else 0) opcode

abbrev pub is_fin : ℕ → Bool
is_fin h = not (bit_and h 0x80 == 0)

abbrev splits : Bool → ℕ → Bool
splits fin opcode =
    let h = first_byte fin opcode in
    bit_and h 0x70 == 0 && (if fin then is_fin h else not (is_fin h)) && bit_and h 0x0f == opcode

splits_table : every (λ o. splits true o && splits false o) 16 ≡ true
unfolding every
splits_table = refl

pub splits_lem :
    (fin : Bool) (opcode : ℕ)
    → opcode < 16
    → ((bit_and (first_byte fin opcode) 0x70 == 0) ≡ true)
      × (is_fin (first_byte fin opcode) ≡ fin)
      × (bit_and (first_byte fin opcode) 0x0f ≡ opcode)
splits_lem true opcode h =
    let e = every_holds (λ o. splits true o && splits false o) 16 splits_table opcode h in
    ground (arith, e)
splits_lem false opcode h =
    let e = every_holds (λ o. splits true o && splits false o) 16 splits_table opcode h in
    ground (arith, e)

-- The second byte: the mask bit and seven bits of length.
abbrev pub second_byte : Bool → ℕ → ℕ
second_byte masked n = bit_or (if masked then 0x80 else 0) n

abbrev parts : Bool → ℕ → Bool
parts masked n =
    let h = second_byte masked n in
    (if masked then is_fin h else not (is_fin h)) && bit_and h 0x7f == n

parts_table : every (λ n. parts true n && parts false n) 128 ≡ true
unfolding every
parts_table = refl

pub parts_lem :
    (masked : Bool) (n : ℕ)
    → n < 128
    → (is_fin (second_byte masked n) ≡ masked) × (bit_and (second_byte masked n) 0x7f ≡ n)
parts_lem true n h =
    let e = every_holds (λ n. parts true n && parts false n) 128 parts_table n h in
    ground (arith, e)
parts_lem false n h =
    let e = every_holds (λ n. parts true n && parts false n) 128 parts_table n h in
    ground (arith, e)

abbrev joins : ℕ → Bool
joins h =
    (not (bit_and h 0x70 == 0) || first_byte (is_fin h) (bit_and h 0x0f) == h)
    && second_byte (is_fin h) (bit_and h 0x7f) == h
    && ltb (bit_and h 0x0f) 16
    && ltb (bit_and h 0x7f) 128

joins_table : every joins 256 ≡ true
unfolding every
joins_table = refl

-- Both bytes are put together again from their parts.
pub first-join :
    (h : ℕ)
    → IsByte h
    → (bit_and h 0x70 == 0) ≡ true
    → (first_byte (is_fin h) (bit_and h 0x0f) ≡ h) × (bit_and h 0x0f < 16)
first-join h byte rsv = let e = every_holds joins 256 joins_table h byte in ground (arith, e)

pub second-join :
    (h : ℕ) → IsByte h → (second_byte (is_fin h) (bit_and h 0x7f) ≡ h) × (bit_and h 0x7f < 128)
second-join h byte = let e = every_holds joins 256 joins_table h byte in ground (arith, e)

pub mask_at-IsByte : (m : Mask) (k : ℕ) → IsByteMask m → IsByte (mask_at m k)
mask_at-IsByte m zero h = h.0
mask_at-IsByte m (suc zero) h = h.1
mask_at-IsByte m (suc (suc zero)) h = h.2
mask_at-IsByte m (suc (suc (suc k))) h = h.3

-- Masking twice gives the bytes back, whatever the position.
pub mask-mask :
    (m : Mask) (i : ℕ) (bs : List ℕ)
    → IsByteMask m
    → All IsByte bs
    → apply_mask m i (apply_mask m i bs) ≡ bs
unfolding apply_mask
mask-mask m i [] hm h = refl
mask-mask m i (b ∷ bs) hm h = cc (
  xor-xor b (mask_at m (bit_and i 3)) h.0 (mask_at-IsByte m (bit_and i 3) hm),
  mask-mask m (suc i) bs hm h.1,
)

pub apply_mask-IsByte :
    (m : Mask) (i : ℕ) (bs : List ℕ) → IsByteMask m → All IsByte bs → All IsByte (apply_mask m i bs)
unfolding apply_mask
apply_mask-IsByte m i [] hm h = tt
apply_mask-IsByte m i (b ∷ bs) hm h = (
  xor-IsByte b (mask_at m (bit_and i 3)) h.0 (mask_at-IsByte m (bit_and i 3) hm),
  apply_mask-IsByte m (suc i) bs hm h.1,
)

pub length-apply_mask : (m : Mask) (i : ℕ) (bs : List ℕ) → length (apply_mask m i bs) ≡ length bs
unfolding apply_mask
length-apply_mask m i [] = refl
length-apply_mask m i (b ∷ bs) = ap suc (length-apply_mask m (suc i) bs)
