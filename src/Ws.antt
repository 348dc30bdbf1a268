-- ===== src/Ws.antt =====
-- The frames and messages of internal/ws/ws.go. A byte is a number below 256, as the bit operations
-- of the code need it. The peer's bytes are the list `input`, which ends where the connection ends.
-- net.Conn takes `room` more bytes and then fails, with what fits already sent; rand.Read gives the
-- masks of `entropy`, and fails where there are none. Nothing is read after an error, so the input is
-- then left as it was.
pub mod Reading
pub mod Bytes
pub mod Lengths
pub mod Frames
pub mod Fragments
pub mod Loop
pub mod Messages
pub mod RoundTrip
pub mod Tests
use Prim.Native.Nat.{bit_and, bit_or, bit_xor}
use open_remote_commander.Prelude.{
  ℕ, zero, suc, ◌+◌, ◌-◌, ◌*◌, ◌/◌, ◌%◌, Bool, true, false, ◌&&◌, ◌||◌, not, List, [], ◌∷◌, ◌++◌,
  String, Option, none, some, Result, ok, err, ◌>>=◌, ◌>>◌, fail_if, length, take, ltb, leb, ◌==◌,
  if◌then◌else◌,
}

pub data Error : Type 0 where
  closed eof no_entropy broken too_large control_too_large : Error
  protocol : String → Error

pub data Role : Type 0 where
  server client : Role

pub record Conn : Type 0 where
  pub role : Role
  pub max : ℕ

pub record Mask : Type 0 where
  pub m0 : ℕ
  pub m1 : ℕ
  pub m2 : ℕ
  pub m3 : ℕ

pub record Wire : Type 0 where
  pub input : List ℕ
  pub output : List ℕ
  pub room : ℕ
  pub entropy : List Mask

pub record Frame : Type 0 where
  pub fin : Bool
  pub opcode : ℕ
  pub payload : List ℕ

-- if maxMessageBytes <= 0 { maxMessageBytes = 4 << 20 }
abbrev pub new_conn : Role → ℕ → Conn
new_conn role max = record { role = role; max = if max == 0 then 4 * 1048576 else max }

-- mask[k] of a [4]byte
abbrev pub mask_at : Mask → ℕ → ℕ
mask_at m zero = m.m0
mask_at m (suc zero) = m.m1
mask_at m (suc (suc zero)) = m.m2
mask_at m (suc (suc (suc k))) = m.m3

-- payload[i] ^= mask[i&3], from index i on.
unfoldable pub apply_mask : Mask → ℕ → List ℕ → List ℕ
apply_mask m i [] = []
apply_mask m i (b ∷ bs) = bit_xor b (mask_at m (bit_and i 3)) ∷ apply_mask m (suc i) bs

abbrev pub read_byte : List ℕ → Result Error (ℕ × List ℕ)
read_byte [] = err eof
read_byte (b ∷ s) = ok (b, s)

abbrev pub put_front : ℕ → Result Error (List ℕ × List ℕ) → Result Error (List ℕ × List ℕ)
put_front b (err e) = err e
put_front b (ok (bs, s)) = ok (b ∷ bs, s)

-- io.ReadFull
unfoldable pub read_full : ℕ → List ℕ → Result Error (List ℕ × List ℕ)
read_full zero s = ok ([], s)
read_full (suc n) [] = err eof
read_full (suc n) (b ∷ s) = put_front b (read_full n s)

-- binary.BigEndian.Uint16 and Uint64, on as many bytes as there are.
unfoldable pub uint_from : ℕ → List ℕ → ℕ
uint_from n [] = n
uint_from n (b ∷ bs) = uint_from (n * 256 + b) bs

-- A length in the next k bytes, and the test that refuses it.
unfoldable pub extended : ℕ → (ℕ → Bool) → String → List ℕ → Result Error (ℕ × List ℕ)
extended k is_bad reason s = do
  (b, rest) ← read_full k s
  fail_if (is_bad (uint_from 0 b)) (protocol reason)
  ok (uint_from 0 b, rest)

-- length < 126
abbrev pub is_short : ℕ → Bool
is_short l = ltb l 126

-- length&(1<<63) != 0 || length < 65536, on 64 bits.
abbrev pub is_invalid : ℕ → Bool
is_invalid l = leb 0x8000000000000000 l || ltb l 65536

-- The switch on the seven bits of the length.
unfoldable pub read_length : ℕ → List ℕ → Result Error (ℕ × List ℕ)
read_length n s =
    if n == 126
    then extended 2 is_short "non-canonical length" s
    else if n == 127
    then extended 8 is_invalid "invalid length" s
    else ok (n, s)

abbrev pub read_mask : Bool → List ℕ → Result Error (Option Mask × List ℕ)
read_mask false s = ok (none, s)
read_mask true (a ∷ b ∷ c ∷ d ∷ s) = ok (some (record { m0 = a; m1 = b; m2 = c; m3 = d }), s)
read_mask true _ = err eof

abbrev pub unmask : Option Mask → List ℕ → List ℕ
unmask none bs = bs
unmask (some m) bs = apply_mask m 0 bs

-- (c.role == Server && !masked) || (c.role == Client && masked)
abbrev pub bad_masking : Role → Bool → Bool
bad_masking server masked = not masked
bad_masking client masked = masked

unfoldable pub read_frame : Conn → List ℕ → Result Error (Frame × List ℕ)
read_frame c s = do
  (h, s1) ← read_byte s
  fail_if (not (bit_and h 0x70 == 0)) (protocol "RSV bits set")
  let fin = not (bit_and h 0x80 == 0)
  let opcode = bit_and h 0x0f
  (b2, s2) ← read_byte s1
  let masked = not (bit_and b2 0x80 == 0)
  fail_if (bad_masking c.role masked) (protocol "invalid masking")
  (n, s3) ← read_length (bit_and b2 0x7f) s2
  fail_if (leb 8 opcode && (not fin || ltb 125 n)) (protocol "invalid control frame")
  fail_if (ltb c.max n) too_large
  (mask, s4) ← read_mask masked s3
  (payload, s5) ← read_full n s4
  ok (record { fin = fin; opcode = opcode; payload = unmask mask payload }, s5)

-- binary.BigEndian.PutUint16 and PutUint64: the last k bytes of a number.
unfoldable pub put_uint : ℕ → ℕ → List ℕ
put_uint zero n = []
put_uint (suc k) n = put_uint k (n / 256) ++ n % 256 ∷ []

-- The switch on len(payload).
unfoldable pub length_bytes : ℕ → ℕ → List ℕ
length_bytes mask_bit l =
    if ltb l 126
    then bit_or mask_bit l ∷ []
    else if leb l 65535
    then bit_or mask_bit 126 ∷ put_uint 2 l
    else bit_or mask_bit 127 ∷ put_uint 8 l

abbrev pub mask_bit : Option Mask → ℕ
mask_bit none = 0
mask_bit (some m) = 0x80

abbrev pub mask_bytes : Option Mask → List ℕ
mask_bytes none = []
mask_bytes (some m) = m.m0 ∷ m.m1 ∷ m.m2 ∷ m.m3 ∷ []

unfoldable pub header : Option Mask → ℕ → ℕ → List ℕ
header mask first l = first ∷ length_bytes (mask_bit mask) l ++ mask_bytes mask

-- A call that changes the wire, and what follows where it succeeds.
abbrev pub and_then :
    {A : Type 0}
    → Result Error (Unit {0}) × Wire
    → (Wire → Result Error A × Wire)
    → Result Error A × Wire
and_then (err e, w) k = (err e, w)
and_then (ok u, w) k = k w

-- c.conn.Write
unfoldable pub conn_write : List ℕ → Wire → Result Error (Unit {0}) × Wire
conn_write bs w =
    if leb (length bs) w.room
    then (ok tt, record w { output = w.output ++ bs; room = w.room - length bs })
    else (err broken, record w { output = w.output ++ take w.room bs; room = 0 })

unfoldable pub send : Option Mask → ℕ → List ℕ → Wire → Result Error (Unit {0}) × Wire
send mask opcode payload w =
    and_then (conn_write (header mask (bit_or 0x80 opcode) (length payload)) w)
      (conn_write (unmask mask payload))

-- Only a client masks, and draws its mask first.
unfoldable pub send_as : Role → List Mask → ℕ → List ℕ → Wire → Result Error (Unit {0}) × Wire
unfolding send
send_as server masks opcode payload w = send none opcode payload w
send_as client [] opcode payload w = (err no_entropy, w)
send_as client (mask ∷ masks) opcode payload w =
    send (some mask) opcode payload (record w { entropy = masks })

unfoldable pub write_frame : Conn → ℕ → List ℕ → Wire → Result Error (Unit {0}) × Wire
unfolding send_as
write_frame c opcode payload w =
    if leb 8 opcode && ltb 125 (length payload)
    then (err control_too_large, w)
    else send_as c.role w.entropy opcode payload w

unfoldable pub write_message : Conn → List ℕ → Wire → Result Error (Unit {0}) × Wire
write_message c payload w =
    if ltb c.max (length payload) then (err too_large, w) else write_frame c 0x1 payload w

-- Close, and nothing can be read or written after it.
unfoldable pub close : Conn → Wire → Wire
close c w = record (write_frame c 0x8 [] w).1 { room = 0; input = [] }
