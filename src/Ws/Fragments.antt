-- ===== src/Ws/Fragments.antt =====
-- The frames that make up a message, for ReadMessage of ws.go, and what its loop does with a frame.
use Prim.Native.Nat.{bit_or}
use open_remote_commander.Prelude.{
  ℕ, ◌≤◌, ◌≡◌, refl, Bool, true, false, ◌&&◌, List, [], ◌∷◌, ◌++◌, arith, Option, none, some,
  Result, ok, err, length, ltb, leb, ◌==◌, All, Bool-cases, inl, inr,
}
use open_remote_commander.Ws.{
  Error, Mask, Conn, Frame, Wire, write_frame, and_then, conn_write, send, send_as, header, server,
  client, Role, unmask,
}
use open_remote_commander.Ws.Reading.{pong, skip, add, act, is_data, is_started, bytes_of}
use open_remote_commander.Ws.Frames.{Fits, encode}

-- The opcodes that may carry the next bytes of a message.
abbrev pub opens : Option (List ℕ) → ℕ → Bool
opens none opcode = is_data opcode
opens (some bs) opcode = opcode == 0

-- The frames that complete a message from the bytes `out`: its fragments in order, of which only
-- the last is final, with pings and pongs between them. `all` is the message, `pings` are the
-- payloads to answer.
pub data Fragments (max : ℕ) (all : List ℕ)
    : Option (List ℕ) → List (Option Mask × Frame) → List (List ℕ) → Type 0 where
  pinged :
      {out : Option (List ℕ)} (m : Option Mask) (f : Frame) (fs : List (Option Mask × Frame))
      (pings : List (List ℕ))
      → f.opcode ≡ 9
      → Fragments max all out fs pings
      → Fragments max all out ((m, f) ∷ fs) (f.payload ∷ pings)
  ponged :
      {out : Option (List ℕ)} (m : Option Mask) (f : Frame) (fs : List (Option Mask × Frame))
      (pings : List (List ℕ))
      → f.opcode ≡ 10
      → Fragments max all out fs pings
      → Fragments max all out ((m, f) ∷ fs) pings
  more :
      {out : Option (List ℕ)} (m : Option Mask) (f : Frame) (fs : List (Option Mask × Frame))
      (pings : List (List ℕ))
      → opens out f.opcode ≡ true
      → f.fin ≡ false
      → length (bytes_of out ++ f.payload) ≤ max
      → Fragments max all (some (bytes_of out ++ f.payload)) fs pings
      → Fragments max all out ((m, f) ∷ fs) pings
  last :
      {out : Option (List ℕ)} (m : Option Mask) (f : Frame)
      → opens out f.opcode ≡ true
      → f.fin ≡ true
      → bytes_of out ++ f.payload ≡ all
      → length all ≤ max
      → Fragments max all out ((m, f) ∷ []) []

abbrev pub AllFit : Conn → List (Option Mask × Frame) → Type 0
AllFit c = All λ (m, f). Fits c m f

unfoldable pub stream : List (Option Mask × Frame) → List ℕ
stream [] = []
stream ((m, f) ∷ fs) = encode m f ++ stream fs

-- The pongs, one after the other, as far as they can be written.
unfoldable pub pongs : Conn → List (List ℕ) → Wire → Result Error (Unit {0}) × Wire
pongs c [] w = (ok tt, w)
pongs c (b ∷ bs) w = and_then (write_frame c 0xA b w) (pongs c bs)

abbrev pub with_input : List ℕ → Wire → Wire
with_input s w = record w { input = s }

-- A call that does not look at the input, and leaves it.
abbrev Ignores : {A : Type 0} → List ℕ → (Wire → Result Error A × Wire) → Type 0
Ignores s k = (w : Wire) → k (with_input s w) ≡ ((k w).0, with_input s (k w).1)

and_then-Ignores :
    (s : List ℕ) (r : Result Error (Unit {0}) × Wire) (k : Wire → Result Error (Unit {0}) × Wire)
    → Ignores s k
    → and_then (r.0, with_input s r.1) k ≡ ((and_then r k).0, with_input s (and_then r k).1)
and_then-Ignores s (ok u, w) k h = h w
and_then-Ignores s (err e, w) k h = refl

conn_write-Ignores : (bs s : List ℕ) → Ignores s (conn_write bs)
unfolding conn_write
conn_write-Ignores bs s w = elim (Bool-cases (leb (length bs) w.room)) [
  | inl fits ↦ rw fits refl
  | inr full ↦ rw full refl
]

send-Ignores : (mask : Option Mask) (opcode : ℕ) (b s : List ℕ) → Ignores s (send mask opcode b)
unfolding send
send-Ignores mask opcode b s w =
    rw (conn_write-Ignores (header mask (bit_or 0x80 opcode) (length b)) s w) (
      and_then-Ignores s (conn_write (header mask (bit_or 0x80 opcode) (length b)) w)
        (conn_write (unmask mask b)) (conn_write-Ignores (unmask mask b) s))

send_as-Ignores :
    (r : Role) (masks : List Mask) (opcode : ℕ) (b s : List ℕ)
    → Ignores s (send_as r masks opcode b)
unfolding send_as
send_as-Ignores server masks opcode b s w = send-Ignores none opcode b s w
send_as-Ignores client [] opcode b s w = refl
send_as-Ignores client (m ∷ masks) opcode b s w =
    send-Ignores (some m) opcode b s (record w { entropy = masks })

pub write_frame-Ignores :
    (c : Conn) (opcode : ℕ) (b s : List ℕ) → Ignores s (write_frame c opcode b)
unfolding write_frame
write_frame-Ignores c opcode b s w = elim (Bool-cases (leb 8 opcode && ltb 125 (length b))) [
  | inl long ↦ rw long refl
  | inr short ↦ rw short (send_as-Ignores c.role w.entropy opcode b s w)
]

pub act-opens :
    (out : Option (List ℕ)) (f : Frame)
    → opens out f.opcode ≡ true
    → act (is_started out) f ≡ add f.payload
unfolding act
act-opens none f h = ground (arith, h)
act-opens (some bs) f h = ground (arith, h)

-- What the loop adds may be added, and it ends without an error only so.
pub act-eq-add :
    (out : Option (List ℕ)) (f : Frame) (b : List ℕ)
    → act (is_started out) f ≡ add b
    → (opens out f.opcode ≡ true) × (f.payload ≡ b)
unfolding act
act-eq-add none f b h = ground (arith, h)
act-eq-add (some bs) f b h = ground (arith, h)

pub act-eq-pong :
    (started : Bool) (f : Frame) (b : List ℕ)
    → act started f ≡ pong b
    → (f.opcode ≡ 9) × (f.payload ≡ b)
unfolding act
act-eq-pong true f b h = ground (arith, h)
act-eq-pong false f b h = ground (arith, h)

pub act-eq-skip : (started : Bool) (f : Frame) → act started f ≡ skip → f.opcode ≡ 10
unfolding act
act-eq-skip true f h = ground (arith, h)
act-eq-skip false f h = ground (arith, h)

pub act-ping : (started : Bool) (f : Frame) → f.opcode ≡ 9 → act started f ≡ pong f.payload
unfolding act
act-ping started f h = ground (arith, h)

pub act-pong : (started : Bool) (f : Frame) → f.opcode ≡ 10 → act started f ≡ skip
unfolding act
act-pong started f h = ground (arith, h)
