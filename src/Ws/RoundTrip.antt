-- ===== src/Ws/RoundTrip.antt =====
-- What WriteMessage of ws.go writes, ReadMessage of the other end reads.
use Prim.Native.Nat.{bit_or}
use open_remote_commander.Prelude.{
  ℕ, ◌<◌, ◌≤◌, ◌≡◌, refl, sym, ap, subst, ◌∙◌, true, false, List, [], ◌∷◌, ◌++◌, append_assoc,
  append-nil, arith, Option, none, some, is_some, Result, ok, err, err-ne-ok, length, drop,
  drop-length-append, ltb, leb, All, Bool-cases, inl, inr,
}
use open_remote_commander.Ws.{
  Error, Mask, Role, server, client, Conn, Frame, Wire, and_then, conn_write, send, send_as,
  write_frame, write_message, unmask, header, bad_masking,
}
use open_remote_commander.Ws.Reading.{read_message}
use open_remote_commander.Ws.Bytes.{IsByte, IsByteMask}
use open_remote_commander.Ws.Frames.{encode, IsMaskOfBytes}
use open_remote_commander.Ws.Fragments.{last, stream, pongs, with_input}
use open_remote_commander.Ws.Messages.{read_message-Reads}

abbrev text_frame : List ℕ → Frame
text_frame payload = record { fin = true; opcode = 1; payload = payload }

abbrev pub other : Role → Role
other server = client
other client = server

conn_write-output :
    (bs : List ℕ) (w w' : Wire) → conn_write bs w ≡ (ok tt, w') → w'.output ≡ w.output ++ bs
unfolding conn_write
conn_write-output bs w w' = elim (Bool-cases (leb (length bs) w.room)) [
  | inl fits ↦ rw fits λ h. ap (λ (r : Result Error (Unit {0}) × Wire). r.1.output) (sym h)
  | inr full ↦ rw full λ h. absurd (err-ne-ok (ap (λ (r : Result Error (Unit {0}) × Wire). r.0) h))
]

-- A call that succeeds with what follows it was itself a success.
first_of :
    (r : Result Error (Unit {0}) × Wire) (k : Wire → Result Error (Unit {0}) × Wire) (w' : Wire)
    → and_then r k ≡ (ok tt, w')
    → (w : Wire) × (r ≡ (ok tt, w)) × (k w ≡ (ok tt, w'))
first_of (ok u, w) k w' h = (w, refl, h)
first_of (err e, w) k w' h = absurd (err-ne-ok (ap (λ (r : Result Error (Unit {0}) × Wire). r.0) h))

send-output :
    (m : Option Mask) (payload : List ℕ) (w w' : Wire)
    → send m 1 payload w ≡ (ok tt, w')
    → w'.output ≡ w.output ++ encode m (text_frame payload)
unfolding send encode
send-output m payload w w' h =
    let front = header m (bit_or 0x80 1) (length payload) in
    let (w1, first, second) = first_of (conn_write front w) (conn_write (unmask m payload)) w' h in
    conn_write-output (unmask m payload) w1 w' second
    ∙ ap (λ t. t ++ unmask m payload) (conn_write-output front w w1 first)
    ∙ append_assoc w.output front (unmask m payload)

send_as-output :
    (r : Role) (masks : List Mask) (payload : List ℕ) (w w' : Wire)
    → All IsByteMask masks
    → send_as r masks 1 payload w ≡ (ok tt, w')
    → (m : Option Mask) × (bad_masking (other r) (is_some m) ≡ false)
      × IsMaskOfBytes m
      × (w'.output ≡ w.output ++ encode m (text_frame payload))
unfolding send_as
send_as-output server masks payload w w' bytes h = (none, refl, tt, send-output none payload w w' h)
send_as-output client [] payload w w' bytes h =
    absurd (err-ne-ok (ap (λ (r : Result Error (Unit {0}) × Wire). r.0) h))
send_as-output client (m ∷ masks) payload w w' bytes h =
    (some m, refl, bytes.0, send-output (some m) payload (record w { entropy = masks }) w' h)

write_message-output :
    (c : Conn) (payload : List ℕ) (w w' : Wire)
    → All IsByteMask w.entropy
    → write_message c payload w ≡ (ok tt, w')
    → (m : Option Mask) × (bad_masking (other c.role) (is_some m) ≡ false)
      × IsMaskOfBytes m
      × (w'.output ≡ w.output ++ encode m (text_frame payload))
unfolding write_message write_frame
write_message-output c payload w w' bytes = elim (Bool-cases (ltb c.max (length payload))) [
  | inl over ↦ rw over λ h. absurd (err-ne-ok (ap (λ (r : Result Error (Unit {0}) × Wire). r.0) h))
  | inr fits ↦ rw fits λ h. send_as-output c.role w.entropy payload w w' bytes h
]

-- A message that one end could write is read by the other end, as it was and with nothing besides:
-- whatever comes behind its bytes is left, and nothing is written. The other end has the other role
-- and a maximum that the message is within, which a 63-bit number holds.
pub read_message-write_message :
    (c peer : Conn) (payload rest : List ℕ) (w w' v : Wire)
    → peer.role ≡ other c.role
    → length payload ≤ peer.max
    → peer.max < 0x8000000000000000
    → All IsByte payload
    → All IsByteMask w.entropy
    → write_message c payload w ≡ (ok tt, w')
    → v.input ≡ drop (length w.output) w'.output ++ rest
    → read_message peer v ≡ (ok payload, with_input rest v)
unfolding stream pongs
read_message-write_message c peer payload rest w w' v roles small word bytes masks wrote arrived =
    let (m, masked, mask_bytes, sent) = write_message-output c payload w w' masks wrote in
    let bytes_sent : drop (length w.output) w'.output ≡ encode m (text_frame payload) =
      ap (drop (length w.output)) sent
      ∙ drop-length-append w.output (encode m (text_frame payload)) in
    read_message-Reads peer payload v (with_input rest v) word (record {
      frames = (m, text_frame payload) ∷ [];
      pings = [];
      rest = rest;
      fragments = last m (text_frame payload) refl refl refl small;
      fit = (
        record {
          opcode = omega arith;
          control = refl;
          bounded = small;
          masked = subst (λ r. bad_masking r (is_some m) ≡ false) (sym roles) masked;
          mask_bytes = mask_bytes;
          payload = bytes;
        },
        tt,
      );
      input =
          arrived
          ∙ ap (λ t. t ++ rest) (bytes_sent ∙ sym (append-nil (encode m (text_frame payload))));
      answers = refl;
    })
