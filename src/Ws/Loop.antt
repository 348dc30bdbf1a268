-- ===== src/Ws/Loop.antt =====
-- The loop of ReadMessage in internal/ws/ws.go on the frames of a message.
use open_remote_commander.Prelude.{
  ℕ, zero, suc, ◌<◌, ◌≤◌, ◌≡◌, refl, sym, ap, ◌∙◌, List, [], ◌∷◌, ◌++◌, append_assoc, arith, Option,
  some, Result, ok, err, err-ne-ok, length, length-append, le→ltb,
}
use open_remote_commander.Ws.{
  Error, Mask, Conn, Frame, Wire, read_frame, write_frame, and_then, header,
}
use open_remote_commander.Ws.Reading.{act, is_started, bytes_of, turn, on_frame, read_loop}
use open_remote_commander.Ws.Frames.{Fits, encode, read_frame-encode}
use open_remote_commander.Ws.Fragments.{
  Fragments, pinged, ponged, more, last, AllFit, stream, pongs, with_input, write_frame-Ignores,
  act-opens, act-ping, act-pong,
}

loop-frame :
    (fuel : ℕ) (c : Conn) (out : Option (List ℕ)) (w : Wire) (f : Frame) (s : List ℕ)
    → read_frame c w.input ≡ ok (f, s)
    → read_loop (suc fuel) c out w
      ≡ turn c (read_loop fuel c) out f.fin (with_input s w) (act (is_started out) f)
unfolding read_loop
loop-frame fuel c out w f s h = ap (on_frame c (read_loop fuel c) out w) h

-- The first frame of a stream.
loop-encode :
    (fuel : ℕ) (c : Conn) (out : Option (List ℕ)) (w : Wire) (m : Option Mask) (f : Frame)
    (fs : List (Option Mask × Frame)) (rest : List ℕ)
    → c.max < 0x8000000000000000
    → Fits c m f
    → w.input ≡ (encode m f ++ stream fs) ++ rest
    → read_loop (suc fuel) c out w
      ≡ turn c
          (read_loop fuel c)
          out
          f.fin
          (with_input (stream fs ++ rest) w)
          (act (is_started out) f)
loop-encode fuel c out w m f fs rest word fits input =
    loop-frame fuel c out w f (stream fs ++ rest) (
      ap (read_frame c) (input ∙ append_assoc (encode m f) (stream fs) rest)
      ∙ read_frame-encode c m f (stream fs ++ rest) word fits)

-- Where the pongs can be written, so can the first, and the loop goes on behind it.
after_pong :
    (r : Result Error (Unit {0}) × Wire) (s rest all : List ℕ) (w' : Wire)
    (others : Wire → Result Error (Unit {0}) × Wire) (next : Wire → Result Error (List ℕ) × Wire)
    → and_then (r.0, with_input rest r.1) others ≡ (ok tt, w')
    → ((w : Wire) → others (with_input rest w) ≡ (ok tt, w') → next (with_input s w) ≡ (ok all, w'))
    → and_then (r.0, with_input s r.1) next ≡ (ok all, w')
after_pong (ok u, w) s rest all w' others next h k = k w h
after_pong (err e, w) s rest all w' others next h k =
    absurd (err-ne-ok (ap (λ (r : Result Error (Unit {0}) × Wire). r.0) h))

Fragments-nonempty :
    {max : ℕ} {all : List ℕ} {out : Option (List ℕ)} {fs : List (Option Mask × Frame)}
    {pings : List (List ℕ)}
    → Fragments max all out fs pings
    → 0 < length fs
Fragments-nonempty (pinged m f fs pings _ _) = omega arith
Fragments-nonempty (ponged m f fs pings _ _) = omega arith
Fragments-nonempty (more m f fs pings _ _ _ _) = omega arith
Fragments-nonempty (last m f _ _ _ _) = omega arith

-- The loop reads the frames of a message and answers the pings.
pub loop-Fragments :
    (fuel : ℕ) (c : Conn) (out : Option (List ℕ)) (all : List ℕ) (fs : List (Option Mask × Frame))
    (pings : List (List ℕ)) (w w' : Wire) (rest : List ℕ)
    → c.max < 0x8000000000000000
    → Fragments c.max all out fs pings
    → AllFit c fs
    → w.input ≡ stream fs ++ rest
    → pongs c pings (with_input rest w) ≡ (ok tt, w')
    → length fs ≤ fuel
    → read_loop fuel c out w ≡ (ok all, w')
unfolding stream pongs
loop-Fragments zero c out all fs pings w w' rest word frags fit input answers enough =
    absurd (omega (arith, Fragments-nonempty frags))
loop-Fragments (suc fuel) c out all _ _ w w' rest word (pinged m f fs pings is_ping frags) fit input
      answers enough =
    loop-encode fuel c out w m f fs rest word fit.0 input
    ∙ rw
        (
          act-ping (is_started out) f is_ping,
          write_frame-Ignores c 0xA f.payload (stream fs ++ rest) w,
        )
        (after_pong (write_frame c 0xA f.payload w) (stream fs ++ rest) rest all w' (pongs c pings)
          (read_loop fuel c out) (rw (sym (write_frame-Ignores c 0xA f.payload rest w)) answers)
          λ w2 h.
            loop-Fragments fuel c out all fs pings (with_input (stream fs ++ rest) w2) w' rest word
              frags fit.1 refl h (omega arith))
loop-Fragments (suc fuel) c out all _ _ w w' rest word (ponged m f fs pings is_pong frags) fit input
      answers enough =
    loop-encode fuel c out w m f fs rest word fit.0 input
    ∙ rw (act-pong (is_started out) f is_pong) (
        loop-Fragments fuel c out all fs pings (with_input (stream fs ++ rest) w) w' rest word frags
          fit.1 refl answers (omega arith))
loop-Fragments (suc fuel) c out all _ _ w w' rest word (more m f fs pings right open_ small frags)
      fit input answers enough =
    loop-encode fuel c out w m f fs rest word fit.0 input
    ∙ rw (act-opens out f right, le→ltb c.max (length (bytes_of out ++ f.payload)) small, open_)
        (loop-Fragments fuel c (some (bytes_of out ++ f.payload)) all fs pings
          (with_input (stream fs ++ rest) w) w' rest word frags fit.1 refl answers (omega arith))
loop-Fragments (suc fuel) c out all _ _ w w' rest word (last m f right fin whole small) fit input
      answers enough =
    loop-encode fuel c out w m f [] rest word fit.0 input
    ∙ rw (act-opens out f right, whole, le→ltb c.max (length all) small, fin)
        (ap (λ (r : Result Error (Unit {0}) × Wire). (ok all, r.1)) answers)

encode-nonempty : (m : Option Mask) (f : Frame) → 0 < length (encode m f)
unfolding encode header
encode-nonempty m f = omega arith

-- Each frame has a byte.
pub length-stream :
    (fs : List (Option Mask × Frame)) (rest : List ℕ) → length fs ≤ length (stream fs ++ rest)
unfolding stream
length-stream [] rest = omega arith
length-stream ((m, f) ∷ fs) rest = omega (
  arith,
  encode-nonempty m f,
  length-stream fs rest,
  length-append (encode m f) (stream fs ++ rest),
  ap length (append_assoc (encode m f) (stream fs) rest),
)
