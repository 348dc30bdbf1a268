-- ===== src/Ws/Messages.antt =====
-- ReadMessage of ws.go reads the messages that its peer sends as fragments, and no others.
use open_remote_commander.Prelude.{
  ℕ, zero, suc, ◌<◌, ◌≡◌, refl, sym, ap, subst, ◌∙◌, true, List, [], ◌∷◌, ◌++◌, append_assoc, arith,
  Option, none, some, Result, ok, err, ok-injective, err-ne-ok, Result-cases, length, ltb, All,
  All-halves, Bool-cases, inl, inr, ◌↔◌,
}
use open_remote_commander.Ws.{Error, Mask, Conn, Frame, Wire, read_frame, write_frame, and_then}
use open_remote_commander.Ws.Reading.{
  Action, stop, pong, skip, add, act, is_started, bytes_of, turn, read_loop, read_message,
}
use open_remote_commander.Ws.Bytes.{IsByte}
use open_remote_commander.Ws.Frames.{Fits, encode, read_frame-Carries}
use open_remote_commander.Ws.Fragments.{
  opens, Fragments, pinged, ponged, more, last, AllFit, stream, pongs, with_input,
  write_frame-Ignores, act-eq-add, act-eq-pong, act-eq-skip,
}
use open_remote_commander.Ws.Loop.{length-stream, loop-Fragments}

-- What a message that is read was: its frames, and the pings among them, which were answered.
pub record Reads (c : Conn) (out : Option (List ℕ)) (all : List ℕ) (w w' : Wire) : Type 0 where
  pub frames : List (Option Mask × Frame)
  pub pings : List (List ℕ)
  pub rest : List ℕ
  pub fragments : Fragments c.max all out frames pings
  pub fit : AllFit c frames
  pub input : w.input ≡ stream frames ++ rest
  pub answers : pongs c pings (with_input rest w) ≡ (ok tt, w')

before_pong :
    (r : Result Error (Unit {0}) × Wire) (s all : List ℕ) (w' : Wire)
    (next : Wire → Result Error (List ℕ) × Wire)
    → and_then (r.0, with_input s r.1) next ≡ (ok all, w')
    → (w : Wire) × (r ≡ (ok tt, w)) × (next (with_input s w) ≡ (ok all, w'))
before_pong (ok u, w) s all w' next h = (w, refl, h)
before_pong (err e, w) s all w' next h =
    absurd (err-ne-ok (ap (λ (r : Result Error (List ℕ) × Wire). r.0) h))

behind : (xs ys s rest : List ℕ) → s ≡ ys ++ rest → xs ++ s ≡ (xs ++ ys) ++ rest
behind xs ys s rest h = ap (λ t. xs ++ t) h ∙ sym (append_assoc xs ys rest)

module _ (c : Conn) (all : List ℕ) (w' : Wire)
    (next : Option (List ℕ) → Wire → Result Error (List ℕ) × Wire)
    (again : (out : Option (List ℕ)) (w : Wire)
      → All IsByte w.input
      → next out w ≡ (ok all, w')
      → Reads c out all w w') where
  -- A turn of the loop that adds the payload and leads to a message.
  add-Reads :
      (out : Option (List ℕ)) (w : Wire) (m : Option Mask) (f : Frame) (s : List ℕ)
      → Fits c m f
      → w.input ≡ encode m f ++ s
      → All IsByte s
      → opens out f.opcode ≡ true
      → turn c next out f.fin (with_input s w) (add f.payload) ≡ (ok all, w')
      → Reads c out all w w'
  unfolding stream pongs
  add-Reads out w m f s fits input bytes right =
      let joined = bytes_of out ++ f.payload in
      elim (Bool-cases (ltb c.max (length joined))) [
        | inl over ↦
            rw over λ h. absurd (err-ne-ok (ap (λ (r : Result Error (List ℕ) × Wire). r.0) h))
        | inr small ↦ elim (Bool-cases f.fin) [
          | inl fin ↦
              rw (small, fin)
                λ h.
                  let whole : joined ≡ all =
                    ok-injective (ap (λ (r : Result Error (List ℕ) × Wire). r.0) h) in
                  record {
                    frames = (m, f) ∷ [];
                    pings = [];
                    rest = s;
                    fragments = last m f right fin whole (ground (arith, small, whole));
                    fit = (fits, tt);
                    input = input ∙ behind (encode m f) [] s s refl;
                    answers = ap (λ (r : Result Error (List ℕ) × Wire). (ok tt, r.1)) h;
                  }
          | inr open_ ↦
              rw (small, open_)
                λ h.
                  let later = again (some joined) (with_input s w) bytes h in
                  record {
                    frames = (m, f) ∷ later.frames;
                    pings = later.pings;
                    rest = later.rest;
                    fragments =
                        more m f later.frames later.pings right open_ (ground (arith, small))
                          later.fragments;
                    fit = (fits, later.fit);
                    input =
                        input ∙ behind (encode m f) (stream later.frames) s later.rest later.input;
                    answers = later.answers;
                  }
        ]
      ]

  -- A turn of the loop that leads to a message.
  turn-Reads :
      (out : Option (List ℕ)) (w : Wire) (m : Option Mask) (f : Frame) (s : List ℕ) (a : Action)
      → Fits c m f
      → w.input ≡ encode m f ++ s
      → All IsByte s
      → act (is_started out) f ≡ a
      → turn c next out f.fin (with_input s w) a ≡ (ok all, w')
      → Reads c out all w w'
  unfolding stream pongs
  turn-Reads out w m f s (stop e) fits input bytes is h =
      absurd (err-ne-ok (ap (λ (r : Result Error (List ℕ) × Wire). r.0) h))
  turn-Reads out w m f s (pong b) fits input bytes is h =
      let (ping, payload) = act-eq-pong (is_started out) f b is in
      let (w2, wrote, h2) =
        before_pong (write_frame c 0xA b w) s all w' (next out)
          (rw (sym (write_frame-Ignores c 0xA b s w)) h) in
      let later = again out (with_input s w2) bytes h2 in
      record {
        frames = (m, f) ∷ later.frames;
        pings = f.payload ∷ later.pings;
        rest = later.rest;
        fragments = pinged m f later.frames later.pings ping later.fragments;
        fit = (fits, later.fit);
        input = input ∙ behind (encode m f) (stream later.frames) s later.rest later.input;
        answers =
            rw (write_frame-Ignores c 0xA f.payload later.rest w, payload, wrote) later.answers;
      }
  turn-Reads out w m f s skip fits input bytes is h =
      let later = again out (with_input s w) bytes h in
      record {
        frames = (m, f) ∷ later.frames;
        pings = later.pings;
        rest = later.rest;
        fragments =
            ponged m f later.frames later.pings (act-eq-skip (is_started out) f is) later.fragments;
        fit = (fits, later.fit);
        input = input ∙ behind (encode m f) (stream later.frames) s later.rest later.input;
        answers = later.answers;
      }
  turn-Reads out w m f s (add b) fits input bytes is h =
      let (right, payload) = act-eq-add out f b is in
      add-Reads out w m f s fits input bytes right
        (subst (λ p. turn c next out f.fin (with_input s w) (add p) ≡ (ok all, w')) (sym payload) h)

loop-Reads :
    (fuel : ℕ) (c : Conn) (out : Option (List ℕ)) (all : List ℕ) (w w' : Wire)
    → All IsByte w.input
    → read_loop fuel c out w ≡ (ok all, w')
    → Reads c out all w w'
unfolding read_loop
loop-Reads zero c out all w w' bytes =
    λ h. absurd (err-ne-ok (ap (λ (r : Result Error (List ℕ) × Wire). r.0) h))
loop-Reads (suc fuel) c out all w w' bytes = elim (Result-cases (read_frame c w.input)) [
  | inr (e, failed) ↦
      rw failed λ h. absurd (err-ne-ok (ap (λ (r : Result Error (List ℕ) × Wire). r.0) h))
  | inl ((f, s), read) ↦ rw read λ h.
      let (m, fits, input) = read_frame-Carries c w.input f s bytes read in
      turn-Reads c all w' (read_loop fuel c) (λ out w. loop-Reads fuel c out all w w') out w m f s
        (act (is_started out) f) fits input
        (All-halves IsByte (encode m f) s (subst (All IsByte) input bytes)).1 refl h
]

pub read_message-Reads :
    (c : Conn) (all : List ℕ) (w w' : Wire)
    → c.max < 0x8000000000000000
    → Reads c none all w w'
    → read_message c w ≡ (ok all, w')
unfolding read_message
read_message-Reads c all w w' word r =
    loop-Fragments (suc (length w.input)) c none all r.frames r.pings w w' r.rest word r.fragments
      r.fit r.input r.answers (omega (arith, length-stream r.frames r.rest, ap length r.input))

-- ReadMessage returns a message exactly where the bytes begin with its fragments, of which each is a
-- frame that the peer may send, with pings and pongs between them, the message within the maximum
-- at each point, and where every ping could be answered by its pong, in order. It has then taken the
-- bytes of these frames, written these pongs, and nothing else.
pub read_message_iff :
    (c : Conn) (all : List ℕ) (w w' : Wire)
    → c.max < 0x8000000000000000
    → All IsByte w.input
    → (read_message c w ≡ (ok all, w')) ↔ Reads c none all w w'
unfolding read_message
read_message_iff c all w w' word bytes =
    (loop-Reads (suc (length w.input)) c none all w w' bytes, read_message-Reads c all w w' word)
