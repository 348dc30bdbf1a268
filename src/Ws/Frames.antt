-- ===== src/Ws/Frames.antt =====
-- readFrame of ws.go against a description of a frame's bytes.
use Prim.Native.Nat.{bit_and}
use open_remote_commander.Prelude.{
  ℕ, ◌<◌, ◌≤◌, ◌≡◌, refl, sym, ap, subst, ◌∙◌, Bool, true, false, not, ◌&&◌, ◌||◌, List, [], ◌∷◌,
  ◌++◌, append_assoc, arith, Option, none, some, is_some, ok, ok-injective, err-ne-ok, step_of,
  fail_if, fail_if-eq-ok, length, le→ltb, ltb, leb, ◌==◌, if◌then◌else◌, All, All-halves, ◌↔◌,
}
use open_remote_commander.Ws.{
  too_large, Mask, Conn, Frame, bad_masking, unmask, mask_bit, mask_bytes, header, length_bytes,
  read_byte, read_length, read_mask, read_full, read_frame,
}
use open_remote_commander.Ws.Bytes.{
  IsByte, IsByteMask, first_byte, is_fin, splits_lem, parts_lem, first-join, second-join, mask-mask,
  length-apply_mask, apply_mask-IsByte,
}
use open_remote_commander.Ws.Lengths.{
  read_full-append, read_full-front, read_length-length_bytes, read_length-eq-ok,
}

-- The bytes of a frame: the final bit and the opcode, the length, the mask and the masked payload.
unfoldable pub encode : Option Mask → Frame → List ℕ
encode mask f = header mask (first_byte f.fin f.opcode) (length f.payload) ++ unmask mask f.payload

abbrev pub IsMaskOfBytes : Option Mask → Type 0
IsMaskOfBytes none = Unit
IsMaskOfBytes (some m) = IsByteMask m

-- A frame that the peer of `c` may send, with its mask.
pub record Fits (c : Conn) (mask : Option Mask) (f : Frame) : Type 0 where
  pub opcode : f.opcode < 16
  pub control : (leb 8 f.opcode && (not f.fin || ltb 125 (length f.payload))) ≡ false
  pub bounded : length f.payload ≤ c.max
  pub masked : bad_masking c.role (is_some mask) ≡ false
  pub mask_bytes : IsMaskOfBytes mask
  pub payload : All IsByte f.payload

mask_bit_lem : (mask : Option Mask) → (if is_some mask then 0x80 else 0) ≡ mask_bit mask
mask_bit_lem none = refl
mask_bit_lem (some m) = refl

read_mask-mask_bytes :
    (mask : Option Mask) (rest : List ℕ)
    → read_mask (is_some mask) (mask_bytes mask ++ rest) ≡ ok (mask, rest)
read_mask-mask_bytes none rest = refl
read_mask-mask_bytes (some m) rest = refl

length-unmask : (mask : Option Mask) (bs : List ℕ) → length (unmask mask bs) ≡ length bs
length-unmask none bs = refl
length-unmask (some m) bs = length-apply_mask m 0 bs

unmask-unmask :
    (mask : Option Mask) (bs : List ℕ)
    → IsMaskOfBytes mask
    → All IsByte bs
    → unmask mask (unmask mask bs) ≡ bs
unmask-unmask none bs hm h = refl
unmask-unmask (some m) bs hm h = mask-mask m 0 bs hm h

unmask-IsByte :
    (mask : Option Mask) (bs : List ℕ)
    → IsMaskOfBytes mask
    → All IsByte bs
    → All IsByte (unmask mask bs)
unmask-IsByte none bs hm h = h
unmask-IsByte (some m) bs hm h = apply_mask-IsByte m 0 bs hm h

read_full-unmask :
    (mask : Option Mask) (bs rest : List ℕ)
    → read_full (length bs) (unmask mask bs ++ rest) ≡ ok (unmask mask bs, rest)
read_full-unmask mask bs rest =
    subst (λ n. read_full n (unmask mask bs ++ rest) ≡ ok (unmask mask bs, rest))
      (length-unmask mask bs) (read_full-append (unmask mask bs) rest)

-- The bytes behind the first, in the order in which they are read.
encode_parts :
    (mask : Option Mask) (f : Frame) (rest : List ℕ)
    → encode mask f ++ rest
      ≡ first_byte f.fin f.opcode
        ∷ (length_bytes (if is_some mask then 0x80 else 0) (length f.payload)
            ++ (mask_bytes mask ++ (unmask mask f.payload ++ rest)))
unfolding encode header
encode_parts mask f rest =
    let ls = length_bytes (mask_bit mask) (length f.payload) in
    ap (λ t. first_byte f.fin f.opcode ∷ t)
      (append_assoc (ls ++ mask_bytes mask) (unmask mask f.payload) rest
        ∙ append_assoc ls (mask_bytes mask) (unmask mask f.payload ++ rest)
        ∙ ap
            (λ b.
              length_bytes b (length f.payload)
              ++ (mask_bytes mask ++ (unmask mask f.payload ++ rest)))
            (sym (mask_bit_lem mask)))

pub read_frame-encode :
    (c : Conn) (mask : Option Mask) (f : Frame) (rest : List ℕ)
    → c.max < 0x8000000000000000
    → Fits c mask f
    → read_frame c (encode mask f ++ rest) ≡ ok (f, rest)
unfolding read_frame
read_frame-encode c mask f rest word fits =
    let (n, tail, lengths, small, read) =
      read_length-length_bytes (is_some mask) (length f.payload)
        (mask_bytes mask ++ (unmask mask f.payload ++ rest)) (omega (arith, word, fits.bounded)) in
    let (rsv, fin, opcode) = splits_lem f.fin f.opcode fits.opcode in
    let (masked, seven) = parts_lem (is_some mask) n small in
    rw
      (
        encode_parts mask f rest,
        lengths,
        rsv,
        fin,
        opcode,
        masked,
        fits.masked,
        seven,
        read,
        fits.control,
        le→ltb c.max (length f.payload) fits.bounded,
        read_mask-mask_bytes mask (unmask mask f.payload ++ rest),
        read_full-unmask mask f.payload rest,
        unmask-unmask mask f.payload fits.mask_bytes fits.payload,
      )
      refl

not-eq-false : (b : Bool) → not b ≡ false → b ≡ true
not-eq-false true h = refl
not-eq-false false h = cc

read_byte-eq-ok : (s rest : List ℕ) (b : ℕ) → read_byte s ≡ ok (b, rest) → s ≡ b ∷ rest
read_byte-eq-ok [] rest b h = absurd (err-ne-ok h)
read_byte-eq-ok (a ∷ s) rest b h = ap (λ (p : ℕ × List ℕ). p.0 ∷ p.1) (ok-injective h)

read_mask-eq-ok :
    (masked : Bool) (s rest : List ℕ) (mask : Option Mask)
    → All IsByte s
    → read_mask masked s ≡ ok (mask, rest)
    → (s ≡ mask_bytes mask ++ rest) × (is_some mask ≡ masked) × IsMaskOfBytes mask
read_mask-eq-ok false s rest mask bytes h =
    let pair = ok-injective h in
    let none_read : none ≡ mask = ap (λ p. p.0) pair in
    let back : s ≡ rest = ap (λ p. p.1) pair in
    subst (λ m. (s ≡ mask_bytes m ++ rest) × (is_some m ≡ false) × IsMaskOfBytes m) none_read
      (back, refl, tt)
read_mask-eq-ok true (a ∷ b ∷ c ∷ d ∷ s) rest mask bytes h =
    let pair = ok-injective h in
    let read : some (record { m0 = a; m1 = b; m2 = c; m3 = d }) ≡ mask = ap (λ p. p.0) pair in
    let back : s ≡ rest = ap (λ p. p.1) pair in
    subst (λ m. (a ∷ b ∷ c ∷ d ∷ s ≡ mask_bytes m ++ rest) × (is_some m ≡ true) × IsMaskOfBytes m)
      read
      (ap (λ t. a ∷ b ∷ c ∷ d ∷ t) back, refl, (bytes.0, bytes.1.0, bytes.1.1.0, bytes.1.1.1.0))
read_mask-eq-ok true _ rest mask bytes h = absurd (err-ne-ok h)

-- The bytes behind a frame, and its mask.
abbrev pub Carries : Conn → List ℕ → Frame → List ℕ → Type 0
Carries c s f rest = (mask : Option Mask) × Fits c mask f × (s ≡ encode mask f ++ rest)

abbrev read_as : ℕ → Option Mask → List ℕ → Frame
read_as first mask bs = record {
  fin = is_fin first;
  opcode = bit_and first 0x0f;
  payload = unmask mask bs;
}

-- The steps of readFrame put together again.
reads-Carries :
    (c : Conn) (first second n : ℕ) (s2 s3 s4 s5 bs : List ℕ) (mask : Option Mask)
    → All IsByte (first ∷ second ∷ s2)
    → (bit_and first 0x70 == 0) ≡ true
    → bad_masking c.role (is_fin second) ≡ false
    → read_length (bit_and second 0x7f) s2 ≡ ok (n, s3)
    → (leb 8 (bit_and first 0x0f) && (not (is_fin first) || ltb 125 n)) ≡ false
    → ltb c.max n ≡ false
    → read_mask (is_fin second) s3 ≡ ok (mask, s4)
    → read_full n s4 ≡ ok (bs, s5)
    → Carries c (first ∷ second ∷ s2) (read_as first mask bs) s5
reads-Carries c first second n s2 s3 s4 s5 bs mask bytes rsv masking lengths control bounded masks
      body =
    let (whole, nibble) = first-join first bytes.0 rsv in
    let (joined, small) = second-join second bytes.1.0 in
    let (front, word) =
      read_length-eq-ok (is_fin second) (bit_and second 0x7f) n s2 s3 small bytes.1.1 lengths in
    let ls = length_bytes (if is_fin second then 0x80 else 0) n in
    let tail : second ∷ s2 ≡ ls ++ s3 = ap (λ b. b ∷ s2) (sym joined) ∙ front in
    let bytes3 = (All-halves IsByte ls s3 (subst (All IsByte) tail bytes.1)).1 in
    let (front4, masked, mask_fits) = read_mask-eq-ok (is_fin second) s3 s4 mask bytes3 masks in
    let bytes4 = (All-halves IsByte (mask_bytes mask) s4 (subst (All IsByte) front4 bytes3)).1 in
    let (front5, count) = read_full-front n s4 bs s5 body in
    let bytes_bs = (All-halves IsByte bs s5 (subst (All IsByte) front5 bytes4)).0 in
    let count' : length (unmask mask bs) ≡ n = length-unmask mask bs ∙ count in
    let body_bytes = unmask-unmask mask bs mask_fits bytes_bs in
    let encoded : second ∷ s2
        ≡ length_bytes (if is_some mask then 0x80 else 0) (length (unmask mask bs))
          ++ (mask_bytes mask ++ (unmask mask (unmask mask bs) ++ s5)) =
      rw (masked, count', body_bytes)
        (tail ∙ ap (λ t. ls ++ t) (front4 ∙ ap (λ t. mask_bytes mask ++ t) front5)) in
    (
      mask,
      record {
        opcode = nibble;
        control =
            subst (λ l. (leb 8 (bit_and first 0x0f) && (not (is_fin first) || ltb 125 l)) ≡ false)
              (sym count') control;
        bounded = ground (arith, bounded, count');
        masked = subst (λ b. bad_masking c.role b ≡ false) (sym masked) masking;
        mask_bytes = mask_fits;
        payload = unmask-IsByte mask bs mask_fits bytes_bs;
      },
      cc (encoded, whole, encode_parts mask (read_as first mask bs) s5),
    )

pub read_frame-Carries :
    (c : Conn) (s : List ℕ) (f : Frame) (rest : List ℕ)
    → All IsByte s
    → read_frame c s ≡ ok (f, rest)
    → Carries c s f rest
unfolding read_frame
read_frame-Carries c s f rest bytes h = step_of (read_byte s) _ h λ (first, s1) at_first h.
    step_of (fail_if (not (bit_and first 0x70 == 0)) _) _ h λ _ rsv h.
      step_of (read_byte s1) _ h λ (second, s2) at_second h.
        step_of (fail_if (bad_masking c.role (is_fin second)) _) _ h λ _ masking h.
          step_of (read_length (bit_and second 0x7f) s2) _ h λ (n, s3) lengths h.
            step_of (fail_if (leb 8 (bit_and first 0x0f) && (not (is_fin first) || ltb 125 n)) _) _
              h
              λ _ control h. step_of (fail_if (ltb c.max n) too_large) _ h λ _ bounded h.
                step_of (read_mask (is_fin second) s3) _ h λ (mask, s4) masks h.
                  step_of (read_full n s4) _ h λ (bs, s5) body h.
                    let at_s : s ≡ first ∷ second ∷ s2 =
                      read_byte-eq-ok s s1 first at_first
                      ∙ ap (λ t. first ∷ t) (read_byte-eq-ok s1 s2 second at_second) in
                    let is_control =
                      leb 8 (bit_and first 0x0f) && (not (is_fin first) || ltb 125 n) in
                    let made =
                      reads-Carries c first second n s2 s3 s4 s5 bs mask
                        (subst (All IsByte) at_s bytes)
                        (not-eq-false (bit_and first 0x70 == 0)
                          (fail_if-eq-ok (not (bit_and first 0x70 == 0)) _ rsv))
                        (fail_if-eq-ok (bad_masking c.role (is_fin second)) _ masking) lengths
                        (fail_if-eq-ok is_control _ control)
                        (fail_if-eq-ok (ltb c.max n) too_large bounded) masks body in
                    subst (λ t. Carries c t f rest) (sym at_s)
                      (subst (λ (p : Frame × List ℕ). Carries c (first ∷ second ∷ s2) p.0 p.1)
                        (ok-injective h) made)

-- readFrame accepts a frame exactly where the bytes begin with the one way to write it that the
-- peer may use: the mask that the role asks for, the shortest length field, a final control frame of
-- at most 125 bytes, and a payload within the maximum. It takes these bytes and leaves the others.
pub read_frame_iff :
    (c : Conn) (s : List ℕ) (f : Frame) (rest : List ℕ)
    → c.max < 0x8000000000000000
    → All IsByte s
    → (read_frame c s ≡ ok (f, rest)) ↔ Carries c s f rest
read_frame_iff c s f rest word bytes = (
  read_frame-Carries c s f rest bytes,
  λ (mask, fits, front). ap (read_frame c) front ∙ read_frame-encode c mask f rest word fits,
)
