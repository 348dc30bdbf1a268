-- ===== src/Process/Ring/Follow.antt =====
-- A reader that polls the ring from cursor 0, passing back the cursor it was given, while the
-- process goes on writing.
use open_remote_commander.Prelude.{
  ℕ, ◌+◌, ◌≤◌, ◌<◌, ◌≡◌, refl, sym, ap, ◌∙◌, Bool, false, ◌||◌, List, ◌++◌, [], ◌∷◌, length, take,
  drop, arith, take-append_le, take-add, length-append, length-take, length-drop, take_congr,
  append-nil, append_assoc, zero, suc,
}
use open_remote_commander.Prelude.Int.{pos}
use open_remote_commander.Process.Ring.{Ring, new_ring, write, read}
use open_remote_commander.Process.Ring.History.{Holds, write-Holds, max-write, new_ring-Holds}
use open_remote_commander.Process.Ring.Cursor.{read_lem, start_of}

pub data Turn : Type 0 where
  writes : List ℕ → Turn
  polls : ℕ → Turn

pub record Reader : Type 0 where
  pub ring : Ring
  pub cursor : ℕ
  pub got : List ℕ
  pub lost : Bool

turn : Reader → Turn → Reader
turn f (writes p) = record f { ring = write f.ring p }
turn f (polls limit) =
    let out = read f.ring (pos f.cursor) limit in
    record f { cursor = out.next; got = f.got ++ out.bytes; lost = f.lost || out.truncated }

unfoldable pub follow : Reader → List Turn → Reader
unfolding turn
follow f [] = f
follow f (t ∷ ts) = follow (turn f t) ts

abbrev pub reader : ℕ → Reader
reader max = record { ring = new_ring max; cursor = 0; got = []; lost = false }

-- All that the process wrote in a run of turns.
abbrev pub written : List Turn → List ℕ
written [] = []
written (writes p ∷ ts) = p ++ written ts
written (polls limit ∷ ts) = written ts

record Follows (h : List ℕ) (f : Reader) : Type 0 where
  holds : Holds h f.ring
  sized : 0 < f.ring.max
  within : f.cursor ≤ length h
  whole : f.lost ≡ false → f.got ≡ take f.cursor h

writes-Follows :
    (h : List ℕ) (f : Reader) (p : List ℕ) → Follows h f → Follows (h ++ p) (turn f (writes p))
unfolding turn
writes-Follows h f p v = record {
  holds = write-Holds h f.ring p v.sized v.holds;
  sized = omega (arith, max-write f.ring p, v.sized);
  within = omega (arith, length-append h p, v.within);
  whole = λ e. v.whole e ∙ sym (take-append_le f.cursor h p v.within);
}

take-length-take : (n : ℕ) (xs : List ℕ) → take (length (take n xs)) xs ≡ take n xs
take-length-take zero xs = refl
take-length-take (suc n) [] = refl
take-length-take (suc n) (x ∷ xs) = ap (◌∷◌ x) (take-length-take n xs)

-- A read from a cursor that the ring still holds continues what the reader has.
read-continues :
    (h : List ℕ) (r : Ring) (c limit : ℕ)
    → Holds h r
    → c ≤ length h
    → (read r (pos c) limit).truncated ≡ false
    → ((read r (pos c) limit).next ≡ c + length (read r (pos c) limit).bytes)
      × (take c h ++ (read r (pos c) limit).bytes ≡ take (read r (pos c) limit).next h)
read-continues h r c limit v within kept =
    let (bytes, next, truncated) = read_lem h r v (pos c) limit in
    let here : start_of h r (pos c) ≡ c = ground (arith, truncated) in
    let next' : (read r (pos c) limit).next ≡ c + length (read r (pos c) limit).bytes =
      next ∙ ap (λ k. k + length (read r (pos c) limit).bytes) here in
    let bytes' : (read r (pos c) limit).bytes ≡ take limit (drop c h) =
      bytes ∙ ap (λ k. take limit (drop k h)) here in
    (
      next',
      sym (
          take_congr _ _ h next'
          ∙ take-add c (length (read r (pos c) limit).bytes) h
          ∙ ap (◌++◌ (take c h)) (
              ap (λ (b : List ℕ). take (length b) (drop c h)) bytes'
              ∙ take-length-take limit (drop c h)
              ∙ sym bytes')),
    )

read-within :
    (h : List ℕ) (r : Ring) (c limit : ℕ) → Holds h r → (read r (pos c) limit).next ≤ length h
read-within h r c limit v =
    let (bytes, next, truncated) = read_lem h r v (pos c) limit in
    let k : ℕ = start_of h r (pos c) in
    omega (arith, ap length bytes, next, length-take limit (drop k h), length-drop k h)

polls-Follows :
    (h : List ℕ) (f : Reader) (limit : ℕ) → Follows h f → Follows h (turn f (polls limit))
unfolding turn
polls-Follows h f limit v = record {
  holds = v.holds;
  sized = v.sized;
  within = read-within h f.ring f.cursor limit v.holds;
  whole = λ e.
      let kept : (read f.ring (pos f.cursor) limit).truncated ≡ false = ground arith in
      let before : f.lost ≡ false = ground arith in
      rw (v.whole before) (read-continues h f.ring f.cursor limit v.holds v.within kept).1;
}

follow-Follows :
    (h : List ℕ) (f : Reader) (ts : List Turn)
    → Follows h f
    → Follows (h ++ written ts) (follow f ts)
unfolding follow
follow-Follows h f [] v = rw (append-nil h) v
follow-Follows h f (writes p ∷ ts) v =
    rw (← append_assoc h p (written ts))
      (follow-Follows (h ++ p) (turn f (writes p)) ts (writes-Follows h f p v))
follow-Follows h f (polls limit ∷ ts) v =
    follow-Follows h (turn f (polls limit)) ts (polls-Follows h f limit v)

-- However writes and reads interleave, a reader that starts at 0 and passes back the cursor that it
-- was given, and that no read has told of a loss, has got exactly the output up to its cursor.
pub follow_lem :
    (max : ℕ) (ts : List Turn)
    → 0 < max
    → (follow (reader max) ts).lost ≡ false
    → (follow (reader max) ts).got ≡ take (follow (reader max) ts).cursor (written ts)
follow_lem max ts some_room kept =
    (follow-Follows [] (reader max) ts (record {
      holds = new_ring-Holds max;
      sized = some_room;
      within = omega arith;
      whole = λ e. refl;
    })).whole
      kept
