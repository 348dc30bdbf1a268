-- ===== src/Process/Ring/History.antt =====
-- The ring against the whole output that was written to it.
use open_remote_commander.Prelude.{
  ℕ, ◌+◌, ◌-◌, ◌≤◌, ◌<◌, ◌≡◌, refl, sym, ap, ◌∙◌, inl, inr, List, ◌++◌, [], ◌∷◌, length, take, drop,
  leb, ltb, arith, Bool-cases, length-append, length-drop, drop-append_le, drop-append_ge,
  take-append_le, take-of_length_le, drop-drop, append-nil, append_assoc, drop_congr,
  drop-of_length_le, drop-nil,
}
use open_remote_commander.Process.Ring.{Ring, new_ring, copy_down, trim, write, write_all}

-- The ring holds the last `max` bytes of `h`, and `base` counts those before them.
pub record Holds (h : List ℕ) (r : Ring) : Type 0 where
  pub base_is : r.base ≡ length h - r.max
  pub buf_is : r.buf ≡ drop (length h - r.max) h

-- Moving the tail to the front and cutting to `m` bytes leaves the last `m` bytes.
take-copy_down : (m : ℕ) (d : List ℕ) → take m (copy_down d (length d - m)) ≡ drop (length d - m) d
unfolding copy_down
take-copy_down m d = elim (Bool-cases (leb m (length d))) [
  | inl fits ↦
      take-append_le m (drop (length d - m) d) _ (ground (arith, length-drop (length d - m) d))
      ∙ take-of_length_le m (drop (length d - m) d) (ground (arith, length-drop (length d - m) d))
  | inr short ↦
      let all : length d - m ≡ 0 = ground arith in
      let nothing : drop (length d - 0) d ≡ [] = drop-of_length_le (length d - 0) d (omega arith) in
      rw (all, nothing, append-nil d) (take-of_length_le m d (ground arith))
]

buf-trim : (r : Ring) → (trim r).buf ≡ drop (length r.buf - r.max) r.buf
unfolding trim
buf-trim r = elim (Bool-cases (ltb r.max (length r.buf))) [
  | inl long ↦ rw long (take-copy_down r.max r.buf)
  | inr short ↦ rw short (sym (drop_congr (length r.buf - r.max) 0 r.buf (ground arith)))
]

base-trim : (r : Ring) → (trim r).base ≡ r.base + (length r.buf - r.max)
unfolding trim
base-trim r = ground arith

max-trim : (r : Ring) → (trim r).max ≡ r.max
unfolding trim
max-trim r = ground arith

pub max-write : (r : Ring) (p : List ℕ) → (write r p).max ≡ r.max
unfolding write
max-write r p = ground (arith, max-trim (record r { buf = r.buf ++ p }))

pub length-buf : (h : List ℕ) (r : Ring) → Holds h r → length r.buf ≡ length h - (length h - r.max)
length-buf h r v = ap length v.buf_is ∙ length-drop (length h - r.max) h

module _ (h : List ℕ) (r : Ring) (p : List ℕ) (v : Holds h r) where
  replaced : r.max ≤ length p → drop (length p - r.max) p ≡ drop (length (h ++ p) - r.max) (h ++ p)
  replaced big =
      let n : length (h ++ p) ≡ length h + length p = length-append h p in
      sym (
        drop-append_ge (length (h ++ p) - r.max) h p (omega arith)
        ∙ drop_congr (length (h ++ p) - r.max - length h) (length p - r.max) p (omega arith))

  appended :
      drop (length (r.buf ++ p) - r.max) (r.buf ++ p) ≡ drop (length (h ++ p) - r.max) (h ++ p)
  appended =
      let n : length (h ++ p) ≡ length h + length p = length-append h p in
      let l : length (r.buf ++ p) ≡ length r.buf + length p = length-append r.buf p in
      let k : ℕ = length (r.buf ++ p) - r.max in
      ap (λ d. drop k (d ++ p)) v.buf_is
      ∙ ap (drop k) (sym (drop-append_le (length h - r.max) h p (omega arith)))
      ∙ drop-drop k (length h - r.max) (h ++ p)
      ∙ drop_congr (length h - r.max + k) (length (h ++ p) - r.max) (h ++ p)
          (omega (arith, length-buf h r v))

-- A write keeps the ring in step with the output: of `h ++ p` it holds the last `max` bytes.
pub write-Holds :
    (h : List ℕ) (r : Ring) (p : List ℕ) → 0 < r.max → Holds h r → Holds (h ++ p) (write r p)
unfolding write
write-Holds h r p pos v = record {
  base_is = ground (
    arith,
    length-append h p,
    length-append r.buf p,
    length-buf h r v,
    base-trim (record r { buf = r.buf ++ p }),
    max-write r p,
  );
  buf_is = ground (
    arith,
    replaced h r p v,
    appended h r p v,
    buf-trim (record r { buf = r.buf ++ p }),
    max-write r p,
  );
}

-- The whole output of a run of writes.
abbrev pub output : List (List ℕ) → List ℕ
output [] = []
output (p ∷ ps) = p ++ output ps

pub max-write_all : (r : Ring) (ps : List (List ℕ)) → (write_all r ps).max ≡ r.max
unfolding write_all
max-write_all r [] = refl
max-write_all r (p ∷ ps) = max-write_all (write r p) ps ∙ max-write r p

pub write_all-Holds :
    (h : List ℕ) (r : Ring) (ps : List (List ℕ))
    → 0 < r.max
    → Holds h r
    → Holds (h ++ output ps) (write_all r ps)
unfolding write_all
write_all-Holds h r [] pos v = rw (append-nil h) v
write_all-Holds h r (p ∷ ps) pos v =
    rw (← append_assoc h p (output ps))
      (write_all-Holds (h ++ p) (write r p) ps (rw (max-write r p) pos) (write-Holds h r p pos v))

pub new_ring-Holds : (max : ℕ) → Holds [] (new_ring max)
new_ring-Holds max = record { base_is = omega arith; buf_is = sym (drop-nil (0 - max)) }

-- After any run of writes a new ring of positive size holds exactly the last `max` bytes of the
-- whole output, and `base` counts the bytes before them.
pub write_all_lem :
    (max : ℕ) (ps : List (List ℕ))
    → 0 < max
    → ((write_all (new_ring max) ps).buf ≡ drop (length (output ps) - max) (output ps))
      × ((write_all (new_ring max) ps).base ≡ length (output ps) - max)
write_all_lem max ps pos =
    let v : Holds (output ps) (write_all (new_ring max) ps) =
      write_all-Holds [] (new_ring max) ps pos (new_ring-Holds max) in
    let m : (write_all (new_ring max) ps).max ≡ max = max-write_all (new_ring max) ps in
    (
      v.buf_is ∙ ap (λ k. drop (length (output ps) - k) (output ps)) m,
      v.base_is ∙ ap (λ k. length (output ps) - k) m,
    )

-- Whatever is written, the buffer never outgrows `max`.
pub length-write-le :
    (r : Ring) (p : List ℕ) → length r.buf ≤ r.max → length (write r p).buf ≤ r.max
unfolding write
length-write-le r p h =
    let q : Ring = record r { buf = r.buf ++ p } in
    ground (
      arith,
      length-drop (length p - r.max) p,
      length-drop (length q.buf - r.max) q.buf,
      ap length (buf-trim q),
    )
