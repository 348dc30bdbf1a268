-- ===== src/Process/Ring/Cursor.antt =====
-- What a reader of the ring gets by its cursor,.
use open_remote_commander.Prelude.{
  ℕ, ◌+◌, ◌-◌, ◌≤◌, ◌≡◌, refl, sym, ap, ◌∙◌, List, length, take, drop, ltb, arith, min, max,
  Bool-cases, if◌then◌else◌, inl, inr, take-of_length_le, length-drop, length-take, drop-drop,
  drop_congr,
}
use open_remote_commander.Prelude.Int.{ℤ, pos, pos_part, ltb_ℤ}
use open_remote_commander.Process.Ring.{Ring, read, clamp_cursor}
use open_remote_commander.Process.Ring.History.{Holds, length-buf}

-- Where a read starts: at the cursor, or at the oldest byte kept, and never past the end.
abbrev pub start_of : List ℕ → Ring → ℤ → ℕ
start_of h r cursor = min (max (pos_part cursor) r.base) (length h)

-- `if available > limit { available = limit }`, where `available` is all there is.
take_clipped :
    (limit n : ℕ) (xs : List ℕ)
    → n ≡ length xs
    → (take (if ltb limit n then limit else n) xs ≡ take limit xs)
      × ((if ltb limit n then limit else n) ≡ length (take limit xs))
take_clipped limit n xs e = elim (Bool-cases (ltb limit n)) [
  | inl cut ↦ rw cut (refl, ground (arith, length-take limit xs))
  | inr whole ↦ rw whole (
    take-of_length_le n xs (omega arith) ∙ sym (take-of_length_le limit xs (ground arith)),
    ground (arith, length-take limit xs),
  )
]

module _ (h : List ℕ) (r : Ring) (v : Holds h r) where
  clamp_cursor_lem : (cursor : ℤ) → clamp_cursor r cursor ≡ start_of h r cursor
  unfolding clamp_cursor
  clamp_cursor_lem (pos n) = ground (arith, length-buf h r v)
  clamp_cursor_lem c = ground (arith, length-buf h r v)

  tail : (k : ℕ) → r.base ≤ k → drop (k - r.base) r.buf ≡ drop k h
  tail k le =
      ap (drop (k - r.base)) v.buf_is
      ∙ drop-drop (k - r.base) (length h - r.max) h
      ∙ drop_congr (length h - r.max + (k - r.base)) k h (omega arith)

  -- A read returns the output from where it starts, at most `limit` bytes of it and all there is
  -- up to that; the next cursor stands right after them, and it reports a loss exactly when the
  -- cursor lies before the oldest byte kept.
  pub read_lem :
      (cursor : ℤ) (limit : ℕ)
      → let out = read r cursor limit in
        (out.bytes ≡ take limit (drop (start_of h r cursor) h))
        × (out.next ≡ start_of h r cursor + length out.bytes)
        × (out.truncated ≡ ltb_ℤ cursor (pos r.base))
  unfolding read
  read_lem cursor limit =
      let k : ℕ = start_of h r cursor in
      let s : List ℕ = drop (k - r.base) r.buf in
      let (bytes, many) =
        take_clipped limit (length r.buf - (k - r.base)) s (sym (length-drop (k - r.base) r.buf)) in
      rw (clamp_cursor_lem cursor) (
        bytes ∙ ap (take limit) (tail k (omega arith)),
        ap (λ m. k + m) (many ∙ ap length (sym bytes)),
        refl,
      )
