-- ===== src/Process/Ring.antt =====
-- The `ring` of internal/processmgr/manager.go: the last bytes of a process's output, addressed by
-- an absolute cursor. A byte is a number. `max` is a number: the code treats every non-positive
-- `max` as it treats 0. The counters do not wrap: they count bytes that a process has written.
pub mod History
pub mod Cursor
pub mod Follow
use open_remote_commander.Prelude.{
  ℕ, ◌+◌, ◌-◌, Bool, List, ◌++◌, [], ◌∷◌, length, take, drop, leb, ltb, ◌==◌, if◌then◌else◌,
}
use open_remote_commander.Prelude.Int.{ℤ, pos, pos_part, ltb_ℤ}

pub record Ring : Type 0 where
  pub buf : List ℕ
  pub base : ℕ
  pub max : ℕ

-- &ring{max: m.maxBuffer}
abbrev pub new_ring : ℕ → Ring
new_ring max = record { buf = []; base = 0; max = max }

-- copy(d, d[n:]): the tail moves to the front, and what stood behind it stays.
pub copy_down : List ℕ → ℕ → List ℕ
copy_down d n = drop n d ++ drop (length d - n) d

-- The last branch of `write`, after the append.
unfoldable pub trim : Ring → Ring
unfolding copy_down
trim r =
    if ltb r.max (length r.buf)
    then (let dropped = length r.buf - r.max in
        record r { buf = take r.max (copy_down r.buf dropped); base = r.base + dropped })
    else r

unfoldable pub write : Ring → List ℕ → Ring
write r p =
    if r.max == 0
    then r
    else if leb r.max (length p)
    then record r {
      base = r.base + (length r.buf + length p - r.max);
      buf = drop (length p - r.max) p;
    }
    else trim (record r { buf = r.buf ++ p })

-- What `read` returns: the bytes, the next cursor, and whether bytes before them are lost.
pub record Chunk : Type 0 where
  pub bytes : List ℕ
  pub next : ℕ
  pub truncated : Bool

-- The cursor after the two clamps of `read`: it lies between `base` and the end of the buffer.
pub clamp_cursor : Ring → ℤ → ℕ
clamp_cursor r cursor =
    let from = if ltb_ℤ cursor (pos r.base) then r.base else pos_part cursor in
    let end = r.base + length r.buf in if ltb end from then end else from

unfoldable pub read : Ring → ℤ → ℕ → Chunk
unfolding clamp_cursor
read r cursor limit =
    let from = clamp_cursor r cursor in
    let start = from - r.base in
    let rest = length r.buf - start in
    let available = if ltb limit rest then limit else rest in
    record {
      bytes = take available (drop start r.buf);
      next = from + available;
      truncated = ltb_ℤ cursor (pos r.base);
    }

-- A run of writes, oldest first.
unfoldable pub write_all : Ring → List (List ℕ) → Ring
write_all r [] = r
write_all r (p ∷ ps) = write_all (write r p) ps
