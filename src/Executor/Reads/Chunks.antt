-- ===== src/Executor/Reads/Chunks.antt =====
-- A client that follows next_offset while the answers are truncated reads the whole file.
use open_remote_commander.Prelude.{
  ℕ, zero, suc, ◌+◌, ◌≤◌, ◌<◌, ◌≡◌, refl, sym, ap, ◌∙◌, inl, inr, String, false, List, ◌++◌, Option,
  none, some, Result, ok, err, ◌>>=◌, or_fail, length, take, drop, ltb, if◌then◌else◌, Bool-cases,
  arith, length-take, length-drop, take-append-drop, drop-drop, drop_congr, take-of_length_le,
  ltb→lt, take-take,
}
use open_remote_commander.Prelude.Int.{ℤ, pos, negsuc, ltb_ℤ}
use open_remote_commander.Disk.{Location, regular}
use open_remote_commander.Paths.{Policy, World, resolve_existing}
use open_remote_commander.Executor.{Error, failed, Encoding, utf8, base64, Codec, Os, read_limit}
use open_remote_commander.Executor.Reads.{FileChunk, chunk_of, read_file}

-- The client's view of an answer's content.
abbrev pub decoded_as : Codec → Encoding → List ℕ → Option (List ℕ)
decoded_as codec utf8 content = some content
decoded_as codec base64 content = codec.decode64 content

abbrev pub decoded : Codec → FileChunk → Result Error (List ℕ)
decoded codec c = or_fail (decoded_as codec c.encoding c.content) (failed "invalid base64")

-- The client: it asks for the file from `offset` on, so many times at most.
unfoldable pub download : Codec → Os → Policy → World → String → ℤ → ℕ → ℕ → Result Error (List ℕ)
download codec os p w path max_bytes zero offset = err (failed "too many reads")
download codec os p w path max_bytes (suc reads) offset = do
  c ← read_file codec os p w (record { path = path; offset = pos offset; max_bytes = max_bytes })
  b ← decoded codec c
  let rest = download codec os p w path max_bytes reads c.next_offset
  if c.truncated then (rest >>= λ more. ok (b ++ more)) else ok b

read_limit_pos : (n : ℤ) → 1 ≤ read_limit n
read_limit_pos (pos n) = ground arith
read_limit_pos (negsuc n) = ground arith

-- The bytes that an answer with this limit carries.
chunk_bytes :
    (limit : ℕ) (rest : List ℕ)
    → (if ltb limit (length (take (limit + 1) rest))
        then take limit (take (limit + 1) rest)
        else take (limit + 1) rest)
      ≡ take limit rest
chunk_bytes limit rest = elim (Bool-cases (ltb limit (length (take (limit + 1) rest)))) [
  | inl more ↦ rw more (take-take limit (limit + 1) rest (omega arith))
  | inr last ↦ rw last (
      let short : length rest ≤ limit = ground (arith, length-take (limit + 1) rest) in
      take-of_length_le (limit + 1) rest (omega arith)
      ∙ sym (take-of_length_le limit rest (omega arith)))
]

truncated_lem :
    (limit : ℕ) (rest : List ℕ)
    → ltb limit (length (take (limit + 1) rest)) ≡ ltb limit (length rest)
truncated_lem limit rest = ground (arith, length-take (limit + 1) rest)

-- base64 gives back what it was given.
abbrev pub IsFaithful : Codec → Type 0
IsFaithful codec = (b : List ℕ) → codec.decode64 (codec.encode64 b) ≡ some b

module _ (codec : Codec) (os : Os) (p : Policy) (w : World) (path : String) (place : Location)
    (bytes : List ℕ) (mode : ℕ) (faithful : IsFaithful codec)
    (found : resolve_existing p w path ≡ ok place) (stands : w.disk place ≡ ok (regular bytes mode))
    (opens : os.opens place ≡ none) (reads : os.reads place ≡ none) (max_bytes : ℤ) where
  abbrev limit : ℕ
  limit = read_limit max_bytes

  abbrev chunk_at : ℕ → FileChunk
  chunk_at offset = chunk_of codec place offset limit (take (limit + 1) (drop offset bytes))

  read_file-chunk :
      (offset : ℕ)
      → read_file codec os p w (record { path = path; offset = pos offset; max_bytes = max_bytes })
        ≡ ok (chunk_at offset)
  unfolding read_file
  read_file-chunk offset =
      let fine : ltb_ℤ (pos offset) (pos 0) ≡ false = ground arith in
      rw (found, stands, opens, reads, fine) refl

  decoded-chunk :
      (offset : ℕ) → decoded codec (chunk_at offset) ≡ ok (take limit (drop offset bytes))
  decoded-chunk offset =
      rw (chunk_bytes limit (drop offset bytes))
        (elim (Bool-cases (codec.is_utf8 (take limit (drop offset bytes)))) [
          | inl text ↦ rw text refl
          | inr binary ↦ rw (binary, faithful (take limit (drop offset bytes))) refl
        ])

  next_offset-chunk :
      (offset : ℕ)
      → (chunk_at offset).next_offset ≡ offset + length (take limit (drop offset bytes))
  next_offset-chunk offset = ap (λ b. offset + length b) (chunk_bytes limit (drop offset bytes))

  -- Reads that start at `offset` and follow next_offset end, with all the rest of the file, after no more
  -- of them than there are bytes left, and one.
  pub download_lem :
      (times offset : ℕ)
      → length (drop offset bytes) < times
      → download codec os p w path max_bytes times offset ≡ ok (drop offset bytes)
  unfolding download
  download_lem zero offset few = absurd (omega arith)
  download_lem (suc times) offset few =
      rw (read_file-chunk offset, decoded-chunk offset, truncated_lem limit rest)
        (elim (Bool-cases (ltb limit (length rest))) [
          | inl more ↦
              let big : limit < length rest = ltb→lt limit (length rest) more in
              let size : length (take limit rest) ≡ limit =
                ground (arith, length-take limit rest) in
              let left : length (drop (offset + length (take limit rest)) bytes) < times = omega (
                arith,
                read_limit_pos max_bytes,
                length-drop (offset + length (take limit rest)) bytes,
                length-drop offset bytes,
              ) in
              rw
                (
                  more,
                  take-take limit (limit + 1) rest (omega arith),
                  download_lem times (offset + length (take limit rest)) left,
                )
                (ap (λ b. ok (take limit rest ++ b))
                    (drop_congr (offset + length (take limit rest)) (offset + limit) bytes
                        (omega arith)
                      ∙ sym (drop-drop limit offset bytes))
                  ∙ ap ok (take-append-drop limit rest))
          | inr last ↦ rw last (ap ok (take-of_length_le limit rest (ground arith)))
        ])
    where
      rest : List ℕ
      rest = drop offset bytes
