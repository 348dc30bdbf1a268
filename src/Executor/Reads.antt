-- ===== src/Executor/Reads.antt =====
-- The reading handlers: `readFile`, `readMultipleFiles`, `listDirectory`, `getFileInfo`.
pub mod Chunks
use open_remote_commander.Prelude.{
  ℕ, ◌+◌, String, Bool, true, false, ◌||◌, List, [], ◌∷◌, Option, none, some, Result, ok, err,
  ◌>>=◌, ◌>>◌, fail_if, length, take, drop, ltb, ◌==◌, if◌then◌else◌,
}
use open_remote_commander.Prelude.Int.{ℤ, pos, pos_part, ltb_ℤ}
use open_remote_commander.Disk.{Location, Node, directory, regular}
use open_remote_commander.Paths.{Policy, World, resolve_existing}
use open_remote_commander.Executor.{
  Error, failed, Encoding, utf8, base64, Codec, DirEntry, Kind, Os, resolved, from_system, check,
  read_limit, max_list_items, max_combined_read_bytes,
}

pub record ReadArgs : Type 0 where
  pub path : String
  pub offset : ℤ
  pub max_bytes : ℤ

pub record FileChunk : Type 0 where
  pub path : Location
  pub encoding : Encoding
  pub content : List ℕ
  pub offset : ℕ
  pub next_offset : ℕ
  pub truncated : Bool

-- st.IsDir()
abbrev pub is_dir : Node → Bool
is_dir directory = true
is_dir _ = false

-- The bytes behind an open file.
abbrev pub contents : Node → List ℕ
contents (regular bytes mode) = bytes
contents _ = []

module _ (codec : Codec) where
  abbrev pub encoding_of : List ℕ → Encoding
  encoding_of b = if codec.is_utf8 b then utf8 else base64

  abbrev pub encoded : List ℕ → List ℕ
  encoded b = if codec.is_utf8 b then b else codec.encode64 b

  -- The answer from the limit + 1 bytes that were read at most.
  abbrev pub chunk_of : Location → ℕ → ℕ → List ℕ → FileChunk
  chunk_of path offset limit got =
      let truncated = ltb limit (length got) in
      let b = if truncated then take limit got else got in
      record {
        path = path;
        encoding = encoding_of b;
        content = encoded b;
        offset = offset;
        next_offset = offset + length b;
        truncated = truncated;
      }

  unfoldable pub read_file : Os → Policy → World → ReadArgs → Result Error FileChunk
  read_file os p w a = do
    path ← resolved (resolve_existing p w a.path)
    st ← from_system (w.disk path)
    fail_if (is_dir st) (failed "path is a directory")
    let limit = read_limit a.max_bytes
    fail_if (ltb_ℤ a.offset (pos 0)) (failed "offset cannot be negative")
    check (os.opens path)
    check (os.reads path)
    let got = take (limit + 1) (drop (pos_part a.offset) (contents st))
    ok (chunk_of path (pos_part a.offset) limit got)

  -- One of several files: its bytes up to the limit, or the error that stands in its place.
  abbrev pub read_one : Os → Policy → World → ℕ → String → Result Error (Location × List ℕ)
  read_one os p w limit requested = do
    path ← resolved (resolve_existing p w requested)
    st ← from_system (w.disk path)
    fail_if (is_dir st) (failed "path is a directory")
    check (os.opens path)
    check (os.reads path)
    ok (path, take (limit + 1) (contents st))

  pub record Loaded : Type 0 where
    pub path : Location
    pub truncated : Bool
    pub encoding : Encoding
    pub content : List ℕ

  abbrev pub Entry : Type 0
  Entry = String × Result Error Loaded

  abbrev pub loaded : Location → ℕ → List ℕ → Loaded
  loaded path limit got =
      let truncated = ltb limit (length got) in
      let b = if truncated then take limit got else got in
      record { path = path; truncated = truncated; encoding = encoding_of b; content = encoded b }

  -- How many bytes it adds to the total, and whether the total is then too large.
  abbrev pub kept : ℕ → Result Error (Location × List ℕ) → ℕ
  kept limit (err e) = 0
  kept limit (ok (path, got)) = if ltb limit (length got) then limit else length got

  abbrev pub exceeds : Result Error (Location × List ℕ) → ℕ → Bool
  exceeds (err e) total = false
  exceeds (ok _) total = ltb max_combined_read_bytes total

  abbrev pub entry_of : ℕ → Result Error (Location × List ℕ) → Result Error Loaded
  entry_of limit (err e) = err e
  entry_of limit (ok (path, got)) = ok (loaded path limit got)

  -- The loop over the paths, with the bytes that are read so far.
  unfoldable pub read_each : Os → Policy → World → ℕ → List String → ℕ → Result Error (List Entry)
  read_each os p w limit [] total = ok []
  read_each os p w limit (requested ∷ paths) total =
      let one = read_one os p w limit requested in
      let total' = total + kept limit one in
      let rest = read_each os p w limit paths total' in
      if exceeds one total'
      then err (failed "combined read exceeds 8MiB")
      else (rest >>= λ files. ok ((requested, entry_of limit one) ∷ files))

  unfoldable pub read_multiple_files :
      Os → Policy → World → List String → ℤ → Result Error (List Entry)
  unfolding read_each
  read_multiple_files os p w paths max_bytes_per_file = do
    fail_if (length paths == 0 || ltb 32 (length paths)) (failed "paths must contain 1 to 32 files")
    read_each os p w (read_limit max_bytes_per_file) paths 0

pub record Listed : Type 0 where
  pub name : String
  pub kind : Kind
  pub size : ℕ
  pub modified_at : ℕ

abbrev pub with_info : DirEntry → Option (ℕ × ℕ) → List Listed → List Listed
with_info de none rest = rest
with_info de (some (size, modified)) rest =
    record { name = de.name; kind = de.kind; size = size; modified_at = modified } ∷ rest

-- The entries whose Info is given.
unfoldable pub listed : List DirEntry → List Listed
listed [] = []
listed (de ∷ entries) = with_info de de.info (listed entries)

pub record Listing : Type 0 where
  pub path : Location
  pub entries : List Listed
  pub truncated : Bool

unfoldable pub list_directory : Os → Policy → World → String → Result Error Listing
unfolding listed
list_directory os p w requested = do
  path ← resolved (resolve_existing p w requested)
  entries ← from_system (os.lists path)
  let truncated = ltb max_list_items (length entries)
  ok (record {
    path = path;
    entries = listed (if truncated then take max_list_items entries else entries);
    truncated = truncated;
  })

pub record FileInfo : Type 0 where
  pub path : Location
  pub name : String
  pub size : ℕ
  pub is_dir : Bool

-- st.Name() of the root is "/".
abbrev pub base : Location → String
base [] = "/"
base (name ∷ place) = name

unfoldable pub get_file_info : Policy → World → String → Result Error FileInfo
get_file_info p w requested = do
  path ← resolved (resolve_existing p w requested)
  st ← from_system (w.disk path)
  ok (record { path = path; name = base path; size = length (contents st); is_dir = is_dir st })
