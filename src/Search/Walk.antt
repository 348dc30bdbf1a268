-- ===== src/Search/Walk.antt =====
-- The goroutine `run` of internal/searchmgr/manager.go: the walk over a file tree and what it adds to
-- the session.
use open_remote_commander.Prelude.{
  ℕ, zero, suc, Bool, true, false, ◌&&◌, ◌||◌, not, List, [], ◌∷◌, ◌++◌, Option, none, some, length,
  take, ltb, leb, ◌==◌, if◌then◌else◌,
}
use open_remote_commander.Search.{
  Query, Match, content, files, Matcher, Library, Session, new_session,
}

pub data Mode : Type 0 where
  regular symlink other : Mode

-- What a directory entry shows: its name, the answers of Info() and of os.ReadFile.
pub record File : Type 0 where
  pub name : List ℕ
  pub mode : Mode
  pub size : Option ℕ
  pub data_ : Option (List ℕ)

mutual
  pub data Node : Type 0 where
    file : File → Node
    folder : List ℕ → Nodes → Node
    failed : List ℕ → Node

  pub data Nodes : Type 0 where
    no_more : Nodes
    and_more : Node → Nodes → Nodes

-- How a call of the walk's function ends: nil, errEnough or the error of the context.
pub data Flow : Type 0 where
  goes_on enough stopped : Flow

-- What is found so far, and the calls that are left until the context ends.
pub record Progress : Type 0 where
  pub found : List Match
  pub left : Option ℕ

-- isHidden
unfoldable pub is_hidden : List ℕ → Bool
is_hidden [] = false
is_hidden (c ∷ []) = false
is_hidden (c ∷ d ∷ s) = c == 0x2e

unfoldable pub has_zero : List ℕ → Bool
has_zero [] = false
has_zero (b ∷ bs) = b == 0 || has_zero bs

abbrev pub onto_first : ℕ → List (List ℕ) → List (List ℕ)
onto_first c [] = (c ∷ []) ∷ []
onto_first c (l ∷ ls) = (c ∷ l) ∷ ls

-- strings.Split(s, "\n")
unfoldable pub split_lines : List ℕ → List (List ℕ)
split_lines [] = [] ∷ []
split_lines (c ∷ s) = let rest = split_lines s in if c == 10 then [] ∷ rest else onto_first c rest

-- The match in line number i, counted from 0.
abbrev pub line_match : List ℕ → ℕ → List ℕ → ℕ → Match
line_match path i line idx = record {
  path = path;
  line = suc i;
  column = suc idx;
  preview = take 1000 line;
  kind = content;
}

abbrev pub name_match : List ℕ → ℕ → Match
name_match path idx = record { path = path; line = 0; column = suc idx; preview = []; kind = files }

abbrev pub add : Match → Progress → Progress
add v s = record s { found = s.found ++ v ∷ [] }

abbrev pub is_symlink : Mode → Bool
is_symlink regular = false
is_symlink symlink = true
is_symlink other = false

abbrev pub add_name : List ℕ → Option ℕ → Progress → Progress
add_name path none s = s
add_name path (some idx) s = add (name_match path idx) s

module _ (q : Query) (match : Matcher) where
  -- One line, with the match in it.
  abbrev pub on_line :
      List ℕ → ℕ → List ℕ → (Progress → Flow × Progress) → Progress → Option ℕ → Flow × Progress
  on_line path i l next s none = next s
  on_line path i l next s (some idx) =
      let s' = add (line_match path i l idx) s in
      if leb q.most_results (length s'.found) then (enough, s') else next s'

  -- The loop over the lines of a file.
  unfoldable pub search_lines : List ℕ → ℕ → List (List ℕ) → Progress → Flow × Progress
  search_lines path i [] s = (goes_on, s)
  search_lines path i (l ∷ ls) s = on_line path i l (search_lines path (suc i) ls) s (match l)

  -- The bytes of a file that is searched.
  unfoldable pub readable : (List ℕ → Bool) → File → Option (List ℕ)
  readable utf8_valid f = elim f.mode [
    | symlink ↦ none
    | other ↦ none
    | regular ↦ elim f.size [
      | none ↦ none
      | some n ↦ elim f.data_ [
        | none ↦ none
        | some bs ↦
            if ltb q.most_bytes n
              || ltb q.most_bytes (length bs)
              || not (utf8_valid bs)
              || has_zero bs
            then none
            else some bs
      ]
    ]
  ]

  abbrev pub search_data : List ℕ → Option (List ℕ) → Progress → Flow × Progress
  search_data path none s = (goes_on, s)
  search_data path (some bs) s = search_lines path 0 (split_lines bs) s

  -- The function on a file, behind the tests that it shares with directories.
  unfoldable pub search_file : (List ℕ → Bool) → List ℕ → List ℕ → File → Progress → Flow × Progress
  unfolding search_lines readable
  search_file utf8_valid path rel f s =
      if is_symlink f.mode
      then (goes_on, s)
      else if leb q.most_results (length s.found)
      then (enough, s)
      else elim q.kind [
        | files ↦ (goes_on, add_name path (match rel) s)
        | content ↦ search_data path (readable utf8_valid f) s
      ]

-- select { case <-ctx.Done(): ... }
abbrev pub tick : Option ℕ → Option (Option ℕ)
tick none = some none
tick (some zero) = none
tick (some (suc k)) = some (some k)

-- The path of an entry, filepath.Join of a cleaned path and a name, and its path from the root, "." for
-- the root itself.
abbrev pub join : List ℕ → List ℕ → List ℕ
join (b ∷ []) name = if b == 0x2f then b ∷ name else if b == 0x2e then name else b ∷ 0x2f ∷ name
join path name = path ++ 0x2f ∷ name

abbrev pub join_rel : Option (List ℕ) → List ℕ → List ℕ
join_rel none name = name
join_rel (some rel) name = join rel name

abbrev pub rel_text : Option (List ℕ) → List ℕ
rel_text none = 0x2e ∷ []
rel_text (some rel) = rel

abbrev pub is_top : Option (List ℕ) → Bool
is_top none = true
is_top (some rel) = false

-- path != q.Path && !q.IncludeHidden && isHidden(filepath.Base(path))
abbrev pub passed_over : Query → Option (List ℕ) → List ℕ → Bool
passed_over q rel name = not (is_top rel) && not q.hidden && is_hidden name

-- An error ends the walk.
abbrev pub and_then : Flow × Progress → (Progress → Flow × Progress) → Flow × Progress
and_then (goes_on, s) k = k s
and_then (enough, s) k = (enough, s)
and_then (stopped, s) k = (stopped, s)

abbrev pub on_tick : (Progress → Flow × Progress) → Progress → Option (Option ℕ) → Flow × Progress
on_tick k s none = (stopped, s)
on_tick k s (some n) = k (record s { left = n })

-- One call of the function where the context allows it.
abbrev pub turn : (Progress → Flow × Progress) → Progress → Flow × Progress
turn k s = on_tick k s (tick s.left)

abbrev pub name_of : Node → List ℕ
name_of (file f) = f.name
name_of (folder name inner) = name
name_of (failed name) = name

-- filepath.WalkDir with the function of `run`; `rel` is none at the root.
unfoldable mutual
  unfolding search_file is_hidden

  pub walk :
      Query
      → Matcher
      → (List ℕ → Bool)
      → List ℕ
      → Option (List ℕ)
      → Node
      → Progress
      → Flow × Progress
  walk q match utf8 path rel (failed name) s = (goes_on, s)
  walk q match utf8 path rel (file f) s =
      turn
        (λ s.
          if passed_over q rel f.name
          then (goes_on, s)
          else search_file q match utf8 path (rel_text rel) f s)
        s
  walk q match utf8 path rel (folder name inner) s =
      let below = walk_all q match utf8 path rel inner in
      turn (λ s. if passed_over q rel name then (goes_on, s) else below s) s

  pub walk_all :
      Query
      → Matcher
      → (List ℕ → Bool)
      → List ℕ
      → Option (List ℕ)
      → Nodes
      → Progress
      → Flow × Progress
  walk_all q match utf8 path rel no_more s = (goes_on, s)
  walk_all q match utf8 path rel (and_more n ns) s =
      let rest = walk_all q match utf8 path rel ns in
      and_then (walk q match utf8 (join path (name_of n)) (some (join_rel rel (name_of n))) n s)
        rest

-- The whole of `run`. WalkDir returns no other errors than the function's, so the session has an error
-- only where its time was up.
unfoldable pub run : Library → Query → Matcher → Node → Option ℕ → Bool → Session
unfolding walk
run lib q match tree ends timed_out =
    let s : Progress =
      (walk q match lib.utf8_valid q.root none tree (record { found = []; left = ends })).1 in
    record new_session {
      results = s.found;
      done = true;
      error = if timed_out then some "search timed out" else none;
    }
