-- ===== src/Search/Found.antt =====
-- What a search of internal/searchmgr/manager.go finds, against the list of all the matches of a tree.
use open_remote_commander.Prelude.{
  ℕ, suc, ◌≤◌, ◌≡◌, refl, sym, ap, subst, ◌∙◌, Bool, true, false, List, [], ◌∷◌, ◌++◌, append-nil,
  append_assoc, arith, Option, none, some, length, length-append, take, take-of_length_le,
  take-length-append, leb, if◌then◌else◌, Bool-cases, ◌⊎◌, inl, inr,
}
use open_remote_commander.Search.{Query, Match, SearchType, content, files, Matcher, Library}
use open_remote_commander.Search.Walk.{
  File, Node, file, folder, failed, Nodes, no_more, and_more, Flow, goes_on, Progress, split_lines,
  line_match, name_match, on_tick, on_line, search_lines, readable, is_symlink, add_name,
  search_data, search_file, tick, join, join_rel, rel_text, passed_over, on_tick, on_line, name_of,
  walk, walk_all, run,
}
use open_remote_commander.Search.Matches.{
  Adds, Adds-and_then, Adds-behind, Adds-full, Adds-nil, all, cut, data_matches, file_matches, full,
  line_matches, lines_matches, matches, matches_all, name_matches,
}

on_line-Adds :
    (q : Query) (match : Matcher) (path : List ℕ) (i : ℕ) (l : List ℕ) (ms : List Match)
    (next : Progress → Flow × Progress) (s : Progress) (o : Option ℕ)
    → leb q.most_results (length s.found) ≡ false
    → ((t : Progress)
        → leb q.most_results (length t.found) ≡ false
        → Adds q.most_results ms t (next t))
    → Adds q.most_results (line_matches path i l o ++ ms) s (on_line q match path i l next s o)
on_line-Adds q match path i l ms next s none room later = later s room
on_line-Adds q match path i l ms next s (some idx) room later =
    let v = line_match path i l idx in
    let s' : Progress = record s { found = s.found ++ v ∷ [] } in
    let one_more = length-append s.found (v ∷ []) in
    elim (Bool-cases (leb q.most_results (length (s.found ++ v ∷ [])))) [
      | inl reached ↦ rw reached (
          full s' ms (sym (append_assoc s.found (v ∷ []) ms))
            (ground (arith, room, reached, one_more)))
      | inr not_yet ↦
          rw not_yet
            (Adds-behind q.most_results (v ∷ []) ms s s' (next s') refl (λ h. h) (later s' not_yet))
    ]

search_lines-Adds :
    (q : Query) (match : Matcher) (utf8 : List ℕ → Bool) (path : List ℕ) (i : ℕ)
    (ls : List (List ℕ)) (s : Progress)
    → leb q.most_results (length s.found) ≡ false
    → Adds q.most_results
        (lines_matches q match utf8 path i ls)
        s
        (search_lines q match path i ls s)
unfolding search_lines lines_matches
search_lines-Adds q match utf8 path i [] s room = Adds-nil q.most_results s (ground (arith, room))
search_lines-Adds q match utf8 path i (l ∷ ls) s room =
    on_line-Adds q match path i l (lines_matches q match utf8 path (suc i) ls)
      (search_lines q match path (suc i) ls) s (match l) room
      (search_lines-Adds q match utf8 path (suc i) ls)

add_name-Adds :
    (most : ℕ) (path : List ℕ) (o : Option ℕ) (s : Progress)
    → leb most (length s.found) ≡ false
    → Adds most (name_matches path o) s (goes_on, add_name path o s)
add_name-Adds most path none s room = Adds-nil most s (ground (arith, room))
add_name-Adds most path (some idx) s room =
    let one_more = length-append s.found (name_match path idx ∷ []) in
    all (record s { found = s.found ++ name_match path idx ∷ [] }) refl
      (ground (arith, room, one_more)) (λ h. h)

search_data-Adds :
    (q : Query) (match : Matcher) (utf8 : List ℕ → Bool) (path : List ℕ) (o : Option (List ℕ))
    (s : Progress)
    → leb q.most_results (length s.found) ≡ false
    → Adds q.most_results (data_matches q match utf8 path o) s (search_data q match path o s)
search_data-Adds q match utf8 path none s room = Adds-nil q.most_results s (ground (arith, room))
search_data-Adds q match utf8 path (some bs) s room =
    search_lines-Adds q match utf8 path 0 (split_lines bs) s room

kind_cases : (k : SearchType) → (k ≡ files) ⊎ (k ≡ content)
kind_cases files = inl refl
kind_cases content = inr refl

search_file-Adds :
    (q : Query) (match : Matcher) (utf8 : List ℕ → Bool) (path rel : List ℕ) (f : File)
    (s : Progress)
    → length s.found ≤ q.most_results
    → Adds q.most_results
        (file_matches q match utf8 path rel f)
        s
        (search_file q match utf8 path rel f s)
unfolding search_file file_matches
search_file-Adds q match utf8 path rel f s small = elim (Bool-cases (is_symlink f.mode)) [
  | inl link ↦ rw link (Adds-nil q.most_results s small)
  | inr plain ↦ rw plain (elim (Bool-cases (leb q.most_results (length s.found))) [
    | inl reached ↦ rw reached (Adds-full q.most_results _ s small reached)
    | inr room ↦ rw room (elim (kind_cases q.kind) [
      | inl by_name ↦ rw by_name (add_name-Adds q.most_results path (match rel) s room)
      | inr by_line ↦
          rw by_line (search_data-Adds q match utf8 path (readable q match utf8 f) s room)
    ])
  ])
]

-- The matches that are left out of a directory or file that is passed over.
turn-Adds :
    (most : ℕ) (ms : List Match) (s : Progress) (k : Progress → Flow × Progress)
    (o : Option (Option ℕ))
    → tick s.left ≡ o
    → length s.found ≤ most
    → ((t : Progress) → length t.found ≤ most → Adds most ms t (k t))
    → Adds most ms s (on_tick k s o)
turn-Adds most ms s k none ended small next = cut s ms refl small λ e.
    let none_left : ◌≡◌ {A = Option (Option ℕ)} (some none) none = ap tick (sym e) ∙ ended in
    cc none_left
turn-Adds most ms s k (some n) ticked small next =
    Adds-behind most [] ms s (record s { left = n }) (k (record s { left = n }))
      (sym (append-nil s.found))
      (λ e.
        let still : ◌≡◌ {A = Option (Option ℕ)} (some none) (some n) = ap tick (sym e) ∙ ticked in
        cc still)
      (next (record s { left = n }) small)

choice-Adds :
    (most : ℕ) (ms : List Match) (passed : Bool) (k : Progress → Flow × Progress)
    → ((t : Progress) → length t.found ≤ most → Adds most ms t (k t))
    → (t : Progress) → length t.found ≤ most
    → Adds most (if passed then [] else ms) t (if passed then (goes_on, t) else k t)
choice-Adds most ms true k next t small = Adds-nil most t small
choice-Adds most ms false k next t small = next t small

mutual
  unfolding walk matches

  walk-Adds :
      (q : Query) (match : Matcher) (utf8 : List ℕ → Bool) (path : List ℕ) (rel : Option (List ℕ))
      (n : Node) (s : Progress)
      → length s.found ≤ q.most_results
      → Adds q.most_results (matches q match utf8 path rel n) s (walk q match utf8 path rel n s)
  walk-Adds q match utf8 path rel (failed name) s small = Adds-nil q.most_results s small
  walk-Adds q match utf8 path rel (file f) s small =
      turn-Adds q.most_results _ s _ (tick s.left) refl small (
        choice-Adds q.most_results _ (passed_over q rel f.name)
          (search_file q match utf8 path (rel_text rel) f)
          (search_file-Adds q match utf8 path (rel_text rel) f))
  walk-Adds q match utf8 path rel (folder name inner) s small =
      turn-Adds q.most_results _ s _ (tick s.left) refl small (
        choice-Adds q.most_results _ (passed_over q rel name) (walk_all q match utf8 path rel inner)
          (walk_all-Adds q match utf8 path rel inner))

  walk_all-Adds :
      (q : Query) (match : Matcher) (utf8 : List ℕ → Bool) (path : List ℕ) (rel : Option (List ℕ))
      (ns : Nodes) (s : Progress)
      → length s.found ≤ q.most_results
      → Adds q.most_results
          (matches_all q match utf8 path rel ns)
          s
          (walk_all q match utf8 path rel ns s)
  walk_all-Adds q match utf8 path rel no_more s small = Adds-nil q.most_results s small
  walk_all-Adds q match utf8 path rel (and_more n ns) s small =
      Adds-and_then q.most_results _ _ s _ (walk_all q match utf8 path rel ns)
        (walk-Adds q match utf8 (join path (name_of n)) (some (join_rel rel (name_of n))) n s small)
        (walk_all-Adds q match utf8 path rel ns)

-- What a walk from nothing gives, where nothing ends it, and in any case.
result_of :
    (most : ℕ) (ms : List Match) (ends : Option ℕ) (r : Flow × Progress)
    → Adds most ms (record { found = []; left = ends }) r
    → (length r.1.found ≤ most)
      × ((rest : List Match) × (ms ≡ r.1.found ++ rest))
      × (ends ≡ none → r.1.found ≡ take most ms)
result_of most ms ends r (all t found small left) = (
  small,
  ([], sym found ∙ sym (append-nil t.found)),
  λ e. found ∙ sym (take-of_length_le most ms (subst (λ xs. length xs ≤ most) found small)),
)
result_of most ms ends r (full t rest found whole) = (
  omega (arith, whole),
  (rest, found),
  λ e. sym (
      ap (take most) found
      ∙ ap (λ n. take n (t.found ++ rest)) (sym whole)
      ∙ take-length-append t.found rest),
)
result_of most ms ends r (cut t rest found small ended) =
    (small, (rest, found), λ e. absurd (ended e))

-- A search finds the matches of the tree in the order of the walk: a front of them, never more than
-- the most that the query allows, wherever the context ends; and where it does not end, all of them
-- up to that number.
pub run_lem :
    (lib : Library) (q : Query) (match : Matcher) (tree : Node) (ends : Option ℕ) (timed_out : Bool)
    → let found = (run lib q match tree ends timed_out).results in
      let ms = matches q match lib.utf8_valid q.root none tree in
      (length found ≤ q.most_results)
      × ((rest : List Match) × (ms ≡ found ++ rest))
      × ((run lib q match tree none timed_out).results ≡ take q.most_results ms)
unfolding run
run_lem lib q match tree ends timed_out =
    let ms = matches q match lib.utf8_valid q.root none tree in
    let walked = λ (left : Option ℕ). result_of q.most_results ms left _ (
      walk-Adds q match lib.utf8_valid q.root none tree (record { found = []; left = left })
        (omega arith)) in
    let (small, front, _) = walked ends in (small, front, (walked none).2 refl)
