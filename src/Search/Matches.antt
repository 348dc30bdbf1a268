-- ===== src/Search/Matches.antt =====
-- All the matches of a file tree, for the search of internal/searchmgr/manager.go, and what it is for a
-- part of the walk to add those of its part.
use open_remote_commander.Prelude.{
  ℕ, suc, ◌≤◌, ◌≡◌, refl, sym, ap, ◌∙◌, Bool, true, List, [], ◌∷◌, ◌++◌, append-nil, append_assoc,
  arith, Option, none, some, length, leb, if◌then◌else◌,
}
use open_remote_commander.Search.{Query, Match, content, files, Matcher}
use open_remote_commander.Search.Walk.{
  File, Node, file, folder, failed, Nodes, no_more, and_more, Flow, goes_on, enough, stopped,
  Progress, split_lines, line_match, name_match, readable, is_symlink, join, join_rel, rel_text,
  passed_over, and_then, name_of,
}

abbrev pub line_matches : List ℕ → ℕ → List ℕ → Option ℕ → List Match
line_matches path i l none = []
line_matches path i l (some idx) = line_match path i l idx ∷ []

abbrev pub name_matches : List ℕ → Option ℕ → List Match
name_matches path none = []
name_matches path (some idx) = name_match path idx ∷ []

module _ (q : Query) (match : Matcher) (utf8 : List ℕ → Bool) where
  -- All the matches of the lines, of a file, of a tree, in the order of the walk.
  unfoldable pub lines_matches : List ℕ → ℕ → List (List ℕ) → List Match
  lines_matches path i [] = []
  lines_matches path i (l ∷ ls) = line_matches path i l (match l) ++ lines_matches path (suc i) ls

  abbrev pub data_matches : List ℕ → Option (List ℕ) → List Match
  data_matches path none = []
  data_matches path (some bs) = lines_matches path 0 (split_lines bs)

  unfoldable pub file_matches : List ℕ → List ℕ → File → List Match
  file_matches path rel f = if is_symlink f.mode then [] else elim q.kind [
    | files ↦ name_matches path (match rel)
    | content ↦ data_matches path (readable q match utf8 f)
  ]

unfoldable mutual
  unfolding file_matches

  pub matches : Query → Matcher → (List ℕ → Bool) → List ℕ → Option (List ℕ) → Node → List Match
  matches q match utf8 path rel (failed name) = []
  matches q match utf8 path rel (file f) =
      if passed_over q rel f.name then [] else file_matches q match utf8 path (rel_text rel) f
  matches q match utf8 path rel (folder name inner) =
      let below = matches_all q match utf8 path rel inner in
      if passed_over q rel name then [] else below

  pub matches_all :
      Query → Matcher → (List ℕ → Bool) → List ℕ → Option (List ℕ) → Nodes → List Match
  matches_all q match utf8 path rel no_more = []
  matches_all q match utf8 path rel (and_more n ns) =
      matches q match utf8 (join path (name_of n)) (some (join_rel rel (name_of n))) n
      ++ matches_all q match utf8 path rel ns

-- A part of the walk goes on with all the matches of that part added, or it ends with the first of
-- them added, as many as there may be unless the context has ended.
pub data Adds (most : ℕ) (ms : List Match) (s : Progress) : Flow × Progress → Type 0 where
  all :
      (t : Progress)
      → t.found ≡ s.found ++ ms
      → length t.found ≤ most
      → (s.left ≡ none → t.left ≡ none)
      → Adds most ms s (goes_on, t)
  full :
      (t : Progress) (rest : List Match)
      → s.found ++ ms ≡ t.found ++ rest
      → length t.found ≡ most
      → Adds most ms s (enough, t)
  cut :
      (t : Progress) (rest : List Match)
      → s.found ++ ms ≡ t.found ++ rest
      → length t.found ≤ most
      → (s.left ≡ none → ⊥)
      → Adds most ms s (stopped, t)

longer : (s t r ms ns : List Match) → s ++ ms ≡ t ++ r → s ++ (ms ++ ns) ≡ t ++ (r ++ ns)
longer s t r ms ns h = sym (append_assoc s ms ns) ∙ ap (λ xs. xs ++ ns) h ∙ append_assoc t r ns

behind : (s t ms ns r : List Match) → t ≡ s ++ ms → t ++ ns ≡ r → s ++ (ms ++ ns) ≡ r
behind s t ms ns r e h = sym (append_assoc s ms ns) ∙ ap (λ xs. xs ++ ns) (sym e) ∙ h

pub Adds-behind :
    (most : ℕ) (ms ns : List Match) (s t : Progress) (r : Flow × Progress)
    → t.found ≡ s.found ++ ms
    → (s.left ≡ none → t.left ≡ none)
    → Adds most ns t r
    → Adds most (ms ++ ns) s r
Adds-behind most ms ns s t r found left (all u e small on) =
    all u (e ∙ sym (behind s.found t.found ms ns (t.found ++ ns) found refl)) small
      (λ h. on (left h))
Adds-behind most ms ns s t r found left (full u rest e whole) =
    full u rest (behind s.found t.found ms ns (u.found ++ rest) found e) whole
Adds-behind most ms ns s t r found left (cut u rest e small ended) =
    cut u rest (behind s.found t.found ms ns (u.found ++ rest) found e) small (λ h. ended (left h))

-- Two parts, one after the other.
pub Adds-and_then :
    (most : ℕ) (ms ns : List Match) (s : Progress) (r : Flow × Progress)
    (k : Progress → Flow × Progress)
    → Adds most ms s r
    → ((t : Progress) → length t.found ≤ most → Adds most ns t (k t))
    → Adds most (ms ++ ns) s (and_then r k)
Adds-and_then most ms ns s r k (all t found small left) next =
    Adds-behind most ms ns s t (k t) found left (next t small)
Adds-and_then most ms ns s r k (full t rest found whole) next =
    full t (rest ++ ns) (longer s.found t.found rest ms ns found) whole
Adds-and_then most ms ns s r k (cut t rest found small ended) next =
    cut t (rest ++ ns) (longer s.found t.found rest ms ns found) small ended

-- Nothing to add.
pub Adds-nil : (most : ℕ) (s : Progress) → length s.found ≤ most → Adds most [] s (goes_on, s)
Adds-nil most s small = all s (sym (append-nil s.found)) small (λ h. h)

pub Adds-full :
    (most : ℕ) (ms : List Match) (s : Progress)
    → length s.found ≤ most
    → leb most (length s.found) ≡ true
    → Adds most ms s (enough, s)
Adds-full most ms s small reached = full s ms refl (ground (arith, small, reached))
