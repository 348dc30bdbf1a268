-- ===== src/Search/Tests.antt =====
-- Runs of the searches of internal/searchmgr/manager.go.
use Prim.Native.Char.{code}
use open_remote_commander.Prelude.{
  ℕ, ◌≡◌, ◌≤◌, refl, true, false, List, [], ◌∷◌, ◌++◌, none, some, ok, err, length, take, String,
  trim_space, trim_left, trim_right, is_space, insert,
}
use open_remote_commander.Prelude.Int.{pos, negsuc}
use open_remote_commander.Search.{
  invalid, limit, content, Request, Query, Match, Manager, Library, Matcher, literal, index_of,
  new_manager, new_session, clamp, search_type_of, new_matcher, checked, active_sessions, start,
  more,
}
use open_remote_commander.Search.Walk.{
  File, regular, Node, file, folder, no_more, and_more, is_hidden, has_zero, split_lines,
  search_lines, readable, search_file, walk, walk_all, run, line_match,
}
use open_remote_commander.Search.Matches.{matches}
use open_remote_commander.Search.Found.{run_lem}
use open_remote_commander.Search.Paging.{Event, adds, ends, asks, history, pages_lem, done_complete}

abbrev codes : String → List ℕ
codes String.[] = []
codes (String.◌∷◌ c s) = code c ∷ codes s

abbrev a_library : Library
a_library = record {
  bytes = codes;
  compile = λ folds p. err (invalid "no regular expressions");
  lower = λ s. s;
  clean = λ p. p;
  utf8_valid = λ bs. true;
  random_id = ok "search_1";
}

abbrev a_file : String → String → File
a_file name text = record {
  name = codes name;
  mode = regular;
  size = some 9;
  data_ = some (codes text);
}

abbrev a_tree : Node
a_tree = folder (codes "p") (
    and_more (file (a_file "a" "foo\nx\n foo"))
      (and_more (file (a_file ".b" "foo")) (and_more (file (a_file "c" "foo")) no_more)))

abbrev a_query : ℕ → Query
a_query most = record {
  root = codes "/p";
  kind = content;
  hidden = false;
  most_results = most;
  most_bytes = 100;
}

abbrev foo : Matcher
foo = literal (λ s. s) (codes "foo") true

abbrev in_a : Match
in_a = line_match (codes "/p/a") 0 (codes "foo") 0

abbrev in_a_again : Match
in_a_again = line_match (codes "/p/a") 2 (codes " foo") 1

abbrev in_c : Match
in_c = line_match (codes "/p/c") 0 (codes "foo") 0

finds_all :
    (run a_library (a_query 9) foo a_tree none false).results ≡ in_a ∷ in_a_again ∷ in_c ∷ []
unfolding run walk walk_all search_file readable has_zero split_lines search_lines is_hidden
    index_of
finds_all = refl

finds_two : (run a_library (a_query 2) foo a_tree none false).results ≡ in_a ∷ in_a_again ∷ []
unfolding run walk walk_all search_file readable has_zero split_lines search_lines is_hidden
    index_of
finds_two = refl

-- The context ends before the fourth call, for "c".
stops_early : (run a_library (a_query 9) foo a_tree (some 3) true).results ≡ in_a ∷ in_a_again ∷ []
unfolding run walk walk_all search_file readable has_zero split_lines search_lines is_hidden
    index_of
stops_early = refl

clamps : clamp 1000 5000 (negsuc 3) ≡ 1000
unfolding clamp
clamps = refl

abbrev a_request : String → Request
a_request pattern = record {
  path = codes "/p";
  pattern = pattern;
  search_type = "";
  regex = false;
  case_sensitive = true;
  include_hidden = false;
  max_results = pos 0;
  max_file_bytes = pos 0;
}

refuses_blank :
    (start a_library (a_request "  ") (new_manager (pos 1))).0
    ≡ err (invalid "search pattern is required")
unfolding start checked trim_space trim_left trim_right is_space
refuses_blank = refl

abbrev busy : Manager
busy = (start a_library (a_request "foo") (new_manager (pos 1))).1

refuses_second : (start a_library (a_request "foo") busy).0 ≡ err limit
unfolding start checked new_manager search_type_of new_matcher active_sessions insert trim_space
    trim_left trim_right is_space
refuses_second = refl

abbrev some_events : List Event
some_events = adds in_a ∷ adds in_c ∷ asks (pos 1) ∷ ends none ∷ []

run_lem_example :
    (length (run a_library (a_query 2) foo a_tree (some 2) true).results ≤ 2)
    × ((rest : List Match) × (matches (a_query 2) foo a_library.utf8_valid (codes "/p") none a_tree
          ≡ (run a_library (a_query 2) foo a_tree (some 2) true).results ++ rest))
    × ((run a_library (a_query 2) foo a_tree none true).results
        ≡ take 2 (matches (a_query 2) foo a_library.utf8_valid (codes "/p") none a_tree))
run_lem_example = run_lem a_library (a_query 2) foo a_tree (some 2) true

pages_lem_example : (history some_events new_session).0 ≡ in_a ∷ []
unfolding history more clamp
pages_lem_example = pages_lem some_events

done_complete_example :
    ((history some_events new_session).1.done ≡ true)
    × ((history some_events new_session).0
          ++ (more (pos 0) (history some_events new_session).1).0.results
        ≡ in_a ∷ in_c ∷ [])
unfolding history more clamp
done_complete_example = done_complete some_events (pos 0) refl
