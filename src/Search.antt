-- ===== src/Search.antt =====
-- internal/searchmgr/manager.go. Texts of files and paths are lists of bytes. The file tree that
-- filepath.WalkDir walks is data; its entries stand in the order of the walk. The context of a search
-- ends at one of the calls of the walk's function, or not during the walk: `ends`. What is Unicode's
-- (strings.ToLower, utf8.Valid), regexp's or filepath.Clean's is an argument.
pub mod Walk
pub mod Matches
pub mod Found
pub mod Paging
pub mod Counts
pub mod Active
pub mod Tests
use open_remote_commander.Prelude.{
  ℕ, zero, suc, ◌+◌, ◌-◌, ◌*◌, String, len, Bool, true, false, ◌&&◌, ◌||◌, not, List, [], ◌∷◌, ◌++◌,
  Option, none, some, Map, Result, ok, err, length, take, drop, get_elem?, ltb, leb, ◌==◌, str_eq,
  if◌then◌else◌, lookup, insert, delete, is_some, trim_space,
}
use open_remote_commander.Prelude.Int.{ℤ, pos, negsuc, pos_part}

pub data Error : Type 0 where
  not_found limit : Error
  invalid : String → Error

pub data SearchType : Type 0 where
  content files : SearchType

-- A request as it comes, and as Start leaves it.
pub record Request : Type 0 where
  pub path : List ℕ
  pub pattern : String
  pub search_type : String
  pub regex : Bool
  pub case_sensitive : Bool
  pub include_hidden : Bool
  pub max_results : ℤ
  pub max_file_bytes : ℤ

pub record Query : Type 0 where
  pub root : List ℕ
  pub kind : SearchType
  pub hidden : Bool
  pub most_results : ℕ
  pub most_bytes : ℕ

pub record Match : Type 0 where
  pub path : List ℕ
  pub line : ℕ
  pub column : ℕ
  pub preview : List ℕ
  pub kind : SearchType

pub record Session : Type 0 where
  pub results : List Match
  pub next : ℕ
  pub done : Bool
  pub error : Option String
  pub cancelled : Bool

-- `heap` holds the session objects, and `sessions` maps identifiers to positions in it.
pub record Manager : Type 0 where
  pub heap : List Session
  pub sessions : Map ℕ
  pub max_sessions : ℕ

abbrev pub new_session : Session
new_session = record { results = []; next = 0; done = false; error = none; cancelled = false }

-- maxSessions <= 0 is 8.
unfoldable pub new_manager : ℤ → Manager
new_manager n = record {
  heap = [];
  sessions = [];
  max_sessions = if pos_part n == 0 then 8 else pos_part n;
}

-- if n <= 0 { n = default }; if n > most { n = most }
unfoldable pub clamp : ℕ → ℕ → ℤ → ℕ
clamp default most n =
    let m = if pos_part n == 0 then default else pos_part n in if ltb most m then most else m

unfoldable pub search_type_of : String → Result Error SearchType
search_type_of s =
    if str_eq s "" || str_eq s "content"
    then ok content
    else if str_eq s "files"
    then ok files
    else err (invalid "search_type must be content or files")

-- What is found in a text: the index of the first match.
abbrev pub Matcher : Type 0
Matcher = List ℕ → Option ℕ

abbrev pub starts_with : List ℕ → List ℕ → Bool
starts_with s [] = true
starts_with [] (d ∷ p) = false
starts_with (c ∷ s) (d ∷ p) = c == d && starts_with s p

abbrev pub later : Option ℕ → Option ℕ
later none = none
later (some i) = some (suc i)

-- strings.Index
unfoldable pub index_of : List ℕ → List ℕ → Option ℕ
index_of needle [] = if starts_with [] needle then some 0 else none
index_of needle (c ∷ s) =
    let rest = index_of needle s in if starts_with (c ∷ s) needle then some 0 else later rest

-- literalMatcher.index
abbrev pub literal : (List ℕ → List ℕ) → List ℕ → Bool → Matcher
literal lower needle case_sensitive s = index_of needle (if case_sensitive then s else lower s)

-- What the packages outside give: the bytes of a text, regexp.Compile, strings.ToLower,
-- filepath.Clean, utf8.Valid and the random identifier.
pub record Library : Type 0 where
  pub bytes : String → List ℕ
  pub compile : Bool → String → Result Error Matcher
  pub lower : List ℕ → List ℕ
  pub clean : List ℕ → List ℕ
  pub utf8_valid : List ℕ → Bool
  pub random_id : Result Error String

unfoldable pub new_matcher : Library → String → Bool → Bool → Result Error Matcher
new_matcher lib pattern regex case_sensitive =
    if regex
    then lib.compile (not case_sensitive) pattern
    else let needle = lib.bytes pattern in
      ok (literal lib.lower (if case_sensitive then needle else lib.lower needle) case_sensitive)

unfoldable pub checked : Library → Request → Result Error (Query × Matcher)
checked lib q =
    let pattern = trim_space q.pattern in
    if str_eq pattern ""
    then err (invalid "search pattern is required")
    else elim (search_type_of q.search_type) [
      | err e ↦ err e
      | ok kind ↦ elim (new_matcher lib pattern q.regex q.case_sensitive) [
        | err e ↦ err e
        | ok match ↦ ok (
          record {
            root = lib.clean q.path;
            kind = kind;
            hidden = q.include_hidden;
            most_results = clamp 1000 5000 q.max_results;
            most_bytes = clamp (2 * 1048576) (16 * 1048576) q.max_file_bytes;
          },
          match,
        )
      ]
    ]

-- if !existing.done { active++ }
abbrev pub counted : Option Session → ℕ
counted none = 0
counted (some s) = if s.done then 0 else 1

unfoldable pub active_sessions : List Session → Map ℕ → ℕ
active_sessions heap [] = 0
active_sessions heap ((id, i) ∷ m) = counted (get_elem? heap i) + active_sessions heap m

-- Start, up to the goroutine that it starts with the query and the matcher.
unfoldable pub start :
    Library → Request → Manager → Result Error (String × Query × Matcher) × Manager
start lib q m = elim (checked lib q) [
  | err e ↦ (err e, m)
  | ok p ↦ elim lib.random_id [
    | err e ↦ (err e, m)
    | ok id ↦ if leb m.max_sessions (active_sessions m.heap m.sessions) then (err limit, m) else (
      ok (id, p.0, p.1),
      record m {
        heap = m.heap ++ new_session ∷ [];
        sessions = insert id (length m.heap) m.sessions;
      },
    )
  ]
]

-- The timer's function, fifteen minutes later.
unfoldable pub expire : ℕ → String → Manager → Manager
expire i id m = record m {
  sessions = elim (lookup id m.sessions) [
    | none ↦ m.sessions
    | some j ↦ if j == i then delete id m.sessions else m.sessions
  ];
}

pub record MoreResult : Type 0 where
  pub results : List Match
  pub done : Bool
  pub error : Option String
  pub total_found : ℕ

-- GetMore on the session that it finds.
unfoldable pub more : ℤ → Session → MoreResult × Session
more n s =
    let wanted = s.next + clamp 100 500 n in
    let end = if ltb (length s.results) wanted then length s.results else wanted in
    (
      record {
        results = drop s.next (take end s.results);
        done = s.done && leb (length s.results) end;
        error = s.error;
        total_found = length s.results;
      },
      record s { next = end },
    )

unfoldable pub modify : ℕ → (Session → Session) → List Session → List Session
modify i f [] = []
modify zero f (s ∷ ss) = f s ∷ ss
modify (suc i) f (s ∷ ss) = s ∷ modify i f ss

-- The session that an identifier stands for.
unfoldable pub find : String → Manager → Option (ℕ × Session)
find id m = elim (lookup id m.sessions) [
  | none ↦ none
  | some i ↦ elim (get_elem? m.heap i) [ none ↦ none | some s ↦ some (i, s) ]
]

unfoldable pub get_more : String → ℤ → Manager → Result Error MoreResult × Manager
get_more id n m = elim (find id m) [
  | none ↦ (err not_found, m)
  | some p ↦ (ok (more n p.1).0, record m { heap = modify p.0 (λ s. (more n s).1) m.heap })
]

unfoldable pub stop : String → Manager → Result Error (Unit {0}) × Manager
stop id m = elim (find id m) [
  | none ↦ (err not_found, m)
  | some p ↦ (ok tt, record m { heap = modify p.0 (λ s. record s { cancelled = true }) m.heap })
]

pub record Summary : Type 0 where
  pub session_id : String
  pub done : Bool
  pub buffered : ℕ
  pub returned : ℕ
  pub total_found : ℕ

unfoldable pub summaries : List Session → Map ℕ → List Summary
summaries heap [] = []
summaries heap ((id, i) ∷ m) =
    let rest = summaries heap m in
    elim (get_elem? heap i) [
      | none ↦ rest
      | some s ↦
          record {
            session_id = id;
            done = s.done;
            buffered = length s.results - s.next;
            returned = s.next;
            total_found = length s.results;
          }
          ∷ rest
    ]
