-- ===== src/Process/Command.antt =====
-- The request of `Manager.Start` and the command that is built from it: `commandFor`, and the
-- checks on the environment, in internal/processmgr/manager.go.
pub mod Allowed
use Prim.Native.String.{compare, ◌++◌ as str_append}
use text.Mathlib.Text.{is_le}
use open_remote_commander.Prelude.{
  ℕ, ◌*◌, String, Bool, true, false, ◌||◌, not, List, [], ◌∷◌, ◌++◌, Option, none, some, Map,
  Result, ok, ◌>>=◌, ◌>>◌, fail_if, length, len, ltb, str_eq, contains_char, trim_space,
  if◌then◌else◌, map, lookup,
}

pub data Error : Type 0 where
  not_found limit : Error
  failed : String → Error

pub record StartRequest : Type 0 where
  pub argv : List String
  pub command : String
  pub cwd : String
  pub env : Map String

-- *exec.Cmd: `env` is none where the child inherits the agent's environment.
pub record Cmd : Type 0 where
  pub argv : List String
  pub dir : String
  pub env : Option (List String)

-- What the operating system answers: the platform, the agent's own environment, the random
-- identifier, the stdin pipe and the start of the command, which gives the pid.
pub record Os : Type 0 where
  pub windows : Bool
  pub environ : List String
  pub random_id : Result Error String
  pub stdin_pipe : Result Error (Unit {0})
  pub start : Cmd → Result Error ℕ

abbrev pub max_argv : ℕ
max_argv = 128

abbrev pub max_arg_bytes : ℕ
max_arg_bytes = 64 * 1024

abbrev pub max_command_bytes : ℕ
max_command_bytes = 128 * 1024

abbrev pub bad_arg : String → Bool
bad_arg a = contains_char 0 a || ltb max_arg_bytes (len a)

pub any_text : (String → Bool) → List String → Bool
any_text bad [] = false
any_text bad (a ∷ rest) = bad a || any_text bad rest

abbrev pub is_empty {ℓ} : {A : Type ℓ} → List A → Bool
is_empty [] = true
is_empty (x ∷ xs) = false

plain : List String → Cmd
plain argv = record { argv = argv; dir = ""; env = none }

shell : Bool → String → Cmd
unfolding plain
shell windows command = plain (
    if windows
    then "cmd.exe" ∷ "/D" ∷ "/S" ∷ "/C" ∷ command ∷ []
    else "/bin/sh" ∷ "-lc" ∷ command ∷ [])

unfoldable pub command_for : Bool → StartRequest → Bool → Result Error Cmd
unfolding shell any_text
command_for windows req allow_shell =
    if not (is_empty req.argv)
    then (do
      fail_if (ltb max_argv (length req.argv)) (failed "too many argv entries")
      fail_if (any_text bad_arg req.argv) (failed "invalid argv")
      ok (plain req.argv))
    else (do
      fail_if (str_eq (trim_space req.command) "") (failed "argv or command is required")
      fail_if (not allow_shell) (failed "shell commands are disabled; use argv")
      fail_if (ltb max_command_bytes (len req.command)) (failed "command exceeds 128KiB")
      ok (shell windows req.command))

abbrev pub bad_name : String → Bool
bad_name k = contains_char b'=' k || contains_char 0 k || ltb 256 (len k)

abbrev pub bad_value : String → Bool
bad_value v = contains_char 0 v || ltb (32 * 1024) (len v)

-- sort.Strings
insert_sorted : String → List String → List String
insert_sorted k [] = k ∷ []
insert_sorted k (j ∷ js) = if is_le (compare k j) then k ∷ j ∷ js else j ∷ insert_sorted k js

sort_texts : List String → List String
unfolding insert_sorted
sort_texts [] = []
sort_texts (k ∷ ks) = insert_sorted k (sort_texts ks)

-- req.Env[k], the zero value for a missing key.
value_of : Map String → String → String
value_of env k = elim (lookup k env) [ none ↦ "" | some v ↦ v ]

env_entries : Map String → List String → Result Error (List String)
unfolding value_of
env_entries env [] = ok []
env_entries env (k ∷ ks) = do
  fail_if (bad_value (value_of env k)) (failed "invalid environment variable value")
  rest ← env_entries env ks
  ok (str_append k (str_append "=" (value_of env k)) ∷ rest)

unfoldable pub with_env : List String → Map String → Cmd → Result Error Cmd
unfolding any_text sort_texts env_entries
with_env environ env cmd =
    let keys = map (λ (e : String × String). e.0) env in
    if is_empty env then ok cmd else (do
      fail_if (any_text bad_name keys) (failed "invalid environment variable name")
      fail_if (ltb 64 (length keys)) (failed "too many environment overrides")
      entries ← env_entries env (sort_texts keys)
      ok (record cmd { env = some (environ ++ entries) }))
