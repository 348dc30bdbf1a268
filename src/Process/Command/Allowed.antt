-- ===== src/Process/Command/Allowed.antt =====
-- What `commandFor` lets run.
use open_remote_commander.Prelude.{
  Map, if◌then◌else◌, ◌*◌, ◌≤◌, ◌≡◌, refl, ◌∙◌, ◌≢◌, ◌⊎◌, inl, inr, String, List, [], ◌∷◌, Bool,
  true, false, length, len, arith, All, ok, contains_char,
}
use open_remote_commander.Process.Command.{
  Cmd, StartRequest, command_for, with_env, any_text, is_empty, bad_arg,
}

-- An argument with no NUL byte, of at most 64 KiB.
abbrev pub IsPlain : String → Type 0
IsPlain a = (contains_char 0 a ≡ false) × (len a ≤ 64 * 1024)

any_text_none : (args : List String) → any_text bad_arg args ≡ false → All IsPlain args
unfolding any_text
any_text_none [] h = tt
any_text_none (a ∷ args) h = ((ground arith, ground arith), any_text_none args (ground arith))

-- The two ways in which a command may be built.
abbrev pub IsAllowed : Bool → StartRequest → Bool → Cmd → Type 0
IsAllowed windows req allow_shell cmd =
    ((cmd.argv ≡ req.argv) × (req.argv ≢ []) × (length req.argv ≤ 128) × All IsPlain req.argv)
    ⊎ ((allow_shell ≡ true)
        × (req.argv ≡ [])
        × (len req.command ≤ 128 * 1024)
        × (cmd.argv ≡ (
            if windows
            then "cmd.exe" ∷ "/D" ∷ "/S" ∷ "/C" ∷ req.command ∷ []
            else "/bin/sh" ∷ "-lc" ∷ req.command ∷ [])))

List-cases : (xs : List String) → (xs ≡ []) ⊎ (is_empty xs ≡ false)
List-cases [] = inl refl
List-cases (x ∷ xs) = inr refl

module _ (windows : Bool) (req : StartRequest) (allow_shell : Bool) (cmd : Cmd) where
  argv-IsAllowed :
      is_empty req.argv ≡ false
      → command_for windows req allow_shell ≡ ok cmd
      → IsAllowed windows req allow_shell cmd
  unfolding command_for
  argv-IsAllowed some_argv e =
      let good : any_text bad_arg req.argv ≡ false = ground arith in
      inl (ground arith, λ none_argv. ground arith, ground arith, any_text_none req.argv good)

  shell-IsAllowed :
      req.argv ≡ []
      → command_for windows req allow_shell ≡ ok cmd
      → IsAllowed windows req allow_shell cmd
  unfolding command_for
  shell-IsAllowed none_argv e = inr (ground arith, none_argv, ground arith, ground arith)

  pub command_for-IsAllowed :
      command_for windows req allow_shell ≡ ok cmd → IsAllowed windows req allow_shell cmd
  command_for-IsAllowed e = elim (List-cases req.argv) [
    | inl none_argv ↦ shell-IsAllowed none_argv e
    | inr some_argv ↦ argv-IsAllowed some_argv e
  ]

-- The environment checks change neither the command line nor the directory.
pub argv-with_env :
    (environ : List String) (env : Map String) (cmd out : Cmd)
    → with_env environ env cmd ≡ ok out
    → out.argv ≡ cmd.argv
unfolding with_env
argv-with_env environ env cmd out e = ground arith

pub IsAllowed-argv :
    (windows : Bool) (req : StartRequest) (allow_shell : Bool) (cmd out : Cmd)
    → out.argv ≡ cmd.argv
    → IsAllowed windows req allow_shell cmd
    → IsAllowed windows req allow_shell out
IsAllowed-argv windows req allow_shell cmd out e (inl (same, given, many, plain)) =
    inl (e ∙ same, given, many, plain)
IsAllowed-argv windows req allow_shell cmd out e (inr (shell, none_argv, size, same)) =
    inr (shell, none_argv, size, e ∙ same)
