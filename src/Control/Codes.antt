-- ===== src/Control/Codes.antt =====
-- `humanCode`, `normalizeUserCode` and strings.TrimRight(s, "/") of internal/controlplane/http.go.
pub mod Printed
use open_remote_commander.Prelude.{
  ℕ, zero, suc, ◌%◌, String, List, [], ◌∷◌, take, drop, ◌==◌, if◌then◌else◌, trim_space,
}
use Prim.Native.Char.{Char, code}
use Prim.Native.String

abbrev alphabet : String
alphabet = "ABCDEFGHJKLMNPQRSTUVWXYZ23456789"

-- s[i]; the code never asks beyond the end.
unfoldable pub char_at : ℕ → String → Char
char_at i String.[] = "A"
char_at zero (String.◌∷◌ c s) = c
char_at (suc i) (String.◌∷◌ c s) = char_at i s

-- for i := range b { b[i] = alphabet[int(r[i])%len(alphabet)] }
unfoldable pub letters : List ℕ → String
unfolding char_at
letters [] = String.[]
letters (n ∷ ns) = String.◌∷◌ (char_at (n % 32) alphabet) (letters ns)

-- humanCode, with the bytes that it reads.
unfoldable pub human_code : List ℕ → String
unfolding letters
human_code r = String.◌++◌ (letters (take 4 r)) (String.◌++◌ "-" (letters (drop 4 r)))

-- strings.ToUpper
unfoldable pub to_upper : (Char → Char) → String → String
to_upper upper String.[] = String.[]
to_upper upper (String.◌∷◌ c s) = String.◌∷◌ (upper c) (to_upper upper s)

-- strings.ReplaceAll(s, c, "") for a character given by its code.
unfoldable pub without : ℕ → String → String
without n String.[] = String.[]
without n (String.◌∷◌ c s) =
    let rest = without n s in if code c == n then rest else String.◌∷◌ c rest

unfoldable pub normalize : (Char → Char) → String → String
unfolding to_upper without
normalize upper s = without 32 (without 45 (to_upper upper (trim_space s)))

abbrev cons_unless_slash : Char → String → String
cons_unless_slash c String.[] = if code c == 47 then String.[] else String.◌∷◌ c String.[]
cons_unless_slash c s = String.◌∷◌ c s

-- strings.TrimRight(s, "/")
unfoldable pub trim_slashes : String → String
trim_slashes String.[] = String.[]
trim_slashes (String.◌∷◌ c s) = cons_unless_slash c (trim_slashes s)
