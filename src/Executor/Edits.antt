-- ===== src/Executor/Edits.antt =====
-- bytes.Count and bytes.ReplaceAll of a separator that is not empty, in one pass from the left. The
-- number says how many bytes of the last match are still to be passed over.
pub mod Pieces
use open_remote_commander.Prelude.{
  ℕ, zero, suc, ◌-◌, Bool, true, false, ◌&&◌, List, [], ◌∷◌, ◌++◌, length, ◌==◌, if◌then◌else◌,
}

unfoldable pub starts_with : List ℕ → List ℕ → Bool
starts_with s [] = true
starts_with [] (b ∷ p) = false
starts_with (a ∷ s) (b ∷ p) = a == b && starts_with s p

module _ (old : List ℕ) where
  unfoldable pub count_from : ℕ → List ℕ → ℕ
  unfolding starts_with
  count_from passed [] = 0
  count_from (suc passed) (b ∷ s) = count_from passed s
  count_from zero (b ∷ s) =
      let found = suc (count_from (length old - 1) s) in
      let rest = count_from 0 s in if starts_with (b ∷ s) old then found else rest

  abbrev pub count : List ℕ → ℕ
  count = count_from 0

  module _ (new : List ℕ) where
    unfoldable pub replace_from : ℕ → List ℕ → List ℕ
    unfolding starts_with
    replace_from passed [] = []
    replace_from (suc passed) (b ∷ s) = replace_from passed s
    replace_from zero (b ∷ s) =
        let found = new ++ replace_from (length old - 1) s in
        let rest = b ∷ replace_from 0 s in if starts_with (b ∷ s) old then found else rest

    abbrev pub replace_all : List ℕ → List ℕ
    replace_all = replace_from 0
