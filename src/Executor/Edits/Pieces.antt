-- ===== src/Executor/Edits/Pieces.antt =====
-- Counting and replacing against their meaning: the text is cut into pieces at the occurrences.
use open_remote_commander.Prelude.{
  ℕ, zero, suc, ◌-◌, ◌≡◌, refl, sym, ap, ◌∙◌, subst, inl, inr, true, false, List, [], ◌∷◌, ◌++◌,
  append-nil, length, drop, if◌then◌else◌, Bool-cases, arith, All,
}
use open_remote_commander.Executor.Edits.{starts_with, count_from, count, replace_from, replace_all}

-- The pieces with the separator between them.
unfoldable pub join : List ℕ → List (List ℕ) → List ℕ
join sep [] = []
join sep (p ∷ []) = p
join sep (p ∷ q ∷ ps) = p ++ (sep ++ join sep (q ∷ ps))

abbrev onto_first : ℕ → List (List ℕ) → List (List ℕ)
onto_first c [] = (c ∷ []) ∷ []
onto_first c (l ∷ ls) = (c ∷ l) ∷ ls

starts_with-drop : (s p : List ℕ) → starts_with s p ≡ true → s ≡ p ++ drop (length p) s
unfolding starts_with
starts_with-drop s [] h = refl
starts_with-drop [] (b ∷ p) h = cc
starts_with-drop (a ∷ s) (b ∷ p) h = ground (arith, starts_with-drop s p)

starts_with-append : (s t p : List ℕ) → starts_with s p ≡ true → starts_with (s ++ t) p ≡ true
unfolding starts_with
starts_with-append s t [] h = refl
starts_with-append [] t (b ∷ p) h = cc
starts_with-append (a ∷ s) t (b ∷ p) h = ground (arith, starts_with-append s t p)

module _ (o : ℕ) (ld : List ℕ) where
  abbrev old : List ℕ
  old = o ∷ ld

  split_from : ℕ → List ℕ → List (List ℕ)
  split_from passed [] = [] ∷ []
  split_from (suc passed) (b ∷ s) = split_from passed s
  split_from zero (b ∷ s) =
      let found = [] ∷ split_from (length ld) s in
      let rest = onto_first b (split_from 0 s) in if starts_with (b ∷ s) old then found else rest

  split-ne-nil :
      (k : ℕ) (s : List ℕ) → (p : List ℕ) × (ps : List (List ℕ)) × (split_from k s ≡ p ∷ ps)
  unfolding split_from
  split-ne-nil zero [] = ([], [], refl)
  split-ne-nil (suc k) [] = ([], [], refl)
  split-ne-nil (suc k) (b ∷ s) = split-ne-nil k s
  split-ne-nil zero (b ∷ s) = elim (Bool-cases (starts_with (b ∷ s) old)) [
    | inl hit ↦ ([], split_from (length ld) s, rw hit)
    | inr miss ↦ let (p, ps, e) = split-ne-nil 0 s in (b ∷ p, ps, rw (miss, e))
  ]

  one_less : length old - 1 ≡ length ld
  one_less = omega arith

  length-split : (k : ℕ) (s : List ℕ) → length (split_from k s) ≡ suc (count_from old k s)
  unfolding split_from count_from
  length-split zero [] = refl
  length-split (suc k) [] = refl
  length-split (suc k) (b ∷ s) = length-split k s
  length-split zero (b ∷ s) = elim (Bool-cases (starts_with (b ∷ s) old)) [
    | inl hit ↦ rw (hit, one_less) (ap suc (length-split (length ld) s))
    | inr miss ↦
        let (p, ps, e) = split-ne-nil 0 s in rw (miss, e) (sym (ap length e) ∙ length-split 0 s)
  ]

  join-cons :
      (sep : List ℕ) (k : ℕ) (s : List ℕ)
      → join sep ([] ∷ split_from k s) ≡ sep ++ join sep (split_from k s)
  unfolding join
  join-cons sep k s = let (p, ps, e) = split-ne-nil k s in rw e

  join-onto_first :
      (sep : List ℕ) (b : ℕ) (s : List ℕ)
      → join sep (onto_first b (split_from 0 s)) ≡ b ∷ join sep (split_from 0 s)
  unfolding join
  join-onto_first sep b s = let (p, ps, e) = split-ne-nil 0 s in rw e (go p ps)
    where
      go : (p : List ℕ) (ps : List (List ℕ)) → join sep ((b ∷ p) ∷ ps) ≡ b ∷ join sep (p ∷ ps)
      go p [] = refl
      go p (q ∷ ps) = refl

  join-split : (k : ℕ) (s : List ℕ) → join old (split_from k s) ≡ drop k s
  unfolding split_from join
  join-split zero [] = refl
  join-split (suc k) [] = refl
  join-split (suc k) (b ∷ s) = join-split k s
  join-split zero (b ∷ s) = elim (Bool-cases (starts_with (b ∷ s) old)) [
    | inl hit ↦ rw hit (
        join-cons old (length ld) s
        ∙ ap (◌++◌ old) (join-split (length ld) s)
        ∙ sym (starts_with-drop (b ∷ s) old hit))
    | inr miss ↦ rw miss (join-onto_first old b s ∙ ap (◌∷◌ b) (join-split 0 s))
  ]

  join-replace :
      (new : List ℕ) (k : ℕ) (s : List ℕ) → join new (split_from k s) ≡ replace_from old new k s
  unfolding split_from join replace_from
  join-replace new zero [] = refl
  join-replace new (suc k) [] = refl
  join-replace new (suc k) (b ∷ s) = join-replace new k s
  join-replace new zero (b ∷ s) = elim (Bool-cases (starts_with (b ∷ s) old)) [
    | inl hit ↦
        rw (hit, one_less)
          (join-cons new (length ld) s ∙ ap (◌++◌ new) (join-replace new (length ld) s))
    | inr miss ↦ rw miss (join-onto_first new b s ∙ ap (◌∷◌ b) (join-replace new 0 s))
  ]

  -- The separator stands nowhere in the text.
  abbrev pub IsFree : List ℕ → Type 0
  IsFree [] = Unit
  IsFree (b ∷ s) = (starts_with (b ∷ s) old ≡ false) × IsFree s

  join-first : (p : List ℕ) (ps : List (List ℕ)) → (rest : List ℕ) × (join old (p ∷ ps) ≡ p ++ rest)
  unfolding join
  join-first p [] = ([], sym (append-nil p))
  join-first p (q ∷ ps) = (old ++ join old (q ∷ ps), refl)

  -- A piece in front of text that does not start with the separator does not start with it either.
  first-IsFree :
      (b : ℕ) (s p : List ℕ) (ps : List (List ℕ))
      → starts_with (b ∷ s) old ≡ false
      → split_from 0 s ≡ p ∷ ps
      → starts_with (b ∷ p) old ≡ false
  first-IsFree b s p ps miss e = elim (Bool-cases (starts_with (b ∷ p) old)) [
    | inr h ↦ h
    | inl hit ↦
        let (rest, f) = join-first p ps in
        let text : s ≡ p ++ rest = sym (join-split 0 s) ∙ ap (join old) e ∙ f in
        let again : starts_with (b ∷ s) old ≡ true =
          ap (λ t. starts_with (b ∷ t) old) text ∙ starts_with-append (b ∷ p) rest old hit in
        cc
  ]

  split-IsFree : (k : ℕ) (s : List ℕ) → All IsFree (split_from k s)
  unfolding split_from
  split-IsFree zero [] = (tt, tt)
  split-IsFree (suc k) [] = (tt, tt)
  split-IsFree (suc k) (b ∷ s) = split-IsFree k s
  split-IsFree zero (b ∷ s) = elim (Bool-cases (starts_with (b ∷ s) old)) [
    | inl hit ↦ rw hit (tt, split-IsFree (length ld) s)
    | inr miss ↦
        let (p, ps, e) = split-ne-nil 0 s in
        let ih = subst (All IsFree) e (split-IsFree 0 s) in
        rw (miss, e) ((first-IsFree b s p ps miss e, ih.0), ih.1)
  ]

-- What it means to replace `old` by `new` so many times: the text is pieces without `old`, joined by it,
-- and the result is the same pieces joined by `new`.
pub record Replaces (o : ℕ) (ld new text result : List ℕ) (times : ℕ) : Type 0 where
  pub pieces : List (List ℕ)
  pub before : text ≡ join (o ∷ ld) pieces
  pub after : result ≡ join new pieces
  pub cut : length pieces ≡ suc times
  pub free : All (IsFree o ld) pieces

pub replace_all-Replaces :
    (o : ℕ) (ld new text : List ℕ)
    → Replaces o ld new text (replace_all (o ∷ ld) new text) (count (o ∷ ld) text)
replace_all-Replaces o ld new text = record {
  pieces = split_from o ld 0 text;
  before = sym (join-split o ld 0 text);
  after = sym (join-replace o ld new 0 text);
  cut = length-split o ld 0 text;
  free = split-IsFree o ld 0 text;
}
