-- ===== src/Control/Codes/Printed.antt =====
-- The code that `humanCode` makes and what `normalizeUserCode` makes of it.
use open_remote_commander.Prelude.{
  ℕ, zero, suc, ◌%◌, ◌⊎◌, ◌≡◌, refl, sym, ap, ◌∙◌, inl, inr, String, Bool, true, false, ◌&&◌, ◌||◌,
  List, [], ◌∷◌, ◌++◌, len, length, take, drop, take-append-drop, leb, ◌==◌, Bool-cases, trim_space,
  trim_left, trim_right, is_space, arith,
}
use Prim.Native.Char
use Prim.Native.Char.{Char, code}
use Prim.Native.String
use Prim.Native.String.append
use Prim.Native.String.len
use open_remote_commander.Control.Codes.{
  alphabet, char_at, letters, human_code, to_upper, without, normalize,
}

-- Each character passes the test.
every : (Char → Bool) → String → Bool
every p String.[] = true
every p (String.◌∷◌ c s) = p c && every p s

-- A capital or a digit.
abbrev pub is_letter : Char → Bool
is_letter c = (leb 48 (code c) && leb (code c) 57) || (leb 65 (code c) && leb (code c) 90)

abbrev pub is_printed : Char → Bool
is_printed c = is_letter c || code c == 45

module _ (p : Char → Bool) where
  char_at-every : (i : ℕ) (s : String) → p "A" ≡ true → every p s ≡ true → p (char_at i s) ≡ true
  unfolding char_at every
  char_at-every i String.[] h all = h
  char_at-every zero (String.◌∷◌ c s) h all = ground (arith, all)
  char_at-every (suc i) (String.◌∷◌ c s) h all = char_at-every i s h (ground (arith, all))

  every-append :
      (s t : String) → every p s ≡ true → every p t ≡ true → every p (String.◌++◌ s t) ≡ true
  unfolding every
  every-append String.[] t hs ht = rw (append.nil t) ht
  every-append (String.◌∷◌ c s) t hs ht =
      rw (append.cons c s t) (ground (arith, hs, every-append s t (ground (arith, hs)) ht))

  without_none :
      (n : ℕ) (s : String)
      → ((c : Char) → p c ≡ true → (code c == n) ≡ false)
      → every p s ≡ true
      → without n s ≡ s
  unfolding every without
  without_none n String.[] h all = refl
  without_none n (String.◌∷◌ c s) h all =
      let other : (code c == n) ≡ false = h c (ground (arith, all)) in
      rw other (ap (String.◌∷◌ c) (without_none n s h (ground (arith, all))))

alphabet_plain : every is_letter alphabet ≡ true
unfolding every
alphabet_plain = refl

every-letters : (r : List ℕ) → every is_letter (letters r) ≡ true
unfolding letters every
every-letters [] = refl
every-letters (n ∷ r) =
    let here : is_letter (char_at (n % 32) alphabet) ≡ true =
      char_at-every is_letter (n % 32) alphabet refl alphabet_plain in
    ground (arith, here, every-letters r)

weaken_every : (s : String) → every is_letter s ≡ true → every is_printed s ≡ true
unfolding every
weaken_every String.[] all = refl
weaken_every (String.◌∷◌ c s) all = ground (arith, all, weaken_every s (ground (arith, all)))

letters-append : (xs ys : List ℕ) → letters (xs ++ ys) ≡ String.◌++◌ (letters xs) (letters ys)
unfolding letters
letters-append [] ys = sym (append.nil (letters ys))
letters-append (n ∷ xs) ys =
    ap (String.◌∷◌ (char_at (n % 32) alphabet)) (letters-append xs ys)
    ∙ sym (append.cons (char_at (n % 32) alphabet) (letters xs) (letters ys))

without-append :
    (n : ℕ) (s t : String) → without n (String.◌++◌ s t) ≡ String.◌++◌ (without n s) (without n t)
unfolding without
without-append n String.[] t = rw (append.nil t) (sym (append.nil (without n t)))
without-append n (String.◌∷◌ c s) t = elim (Bool-cases (code c == n)) [
  | inl same ↦ rw (append.cons c s t, same) (without-append n s t)
  | inr other ↦
      rw (append.cons c s t, other)
        (ap (String.◌∷◌ c) (without-append n s t) ∙ sym (append.cons c (without n s) (without n t)))
]

not_space : (c : Char) → is_printed c ≡ true → is_space c ≡ false
unfolding is_space
not_space c h = ground (arith, h)

trim_right_printed : (s : String) → every is_printed s ≡ true → trim_right s ≡ s
unfolding every trim_right
trim_right_printed String.[] all = refl
trim_right_printed (String.◌∷◌ c s) all =
    rw (not_space c (ground (arith, all)), trim_right_printed s (ground (arith, all))) refl

trim_left_printed : (s : String) → every is_printed s ≡ true → trim_left s ≡ s
unfolding every trim_left
trim_left_printed String.[] all = refl
trim_left_printed (String.◌∷◌ c s) all = rw (not_space c (ground (arith, all))) refl

trim_printed : (s : String) → every is_printed s ≡ true → trim_space s ≡ s
unfolding trim_space
trim_printed s all = ap trim_left (trim_right_printed s all) ∙ trim_left_printed s all

-- unicode.ToUpper leaves capitals, digits and the dash as they are.
abbrev pub KeepsPrinted : (Char → Char) → Type 0
KeepsPrinted upper = (c : Char) → is_printed c ≡ true → upper c ≡ c

upper_printed :
    (upper : Char → Char) (s : String)
    → KeepsPrinted upper
    → every is_printed s ≡ true
    → to_upper upper s ≡ s
unfolding every to_upper
upper_printed upper String.[] keeps all = refl
upper_printed upper (String.◌∷◌ c s) keeps all =
    rw (keeps c (ground (arith, all)), upper_printed upper s keeps (ground (arith, all))) refl

dash_printed : every is_printed "-" ≡ true
unfolding every
dash_printed = refl

alphabet_width : every (λ c. Prim.Native.Char.len_utf8 c == 1) alphabet ≡ true
unfolding every
alphabet_width = refl

len-letters : (r : List ℕ) → len (letters r) ≡ length r
unfolding letters
len-letters [] = refl
len-letters (n ∷ r) =
    let c = char_at (n % 32) alphabet in
    let one : (Prim.Native.Char.len_utf8 c == 1) ≡ true =
      char_at-every (λ c. Prim.Native.Char.len_utf8 c == 1) (n % 32) alphabet refl alphabet_width in
    ground (arith, len.cons c (letters r), one, len-letters r)

-- A letter is neither the dash nor a blank.
without-letters : (n : ℕ) (r : List ℕ) → n ≡ 45 ⊎ n ≡ 32 → without n (letters r) ≡ letters r
without-letters n r h =
    without_none is_letter n (letters r) (λ c k. ground (arith, h, k)) (every-letters r)

without_dash : (r : List ℕ) → without 45 (human_code r) ≡ letters r
unfolding human_code without
without_dash r =
    let front = letters (take 4 r) in
    let back = letters (drop 4 r) in
    rw
      (
        without-append 45 front (String.◌++◌ "-" back),
        without-letters 45 (take 4 r) (inl refl),
        append.cons "-" "" back,
        append.nil back,
        without-letters 45 (drop 4 r) (inl refl),
      )
      (sym (letters-append (take 4 r) (drop 4 r)) ∙ ap letters (take-append-drop 4 r))

pub shown_code :
    (upper : Char → Char) (r : List ℕ)
    → KeepsPrinted upper
    → to_upper upper (trim_space (human_code r)) ≡ human_code r
unfolding human_code
shown_code upper r keeps =
    ap (to_upper upper) (trim_printed (human_code r) printed)
    ∙ upper_printed upper (human_code r) keeps printed
  where
    half : (xs : List ℕ) → every is_printed (letters xs) ≡ true
    half xs = weaken_every (letters xs) (every-letters xs)

    printed : every is_printed (human_code r) ≡ true
    printed =
        every-append is_printed (letters (take 4 r)) (String.◌++◌ "-" (letters (drop 4 r)))
          (half (take 4 r))
          (every-append is_printed "-" (letters (drop 4 r)) dash_printed (half (drop 4 r)))

-- The user code of a pairing survives its way over a person: whatever is typed whose capitals, without
-- the blanks at its ends, are the code as it was shown, or that code without its dash, normalizes to
-- the eight letters of the code, and so does a text that is normalized already.
pub normalize-human_code :
    (upper : Char → Char) (r : List ℕ) (typed : String)
    → length r ≡ 8
    → KeepsPrinted upper
    → to_upper upper (trim_space typed) ≡ human_code r
      ⊎ to_upper upper (trim_space typed) ≡ letters r
    → (normalize upper typed ≡ letters r)
      × (normalize upper (letters r) ≡ letters r)
      × (len (letters r) ≡ 8)
unfolding normalize
normalize-human_code upper r typed eight keeps shown = (
  ap (without 32) (elim shown [
    | inl dashed ↦ ap (without 45) dashed ∙ without_dash r
    | inr plain ↦ ap (without 45) plain ∙ without-letters 45 r (inl refl)
  ])
      ∙ without-letters 32 r (inr refl),
  ap (without 32) (
        ap (without 45) (
          ap (to_upper upper) (trim_printed (letters r) printed)
          ∙ upper_printed upper (letters r) keeps printed)
        ∙ without-letters 45 r (inl refl))
      ∙ without-letters 32 r (inr refl),
  len-letters r ∙ eight,
)
  where
    printed : every is_printed (letters r) ≡ true
    printed = weaken_every (letters r) (every-letters r)
