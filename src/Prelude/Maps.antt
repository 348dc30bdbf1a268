-- ===== src/Prelude/Maps.antt =====
-- Go maps with string keys, as association lists that hold each key at most once.
use Prim.Native.Nat.{◌≤◌}
use Prim.Native.String.{String}
use mathlib.Core.Path.{◌≡◌, refl, subst, subst₂}
use mathlib.Core.List.{List, [], ◌∷◌}
use mathlib.Core.Logic.{inl, inr}
use mathlib.Core.Bool.{true, false}
use mathlib.Core.Option.{Option, none, some, some-injective}
use native.Mathlib.Omega.{arith}
use text.Mathlib.TextEquality.{eq_iff}
use open_remote_commander.Prelude.Tests.{str_eq, if◌then◌else◌, Bool-cases}
use open_remote_commander.Prelude.Lists.{length, All}

abbrev pub Map {ℓ} : Type ℓ → Type ℓ
Map V = List (String × V)

module _ {ℓ} {V : Type ℓ} where
  -- delete(m, gone)
  unfoldable pub delete : String → Map V → Map V
  delete gone ((key, value) ∷ entries) =
      let kept = delete gone entries in if str_eq key gone then kept else (key, value) ∷ kept
  delete gone [] = []

  -- m[wanted], with ok
  unfoldable pub lookup : String → Map V → Option V
  lookup wanted ((key, value) ∷ entries) =
      if str_eq key wanted then some value else lookup wanted entries
  lookup wanted [] = none

  -- m[new] = value
  unfoldable pub insert : String → V → Map V → Map V
  insert new value ((key, old) ∷ entries) =
      if str_eq key new then (new, value) ∷ entries else (key, old) ∷ insert new value entries
  insert new value [] = (new, value) ∷ []

  pub lookup-nil : (k : String) → lookup k [] ≡ none
  unfolding lookup
  lookup-nil k = refl

  pub lookup-delete :
      (k j : String) (m : Map V) → lookup j (delete k m) ≡ (if str_eq k j then none else lookup j m)
  unfolding delete lookup
  lookup-delete k j [] = ground arith
  lookup-delete k j ((i, w) ∷ m) =
      ground (arith, lookup-delete k j m, eq_iff i j, eq_iff i k, eq_iff k j)

  pub lookup-insert :
      (new wanted : String) (value : V) (entries : Map V)
      → lookup wanted (insert new value entries)
        ≡ (if str_eq new wanted then some value else lookup wanted entries)
  unfolding insert lookup
  lookup-insert new wanted value ((key, old) ∷ entries) = ground (
    arith,
    lookup-insert new wanted value entries,
    eq_iff key wanted,
    eq_iff key new,
    eq_iff new wanted,
  )
  lookup-insert new wanted value [] = refl

  pub length-delete-le : (k : String) (m : Map V) → length (delete k m) ≤ length m
  unfolding delete
  length-delete-le k [] = omega arith
  length-delete-le k ((i, w) ∷ m) = ground (arith, length-delete-le k m)

pub str_eq_self : (s : String) → str_eq s s ≡ true
str_eq_self s = (eq_iff s s).1 refl

pub lookup-delete_self {ℓ} : {V : Type ℓ} (k : String) (m : Map V) → lookup k (delete k m) ≡ none
lookup-delete_self k m = rw (lookup-delete k k m, str_eq_self k)

pub str_eq_of_ne : (s t : String) → (s ≡ t → ⊥) → str_eq s t ≡ false
str_eq_of_ne s t h = elim (Bool-cases (str_eq s t)) [
  | inl e ↦ absurd (h ((eq_iff s t).0 e))
  | inr e ↦ e
]

pub lookup-insert_self {ℓ} :
    {V : Type ℓ} (k : String) (v : V) (m : Map V) → lookup k (insert k v m) ≡ some v
lookup-insert_self k v m = rw (lookup-insert k k v m, str_eq_self k)

-- Each key occurs once.
abbrev pub Distinct {ℓ} : {V : Type ℓ} → Map V → Type ℓ
Distinct [] = Unit
Distinct ((k, v) ∷ m) = (lookup k m ≡ none) × Distinct m

module _ {ℓ} {V : Type ℓ} where
  pub insert-Distinct : (k : String) (v : V) (m : Map V) → Distinct m → Distinct (insert k v m)
  unfolding insert
  insert-Distinct k v [] h = (lookup-nil k, tt)
  insert-Distinct k v ((j, w) ∷ m) h = elim (Bool-cases (str_eq j k)) [
    | inl same ↦ rw same (subst (λ i. lookup i m ≡ none) ((eq_iff j k).0 same) h.0, h.1)
    | inr other ↦ rw other (
      ground (arith, lookup-insert k j v m, h, eq_iff j k, eq_iff k j),
      insert-Distinct k v m h.1,
    )
  ]

-- A predicate of every entry of a map.
module _ {ℓ κ} {V : Type ℓ} (P : String × V → Type κ) where
  pub All-insert : (k : String) (v : V) (m : Map V) → P (k, v) → All P m → All P (insert k v m)
  unfolding insert
  All-insert k v [] new old = (new, tt)
  All-insert k v ((j, w) ∷ m) new old = elim (Bool-cases (str_eq j k)) [
    | inl same ↦ rw same (new, old.1)
    | inr other ↦ rw other (old.0, All-insert k v m new old.1)
  ]

  pub All-delete : (k : String) (m : Map V) → All P m → All P (delete k m)
  unfolding delete
  All-delete k [] old = tt
  All-delete k ((j, w) ∷ m) old = elim (Bool-cases (str_eq j k)) [
    | inl same ↦ rw same (All-delete k m old.1)
    | inr other ↦ rw other (old.0, All-delete k m old.1)
  ]

  pub All-lookup : (k : String) (v : V) (m : Map V) → All P m → lookup k m ≡ some v → P (k, v)
  unfolding lookup
  All-lookup k v [] all = λ h. cc h
  All-lookup k v ((j, w) ∷ m) all = elim (Bool-cases (str_eq j k)) [
    | inl same ↦
        rw same λ h. subst₂ (λ i x. P (i, x)) ((eq_iff j k).0 same) (some-injective w v h) all.0
    | inr other ↦ rw other λ h. All-lookup k v m all.1 h
  ]
