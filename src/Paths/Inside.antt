-- ===== src/Paths/Inside.antt =====
-- The test `allowed` and what ResolveExisting and ResolveForCreate give: a place below a root, with no
-- link on the way to it.
use mathlib.Core.List.{reverse, reverse-append, reverse-reverse}
use open_remote_commander.Prelude.{
  ◌≡◌, refl, sym, ap, subst, ◌∙◌, ◌↔◌, ◌≢◌, ◌⊎◌, inl, inr, String, Bool, true, false, not, List, [],
  ◌∷◌, ◌++◌, append_assoc, Result, ok, err, fail_if, fail_if-eq-ok, step_of, Bool-cases, str_eq,
  arith, eq_iff, trim_space, All, All-reverse, All-halves,
}
use open_remote_commander.Disk.{
  Location, Node, OsError, not_exist, not_a_directory, too_many_links, denied, abs, eval_symlinks,
  lstat,
}
use open_remote_commander.Disk.Walk.{IsTree, IsReal, eval_symlinks-IsReal}
use open_remote_commander.Disk.Links.{NoLinks, lstat-absent, IsReal-NoLinks, absent-NoLinks}
use open_remote_commander.Paths.{
  Error, outside_roots, path_required, Policy, World, from_os, rel_names, rel, leads_out, allowed,
  resolve_place, resolve_existing, climb, nearest, resolve_for_create,
}

-- The path is one of the roots with names below it.
abbrev pub IsInside : List Location → Location → Type 0
IsInside [] path = ⊥
IsInside (root ∷ roots) path =
    ((below : List String) × (path ≡ below ++ root)) ⊎ IsInside roots path

-- No name of the path stands for the directory above.
abbrev pub IsPlain : Location → Type 0
IsPlain = All (λ name. name ≢ "..")

rel_names-prefix :
    (base target : List String)
    → leads_out (rel_names base target) ≡ false
    → (rest : List String) × (target ≡ base ++ rest)
unfolding rel_names
rel_names-prefix [] target h = (target, refl)
rel_names-prefix (b ∷ base) [] h = absurd (ground (arith, eq_iff ".." ".."))
rel_names-prefix (b ∷ base) (t ∷ target) h = elim (Bool-cases (str_eq b t)) [
  | inl same ↦
      let h' : leads_out (rel_names base target) ≡ false = ground arith in
      let (rest, e) = rel_names-prefix base target h' in (rest, ground (arith, eq_iff b t))
  | inr other ↦ absurd (ground (arith, eq_iff ".." ".."))
]

rel_names-append : (base rest : List String) → rel_names base (base ++ rest) ≡ rest
unfolding rel_names
rel_names-append [] rest = refl
rel_names-append (b ∷ base) rest = ground (arith, eq_iff b b, rel_names-append base rest)

leads_out_of_plain : (names : List String) → IsPlain names → leads_out names ≡ false
leads_out_of_plain [] plain = refl
leads_out_of_plain (name ∷ names) plain = ground (arith, eq_iff name "..", plain.0)

below_root :
    (root path : Location)
    → leads_out (rel root path) ≡ false
    → (below : List String) × (path ≡ below ++ root)
below_root root path h =
    let (rest, e) = rel_names-prefix (reverse root) (reverse path) h in
    (
      reverse rest,
      sym (reverse-reverse path)
          ∙ ap reverse e
          ∙ reverse-append (reverse root) rest
          ∙ ap (◌++◌ (reverse rest)) (reverse-reverse root),
    )

leads_out-below :
    (root below : Location) → IsPlain below → leads_out (rel root (below ++ root)) ≡ false
leads_out-below root below plain =
    rw (reverse-append below root, rel_names-append (reverse root) (reverse below))
      (leads_out_of_plain (reverse below) (All-reverse (λ name. name ≢ "..") below plain))

allowed-IsInside :
    (roots : List Location) (path : Location) → allowed roots path ≡ true → IsInside roots path
unfolding allowed
allowed-IsInside [] path h = cc
allowed-IsInside (root ∷ roots) path h = elim (Bool-cases (leads_out (rel root path))) [
  | inl out ↦ inr (allowed-IsInside roots path (ground arith))
  | inr inside ↦ inl (below_root root path inside)
]

IsInside-allowed :
    (roots : List Location) (path : Location)
    → IsPlain path
    → IsInside roots path
    → allowed roots path ≡ true
unfolding allowed
IsInside-allowed [] path plain h = absurd h
IsInside-allowed (root ∷ roots) path plain (inl (below, e)) =
    rw
      (
        e,
        leads_out-below root below
            (All-halves (λ name. name ≢ "..") below root (subst IsPlain e plain)).0,
      )
      refl
IsInside-allowed (root ∷ roots) path plain (inr h) =
    rw (IsInside-allowed roots path plain h)
      (elim (Bool-cases (leads_out (rel root path))) [ inl out ↦ rw out | inr inside ↦ rw inside ])

-- A cleaned path is allowed exactly where it is one of the roots or lies below one.
pub allowed_iff :
    (roots : List Location) (path : Location)
    → IsPlain path
    → (allowed roots path ≡ true) ↔ IsInside roots path
allowed_iff roots path plain = (allowed-IsInside roots path, IsInside-allowed roots path plain)

pub from_os-eq-ok : {A : Type 0} {a : A} (r : Result OsError A) → from_os r ≡ ok a → r ≡ ok a
from_os-eq-ok (ok a) h = ground arith
from_os-eq-ok (err e) h = cc

not-eq-false : (b : Bool) → not b ≡ false → b ≡ true
not-eq-false b h = ground arith

pub resolve_place-IsInside :
    (p : Policy) (w : World) (place : Location) {resolved : Location}
    → IsTree w.disk
    → resolve_place p w place ≡ ok resolved
    → IsInside p.roots resolved × IsReal w.disk resolved × NoLinks w.disk resolved
unfolding resolve_place
resolve_place-IsInside p w place {resolved} tree h =
    step_of (from_os (eval_symlinks w.disk place)) _ h λ end found h.
      step_of (fail_if (not (allowed p.roots end)) outside_roots) (λ _. ok end) h
        λ _ inside last.
          let same : end ≡ resolved = cc in
          let real = eval_symlinks-IsReal w.disk tree place (from_os-eq-ok _ found) in
          subst (λ r. IsInside p.roots r × IsReal w.disk r × NoLinks w.disk r) (same)
            (
              allowed-IsInside p.roots end (not-eq-false _ (fail_if-eq-ok _ _ inside)),
              real,
              IsReal-NoLinks w.disk tree end real,
            )

-- What ResolveExisting gives lies below a root; it exists, is no link, and no link is on the way to it.
pub resolve_existing-IsInside :
    (p : Policy) (w : World) (path : String) {resolved : Location}
    → IsTree w.disk
    → resolve_existing p w path ≡ ok resolved
    → IsInside p.roots resolved × IsReal w.disk resolved × NoLinks w.disk resolved
unfolding resolve_existing
resolve_existing-IsInside p w path {resolved} tree h =
    step_of (fail_if (str_eq (trim_space path) "") path_required) _ h λ _ _ h.
      step_of (from_os (abs w.cwd path)) (resolve_place p w) h
        λ place _ h. resolve_place-IsInside p w place tree h

-- The outermost of the names below the ancestor is one that Lstat does not find.
abbrev LastAbsent : World → List String → Location → Type 0
LastAbsent w suffix cur =
    (suffix ≡ [])
    ⊎ ((below : List String) × (name : String) × (suffix ≡ below ++ name ∷ [])
        × (lstat w.disk w.links (name ∷ cur) ≡ err not_exist))

pub climb-eq-ok :
    {A : Type 0} {a : A} (seen : Result OsError Node) (here above : Result Error A)
    → climb seen here above ≡ ok a
    → (here ≡ ok a) ⊎ ((seen ≡ err not_exist) × (above ≡ ok a))
climb-eq-ok (ok _) here above h = inl h
climb-eq-ok (err not_exist) here above h = inr (refl, h)
climb-eq-ok (err not_a_directory) here above h = cc
climb-eq-ok (err too_many_links) here above h = cc
climb-eq-ok (err (denied _)) here above h = cc

pub pair-eq :
    (cur : Location) (suffix : List String) {end : Location × List String}
    → ◌≡◌ {A = Result Error (Location × List String)} (ok (cur, suffix)) (ok end)
    → ◌≡◌ {A = Location × List String} (cur, suffix) end
pair-eq cur suffix h = cc

nearest-LastAbsent :
    (w : World) (cur : Location) (suffix : List String) {end : Location} {names : List String}
    → LastAbsent w suffix cur
    → nearest w cur suffix ≡ ok (end, names)
    → LastAbsent w names end
unfolding nearest
nearest-LastAbsent w [] suffix {end} {names} last h =
    elim (climb-eq-ok (lstat w.disk w.links []) (ok ([], suffix)) (err outside_roots) h) [
      | inl here ↦ subst (λ s. LastAbsent w s.1 s.0) (pair-eq [] suffix here) last
      | inr (_, e) ↦ cc
    ]
nearest-LastAbsent w (name ∷ cur) suffix last h =
    elim (climb-eq-ok (lstat w.disk w.links (name ∷ cur)) (ok (name ∷ cur, suffix))
      (nearest w cur (suffix ++ name ∷ [])) h) [
        | inl here ↦ subst (λ s. LastAbsent w s.1 s.0) (pair-eq (name ∷ cur) suffix here) last
        | inr (gone, above) ↦
            nearest-LastAbsent w cur (suffix ++ name ∷ []) (inr (suffix, name, refl, gone)) above
      ]

module _ (p : Policy) (w : World) (tree : IsTree w.disk) where
  -- The resolved ancestor with the names below it.
  created-NoLinks :
      (names : List String) (cur end : Location)
      → LastAbsent w names cur
      → eval_symlinks w.disk cur ≡ ok end
      → NoLinks w.disk (names ++ end)
  created-NoLinks names cur end (inl none_left) found =
      rw none_left (IsReal-NoLinks w.disk tree end (eval_symlinks-IsReal w.disk tree cur found))
  created-NoLinks names cur end (inr (below, name, e, gone)) found =
      rw (e, append_assoc below (name ∷ []) end)
        (absent-NoLinks w.disk tree below name end (eval_symlinks-IsReal w.disk tree cur found)
          (lstat-absent w.disk tree w.links name cur end found gone))

  -- What ResolveForCreate gives lies below a root, and neither it nor anything on the way to it is a link.
  pub resolve_for_create-IsInside :
      (path : String) {resolved : Location}
      → resolve_for_create p w path ≡ ok resolved
      → IsInside p.roots resolved × NoLinks w.disk resolved
  unfolding resolve_for_create
  resolve_for_create-IsInside path {resolved} h =
      step_of (fail_if (str_eq (trim_space path) "") path_required) _ h λ _ _ h.
        step_of (from_os (abs w.cwd path)) _ h λ place _ h.
          step_of (nearest w place []) _ h λ (cur, names) near h.
            step_of (from_os (eval_symlinks w.disk cur)) _ h λ end found h.
              step_of (fail_if (not (allowed p.roots (names ++ end))) outside_roots)
                (λ _. ok (names ++ end)) h
                λ _ inside last.
                  let same : names ++ end ≡ resolved = cc in
                  subst (λ r. IsInside p.roots r × NoLinks w.disk r) (same)
                    (
                      allowed-IsInside p.roots (names ++ end)
                          (not-eq-false _ (fail_if-eq-ok _ _ inside)),
                      created-NoLinks names cur end (nearest-LastAbsent w place [] (inl refl) near)
                          (from_os-eq-ok _ found),
                    )
