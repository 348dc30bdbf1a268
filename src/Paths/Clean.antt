-- ===== src/Paths/Clean.antt =====
-- What ResolveExisting and ResolveForCreate give are cleaned paths.
use open_remote_commander.Prelude.{
  ◌≡◌, ◌∙◌, subst, inl, inr, String, List, [], ◌∷◌, ◌++◌, Result, ok, err, fail_if, step_of,
  Bool-cases, not, str_eq, trim_space, All-append,
}
use open_remote_commander.Disk.{
  Location, OsError, abs, is_abs, split_slash, clean, eval_symlinks, lstat,
}
use open_remote_commander.Disk.Names.{
  IsName, IsClean, clean-IsClean, eval_symlinks-IsClean, eval_symlinks_fixed,
}
use open_remote_commander.Disk.Links.{NoLinks}
use open_remote_commander.Paths.{
  outside_roots, path_required, Policy, World, from_os, allowed, resolve_place, resolve_existing,
  nearest, resolve_for_create,
}
use open_remote_commander.Paths.Inside.{from_os-eq-ok, climb-eq-ok, pair-eq}

abs-IsClean :
    (cwd : Result OsError Location) (path : String) {place : Location}
    → ((here : Location) → cwd ≡ ok here → IsClean here)
    → abs cwd path ≡ ok place
    → IsClean place
unfolding abs
abs-IsClean cwd path {place} h = elim (Bool-cases (is_abs path)) [
  | inl a ↦ rw a λ e.
      let same : clean (split_slash path) [] ≡ place = cc in
      subst IsClean (same) (clean-IsClean (split_slash path) [] tt)
  | inr a ↦ rw a λ e.
      step_of cwd (λ here. ok (clean (split_slash path) here)) e
        λ here c last.
          let same : clean (split_slash path) here ≡ place = cc in
          subst IsClean (same) (clean-IsClean (split_slash path) here (h here c))
]

nearest-IsClean :
    (w : World) (cur : Location) (suffix : List String) {end : Location} {names : List String}
    → IsClean cur
    → IsClean suffix
    → nearest w cur suffix ≡ ok (end, names)
    → IsClean names
unfolding nearest
nearest-IsClean w [] suffix {end} {names} c s h =
    elim (climb-eq-ok (lstat w.disk w.links []) (ok ([], suffix)) (err outside_roots) h) [
      | inl here ↦ subst (λ p. IsClean p.1) (pair-eq [] suffix here) s
      | inr (_, e) ↦ cc
    ]
nearest-IsClean w (name ∷ cur) suffix c s h =
    elim (climb-eq-ok (lstat w.disk w.links (name ∷ cur)) (ok (name ∷ cur, suffix))
      (nearest w cur (suffix ++ name ∷ [])) h) [
        | inl here ↦ subst (λ p. IsClean p.1) (pair-eq (name ∷ cur) suffix here) s
        | inr (gone, above) ↦
            nearest-IsClean w cur (suffix ++ name ∷ []) c.1
              (All-append IsName suffix (name ∷ []) s (c.0, tt)) above
      ]

-- The working directory is a cleaned path.
abbrev pub HasCleanCwd : World → Type 0
HasCleanCwd w = (here : Location) → w.cwd ≡ ok here → IsClean here

module _ (p : Policy) (w : World) where
  pub resolve_existing-IsClean :
      (path : String) {resolved : Location}
      → resolve_existing p w path ≡ ok resolved
      → IsClean resolved
  unfolding resolve_existing resolve_place
  resolve_existing-IsClean path {resolved} h =
      step_of (fail_if (str_eq (trim_space path) "") path_required) _ h λ _ _ h.
        step_of (from_os (abs w.cwd path)) (resolve_place p w) h λ place _ h.
          step_of (from_os (eval_symlinks w.disk place)) _ h λ end found h.
            step_of (fail_if (not (allowed p.roots end)) outside_roots) (λ _. ok end) h
              λ _ inside last.
                let same : end ≡ resolved = cc in
                subst IsClean (same) (eval_symlinks-IsClean w.disk place (from_os-eq-ok _ found))

  -- A cleaned path with no link on the way, if it is resolved, resolves to itself.
  pub resolve_place_fixed :
      (place : Location) {end : Location}
      → IsClean place
      → NoLinks w.disk place
      → resolve_place p w place ≡ ok end
      → end ≡ place
  unfolding resolve_place
  resolve_place_fixed place {end} plain free h =
      step_of (from_os (eval_symlinks w.disk place)) _ h λ found e h.
        step_of (fail_if (not (allowed p.roots found)) outside_roots) (λ _. ok found) h
          λ _ _ last.
            let same : end ≡ found = cc in
            same ∙ eval_symlinks_fixed w.disk place plain free (from_os-eq-ok _ e)

  pub resolve_for_create-IsClean :
      HasCleanCwd w
      → (path : String) {resolved : Location} → resolve_for_create p w path ≡ ok resolved
      → IsClean resolved
  unfolding resolve_for_create
  resolve_for_create-IsClean here path {resolved} h =
      step_of (fail_if (str_eq (trim_space path) "") path_required) _ h λ _ _ h.
        step_of (from_os (abs w.cwd path)) _ h λ place a h.
          step_of (nearest w place []) _ h λ (cur, names) near h.
            step_of (from_os (eval_symlinks w.disk cur)) _ h λ end found h.
              step_of (fail_if (not (allowed p.roots (names ++ end))) outside_roots)
                (λ _. ok (names ++ end)) h
                λ _ inside last.
                  let same : names ++ end ≡ resolved = cc in
                  subst IsClean (same) (
                    All-append IsName names end
                      (nearest-IsClean w place [] (abs-IsClean w.cwd path here (from_os-eq-ok _ a))
                        tt near)
                      (eval_symlinks-IsClean w.disk cur (from_os-eq-ok _ found)))
