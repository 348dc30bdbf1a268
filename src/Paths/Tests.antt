-- ===== src/Paths/Tests.antt =====
-- Runs of the path policy on a small disk, and its theorems there.
use open_remote_commander.Prelude.{◌≡◌, refl, true, [], ◌∷◌, ok, err, trim_space}
use open_remote_commander.Disk.{directory, regular, link, Disk, put, same_location}
use open_remote_commander.Disk.Walk.{IsTree, IsReal}
use open_remote_commander.Disk.Links.{NoLinks}
use open_remote_commander.Disk.Trees.{bare, bare-IsTree, put-IsTree}
use open_remote_commander.Paths.{
  outside_roots, Policy, World, allowed, resolve_existing, resolve_for_create, new, seen_in,
}
use open_remote_commander.Paths.Inside.{
  IsInside, resolve_existing-IsInside, resolve_for_create-IsInside,
}

-- /home with a file and a link that leads out of it.
abbrev with_home : Disk
with_home = put ("home" ∷ []) directory bare

abbrev with_file : Disk
with_file = put ("f" ∷ "home" ∷ []) (regular (1 ∷ 2 ∷ 3 ∷ []) 420) with_home

abbrev pub disk : Disk
disk = put ("out" ∷ "home" ∷ []) (link "../etc") with_file

abbrev pub world : World
world = record { disk = disk; cwd = ok ("home" ∷ []); links = 40 }

abbrev pub policy : Policy
policy = record { roots = ("home" ∷ []) ∷ [] }

pub disk-IsTree : IsTree disk
unfolding same_location
disk-IsTree =
    put-IsTree with_file "out" ("home" ∷ []) (link "../etc")
      (put-IsTree with_home "f" ("home" ∷ []) (regular (1 ∷ 2 ∷ 3 ∷ []) 420)
        (put-IsTree bare "home" [] directory bare-IsTree refl (λ h. cc)) refl (λ h. cc))
      refl (λ h. cc)

pub existing_file : resolve_existing policy world "f" ≡ ok ("f" ∷ "home" ∷ [])
unfolding resolve_existing same_location trim_space
existing_file = refl

root_above : resolve_existing policy world "/home/.." ≡ err outside_roots
unfolding resolve_existing same_location trim_space
root_above = refl

pub new_file : resolve_for_create policy world "a/../b/c" ≡ ok ("c" ∷ "b" ∷ "home" ∷ [])
unfolding resolve_for_create same_location trim_space
new_file = refl

-- A name that only begins with two dots stays inside.
dotted : allowed (("home" ∷ []) ∷ []) ("..x" ∷ "home" ∷ []) ≡ true
unfolding allowed
dotted = refl

policy_of_roots : new world ("/home" ∷ "." ∷ []) ≡ ok policy
unfolding new same_location seen_in
policy_of_roots = refl

resolve_existing-IsInside_example :
    IsInside policy.roots ("f" ∷ "home" ∷ [])
    × IsReal disk ("f" ∷ "home" ∷ [])
    × NoLinks disk ("f" ∷ "home" ∷ [])
resolve_existing-IsInside_example =
    resolve_existing-IsInside policy world "f" disk-IsTree existing_file

resolve_for_create-IsInside_example :
    IsInside policy.roots ("c" ∷ "b" ∷ "home" ∷ []) × NoLinks disk ("c" ∷ "b" ∷ "home" ∷ [])
resolve_for_create-IsInside_example =
    resolve_for_create-IsInside policy world disk-IsTree "a/../b/c" new_file
