-- ===== src/Disk/Places.antt =====
-- When two places are the same.
use open_remote_commander.Prelude.{◌≡◌, ◌↔◌, refl, true, [], ◌∷◌, arith, eq_iff}
use open_remote_commander.Disk.{Location, same_location}

eq_of_same_location : (p q : Location) → same_location p q ≡ true → p ≡ q
unfolding same_location
eq_of_same_location [] [] h = refl
eq_of_same_location [] (n ∷ q) h = cc
eq_of_same_location (m ∷ p) [] h = cc
eq_of_same_location (m ∷ p) (n ∷ q) h = ground (arith, eq_iff m n, eq_of_same_location p q)

pub same_location_self : (q : Location) → same_location q q ≡ true
unfolding same_location
same_location_self [] = refl
same_location_self (n ∷ q) = ground (arith, eq_iff n n, same_location_self q)

pub same_location_iff : (p q : Location) → (same_location p q ≡ true) ↔ (p ≡ q)
same_location_iff p q = (eq_of_same_location p q, λ e. rw e (same_location_self q))
