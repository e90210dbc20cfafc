-- ===== src/Process/Roles.antt =====
-- crates/kernel-core/src/process.rs: the roles whose capabilities have been installed.
use gaxera.Prelude.{
  ℕ, zero, suc, ◌≡◌, refl, true, false, Option, some, List, [], ◌∷◌, set, err, arith, inl, inr,
  Option-cases,
}
use gaxera.Process.{
  Process, is_repeatable, first_free, is_taken, record_installed_role, invalid_configuration,
}

is_taken-set :
    (rs : List (Option ℕ)) (i j role : ℕ)
    → is_taken rs j ≡ true
    → is_taken (set rs i (some role)) j ≡ true
is_taken-set [] i j role h = refl
is_taken-set (r ∷ rs) zero zero role h = refl
is_taken-set (r ∷ rs) zero (suc j) role h = h
is_taken-set (r ∷ rs) (suc i) zero role h = h
is_taken-set (r ∷ rs) (suc i) (suc j) role h = is_taken-set rs i j role h

set-is_taken : (rs : List (Option ℕ)) (i role : ℕ) → is_taken (set rs i (some role)) i ≡ true
set-is_taken [] i role = refl
set-is_taken (r ∷ rs) zero role = refl
set-is_taken (r ∷ rs) (suc i) role = set-is_taken rs i role

pub record_all : Process → List ℕ → Process
record_all p [] = p
record_all p (role ∷ roles) = record_all (record_installed_role p role).1 roles

record-is_taken :
    (p : Process) (role slot : ℕ)
    → is_taken p.installed_roles slot ≡ true
    → is_taken (record_installed_role p role).1.installed_roles slot ≡ true
unfolding record_installed_role
record-is_taken p role slot h = elim (Option-cases (first_free p.installed_roles)) [
  | inl full ↦ ground (arith, is_taken-set p.installed_roles role slot role h)
  | inr (i, free) ↦ ground (
    arith,
    is_taken-set p.installed_roles role slot role h,
    is_taken-set p.installed_roles i slot role h,
  )
]

record_all-is_taken :
    (p : Process) (roles : List ℕ) (slot : ℕ)
    → is_taken p.installed_roles slot ≡ true
    → is_taken (record_all p roles).installed_roles slot ≡ true
unfolding record_all
record_all-is_taken p [] slot h = h
record_all-is_taken p (role ∷ roles) slot h =
    record_all-is_taken (record_installed_role p role).1 roles slot (record-is_taken p role slot h)

-- A role that is not repeatable is recorded at most once: after it has been recorded, or
-- refused, and whatever roles are recorded then, recording it again is refused and changes nothing.
pub record_installed_role_once :
    (p : Process) (role : ℕ) (roles : List ℕ)
    → is_repeatable role ≡ false
    → let later = record_all (record_installed_role p role).1 roles in
      record_installed_role later role ≡ (err invalid_configuration, later)
unfolding record_installed_role
record_installed_role_once p role roles single =
    let put = set-is_taken p.installed_roles role role in
    let taken : is_taken (record_installed_role p role).1.installed_roles role ≡ true =
      ground (arith, put) in
    let still = record_all-is_taken (record_installed_role p role).1 roles role taken in
    ground arith
