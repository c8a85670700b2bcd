-- ===== src/Api/Users/Admins.antt =====
-- How the changes that the handlers of backend/app/api/v1/users.py and roles.py make bear on the
-- count of active admins.
use know_gate.Prelude.{
  ℕ, ◌≤◌, ◌<◌, ◌≡◌, refl, String, Bool, true, false, ◌&&◌, ◌||◌, List, [], ◌∷◌, ◌++◌, map, str_eq,
  eq_iff, ◌==◌, arith, Bool-cases, inl, inr,
}
use know_gate.Db.{Database, User, Role, is_active}
use know_gate.Db.Table.{
  select, update_where, sum_by, count_where, sum_by-update_where_others, sum_by-update_where,
}
use know_gate.Auth.Permissions.{holds}
use know_gate.Api.Users.{
  role_names, user_role_names, admin_links, active_links, other_active_admins,
}

-- Active users with the role `admin`, counted by the join of users, user_roles and roles.
unfoldable pub active_admins : Database → ℕ
active_admins db = sum_by (active_links db.roles db.user_roles) db.users

any-append :
    (name : String) (xs ys : List String) → holds name (xs ++ ys) ≡ (holds name xs || holds name ys)
any-append name [] ys = refl
any-append name (x ∷ xs) ys = ground (arith, any-append name xs ys)

count_where-select :
    (b : String) (roles : List Role)
    → holds "admin" (map (λ r. r.name) (select (λ r. str_eq r.id b) roles)) ≡ false
    → count_where (λ r. str_eq r.id b && str_eq r.name "admin") roles ≡ 0
unfolding count_where select
count_where-select b [] h = refl
count_where-select b (r ∷ roles) h = ground (arith, count_where-select b roles)

-- A user whose role names do not have `admin` has no row in the join.
pub admin_links-eq-zero :
    (user_id : String) (roles : List Role) (pairs : List (String × String))
    → holds "admin" (role_names user_id roles pairs) ≡ false
    → admin_links roles pairs user_id ≡ 0
unfolding admin_links role_names sum_by
admin_links-eq-zero user_id roles [] h = refl
admin_links-eq-zero user_id roles ((a, b) ∷ pairs) h = ground (
  arith,
  any-append "admin" (map (λ r. r.name) (select (λ r. str_eq r.id b) roles))
      (role_names user_id roles pairs),
  count_where-select b roles,
  admin_links-eq-zero user_id roles pairs,
)

module _ (db : Database) (user_id : String) (f : User → User)
    (same : (u : User) → (f u).id ≡ u.id) where
  abbrev changed : Database
  changed = record db { users = update_where (λ v. str_eq v.id user_id) f db.users }

  -- Whatever a change does to a user, the other active admins stay.
  others-stay : other_active_admins db user_id ≤ active_admins changed
  unfolding other_active_admins active_admins
  others-stay =
      sum_by-update_where_others (λ v. str_eq v.id user_id) f (active_links db.roles db.user_roles)
        db.users

  -- A user that is no admin may change in any way.
  no-admin-stay :
      holds "admin" (user_role_names db user_id) ≡ false → active_admins db ≤ active_admins changed
  unfolding active_admins
  no-admin-stay h =
      sum_by-update_where (λ v. str_eq v.id user_id) f (active_links db.roles db.user_roles)
        db.users
        (λ u e.
          ground (arith, eq_iff u.id user_id, admin_links-eq-zero user_id db.roles db.user_roles h))

  -- So may any user that does not get inactive.
  active-stay :
      ((u : User) → is_active u.status ≡ true → is_active (f u).status ≡ true)
      → active_admins db ≤ active_admins changed
  unfolding active_admins
  active-stay keep =
      sum_by-update_where (λ v. str_eq v.id user_id) f (active_links db.roles db.user_roles)
        db.users (λ u e. ground (arith, same u, keep u))

  -- With the guard of the handlers an active admin remains.
  pub guarded-change :
      (deactivate : Bool)
      → (deactivate ≡ false
          → (u : User) → is_active u.status ≡ true
          → is_active (f u).status ≡ true)
      → (deactivate
          && holds "admin" (user_role_names db user_id)
          && other_active_admins db user_id == 0)
        ≡ false
      → 0 < active_admins db
      → 0 < active_admins changed
  guarded-change deactivate keep guard h = elim (Bool-cases deactivate) [
    | inr e ↦ omega (arith, active-stay (keep e))
    | inl e ↦ elim (Bool-cases (holds "admin" (user_role_names db user_id))) [
      | inr no_admin ↦ omega (arith, no-admin-stay no_admin)
      | inl admin ↦ ground (arith, others-stay)
    ]
  ]
