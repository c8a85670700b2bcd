-- ===== src/Api/Users/Links.antt =====
-- How changes of the tables `roles` and `user_roles` bear on the rows that a user has in the join
-- with the roles named `admin` (backend/app/api/v1/users.py, roles.py).
use know_gate.Prelude.{
  ℕ, ◌≤◌, ◌<◌, ◌≡◌, String, true, false, ◌&&◌, some, List, [], ◌∷◌, ◌++◌, map, str_eq, eq_iff,
  arith, Bool-cases, inl, inr, All,
}
use know_gate.Prelude.Dict.{has, Distinct}
use know_gate.Db.{Database, Role}
use know_gate.Db.Table.{
  find?, sum_by, count_where, insert_pair, delete_pair, sum_by-append, sum_by-le,
}
use know_gate.Api.Users.{admin_links, active_links}
use know_gate.Api.Users.Admins.{active_admins}

abbrev pub role_ids : List Role → List String
role_ids = map (λ r. r.id)

-- The roles named `admin` that have the id.
abbrev pub admin_roles : List Role → String → ℕ
admin_roles roles b = count_where (λ r. str_eq r.id b && str_eq r.name "admin") roles

absent :
    (rid : String) (roles : List Role) (role : Role)
    → has rid (role_ids roles) ≡ false
    → All (λ r. str_eq r.id rid ≡ true → r ≡ role) roles
unfolding has
absent rid [] role h = tt
absent rid (r ∷ roles) role h = (λ e. cc, absent rid roles role (ground arith))

-- A role found by its id is the only row with that id.
pub only_row :
    (rid : String) (roles : List Role) (role : Role)
    → Distinct (role_ids roles)
    → find? (λ r. str_eq r.id rid) roles ≡ some role
    → All (λ r. str_eq r.id rid ≡ true → r ≡ role) roles
unfolding find?
only_row rid [] role d h = tt
only_row rid (r ∷ roles) role d h = elim (Bool-cases (str_eq r.id rid)) [
  | inl here ↦ (λ _. ground arith, absent rid roles role (ground (arith, eq_iff r.id rid, d.0)))
  | inr there ↦ (λ e. cc, only_row rid roles role d.1 (rw there at h))
]

module _ (db : Database) (roles : List Role) (pairs : List (String × String)) where
  -- More rows of the join for each user, more active admins.
  pub active_admins-le :
      ((uid : String) → admin_links db.roles db.user_roles uid ≤ admin_links roles pairs uid)
      → active_admins db ≤ active_admins (record db { roles = roles; user_roles = pairs })
  unfolding active_admins
  active_admins-le h =
      sum_by-le (active_links db.roles db.user_roles) (active_links roles pairs) db.users
        (λ u. ground (arith, h u.id))

pub admin_links-append :
    (roles : List Role) (pairs more : List (String × String)) (uid : String)
    → admin_links roles pairs uid ≤ admin_links roles (pairs ++ more) uid
unfolding admin_links
admin_links-append roles pairs more uid = omega (arith, sum_by-append {0} _ pairs more)

pub admin_links-insert_pair :
    (roles : List Role) (pairs : List (String × String)) (a b uid : String)
    → admin_links roles pairs uid ≤ admin_links roles (insert_pair a b pairs) uid
unfolding insert_pair
admin_links-insert_pair roles pairs a b uid =
    ground (arith, admin_links-append roles pairs ((a, b) ∷ []) uid)

-- More roles for each id, more rows of the join.
pub admin_links-roles :
    (roles roles' : List Role) (pairs : List (String × String)) (uid : String)
    → All (λ p. admin_roles roles p.1 ≤ admin_roles roles' p.1) pairs
    → admin_links roles pairs uid ≤ admin_links roles' pairs uid
unfolding admin_links sum_by
admin_links-roles roles roles' [] uid h = omega arith
admin_links-roles roles roles' ((a, b) ∷ pairs) uid h =
    ground (arith, h.0, admin_links-roles roles roles' pairs uid h.1)

-- A pair to a role that is not named `admin` may go.
pub admin_links-delete_pair :
    (roles : List Role) (pairs : List (String × String)) (a rid uid : String)
    → admin_roles roles rid ≡ 0
    → admin_links roles pairs uid ≤ admin_links roles (delete_pair a rid pairs) uid
unfolding admin_links sum_by delete_pair
admin_links-delete_pair roles [] a rid uid h = omega arith
admin_links-delete_pair roles ((c, d) ∷ pairs) a rid uid h =
    ground (arith, eq_iff d rid, admin_links-delete_pair roles pairs a rid uid h)

-- The pairs of a user to an admin role are rows of its join, whatever pairs of another user go.
pub holders-le :
    (roles : List Role) (pairs : List (String × String)) (a rid uid : String)
    → 0 < admin_roles roles rid
    → str_eq uid a ≡ false
    → count_where (λ p. str_eq p.0 uid && str_eq p.1 rid) pairs
      ≤ admin_links roles (delete_pair a rid pairs) uid
unfolding admin_links sum_by delete_pair count_where
holders-le roles [] a rid uid h ne = omega arith
holders-le roles ((c, d) ∷ pairs) a rid uid h ne =
    ground (arith, eq_iff c uid, eq_iff d rid, eq_iff c a, holders-le roles pairs a rid uid h ne)
