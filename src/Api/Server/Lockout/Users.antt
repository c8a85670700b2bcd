-- ===== src/Api/Server/Lockout/Users.antt =====
-- The handlers of backend/app/api/v1/users.py keep an active admin.
use know_gate.Prelude.{
  ℕ, ◌≤◌, ◌<◌, ◌≡◌, refl, String, Bool, true, false, ◌&&◌, Option, none, some, List, [], ◌∷◌, ◌++◌,
  str_eq, ◌==◌, arith, Bool-cases, inl, inr,
}
use know_gate.Prelude.Dict.{Distinct}
use know_gate.Db.{Database, User, Role, UserStatus, is_active}
use know_gate.Db.Table.{find?, has_pair, insert_pair, delete_pair, sum_by-append, sum_by-le}
use know_gate.Auth.Permissions.{CurrentUser}
use know_gate.Api.Result.Ensures.{
  Ensures, returns, Ensures-bind, Ensures-reject, Ensures-require_permission, Ensures-or_raise,
  weaken,
}
use know_gate.Api.Users.{
  or_keep, UserUpdate, RoleAssignRequest, UserInviteRequest, update_user, soft_delete_user,
  assign_role, revoke_role, invite_user, grant_all, or_member, deactivates, mark_deleted,
  apply_update, other_active_holders, active_links, admin_links,
}
use know_gate.Api.Users.Admins.{active_admins, guarded-change}
use know_gate.Api.Users.Links.{
  role_ids, only_row, active_admins-le, admin_links-append, admin_links-insert_pair,
  admin_links-delete_pair, holders-le,
}
use know_gate.Api.Users.AdminRoles.{admin_roles-eq-zero, admin_roles-pos}

-- Some user is active and has a role named `admin`, and a role's id is its primary key.
pub record HasAdmin (db : Database) : Type 0 where
  pub distinct : Distinct (role_ids db.roles)
  pub present : 0 < active_admins db

stays_active :
    (body : UserUpdate) (u : User)
    → deactivates body.status ≡ false
    → is_active u.status ≡ true
    → is_active (apply_update body u).status ≡ true
stays_active body u h k = by_status body.status h
  where
    by_status :
        (s : Option UserStatus) → deactivates s ≡ false → is_active (or_keep s u.status) ≡ true
    by_status none h = k
    by_status (some UserStatus.active) h = refl
    by_status (some UserStatus.suspended) h = cc
    by_status (some UserStatus.deleted) h = cc

pub update_user-HasAdmin :
    (actor : CurrentUser) (user_id : String) (body : UserUpdate) (db : Database)
    → HasAdmin db
    → Ensures (λ r. HasAdmin r.1) (update_user actor user_id body db)
unfolding update_user
update_user-HasAdmin actor user_id body db h = Ensures-require_permission actor _ _ λ _.
    Ensures-or_raise _ _ _ λ u e. Ensures-reject _ _ _ λ guard. returns (record {
      distinct = h.distinct;
      present =
          guarded-change db u.id (apply_update body) (λ _. refl) (deactivates body.status)
            (λ k v. stays_active body v k) guard h.present;
    })

pub soft_delete_user-HasAdmin :
    (actor : CurrentUser) (user_id : String) (db : Database)
    → HasAdmin db
    → Ensures HasAdmin (soft_delete_user actor user_id db)
unfolding soft_delete_user
soft_delete_user-HasAdmin actor user_id db h = Ensures-require_permission actor _ _ λ _.
    Ensures-or_raise _ _ _ λ u e. Ensures-reject _ _ _ λ guard. returns (record {
      distinct = h.distinct;
      present = guarded-change db u.id mark_deleted (λ _. refl) true (λ k. cc) guard h.present;
    })

pub assign_role-HasAdmin :
    (actor : CurrentUser) (user_id : String) (body : RoleAssignRequest) (db : Database)
    → HasAdmin db
    → Ensures (λ r. HasAdmin r.1) (assign_role actor user_id body db)
unfolding assign_role
assign_role-HasAdmin actor user_id body db h = Ensures-require_permission actor _ _ λ _.
    Ensures-reject _ _ _ λ _. Ensures-or_raise _ _ _ λ role _. Ensures-or_raise _ _ _ λ u _.
      elim (Bool-cases (has_pair u.id role.id db.user_roles)) [
        | inl old ↦ rw old (returns h)
        | inr new ↦ rw new (
            returns (record {
              distinct = h.distinct;
              present = omega (
                arith,
                h.present,
                active_admins-le db db.roles (insert_pair u.id role.id db.user_roles)
                    (λ uid. admin_links-insert_pair db.roles db.user_roles u.id role.id uid),
              );
            }))
      ]

-- The pairs that an invitation adds are appended.
grant_all-le :
    (user_id : String) (roles : List Role) (names : List String) (pairs : List (String × String))
    → Ensures
        (λ pairs'. (uid : String) → admin_links roles pairs uid ≤ admin_links roles pairs' uid)
        (grant_all user_id roles names pairs)
unfolding grant_all
grant_all-le user_id roles [] pairs = returns (λ uid. omega arith)
grant_all-le user_id roles (name ∷ names) pairs = Ensures-or_raise _ _ _ λ r _.
    Ensures-reject _ _ _ λ _.
      weaken (grant_all-le user_id roles names (pairs ++ (user_id, r.id) ∷ [])) λ pairs' h uid.
        omega (arith, h uid, admin_links-append roles pairs ((user_id, r.id) ∷ []) uid)

joins :
    (db : Database) (u : User) (pairs groups : List (String × String))
    → ((uid : String) → admin_links db.roles db.user_roles uid ≤ admin_links db.roles pairs uid)
    → 0 < active_admins db
    → 0
      < active_admins
          (record db { users = db.users ++ u ∷ []; user_roles = pairs; user_groups = groups })
unfolding active_admins
joins db u pairs groups more h = omega (
  arith,
  h,
  active_admins-le db db.roles pairs more,
  sum_by-append (active_links db.roles pairs) db.users (u ∷ []),
)

pub invite_user-HasAdmin :
    (actor : CurrentUser) (new_id hash : String) (body : UserInviteRequest) (db : Database)
    → HasAdmin db
    → Ensures (λ r. HasAdmin r.1) (invite_user actor new_id hash body db)
unfolding invite_user
invite_user-HasAdmin actor new_id hash body db h = Ensures-require_permission actor _ _ λ _.
    Ensures-reject _ _ _ λ _. Ensures-reject _ _ _ λ _. Ensures-reject _ _ _ λ _.
      Ensures-bind _ _ (grant_all-le new_id db.roles (or_member body.roles) db.user_roles)
        λ pairs more.
          returns (record { distinct = h.distinct; present = joins db _ pairs _ more h.present })

holders_stay :
    (db : Database) (role : Role) (user_id role_id : String)
    → find? (λ r. str_eq r.id role_id) db.roles ≡ some role
    → str_eq role.name "admin" ≡ true
    → other_active_holders db role_id user_id
      ≤ active_admins (record db { user_roles = delete_pair user_id role_id db.user_roles })
unfolding other_active_holders active_admins
holders_stay db role user_id role_id e admin =
    sum_by-le _ (active_links db.roles (delete_pair user_id role_id db.user_roles)) db.users λ u.
      ground (
        arith,
        holders-le db.roles db.user_roles user_id role_id u.id
            (admin_roles-pos role_id role db.roles e admin),
      )

at_least_one : (n : ℕ) {b : Bool} → b ≡ true → (b && n == 0) ≡ false → 0 < n
at_least_one n h g = ground arith

role_left :
    (db : Database) (role : Role) (user_id role_id : String)
    → Distinct (role_ids db.roles)
    → find? (λ r. str_eq r.id role_id) db.roles ≡ some role
    → (str_eq role.name "admin" && other_active_holders db role_id user_id == 0) ≡ false
    → 0 < active_admins db
    → 0 < active_admins (record db { user_roles = delete_pair user_id role_id db.user_roles })
role_left db role user_id role_id d e guard h = elim (Bool-cases (str_eq role.name "admin")) [
  | inl admin ↦ omega (
    arith,
    holders_stay db role user_id role_id e admin,
    at_least_one (other_active_holders db role_id user_id) admin guard,
  )
  | inr other ↦ omega (
    arith,
    h,
    active_admins-le db db.roles (delete_pair user_id role_id db.user_roles) (λ uid.
        admin_links-delete_pair db.roles db.user_roles user_id role_id uid
          (admin_roles-eq-zero role_id role db.roles (only_row role_id db.roles role d e) other)),
  )
]

pub revoke_role-HasAdmin :
    (actor : CurrentUser) (user_id role_id : String) (db : Database)
    → HasAdmin db
    → Ensures HasAdmin (revoke_role actor user_id role_id db)
unfolding revoke_role
revoke_role-HasAdmin actor user_id role_id db h = Ensures-require_permission actor _ _ λ _.
    Ensures-or_raise _ _ _ λ role e. Ensures-reject _ _ _ λ guard. returns (record {
      distinct = h.distinct;
      present = role_left db role user_id role_id h.distinct e guard h.present;
    })
