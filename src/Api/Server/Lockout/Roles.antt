-- ===== src/Api/Server/Lockout/Roles.antt =====
-- The handlers of backend/app/api/v1/roles.py keep an active admin.
use know_gate.Prelude.{
  ◌≤◌, ◌≡◌, refl, String, true, false, ◌&&◌, Option, none, some, List, [], ◌∷◌, ◌++◌, str_eq,
  eq_iff, arith, All,
}
use know_gate.Prelude.Dict.{Distinct}
use know_gate.Db.{Database, Role}
use know_gate.Db.Table.{find?, update_where, delete_where, find?-sound}
use know_gate.Auth.Permissions.{CurrentUser}
use know_gate.Api.Result.Ensures.{
  Ensures, returns, Ensures-reject, Ensures-require_permission, Ensures-or_raise,
}
use know_gate.Api.Users.{is_some, or_keep}
use know_gate.Api.Users.Links.{role_ids, admin_roles, only_row, active_admins-le, admin_links-roles}
use know_gate.Api.Users.AdminRoles.{
  admin_roles-append, admin_roles-update, admin_roles-delete, no-pair, append-Distinct,
  role_ids-update, delete-Distinct,
}
use know_gate.Api.Roles.{
  RoleCreate, RoleUpdate, create_role, update_role, delete_role, is_static, renames,
  apply_role_update,
}
use know_gate.Api.Server.Lockout.Users.{HasAdmin}

-- If each id of a pair keeps its admin roles, so does the table keep its active admins.
with_roles :
    (db : Database) (roles : List Role)
    → Distinct (role_ids roles)
    → All (λ p. admin_roles db.roles p.1 ≤ admin_roles roles p.1) db.user_roles
    → HasAdmin db
    → HasAdmin (record db { roles = roles })
with_roles db roles d more h = record {
  distinct = d;
  present = omega (
    arith,
    h.present,
    active_admins-le db roles db.user_roles
        (λ uid. admin_links-roles db.roles roles db.user_roles uid more),
  );
}

every : {A : Type 0} (P : A → Type 0) (xs : List A) → ((x : A) → P x) → All P xs
every P [] h = tt
every P (x ∷ xs) h = (h x, every P xs h)

absent_id :
    (id : String) (roles : List Role)
    → is_some (find? (λ r. str_eq r.id id) roles) ≡ false
    → find? (λ r. str_eq r.id id) roles ≡ none
absent_id id roles h = by_result (find? (λ r. str_eq r.id id) roles) h
  where
    by_result : (o : Option Role) → is_some o ≡ false → o ≡ none
    by_result none h = refl
    by_result (some r) h = cc

added :
    (db : Database) (role : Role)
    → is_some (find? (λ r. str_eq r.id role.id) db.roles) ≡ false
    → HasAdmin db
    → HasAdmin (record db { roles = db.roles ++ role ∷ [] })
added db role new h =
    with_roles db (db.roles ++ role ∷ [])
      (append-Distinct db.roles role (absent_id role.id db.roles new) h.distinct)
      (every _ db.user_roles (λ p. admin_roles-append db.roles role p.1)) h

pub create_role-HasAdmin :
    (actor : CurrentUser) (new_id : String) (body : RoleCreate) (db : Database)
    → HasAdmin db
    → Ensures (λ r. HasAdmin r.1) (create_role actor new_id body db)
unfolding create_role
create_role-HasAdmin actor new_id body db h = Ensures-require_permission actor _ _ λ _.
    Ensures-reject _ _ _
      λ _. Ensures-reject _ _ _ λ _. Ensures-reject _ _ _ λ new. returns (added db _ new h)

-- The guard of `update_role` keeps the name of an admin role.
keeps_name :
    (new : Option String) (name : String)
    → (renames new name && is_static name) ≡ false
    → str_eq name "admin" ≡ true
    → or_keep new name ≡ name
keeps_name none name g h = refl
keeps_name (some new) name g h = ground (arith, eq_iff new name)

found :
    (role_id : String) (roles : List Role) (role : Role)
    → find? (λ r. str_eq r.id role_id) roles ≡ some role
    → role.id ≡ role_id
found role_id roles role e =
    (eq_iff role.id role_id).0 (find?-sound (λ r. str_eq r.id role_id) roles role e)

updated :
    (db : Database) (role : Role) (body : RoleUpdate) (role_id : String)
    → role.id ≡ role_id
    → find? (λ r. str_eq r.id role_id) db.roles ≡ some role
    → (renames body.name role.name && is_static role.name) ≡ false
    → HasAdmin db
    → HasAdmin (record db {
      roles = update_where (λ r. str_eq r.id role.id) (apply_role_update body) db.roles;
    })
updated db role body role_id same e g h = rw same (
    with_roles db (update_where (λ r. str_eq r.id role_id) (apply_role_update body) db.roles)
      (rw (role_ids-update (λ r. str_eq r.id role_id) (apply_role_update body) db.roles (λ _. refl))
        h.distinct)
      (every _ db.user_roles (λ p.
        admin_roles-update role_id p.1 role (apply_role_update body) db.roles (λ _. refl)
          (only_row role_id db.roles role h.distinct e) (keeps_name body.name role.name g)))
      h)

pub update_role-HasAdmin :
    (actor : CurrentUser) (role_id : String) (body : RoleUpdate) (db : Database)
    → HasAdmin db
    → Ensures (λ r. HasAdmin r.1) (update_role actor role_id body db)
unfolding update_role
update_role-HasAdmin actor role_id body db h = Ensures-require_permission actor _ _ λ _.
    Ensures-or_raise _ _ _ λ role e. Ensures-reject _ _ _ λ guard. Ensures-reject _ _ _ λ _.
      Ensures-reject _ _ _
        λ _. returns (updated db role body role_id (found role_id db.roles role e) e guard h)

kept :
    (rid : String) (roles : List Role) (pairs : List (String × String))
    → All (λ p. str_eq p.1 rid ≡ false) pairs
    → All
        (λ p. admin_roles roles p.1 ≤ admin_roles (delete_where (λ r. str_eq r.id rid) roles) p.1)
        pairs
kept rid roles [] h = tt
kept rid roles (p ∷ pairs) h =
    (omega (arith, admin_roles-delete rid p.1 roles h.0), kept rid roles pairs h.1)

pub delete_role-HasAdmin :
    (actor : CurrentUser) (role_id : String) (db : Database)
    → HasAdmin db
    → Ensures HasAdmin (delete_role actor role_id db)
unfolding delete_role
delete_role-HasAdmin actor role_id db h = Ensures-require_permission actor _ _ λ _.
    Ensures-or_raise _ _ _ λ role e. Ensures-reject _ _ _ λ unused. returns (
      with_roles db (delete_where (λ r. str_eq r.id role.id) db.roles)
        (delete-Distinct (λ r. str_eq r.id role.id) db.roles h.distinct)
        (kept role.id db.roles db.user_roles (no-pair role.id db.user_roles (ground arith))) h)
