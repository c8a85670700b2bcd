-- ===== src/Auth/Permissions.antt =====
-- backend/app/auth/permissions.py: the permissions and the static map from roles to them. The caller
-- of an endpoint is what `get_current_user` returns of the token.
use mathlib.Core.Path.{ap₂}
use know_gate.Prelude.{
  ◌≡◌, refl, String, Bool, true, false, ◌&&◌, ◌||◌, List, [], ◌∷◌, arith, str_eq, if◌then◌else◌,
  any, ◌∙◌,
}

pub data Permission : Type 0 where
  view_doc edit_doc_metadata delete_doc : Permission
  manage_users manage_roles manage_groups : Permission
  manage_sources manage_settings invite_user view_audit_log : Permission

-- The members of `ROLE_PERMISSIONS[role]`, by their tests.
abbrev pub editor_permissions : Permission → Bool
editor_permissions view_doc = true
editor_permissions edit_doc_metadata = true
editor_permissions _ = false

abbrev pub member_permissions : Permission → Bool
member_permissions view_doc = true
member_permissions _ = false

-- `required in get_role_permissions(role_name)`; an unknown role has no permission.
unfoldable pub get_role_permissions : String → Permission → Bool
get_role_permissions role_name required =
    if str_eq role_name "admin"
    then true
    else if str_eq role_name "editor"
    then editor_permissions required
    else if str_eq role_name "member"
    then member_permissions required
    else false

unfoldable pub has_permission : List String → Permission → Bool
unfolding get_role_permissions
has_permission role_names required =
    any (λ role_name. get_role_permissions role_name required) role_names

pub record CurrentUser : Type 0 where
  pub id : String
  pub roles : List String

abbrev pub holds : String → List String → Bool
holds name = any (λ r. str_eq r name)

member_editor : (p : Permission) → member_permissions p ≡ true → editor_permissions p ≡ true
member_editor view_doc h = refl
member_editor edit_doc_metadata h = refl
member_editor _ h = cc

chosen :
    (a e m x y : Bool)
    → (y ≡ true → x ≡ true)
    → (if a then true else if e then x else if m then y else false) ≡ (a || x && e || y && m)
chosen true e m x y h = refl
chosen false true m x y h = ground arith
chosen false false m x y h = ground arith

one_role :
    (r : String) (p : Permission)
    → get_role_permissions r p ≡ (
        str_eq r "admin"
        || editor_permissions p && str_eq r "editor"
        || member_permissions p && str_eq r "member")
unfolding get_role_permissions
one_role r p =
    chosen (str_eq r "admin") (str_eq r "editor") (str_eq r "member") (editor_permissions p)
      (member_permissions p) (member_editor p)

nobody : (e m : Bool) → false ≡ (false || e && false || m && false)
nobody true true = refl
nobody true false = refl
nobody false true = refl
nobody false false = refl

regroup :
    (x y a e m A E M : Bool)
    → ((a || x && e || y && m) || (A || x && E || y && M))
      ≡ ((a || A) || x && (e || E) || y && (m || M))
regroup true true a e m A E M = ground arith
regroup true false a e m A E M = ground arith
regroup false true a e m A E M = ground arith
regroup false false a e m A E M = ground arith

-- A caller has a permission exactly if one of its roles is `admin`, or is `editor` and the
-- permission is to view or edit documents, or is `member` and the permission is to view them.
has_permission_iff :
    (roles : List String) (p : Permission)
    → has_permission roles p ≡ (
        holds "admin" roles
        || editor_permissions p && holds "editor" roles
        || member_permissions p && holds "member" roles)
unfolding has_permission
has_permission_iff [] p = nobody (editor_permissions p) (member_permissions p)
has_permission_iff (r ∷ roles) p =
    ap₂ ◌||◌ (one_role r p) (has_permission_iff roles p)
    ∙ regroup (editor_permissions p) (member_permissions p) (str_eq r "admin") (str_eq r "editor")
        (str_eq r "member") (holds "admin" roles) (holds "editor" roles) (holds "member" roles)
