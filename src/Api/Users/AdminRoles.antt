-- ===== src/Api/Users/AdminRoles.antt =====
-- How changes of the table `roles` (backend/app/api/v1/roles.py) bear on the roles named `admin` and
-- on the ids being distinct.
use know_gate.Prelude.{
  ◌≤◌, ◌<◌, ◌≡◌, refl, ap, String, Bool, true, false, ◌||◌, none, some, List, [], ◌∷◌, ◌++◌, str_eq,
  eq_iff, arith, Bool-cases, inl, inr, All,
}
use know_gate.Prelude.Dict.{has, Distinct}
use know_gate.Db.{Role}
use know_gate.Db.Table.{find?, update_where, delete_where, count_where}
use know_gate.Api.Users.Links.{role_ids, admin_roles}

abbrev OnlyRow : String → Role → List Role → Type 0
OnlyRow rid role roles = All (λ r. str_eq r.id rid ≡ true → r ≡ role) roles

pub admin_roles-append :
    (roles : List Role) (new : Role) (b : String)
    → admin_roles roles b ≤ admin_roles (roles ++ new ∷ []) b
unfolding count_where
admin_roles-append [] new b = omega arith
admin_roles-append (r ∷ roles) new b = omega (arith, admin_roles-append roles new b)

pub admin_roles-eq-zero :
    (rid : String) (role : Role) (roles : List Role)
    → OnlyRow rid role roles
    → str_eq role.name "admin" ≡ false
    → admin_roles roles rid ≡ 0
unfolding count_where
admin_roles-eq-zero rid role [] o h = refl
admin_roles-eq-zero rid role (r ∷ roles) o h =
    ground (arith, o.0, admin_roles-eq-zero rid role roles o.1 h)

pub admin_roles-pos :
    (rid : String) (role : Role) (roles : List Role)
    → find? (λ r. str_eq r.id rid) roles ≡ some role
    → str_eq role.name "admin" ≡ true
    → 0 < admin_roles roles rid
unfolding count_where find?
admin_roles-pos rid role [] h k = cc
admin_roles-pos rid role (r ∷ roles) h k = ground (arith, admin_roles-pos rid role roles)

-- An update of the one row with the id that keeps an admin's name.
pub admin_roles-update :
    (rid b : String) (role : Role) (f : Role → Role) (roles : List Role)
    → ((r : Role) → (f r).id ≡ r.id)
    → OnlyRow rid role roles
    → (str_eq role.name "admin" ≡ true → (f role).name ≡ role.name)
    → admin_roles roles b ≤ admin_roles (update_where (λ r. str_eq r.id rid) f roles) b
unfolding count_where update_where
admin_roles-update rid b role f [] same o keep = omega arith
admin_roles-update rid b role f (r ∷ roles) same o keep = elim (Bool-cases (str_eq r.id rid)) [
  | inl here ↦
      let e : r ≡ role = o.0 here in
      ground (arith, same r, e, ap f e, keep, admin_roles-update rid b role f roles same o.1 keep)
  | inr there ↦ ground (arith, admin_roles-update rid b role f roles same o.1 keep)
]

pub admin_roles-delete :
    (rid b : String) (roles : List Role)
    → str_eq b rid ≡ false
    → admin_roles roles b ≡ admin_roles (delete_where (λ r. str_eq r.id rid) roles) b
unfolding count_where delete_where
admin_roles-delete rid b [] h = refl
admin_roles-delete rid b (r ∷ roles) h =
    ground (arith, eq_iff r.id b, eq_iff r.id rid, eq_iff b rid, admin_roles-delete rid b roles h)

pub no-pair :
    (rid : String) (pairs : List (String × String))
    → count_where (λ p. str_eq p.1 rid) pairs ≡ 0
    → All (λ p. str_eq p.1 rid ≡ false) pairs
unfolding count_where
no-pair rid [] h = tt
no-pair rid (p ∷ pairs) h = ground (arith, no-pair rid pairs)

-- The ids stay distinct.
has-append :
    (b c : String) (roles : List Role) (new : Role)
    → has b (role_ids (roles ++ new ∷ [])) ≡ (has b (role_ids roles) || str_eq new.id b)
unfolding has
has-append b c [] new = ground arith
has-append b c (r ∷ roles) new = ground (arith, has-append b c roles new)

pub append-Distinct :
    (roles : List Role) (new : Role)
    → find? (λ r. str_eq r.id new.id) roles ≡ none
    → Distinct (role_ids roles)
    → Distinct (role_ids (roles ++ new ∷ []))
unfolding has find?
append-Distinct [] new h d = (refl, tt)
append-Distinct (r ∷ roles) new h d = ground (
  arith,
  eq_iff new.id r.id,
  eq_iff r.id new.id,
  has-append r.id r.id roles new,
  append-Distinct roles new,
)

pub role_ids-update :
    (p : Role → Bool) (f : Role → Role) (roles : List Role)
    → ((r : Role) → (f r).id ≡ r.id)
    → role_ids (update_where p f roles) ≡ role_ids roles
unfolding update_where
role_ids-update p f [] same = refl
role_ids-update p f (r ∷ roles) same = ground (arith, same r, role_ids-update p f roles same)

has-delete :
    (p : Role → Bool) (b : String) (roles : List Role)
    → has b (role_ids roles) ≡ false
    → has b (role_ids (delete_where p roles)) ≡ false
unfolding has delete_where
has-delete p b [] h = refl
has-delete p b (r ∷ roles) h = ground (arith, has-delete p b roles)

pub delete-Distinct :
    (p : Role → Bool) (roles : List Role)
    → Distinct (role_ids roles)
    → Distinct (role_ids (delete_where p roles))
unfolding delete_where
delete-Distinct p [] d = tt
delete-Distinct p (r ∷ roles) d = ground (arith, has-delete p r.id roles, delete-Distinct p roles)
