-- ===== src/Tests/Stores.antt =====
-- Redis and PyJWT by functions, which show that the interfaces can be met.
use know_gate.Prelude.{
  ℕ, ◌+◌, ◌≤◌, ◌<◌, ◌≡◌, refl, ◌∙◌, ap, String, Bool, true, false, Option, none, some, [], str_eq,
  eq_refl, ltb, ltb→lt, subst, leb, if◌then◌else◌, arith, length, Bool-cases, inl, inr,
}
use know_gate.Prelude.Dict.{Dict, put}
use know_gate.Db.Table.{delete_where}
use know_gate.Cache.Redis.{Redis}
use know_gate.Cache.RateLimit.{SortedSets}
use know_gate.Cache.Helpers.{Json}
use know_gate.Auth.Jwt.{
  Pyjwt, Claims, Verified, verified, token_error, token_expired, invalid_token,
}

-- A key holds a text with the time at which it goes, if it has one.
abbrev Entries : Type 0
Entries = String → Option (String × Option ℕ)

abbrev alive : ℕ → Option (String × Option ℕ) → Option String
alive now none = none
alive now (some (v, none)) = some v
alive now (some (v, some t)) = if ltb now t then some v else none

abbrev at : String → Option (String × Option ℕ) → Entries → Entries
at k e s = λ j. if str_eq k j then e else s j

pub alive-at :
    (now : ℕ) (k j : String) (e : Option (String × Option ℕ)) (s : Entries)
    → alive now (at k e s j) ≡ (if str_eq k j then alive now e else alive now (s j))
alive-at now k j e s = elim (Bool-cases (str_eq k j)) [ inl t ↦ rw t refl | inr f ↦ rw f refl ]

abbrev pub memory : Redis
memory = record {
  Store = Entries;
  get = λ now k s. alive now (s k);
  setex = λ now k v ttl s. at k (some (v, some (now + ttl))) s;
  set = λ k v s. at k (some (v, none)) s;
  delete = λ now k s. at k none s;
  get-setex = λ now later k j v ttl s le. alive-at later k j (some (v, some (now + ttl))) s;
  get-set = λ now k j v s. alive-at now k j (some (v, none)) s;
  get-delete = λ now later k j s le. alive-at later k j none s;
}

abbrev pub no_entries : Entries
no_entries = λ k. none

abbrev ZSet : Type 0
ZSet = Dict ℕ × Option ℕ

abbrev current : ℕ → ZSet → ZSet
current now (d, none) = (d, none)
current now (d, some t) = if ltb now t then (d, some t) else ([], none)

abbrev zat : String → ZSet → (String → ZSet) → String → ZSet
zat k e s = λ j. if str_eq k j then e else s j

pub zat-same : (k : String) (e : ZSet) (s : String → ZSet) → zat k e s k ≡ e
zat-same k e s = rw (eq_refl k) refl

-- To change the members of a set that is there keeps its time.
pub kept :
    (now : ℕ) (f : Dict ℕ → Dict ℕ) (x : ZSet)
    → (current now (f (current now x).0, (current now x).1)).0 ≡ f (current now x).0
kept now f (d, none) = refl
kept now f (d, some t) = elim (Bool-cases (ltb now t)) [
  | inl e ↦ rw (e, e) refl
  | inr e ↦ rw e refl
]

pub lasts :
    (later t : ℕ) (d : Dict ℕ) → (current later (d, some t)).0 ≡ (if ltb later t then d else [])
lasts later t d = elim (Bool-cases (ltb later t)) [ inl e ↦ rw e refl | inr e ↦ rw e refl ]

abbrev pub sorted_sets : SortedSets
sorted_sets = record {
  Store = String → ZSet;
  entries = λ now k s. (current now (s k)).0;
  zremrangebyscore = λ now k max s.
      let x = current now (s k) in zat k (delete_where (λ e. leb e.1 max) x.0, x.1) s;
  zadd = λ now k member score s. let x = current now (s k) in zat k (put member score x.0, x.1) s;
  expire = λ now k ttl s. zat k ((current now (s k)).0, some (now + ttl)) s;
  zcard = λ now k s. length (current now (s k)).0;
  entries-zremrangebyscore = λ now k max s.
      ap (λ x. (current now x).0) (zat-same k _ s)
      ∙ kept now (delete_where (λ e. leb e.1 max)) (s k);
  entries-zadd = λ now k member score s.
      ap (λ x. (current now x).0) (zat-same k _ s) ∙ kept now (put member score) (s k);
  entries-expire = λ now later k ttl s le.
      ap (λ x. (current later x).0) (zat-same k _ s)
      ∙ lasts later (now + ttl) (current now (s k)).0;
  zcard-eq = λ now k s. refl;
}

-- A token is its claims.
abbrev check_times : ℕ → Claims → Verified
check_times now c =
    if ltb now c.nbf
    then token_error invalid_token
    else if ltb now c.exp
    then verified c
    else token_error token_expired

picked :
    (a b : Bool) (t c : Claims)
    → (if a then token_error invalid_token else if b then verified t else token_error token_expired)
      ≡ verified c
    → (a ≡ false) × (b ≡ true) × (t ≡ c)
picked true b t c e = cc e
picked false true t c e = (refl, refl, cc e)
picked false false t c e = cc e

pub same_token : (now : ℕ) (t c : Claims) → check_times now t ≡ verified c → t ≡ c
same_token now t c e = (picked (ltb now t.nbf) (ltb now t.exp) t c e).2

pub now-checked :
    (now : ℕ) (c : Claims) → c.nbf ≤ now → now < c.exp → check_times now c ≡ verified c
now-checked now c le lt = ground arith

pub before-checked : (now : ℕ) (t c : Claims) → check_times now t ≡ verified c → now < c.exp
before-checked now t c e =
    let (a, b, same) = picked (ltb now t.nbf) (ltb now t.exp) t c e in
    subst (λ d. now < d.exp) same (ltb→lt now t.exp b)

pub later-checked :
    (now later : ℕ) (t c : Claims)
    → check_times now t ≡ verified c
    → now ≤ later
    → check_times later t ≡ (if ltb later c.exp then verified c else token_error token_expired)
later-checked now later t c e le =
    let (a, b, same) = picked (ltb now t.nbf) (ltb now t.exp) t c e in
    subst
      (λ d.
        check_times later t ≡ (if ltb later d.exp then verified d else token_error token_expired))
      same (ground (arith, a, le))

abbrev pub open_tokens : Pyjwt
open_tokens = record {
  Token = Claims;
  encode = λ c. c;
  decode = check_times;
  decode-encode = now-checked;
  decode-before_exp = before-checked;
  decode-later = later-checked;
}

abbrev pub flag : Json Bool
flag = record {
  dumps = λ b. if b then "true" else "false";
  loads = λ s. if str_eq s "true" then some true else if str_eq s "false" then some false else none;
}
