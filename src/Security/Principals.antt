-- ===== src/Security/Principals.antt =====
-- Roles and principals (odooctl/security/principals.py).
pub mod Greatest
use Prim.Native.Char.{Char, code}
use Prim.Native.String.{◌++◌}
use odooctl.Prelude.{
  ℕ, String, Bool, List, [], ◌∷◌, Option, none, some, any, leb, ltb, eqb, if◌then◌else◌, ◌==◌, ◌&&◌,
  ◌||◌, true,
}

pub data Role : Type 0 where
  owner admin operator viewer : Role

abbrev pub role_value : Role → String
role_value owner = "owner"
role_value admin = "admin"
role_value operator = "operator"
role_value viewer = "viewer"

-- `Role(value)`, or ValueError
abbrev pub role_of : String → Option Role
role_of value =
    if value == "owner"
    then some owner
    else if value == "admin"
    then some admin
    else if value == "operator"
    then some operator
    else if value == "viewer"
    then some viewer
    else none

unfoldable pub role_rank : Role → ℕ
role_rank viewer = 0
role_rank operator = 1
role_rank admin = 2
role_rank owner = 3

pub data PrincipalKind : Type 0 where
  user service token : PrincipalKind

abbrev pub principal_kind_value : PrincipalKind → String
principal_kind_value user = "user"
principal_kind_value service = "service"
principal_kind_value token = "token"

-- `User`: its fields that a principal is made of
pub record Account : Type 0 where
  pub id : String
  pub org_id : String
  pub name : String
  pub email : String

-- The roles are a set: only membership and the greatest are asked for.
pub record Principal : Type 0 where
  pub id : String
  pub org_id : String
  pub kind : PrincipalKind
  pub roles : List Role
  pub display : String

unfoldable pub has_role : Principal → Role → Bool
unfolding role_rank
has_role p role = any (λ r. eqb (role_rank r) (role_rank role)) p.roles

-- `max(roles, key=role_rank)`, the first of the greatest
max_of : Role → List Role → Role
max_of best [] = best
max_of best (r ∷ rs) = max_of (if ltb (role_rank best) (role_rank r) then r else best) rs

max_of_roles : List Role → Option Role
max_of_roles [] = none
max_of_roles (r ∷ rs) = some (max_of r rs)

unfoldable pub max_role : Principal → Option Role
unfolding max_of max_of_roles role_rank
max_role p = max_of_roles p.roles

unfoldable pub has_at_least : Principal → Role → Bool
unfolding role_rank
has_at_least p role = any (λ r. leb (role_rank role) (role_rank r)) p.roles

unfoldable pub identity : Principal → String
identity p = principal_kind_value p.kind ++ (":" ++ (p.id ++ ("@" ++ p.org_id)))

-- `a or b`
abbrev or_text : String → String → String
or_text a b = if a == "" then b else a

unfoldable pub for_user : Account → List Role → Principal
for_user u roles = record {
  id = u.id;
  org_id = u.org_id;
  kind = user;
  roles = roles;
  display = or_text u.name (or_text u.email u.id);
}

unfoldable pub service_principal : String → String → List Role → Principal
service_principal id org_id roles = record {
  id = id;
  org_id = org_id;
  kind = service;
  roles = roles;
  display = id;
}

between : ℕ → ℕ → ℕ → Bool
between lo hi c = leb lo c && leb c hi

-- The characters that `str.strip` takes away.
unfoldable pub is_space : Char → Bool
unfolding between
is_space c =
    between 9 13 (code c)
    || (between 28 32 (code c)
        || (between 8192 8202 (code c)
            || any (λ n. eqb n (code c))
                (133 ∷ 160 ∷ 5760 ∷ 8232 ∷ 8233 ∷ 8239 ∷ 8287 ∷ 12288 ∷ [])))

strip_left : String → String
strip_left String.[] = ""
strip_left (String.◌∷◌ c s) = let rest = strip_left s in if is_space c then rest else String.◌∷◌ c s

-- A character in front of what is left of a text, where anything is or it is no space itself.
abbrev kept_before : Char → String → String
kept_before c String.[] = if is_space c then "" else String.◌∷◌ c ""
kept_before c (String.◌∷◌ d s) = String.◌∷◌ c (String.◌∷◌ d s)

strip_right : String → String
strip_right String.[] = ""
strip_right (String.◌∷◌ c s) = kept_before c (strip_right s)

unfoldable pub strip : String → String
unfolding is_space strip_left strip_right
strip s = strip_right (strip_left s)

abbrev username : Option String → String
username none = "unknown"
username (some name) = name

-- The arguments are the value of ODOOCTL_ACTOR, `""` where it is not set, and what
-- `getpass.getuser()` gives, unless it raises OSError.
unfoldable pub local_actor : String → Option String → String
unfolding strip
local_actor actor getuser = if strip actor == "" then "local:" ++ username getuser else strip actor
