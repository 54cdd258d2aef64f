-- ===== src/Security/Rbac/Policy.antt =====
-- The checks agree with one another and with the order of the roles.
use odooctl.Prelude.{
  ◌≡◌, refl, ◌↔◌, Bool, true, false, ◌||◌, ◌&&◌, not, List, [], ◌∷◌, any, arith, leb, ◌≤◌,
  if◌then◌else◌, ◌∙◌,
}
use odooctl.Prelude.Results.{ok, err}
use odooctl.Security.Principals.{
  Role, owner, admin, operator, viewer, Principal, role_rank, has_at_least,
}
use odooctl.Security.Rbac.{
  Action, contains, destructive_on_protected, role_actions, roles_allow, is_allowed, require,
  allowed_actions, read, AccessDenied,
}

decide :
    (e f : AccessDenied) (allow prot destructive high : Bool)
    → ((if not allow then err e else if prot && (destructive && not high) then err f else ok tt)
        ≡ ok tt)
      ↔ ((if not allow then false else if prot && destructive then high else true) ≡ true)
decide e f allow prot destructive high = ground arith

-- `require` lets a principal pass exactly where `is_allowed` says so.
pub require_iff :
    (p : Principal) (a : Action) (protected : Bool)
    → (require p a protected ≡ ok tt) ↔ (is_allowed p a protected ≡ true)
unfolding require is_allowed
require_iff p a protected =
    decide _ _ (roles_allow p a) protected (contains destructive_on_protected a)
      (has_at_least p admin)

-- One role's part of the decision.
abbrev role_allows : Role → Action → Bool → Bool
role_allows r a protected = contains (allowed_actions r protected) a

admin_allows :
    (r : Role) (a : Action) → leb 2 (role_rank r) ≡ true → contains (role_actions r) a ≡ true
unfolding role_rank
admin_allows viewer a h = cc
admin_allows operator a h = cc
admin_allows admin read h = refl
admin_allows admin _ h = refl
admin_allows owner read h = refl
admin_allows owner _ h = refl

allowed_role :
    (r : Role) (a : Action)
    → role_allows r a true ≡ (
        contains (role_actions r) a
        && (not (contains destructive_on_protected a) || leb 2 (role_rank r)))
unfolding allowed_actions
allowed_role viewer read = refl
allowed_role viewer _ = refl
allowed_role operator read = refl
allowed_role operator _ = refl
allowed_role admin read = refl
allowed_role admin _ = refl
allowed_role owner read = refl
allowed_role owner _ = refl

allowed_role_open : (r : Role) (a : Action) → role_allows r a false ≡ contains (role_actions r) a
unfolding allowed_actions
allowed_role_open r a = refl

high_allows :
    (a : Action) (rs : List Role)
    → any (λ r. leb 2 (role_rank r)) rs ≡ true
    → any (λ r. contains (role_actions r) a) rs ≡ true
high_allows a [] h = h
high_allows a (r ∷ rs) h =
    ored (leb 2 (role_rank r)) (contains (role_actions r) a) _ _ (admin_allows r a)
      (high_allows a rs) h
  where
    ored :
        (x y u v : Bool)
        → (x ≡ true → y ≡ true)
        → (u ≡ true → v ≡ true)
        → (x || u) ≡ true
        → (y || v) ≡ true
    ored true y u v f g h = rw (f refl)
    ored false true u v f g h = refl
    ored false false u v f g h = g h

-- One more role, where `a` allows, `h` is high and `r` is the role's part of the decision.
one_more :
    (d a h r al hs rs : Bool)
    → (h ≡ true → a ≡ true)
    → (hs ≡ true → al ≡ true)
    → r ≡ (a && (not d || h))
    → (if not al then false else if d then hs else true) ≡ rs
    → (if not (a || al) then false else if d then h || hs else true) ≡ (r || rs)
one_more d a h r al hs rs f g e k = ground arith

any_role :
    (a : Action) (rs : List Role)
    → (if not (any (λ r. contains (role_actions r) a) rs)
        then false
        else if contains destructive_on_protected a
        then any (λ r. leb 2 (role_rank r)) rs
        else true)
      ≡ any (λ r. role_allows r a true) rs
any_role a [] = refl
any_role a (r ∷ rs) =
    one_more _ _ _ _ _ _ _ (admin_allows r a) (high_allows a rs) (allowed_role r a) (any_role a rs)

open_role :
    (a : Action) (rs : List Role)
    → any (λ r. contains (role_actions r) a) rs ≡ any (λ r. role_allows r a false) rs
unfolding allowed_actions
open_role a rs = refl

if_same : (b : Bool) → (if not b then false else true) ≡ b
if_same b = ground arith

-- A principal may perform an action exactly where one of its roles allows it: the sets that
-- `allowed_actions` gives, role by role, are the whole of the decision, protected or not.
pub is_allowed-any :
    (p : Principal) (a : Action) (protected : Bool)
    → is_allowed p a protected ≡ any (λ r. contains (allowed_actions r protected) a) p.roles
unfolding is_allowed
is_allowed-any p a true = any_role a p.roles
is_allowed-any p a false = if_same (roles_allow p a) ∙ open_role a p.roles

allowed_step :
    (a : Action) (protected : Bool)
    → role_allows viewer a protected ≡ true
    → role_allows operator a protected ≡ true
unfolding allowed_actions
allowed_step read true h = refl
allowed_step read false h = refl
allowed_step a true h = ground arith
allowed_step a false h = ground arith

admin_all : (a : Action) (protected : Bool) → role_allows admin a protected ≡ true
unfolding allowed_actions
admin_all read true = refl
admin_all _ true = refl
admin_all read false = refl
admin_all _ false = refl

owner_all : (a : Action) (protected : Bool) → role_allows owner a protected ≡ true
unfolding allowed_actions
owner_all read true = refl
owner_all _ true = refl
owner_all read false = refl
owner_all _ false = refl

-- A role that ranks at least as high may do at least as much, protected or not.
pub allowed_actions_mono :
    (r r' : Role) (a : Action) (protected : Bool)
    → role_rank r ≤ role_rank r'
    → contains (allowed_actions r protected) a ≡ true
    → contains (allowed_actions r' protected) a ≡ true
unfolding role_rank
allowed_actions_mono viewer viewer a protected le h = h
allowed_actions_mono viewer operator a protected le h = allowed_step a protected h
allowed_actions_mono r admin a protected le h = admin_all a protected
allowed_actions_mono r owner a protected le h = owner_all a protected
allowed_actions_mono operator operator a protected le h = h
allowed_actions_mono r r' a protected le h = absurd (omega arith)
