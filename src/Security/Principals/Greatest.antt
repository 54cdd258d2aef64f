-- ===== src/Security/Principals/Greatest.antt =====
-- The greatest role held stands for all of them.
use odooctl.Prelude.{
  ◌≡◌, refl, Bool, List, [], ◌∷◌, none, some, any, leb, ltb, arith, if◌then◌else◌,
}
use odooctl.Security.Principals.{
  Role, role_rank, Principal, has_at_least, max_role, max_of, max_of_roles,
}

at_least_max_of :
    (x best : Role) (rs : List Role)
    → any (λ r. leb (role_rank x) (role_rank r)) (best ∷ rs)
      ≡ leb (role_rank x) (role_rank (max_of best rs))
unfolding max_of
at_least_max_of x best [] = ground arith
at_least_max_of x best (r ∷ rs) =
    ground (arith, at_least_max_of x (if ltb (role_rank best) (role_rank r) then r else best) rs)

-- A principal has some role at least as high as `role` exactly if its greatest role is; with no
-- role at all it has none.
pub has_at_least-max_role :
    (p : Principal) (role : Role)
    → has_at_least p role
      ≡ (elim (max_role p) [ none ↦ Bool.false | some m ↦ leb (role_rank role) (role_rank m) ])
unfolding has_at_least max_role
has_at_least-max_role p role = over p.roles
  where
    over :
        (rs : List Role)
        → any (λ r. leb (role_rank role) (role_rank r)) rs ≡ (elim (max_of_roles rs) [
          | none ↦ Bool.false
          | some m ↦ leb (role_rank role) (role_rank m)
        ])
    over [] = refl
    over (r ∷ rs) = at_least_max_of role r rs
