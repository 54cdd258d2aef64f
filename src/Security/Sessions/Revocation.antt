-- ===== src/Security/Sessions/Revocation.antt =====
-- A revoked session is gone, and only that one.
use odooctl.Prelude.{
  ℕ, String, ◌≡◌, ◌≢◌, refl, sym, ap, Bool, true, false, not, ◌||◌, ◌==◌, eq_iff, ==_false, Option,
  none, [], ◌∷◌, filter, length, length-filter-le, eqb_iff, arith, Bool-cases, inl, inr, if_ind,
}
use odooctl.Security.Sessions.{SessionRecord, Store, find_record, get, revoke, is_kept, keep_hash}

-- What drops nothing changes nothing.
filter_all :
    (p : SessionRecord → Bool) (rs : Store) → length (filter p rs) ≡ length rs → filter p rs ≡ rs
filter_all p [] e = refl
filter_all p (r ∷ rs) e = elim (Bool-cases (p r)) [
  | inl keep ↦ rw keep (ap (λ x. r ∷ x) (filter_all p rs (keep_tail keep)))
  | inr drop ↦ absurd (shorter drop)
]
  where
    keep_tail : p r ≡ true → length (filter p rs) ≡ length rs
    keep_tail h = ground (arith, e)

    shorter : p r ≡ false → ⊥
    shorter h = ground (arith, e, length-filter-le p rs)

-- Looking up a digest in a filtered store, where the filter keeps all records of that digest, or
-- none.
find-filter_keep :
    (h : String) (p : SessionRecord → Bool) (rs : Store)
    → ((r : SessionRecord) → (r.sid_hash == h) ≡ true → p r ≡ true)
    → find_record h (filter p rs) ≡ find_record h rs
find-filter_keep h p [] k = refl
find-filter_keep h p (r ∷ rs) k = ground (arith, k r, find-filter_keep h p rs k)

find-filter_drop :
    (h : String) (p : SessionRecord → Bool) (rs : Store)
    → ((r : SessionRecord) → (r.sid_hash == h) ≡ true → p r ≡ false)
    → find_record h (filter p rs) ≡ none
find-filter_drop h p [] k = refl
find-filter_drop h p (r ∷ rs) k = ground (arith, k r, find-filter_drop h p rs k)

module _ (digest : String → String) where
  revoked :
      (sid : String) (rs : Store)
      → (revoke digest sid rs).1 ≡ filter (λ r. not (r.sid_hash == digest sid)) rs
  unfolding revoke
  revoked sid rs =
      if_ind {A = Bool × Store} (λ out. out.1 ≡ filter (λ r. not (r.sid_hash == digest sid)) rs) _ _
        _ (λ same. sym (filter_all _ rs ((eqb_iff _ _).0 same))) (λ _. refl)

  -- After a revocation the session is not found, at any time.
  pub revoke-get :
      (sid : String) (current : ℕ) (rs : Store)
      → get digest sid current (revoke digest sid rs).1 ≡ none
  unfolding get
  revoke-get sid current rs =
      rw (revoked sid rs)
        (rw (find-filter_drop (digest sid) (λ r. not (r.sid_hash == digest sid)) rs (λ r h. rw h)))

  -- A revocation leaves every session with another digest as it was.
  pub revoke-get_ne :
      (sid other : String) (current : ℕ) (rs : Store)
      → digest sid ≢ digest other
      → get digest other current (revoke digest sid rs).1 ≡ get digest other current rs
  unfolding get
  revoke-get_ne sid other current rs ne = rw (revoked sid rs) (
      rw (
        find-filter_keep (digest other) (λ r. not (r.sid_hash == digest sid)) rs
          (λ r h. kept_other (r.sid_hash) h)))
    where
      kept_other : (x : String) → (x == digest other) ≡ true → not (x == digest sid) ≡ true
      kept_other x h =
          rw ((eq_iff x (digest other)).0 h)
            (rw (==_false (digest other) (digest sid) (λ e. ne (sym e))))

module _ (digest : String → String) where
  abbrev pub survives : String → Option String → SessionRecord → Bool
  survives user_id keep_sid r = not (r.user_id == user_id) || is_kept (keep_hash digest keep_sid) r
