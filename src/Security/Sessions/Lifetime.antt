-- ===== src/Security/Sessions/Lifetime.antt =====
-- A session lives from its creation to its expiry.
use odooctl.Prelude.{
  ℕ, ◌+◌, ◌≤◌, String, ◌≡◌, ◌≢◌, refl, Bool, ◌==◌, eq_iff, eq_refl, ==_false, Option, none, some,
  [], ◌∷◌, ◌++◌, All, filter, ltb, if◌then◌else◌, arith, Bool-cases, if_ind, inl, inr, subst,
}
use odooctl.Prelude.Results.{ok}
use odooctl.Security.Sessions.{SessionRecord, Store, find_record, live_at, session, create, get}

-- No two records have the same digest.
abbrev pub IsUnique : Store → Type 0
IsUnique [] = Unit
IsUnique (r ∷ rs) = All (λ q. q.sid_hash ≢ r.sid_hash) rs × IsUnique rs

find-none : (h : String) (rs : Store) → All (λ q. q.sid_hash ≢ h) rs → find_record h rs ≡ none
find-none h [] a = refl
find-none h (r ∷ rs) a = rw (==_false r.sid_hash h a.0) (find-none h rs a.1)

find-append :
    (h : String) (rs : Store) (r : SessionRecord)
    → r.sid_hash ≢ h
    → find_record h (rs ++ r ∷ []) ≡ find_record h rs
find-append h [] r other = rw (==_false r.sid_hash h other)
find-append h (q ∷ rs) r other = ground (arith, find-append h rs r other)

find-append_self :
    (h : String) (rs : Store) (r : SessionRecord)
    → All (λ q. q.sid_hash ≢ h) rs
    → r.sid_hash ≡ h
    → find_record h (rs ++ r ∷ []) ≡ some r
find-append_self h [] r a e = rw e (rw (eq_refl h))
find-append_self h (q ∷ rs) r a e = rw (==_false q.sid_hash h a.0) (find-append_self h rs r a.1 e)

All-filter :
    (P : SessionRecord → Type 0) (p : SessionRecord → Bool) (rs : Store)
    → All P rs
    → All P (filter p rs)
All-filter P p [] a = tt
All-filter P p (r ∷ rs) a =
    if_ind (All P) (p r) (r ∷ filter p rs) (filter p rs) (λ _. (a.0, All-filter P p rs a.1))
      (λ _. All-filter P p rs a.1)

abbrev pub kept : (SessionRecord → Bool) → Option SessionRecord → Option SessionRecord
kept p none = none
kept p (some r) = if p r then some r else none

-- Looking up in what is kept of a store.
pub find-filter :
    (h : String) (p : SessionRecord → Bool) (rs : Store)
    → IsUnique rs
    → find_record h (filter p rs) ≡ kept p (find_record h rs)
find-filter h p [] u = refl
find-filter h p (r ∷ rs) u = elim (Bool-cases (r.sid_hash == h)) [
  | inl same ↦ elim (Bool-cases (p r)) [
    | inl keep ↦ rw (same, keep) (rw same)
    | inr drop ↦
        let e = (eq_iff r.sid_hash h).0 same in
        rw (same, drop)
          (find-none h (filter p rs) (
            All-filter (λ q. q.sid_hash ≢ h) p rs
              (subst (λ x. All (λ q. q.sid_hash ≢ x) rs) e u.0)))
  ]
  | inr other ↦ ground (arith, other, find-filter h p rs u.1)
]

live_at-kept :
    (issued current : ℕ) (o : Option SessionRecord)
    → issued ≤ current
    → live_at current (kept (λ r. ltb issued r.expires_at) o) ≡ live_at current o
live_at-kept issued current none le = refl
live_at-kept issued current (some r) le = ground arith

module _ (digest : String → String) where
  created :
      (user_id sid : String) (ttl issued : ℕ) (records records' : Store)
      → create digest user_id ttl sid issued records ≡ ok (sid, records')
      → records'
        ≡ filter (λ r. ltb issued r.expires_at) records
          ++ session digest user_id ttl sid issued ∷ []
  unfolding create
  created user_id sid ttl issued records records' h = ground arith

  -- A session that is created is found under its id, with its user, exactly while the clock is
  -- before its expiry; the digest of its random id must be new to the store.
  pub create-get :
      (user_id sid : String) (ttl issued current : ℕ) (records records' : Store)
      → All (λ q. q.sid_hash ≢ digest sid) records
      → create digest user_id ttl sid issued records ≡ ok (sid, records')
      → get digest sid current records' ≡ (
          if ltb current (issued + ttl) then some (session digest user_id ttl sid issued) else none)
  unfolding get
  create-get user_id sid ttl issued current records records' fresh h =
      rw (created user_id sid ttl issued records records' h) (
        rw (
          find-append_self (digest sid) (filter (λ r. ltb issued r.expires_at) records)
            (session digest user_id ttl sid issued)
            (All-filter (λ q. q.sid_hash ≢ digest sid) (λ r. ltb issued r.expires_at) records fresh)
            refl))

  -- In a store without two records of one digest, creating a session changes nothing that is found,
  -- from then on, of a session with another digest: only records that have expired are dropped.
  pub create-get_ne :
      (user_id sid other : String) (ttl issued current : ℕ) (records records' : Store)
      → IsUnique records
      → digest sid ≢ digest other
      → issued ≤ current
      → create digest user_id ttl sid issued records ≡ ok (sid, records')
      → get digest other current records' ≡ get digest other current records
  unfolding get
  create-get_ne user_id sid other ttl issued current records records' unique ne le h =
      rw (created user_id sid ttl issued records records' h) (
        rw
          (find-append (digest other) (filter (λ r. ltb issued r.expires_at) records)
            (session digest user_id ttl sid issued) ne)
          (rw (find-filter (digest other) (λ r. ltb issued r.expires_at) records unique)
            (live_at-kept issued current (find_record (digest other) records) le)))
