-- ===== src/Security/Sessions.antt =====
-- Browser sessions (odooctl/security/sessions.py). The store's file is the list of its valid
-- records, empty where the file is missing or cannot be read; `digest` is SHA-256, a parameter, and
-- the random session id is an argument.
pub mod Lifetime
pub mod Revocation
use odooctl.Prelude.{
  ℕ, ◌+◌, ◌-◌, ◌*◌, String, Bool, true, false, not, ◌&&◌, ◌||◌, ◌==◌, Option, none, some, List, [],
  ◌∷◌, ◌++◌, filter, length, ltb, eqb, leb, if◌then◌else◌,
}
use odooctl.Prelude.Results.{Result, ok, err}

pub record SessionRecord : Type 0 where
  pub sid_hash : String
  pub user_id : String
  pub created_at : ℕ
  pub expires_at : ℕ

abbrev pub Store : Type 0
Store = List SessionRecord

abbrev pub default_session_ttl_seconds : ℕ
default_session_ttl_seconds = 12 * 3600

-- `if record.sid_hash == wanted`, in the order of the file
abbrev pub find_record : String → Store → Option SessionRecord
find_record wanted [] = none
find_record wanted (r ∷ rs) =
    let rest = find_record wanted rs in if r.sid_hash == wanted then some r else rest

abbrev pub live_at : ℕ → Option SessionRecord → Option SessionRecord
live_at current none = none
live_at current (some r) = if ltb current r.expires_at then some r else none

abbrev pub is_kept : Option String → SessionRecord → Bool
is_kept none r = false
is_kept (some h) r = r.sid_hash == h

module _ (digest : String → String) where
  abbrev pub session : String → ℕ → String → ℕ → SessionRecord
  session user_id ttl_seconds sid issued = record {
    sid_hash = digest sid;
    user_id = user_id;
    created_at = issued;
    expires_at = issued + ttl_seconds;
  }

  -- ValueError, or the id and the file that is written
  unfoldable pub create : String → ℕ → String → ℕ → Store → Result String (String × Store)
  create user_id ttl_seconds sid issued records =
      if leb ttl_seconds 0
      then err "ttl_seconds must be positive"
      else ok (
        sid,
        filter (λ r. ltb issued r.expires_at) records
            ++ session user_id ttl_seconds sid issued ∷ [],
      )

  unfoldable pub get : String → ℕ → Store → Option SessionRecord
  get sid current records = live_at current (find_record (digest sid) records)

  unfoldable pub revoke : String → Store → Bool × Store
  revoke sid records =
      let remaining = filter (λ r. not (r.sid_hash == digest sid)) records in
      if eqb (length remaining) (length records) then (false, records) else (true, remaining)

  -- `_digest(keep_sid) if keep_sid else None`
  abbrev pub keep_hash : Option String → Option String
  keep_hash none = none
  keep_hash (some sid) = if sid == "" then none else some (digest sid)

  unfoldable pub revoke_user : String → Option String → Store → ℕ × Store
  revoke_user user_id keep_sid records =
      let remaining =
        filter (λ r. not (r.user_id == user_id) || is_kept (keep_hash keep_sid) r) records in
      let removed = length records - length remaining in
      if eqb removed 0 then (removed, records) else (removed, remaining)
