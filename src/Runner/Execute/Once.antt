-- ===== src/Runner/Execute/Once.antt =====
-- A token is executed once.
use odooctl.Prelude.{
  ℕ, ◌+◌, ◌*◌, ◌≤◌, ◌<◌, String, ◌≡◌, ◌≢◌, sym, ap, subst, ◌∙◌, inl, inr, true, Option, none, some,
  List, [], ◌∷◌, All, arith, Bool-cases, ltb,
}
use odooctl.Prelude.Exec.{ok}
use odooctl.Prelude.Results.{ok-injective}
use odooctl.Queue.{QueueEntry}
use odooctl.Runner.Guards.{expires_at, timestamp, end_of_time}
use odooctl.Runner.Nonces.{text, scalar, nonce_of, consume, retained_until}
use odooctl.Runner.Nonces.Reuse.{IsBlocked, consume-refused, consumed-IsBlocked}
use odooctl.Runner.Execute.{State, Host, Clock, Dispatch, verify_entry, execute_entry}
use odooctl.Runner.Execute.Guarded.{Admitted, execute_entry-Admitted}
use odooctl.Runner.Execute.Kept.{execute_entry-IsBlocked, execute_entry-nonces}
use odooctl.Security.Tokens.{Claims, claim, object, int_of, is_live, split_dots, Decoded}

-- Where a live token's expiry is read, it is a time after the clock.
expiry_after :
    (o : Option ℕ) (current : ℕ) (expiry : Option ℕ)
    → is_live current o ≡ true
    → timestamp o ≡ ok expiry
    → (e : ℕ) × (expiry ≡ some e) × ((current + 1) * 1_000_000 ≤ e)
expiry_after none current expiry live h = cc
expiry_after (some n) current expiry live h = elim (Bool-cases (ltb n end_of_time)) [
  | inl soon ↦
      let before : current < n = ground arith in
      (n * 1_000_000, sym (ok-injective (rw soon at h)), omega arith)
  | inr late ↦ cc (rw late at h)
]

-- The time up to which a nonce is retained is no earlier than its token's expiry.
retained-expiry : (now e : ℕ) → e ≤ retained_until now (some e)
retained-expiry now e = ground arith

second-injective :
    {x y z x' y' z' : String} → Path (List String) (x ∷ y ∷ z ∷ []) (x' ∷ y' ∷ z' ∷ []) → y ≡ y'
second-injective h = cc

object-injective : {p q : Claims} → Path Decoded (object p) (object q) → p ≡ q
object-injective h = cc

-- A run of another entry.
pub record Run (Params : Type 0) : Type 0 where
  pub dispatch : Dispatch Params
  pub entry : QueueEntry Params
  pub clock : Clock

module _ {Params : Type 0} (host : Host Params) where
  abbrev pub execute_all : List (Run Params) → State Params → State Params
  execute_all [] s = s
  execute_all (r ∷ rs) s = execute_all rs (execute_entry host r.clock r.dispatch r.entry s).1

  -- A run that reads the clock no later than `limit`, and whose payload does not write the name as a
  -- value that is no text.
  abbrev pub IsEarlier : String → ℕ → Run Params → Type 0
  IsEarlier name limit r =
      (r.clock.consumed ≤ limit)
      × ((payload : Claims)
          → verify_entry host r.clock r.entry ≡ ok payload
          → nonce_of (claim "nonce" payload) ≢ scalar name)

  execute_all-IsBlocked :
      (rs : List (Run Params)) (name : String) (limit now : ℕ) (s : State Params)
      → now ≤ limit
      → All (IsEarlier name now) rs
      → IsBlocked name limit s.nonces
      → IsBlocked name limit (execute_all rs s).nonces
  execute_all-IsBlocked [] name limit now s h a b = b
  execute_all-IsBlocked (r ∷ rs) name limit now s h a b =
      execute_all-IsBlocked rs name limit now (execute_entry host r.clock r.dispatch r.entry s).1 h
        a.1
        (execute_entry-IsBlocked host r.clock r.dispatch r.entry name limit s b
          (omega (arith, a.0.0)) a.0.1)

  -- Two admitted entries with one token have one payload.
  same_payload :
      (entry again : QueueEntry Params) (clock after : Clock) (s s' : State Params)
      (a : Admitted host clock entry s) (a' : Admitted host after again s')
      → again.token ≡ entry.token
      → a'.payload ≡ a.payload
  same_payload entry again clock after s s' a a' same =
      let (header, body, parts, decoded) = a.signed in
      let (header', body', parts', decoded') = a'.signed in
      let body_eq = second-injective (sym parts' ∙ (ap split_dots same ∙ parts)) in
      object-injective (sym decoded' ∙ (ap host.codec.decode body_eq ∙ decoded))

  -- The nonce of an admitted entry is blocked until its token has expired.
  admitted-IsBlocked :
      (d : Dispatch Params) (entry : QueueEntry Params) (clock : Clock) (s : State Params)
      (name : String) (a : Admitted host clock entry s)
      → nonce_of (claim "nonce" a.payload) ≡ text name
      → IsBlocked name
          (retained_until clock.consumed a.expiry)
          (execute_entry host clock d entry s).1.nonces
  admitted-IsBlocked d entry clock s name a named =
      rw (execute_entry-nonces host clock d entry s a) (
        rw named (
          consumed-IsBlocked name a.expiry clock.consumed s.nonces
            (subst (λ n. (consume n a.expiry clock.consumed s.nonces).0 ≡ ok true) named a.fresh)))

  -- An entry with the token of one that was admitted before is not admitted.
  not-Admitted :
      (entry again : QueueEntry Params) (clock after : Clock) (s s' : State Params) (name : String)
      (a : Admitted host clock entry s)
      → nonce_of (claim "nonce" a.payload) ≡ text name
      → again.token ≡ entry.token
      → after.consumed ≤ (after.verified + 1) * 1_000_000
      → (after.consumed ≤ retained_until clock.consumed a.expiry
          → IsBlocked name (retained_until clock.consumed a.expiry) s'.nonces)
      → ¬ Admitted host after again s'
  unfolding expires_at
  not-Admitted entry again clock after s s' name a named same prompt blocked a' =
      let p = same_payload entry again clock after s s' a a' same in
      let (e, expiry_eq, in_time) =
        expiry_after (int_of (claim "exp" a.payload)) after.verified a.expiry
          (subst (λ q. is_live after.verified (int_of (claim "exp" q)) ≡ true) p a'.alive)
          a.expires in
      let within : after.consumed ≤ retained_until clock.consumed a.expiry =
        rw expiry_eq (omega (arith, retained-expiry clock.consumed e)) in
      let named' = ap (λ q. nonce_of (claim "nonce" q)) p ∙ named in
      let accepted =
        subst (λ n. (consume n a'.expiry after.consumed s'.nonces).0 ≡ ok true) named' a'.fresh in
      cc (
        accepted,
        consume-refused name (retained_until clock.consumed a.expiry) after.consumed a'.expiry
            s'.nonces (blocked within) within,
      )

  -- A token is executed once. Where an execution admitted an entry and the nonce of its token is a
  -- text: after any further executions of any entries, an execution of an entry with the same token
  -- does not run its body, whatever the body would do. It is supposed that the earlier executions
  -- read the clock no later, and do not pass a signed value that is no text but is written as that
  -- nonce, and that the check of the token and that of the nonce fall into one second.
  pub execute_once :
      (first d d' : Dispatch Params) (entry again : QueueEntry Params) (clock after : Clock)
      (s : State Params) (name : String) (rs : List (Run Params)) (a : Admitted host clock entry s)
      → nonce_of (claim "nonce" a.payload) ≡ text name
      → again.token ≡ entry.token
      → All (IsEarlier name after.consumed) rs
      → after.consumed ≤ (after.verified + 1) * 1_000_000
      → let s' = execute_all rs (execute_entry host clock first entry s).1 in
        execute_entry host after d again s' ≡ execute_entry host after d' again s'
  execute_once first d d' entry again clock after s name rs a named same earlier prompt =
      let s' = execute_all rs (execute_entry host clock first entry s).1 in
      elim (execute_entry-Admitted host after d d' again s') [
        | inl a' ↦ absurd (
            not-Admitted entry again clock after s s' name a named same prompt
              (λ within.
                execute_all-IsBlocked rs name (retained_until clock.consumed a.expiry)
                  after.consumed (execute_entry host clock first entry s).1 within earlier
                  (admitted-IsBlocked first entry clock s name a named))
              a')
        | inr equal ↦ equal
      ]
