-- ===== src/Security/Tokens/Scope.antt =====
-- A token authorizes what it was minted for, until it expires, and only with the key.
use Prim.Native.Char.{Char, code}
use Prim.Native.String.{◌++◌}
use text.Mathlib.TextLemmas.{nil-append, cons-append, append_assoc}
use odooctl.Prelude.{
  ℕ, ◌+◌, String, ◌≡◌, refl, ap, subst, ◌∙◌, Bool, true, false, not, ◌&&◌, ◌||◌, ◌==◌, eq_iff,
  eq_refl, Option, none, some, List, [], ◌∷◌, ltb, eqb, if◌then◌else◌, arith, Bool-cases, inl, inr,
}
use odooctl.Prelude.Results.{Result, ok, err, ok-injective, ◌>>=◌}
use odooctl.Cutover.Names.{has_char}
use odooctl.Security.Tokens.{
  Codec, Claims, TokenError, expired, scope_error, Decoded, undecodable, not_object, object, str,
  split_dots, dot, claim, int_of, is_live, in_scope, token_of, payload_of, mint, checked,
  verify_parts, verify, is_ascii, compare_digest,
}

-- What the program relies on of base64url and JSON for a payload: it is read back, no part of its token
-- holds a dot, and signatures are ASCII.
pub record IsCodec (codec : Codec) (payload : Claims) : Type 0 where
  pub decode-encode : codec.decode (codec.encode payload) ≡ object payload
  pub plain_header : has_char dot codec.header ≡ false
  pub plain_payload : has_char dot (codec.encode payload) ≡ false
  pub plain_signature : (s : String) → has_char dot (codec.sign s) ≡ false
  pub ascii_signature : (s : String) → is_ascii (codec.sign s) ≡ true

plain_head : (a b : Bool) → (a || b) ≡ false → a ≡ false
plain_head a b h = ground arith

plain_tail : (a b : Bool) → (a || b) ≡ false → b ≡ false
plain_tail a b h = ground arith

one-append : (c : Char) (s : String) → String.◌∷◌ c "" ++ s ≡ String.◌∷◌ c s
one-append c s = cons-append c "" s ∙ ap (String.◌∷◌ c) (nil-append s)

split_dots-plain : (s : String) → has_char dot s ≡ false → split_dots s ≡ s ∷ []
unfolding split_dots has_char
split_dots-plain String.[] h = refl
split_dots-plain (String.◌∷◌ c s) h =
    rw (plain_head (eqb (code c) dot) _ h)
      (rw (split_dots-plain s (plain_tail (eqb (code c) dot) _ h)) (rw one-append refl))

split_dots-append :
    (s rest : String)
    → has_char dot s ≡ false
    → split_dots (s ++ ("." ++ rest)) ≡ s ∷ split_dots rest
unfolding split_dots has_char
split_dots-append String.[] rest h = rw nil-append (rw cons-append (rw nil-append refl))
split_dots-append (String.◌∷◌ c s) rest h = rw cons-append (
    rw (plain_head (eqb (code c) dot) _ h)
      (rw (split_dots-append s rest (plain_tail (eqb (code c) dot) _ h)) (rw one-append refl)))

-- What a token grants for a request, with no word on how tokens are written.
abbrev pub meets : Option String → String → Bool
meets none x = true
meets (some t) x = x == t

abbrev pub granted : {A : Type 0} → Bool → Bool → Bool → Bool → A → Result TokenError A
granted live action environment project a =
    if not live
    then err expired
    else if not action
    then err (scope_error "action")
    else if not environment
    then err (scope_error "environment")
    else if not project
    then err (scope_error "project")
    else ok a

compare_digest_self : (s : String) → is_ascii s ≡ true → compare_digest s s ≡ ok true
unfolding compare_digest
compare_digest_self s h = rw h (ap ok (eq_refl s))

-- What is accepted was the same.
compare_digest_same :
    {A : Type 0} (a b : String) (e : TokenError) (k : Result TokenError A) (v : A)
    → (compare_digest a b >>= λ same. if not same then err e else k) ≡ ok v
    → (a ≡ b) × (k ≡ ok v)
unfolding compare_digest
compare_digest_same a b e k v h = elim (Bool-cases (is_ascii a && is_ascii b)) [
  | inl plain ↦ elim (Bool-cases (a == b)) [
    | inl same ↦ ((eq_iff a b).0 same, rw same at (rw plain at h))
    | inr differs ↦ cc (rw differs at (rw plain at h))
  ]
  | inr foreign ↦ cc (rw foreign at h)
]

granted-ok :
    {A : Type 0} (live action environment project : Bool) (a b : A)
    → granted live action environment project a ≡ ok b
    → (a ≡ b) × (live ≡ true) × (action ≡ true) × (environment ≡ true) × (project ≡ true)
granted-ok true true true true a b h = (ok-injective h, refl, refl, refl, refl)
granted-ok true true true false a b h = cc
granted-ok true true false project a b h = cc
granted-ok true false environment project a b h = cc
granted-ok false action environment project a b h = cc

module _ (codec : Codec) where
  split_token :
      (payload : Claims)
      → IsCodec codec payload
      → split_dots (token_of codec payload)
        ≡ codec.header
          ∷ codec.encode payload
          ∷ codec.sign (codec.header ++ ("." ++ codec.encode payload))
          ∷ []
  split_token payload law =
      let sig = codec.sign (codec.header ++ ("." ++ codec.encode payload)) in
      ap split_dots (
        append_assoc codec.header ("." ++ codec.encode payload) ("." ++ sig)
        ∙ ap (λ t. codec.header ++ t) (append_assoc "." (codec.encode payload) ("." ++ sig)))
      ∙ split_dots-append codec.header (codec.encode payload ++ ("." ++ sig)) law.plain_header
      ∙ ap (λ ps. codec.header ∷ ps)
          (split_dots-append (codec.encode payload) sig law.plain_payload
            ∙ ap (λ ps. codec.encode payload ∷ ps) (split_dots-plain sig (law.plain_signature _)))

  verify-token_of :
      (payload : Claims) (action environment project : Option String) (current : ℕ)
      → IsCodec codec payload
      → verify codec (token_of codec payload) action environment project current
        ≡ checked codec action environment project current (object payload)
  unfolding verify verify_parts
  verify-token_of payload action environment project current law = rw (split_token payload law) (
      rw
        (compare_digest_self (codec.sign (codec.header ++ ("." ++ codec.encode payload)))
          (law.ascii_signature _))
        (rw law.decode-encode refl))

  minted :
      (action environment project nonce : String) (ttl_seconds issued : ℕ) (subject : Option String)
      (extra_claims : Claims) (token : String)
      → mint codec action environment project ttl_seconds subject nonce issued extra_claims
        ≡ ok token
      → token
        ≡ token_of codec
            (payload_of action environment project ttl_seconds subject nonce issued extra_claims)
  unfolding mint
  minted action environment project nonce ttl_seconds issued subject extra_claims token h =
      ground (arith, h)

  in_scope-str : (t : Option String) (x : String) → in_scope t (some (str x)) ≡ meets t x
  in_scope-str none x = refl
  in_scope-str (some t) x = refl

  -- The roundtrip, where the payload's encoding is read back, no part of the token holds a dot and
  -- signatures are ASCII: for every request and time, a minted token is accepted, and gives back its payload,
  -- exactly where it has not expired and each of action, environment and project that the request
  -- names is the one it was minted for; otherwise it is refused for the first of these that fails.
  pub mint-verify :
      (action environment project nonce : String) (ttl_seconds issued current : ℕ)
      (subject wanted_action wanted_environment wanted_project : Option String)
      (extra_claims : Claims) (token : String)
      → IsCodec codec
          (payload_of action environment project ttl_seconds subject nonce issued extra_claims)
      → mint codec action environment project ttl_seconds subject nonce issued extra_claims
        ≡ ok token
      → verify codec token wanted_action wanted_environment wanted_project current
        ≡ granted
            (ltb current (issued + ttl_seconds))
            (meets wanted_action action)
            (meets wanted_environment environment)
            (meets wanted_project project)
            (payload_of action environment project ttl_seconds subject nonce issued extra_claims)
  mint-verify action environment project nonce ttl_seconds issued current subject wanted_action
        wanted_environment wanted_project extra_claims token law h =
      let payload =
        payload_of action environment project ttl_seconds subject nonce issued extra_claims in
      rw (minted action environment project nonce ttl_seconds issued subject extra_claims token h) (
        verify-token_of payload wanted_action wanted_environment wanted_project current law ∙ λ i.
        granted (ltb current (issued + ttl_seconds)) (in_scope-str wanted_action action i)
          (in_scope-str wanted_environment environment i) (in_scope-str wanted_project project i)
          payload)

  abbrev Signed : Option String → Option String → Option String → ℕ → Claims → List String → Type 0
  Signed action environment project current payload parts =
      (header : String) × (body : String) × (parts
        ≡ header ∷ body ∷ codec.sign (header ++ ("." ++ body)) ∷ [])
      × (codec.decode body ≡ object payload)
      × (is_live current (int_of (claim "exp" payload)) ≡ true)
      × (in_scope action (claim "act" payload) ≡ true)
      × (in_scope environment (claim "env" payload) ≡ true)
      × (in_scope project (claim "proj" payload) ≡ true)

  checked-ok :
      (action environment project : Option String) (current : ℕ) (d : Decoded) (payload : Claims)
      → checked codec action environment project current d ≡ ok payload
      → (d ≡ object payload)
        × (is_live current (int_of (claim "exp" payload)) ≡ true)
        × (in_scope action (claim "act" payload) ≡ true)
        × (in_scope environment (claim "env" payload) ≡ true)
        × (in_scope project (claim "proj" payload) ≡ true)
  checked-ok action environment project current undecodable payload h = cc
  checked-ok action environment project current not_object payload h = cc
  checked-ok action environment project current (object p) payload h =
      let (same, live, a, e, j) = granted-ok _ _ _ _ p payload h in
      (
        ap object same,
        subst (λ q. is_live current (int_of (claim "exp" q)) ≡ true) same live,
        subst (λ q. in_scope action (claim "act" q) ≡ true) same a,
        subst (λ q. in_scope environment (claim "env" q) ≡ true) same e,
        subst (λ q. in_scope project (claim "proj" q) ≡ true) same j,
      )

  verify_parts-Signed :
      (action environment project : Option String) (current : ℕ) (parts : List String)
      (payload : Claims)
      → verify_parts codec action environment project current parts ≡ ok payload
      → Signed action environment project current payload parts
  unfolding verify_parts
  verify_parts-Signed action environment project current [] payload h = cc
  verify_parts-Signed action environment project current (x ∷ []) payload h = cc
  verify_parts-Signed action environment project current (x ∷ y ∷ []) payload h = cc
  verify_parts-Signed action environment project current (x ∷ y ∷ sig ∷ []) payload h =
      let (same, accepted) =
        compare_digest_same sig (codec.sign (x ++ ("." ++ y))) _
          (checked codec action environment project current (codec.decode y)) payload h in
      let (body, live, a, e, j) =
        checked-ok action environment project current (codec.decode y) payload accepted in
      (x, y, ap (λ t. x ∷ y ∷ t ∷ []) same, body, live, a, e, j)
  verify_parts-Signed action environment project current (x ∷ y ∷ sig ∷ z ∷ zs) payload h = cc

  -- What `verify` accepts carries the key's signature over its own header and payload, and the payload
  -- it returns is the one that is signed, alive, and within every scope that the request names.
  pub verify-signed :
      (token : String) (action environment project : Option String) (current : ℕ) (payload : Claims)
      → verify codec token action environment project current ≡ ok payload
      → (header : String) × (body : String) × (split_dots token
          ≡ header ∷ body ∷ codec.sign (header ++ ("." ++ body)) ∷ [])
        × (codec.decode body ≡ object payload)
        × (is_live current (int_of (claim "exp" payload)) ≡ true)
        × (in_scope action (claim "act" payload) ≡ true)
        × (in_scope environment (claim "env" payload) ≡ true)
        × (in_scope project (claim "proj" payload) ≡ true)
  unfolding verify
  verify-signed token action environment project current payload h =
      verify_parts-Signed action environment project current (split_dots token) payload h
