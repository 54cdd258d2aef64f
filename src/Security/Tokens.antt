-- ===== src/Security/Tokens.antt =====
-- Capability tokens (odooctl/security/tokens.py). `encode` is base64url of a payload's JSON text with
-- sorted keys, `decode` its reading, and `sign` is base64url of the HMAC-SHA256 of a text under the
-- runner's key; the key, the time and the random nonce are arguments.
pub mod Scope
use Prim.Native.Char.{code}
use Prim.Native.String.{◌++◌}
use odooctl.Prelude.{
  ℕ, ◌+◌, ◌*◌, String, Bool, true, false, not, ◌&&◌, ◌||◌, ◌==◌, Option, none, some, List, [], ◌∷◌,
  any, ltb, leb, eqb, if◌then◌else◌,
}
use odooctl.Prelude.{◌++◌ as ◌+++◌}
use odooctl.Prelude.Results.{Result, ok, err, ◌>>=◌, ◌>>◌}

-- A JSON value. A list is given by its elements, with `none` for one that is no text; a negative
-- number, a fraction, null and an object are `other`, with their JSON text.
pub data Value : Type 0 where
  str : String → Value
  integer : ℕ → Value
  boolean : Bool → Value
  array : List (Option String) → Value
  other : String → Value

abbrev pub Claims : Type 0
Claims = List (String × Value)

pub data Decoded : Type 0 where
  undecodable : Decoded
  not_object : Decoded
  object : Claims → Decoded

-- ValueError, TokenInvalid, TokenExpired and TokenScopeError; AttributeError is what `payload.get`
-- raises where the payload is no object, and TypeError what `hmac.compare_digest` raises for a text
-- that is not ASCII.
pub data TokenError : Type 0 where
  value_error : String → TokenError
  invalid : String → TokenError
  expired : TokenError
  scope_error : String → TokenError
  attribute_error : TokenError
  type_error : String → TokenError

pub record Codec : Type 0 where
  pub header : String
  pub encode : Claims → String
  pub decode : String → Decoded
  pub sign : String → String

abbrev pub min_api_key_length : ℕ
min_api_key_length = 32

abbrev pub default_ttl_seconds : ℕ
default_ttl_seconds = 300

-- `len(key)` is an argument.
abbrev pub enforce_key_strength : ℕ → String → Result TokenError (Unit {0})
enforce_key_strength length source =
    if ltb length min_api_key_length then err (value_error (source ++ " is too weak")) else ok tt

abbrev pub is_reserved : String → Bool
is_reserved key =
    any (λ k. k == key) ("act" ∷ "env" ∷ "proj" ∷ "iat" ∷ "exp" ∷ "nonce" ∷ "sub" ∷ [])

abbrev pub subject_claim : Option String → Claims
subject_claim none = []
subject_claim (some subject) = ("sub", str subject) ∷ []

abbrev pub payload_of : String → String → String → ℕ → Option String → String → ℕ → Claims → Claims
payload_of action environment project ttl_seconds subject nonce issued extra_claims =
    ("act", str action)
    ∷ ("env", str environment)
    ∷ ("proj", str project)
    ∷ ("iat", integer issued)
    ∷ ("exp", integer (issued + ttl_seconds))
    ∷ ("nonce", str nonce)
    ∷ (subject_claim subject +++ extra_claims)

abbrev pub dot : ℕ
dot = 46

-- A character in front of the first part.
abbrev pub onto_first : String → List String → List String
onto_first c [] = c ∷ []
onto_first c (p ∷ ps) = (c ++ p) ∷ ps

-- `text.split(".")`
unfoldable pub split_dots : String → List String
split_dots String.[] = "" ∷ []
split_dots (String.◌∷◌ c s) =
    let rest = split_dots s in
    if eqb (code c) dot then "" ∷ rest else onto_first (String.◌∷◌ c "") rest

-- `text.isascii()`
unfoldable pub is_ascii : String → Bool
is_ascii String.[] = true
is_ascii (String.◌∷◌ c s) = let rest = is_ascii s in ltb (code c) 128 && rest

-- `hmac.compare_digest(a, b)` of two texts
unfoldable pub compare_digest : String → String → Result TokenError Bool
unfolding is_ascii
compare_digest a b =
    if is_ascii a && is_ascii b
    then ok (a == b)
    else err (type_error "comparing strings with non-ASCII characters is not supported")

abbrev pub claim : String → Claims → Option Value
claim key [] = none
claim key ((k, v) ∷ cs) = let rest = claim key cs in if k == key then some v else rest

-- `isinstance(exp, int)`, which a Boolean is too
abbrev pub int_of : Option Value → Option ℕ
int_of (some (integer n)) = some n
int_of (some (boolean true)) = some 1
int_of (some (boolean false)) = some 0
int_of (some (str t)) = none
int_of (some (array xs)) = none
int_of (some (other t)) = none
int_of none = none

abbrev pub is_live : ℕ → Option ℕ → Bool
is_live current none = false
is_live current (some exp) = ltb current exp

abbrev pub is_text : String → Option Value → Bool
is_text t (some (str u)) = u == t
is_text t (some (integer n)) = false
is_text t (some (boolean b)) = false
is_text t (some (array xs)) = false
is_text t (some (other u)) = false
is_text t none = false

-- A constraint that is given must be met.
abbrev pub in_scope : Option String → Option Value → Bool
in_scope none v = true
in_scope (some t) v = is_text t v

module _ (codec : Codec) where
  abbrev pub token_of : Claims → String
  token_of payload =
      let signing_input = codec.header ++ ("." ++ codec.encode payload) in
      signing_input ++ ("." ++ codec.sign signing_input)

  -- `nonce` is the one that is given, unless it is missing or empty, or else the random one.
  unfoldable pub mint :
      String → String → String → ℕ → Option String → String → ℕ → Claims → Result TokenError String
  mint action environment project ttl_seconds subject nonce issued extra_claims =
      if leb ttl_seconds 0
      then err (value_error "ttl_seconds must be positive")
      else if any (λ c. is_reserved c.0) extra_claims
      then err (value_error "extra_claims must not override reserved fields")
      else ok (
          token_of
            (payload_of action environment project ttl_seconds subject nonce issued extra_claims))

  abbrev pub checked :
      Option String → Option String → Option String → ℕ → Decoded → Result TokenError Claims
  checked action environment project current undecodable = err (invalid "payload not decodable")
  checked action environment project current not_object = err attribute_error
  checked action environment project current (object payload) =
      if not (is_live current (int_of (claim "exp" payload)))
      then err expired
      else if not (in_scope action (claim "act" payload))
      then err (scope_error "action")
      else if not (in_scope environment (claim "env" payload))
      then err (scope_error "environment")
      else if not (in_scope project (claim "proj" payload))
      then err (scope_error "project")
      else ok payload

  unfoldable pub verify_parts :
      Option String → Option String → Option String → ℕ → List String → Result TokenError Claims
  unfolding compare_digest
  verify_parts action environment project current (h ∷ p ∷ sig ∷ []) =
      compare_digest sig (codec.sign (h ++ ("." ++ p))) >>= λ same.
      if not same
      then err (invalid "signature mismatch")
      else checked action environment project current (codec.decode p)
  verify_parts action environment project current [] =
      err (invalid "token must have three segments")
  verify_parts action environment project current (h ∷ []) =
      err (invalid "token must have three segments")
  verify_parts action environment project current (h ∷ p ∷ []) =
      err (invalid "token must have three segments")
  verify_parts action environment project current (h ∷ p ∷ sig ∷ x ∷ xs) =
      err (invalid "token must have three segments")

  unfoldable pub verify :
      String → Option String → Option String → Option String → ℕ → Result TokenError Claims
  unfolding verify_parts
  verify token action environment project current =
      verify_parts action environment project current (split_dots token)
