-- ===== src/Security/Examples.antt =====
-- The theorems on security at small inputs.
use Prim.Native.String.{◌++◌}
use odooctl.Prelude.{
  String, ◌≡◌, ◌≢◌, refl, true, false, ◌==◌, eq_iff, none, some, [], ◌∷◌, any, ltb, if◌then◌else◌,
}
use odooctl.Security.Principals.{operator, viewer, Principal, user}
use odooctl.Security.Rbac.{deploy, contains, allowed_actions, is_allowed}
use odooctl.Security.Rbac.Policy.{is_allowed-any}
use odooctl.Security.Sessions.{SessionRecord, Store, session, create, get}
use odooctl.Security.Sessions.Lifetime.{create-get}
use odooctl.Security.Redaction.{
  Json, text, scalar, object as json_object, no_fields, field, starts_with, ends_with, is_lowered,
  starts_lowered, contains_lowered, is_secret_key, match_env, strip_from, strip_env_defaults,
  redact_secret, redact,
}
use odooctl.Security.Tokens.{
  verify_parts, compare_digest, is_ascii, Codec, Claims, object, payload_of, split_dots, claim,
  int_of, is_live, in_scope, mint, verify,
}
use odooctl.Security.Tokens.Scope.{IsCodec, meets, granted, mint-verify, verify-signed}
use odooctl.Cutover.Names.{has_char}

abbrev alice : Principal
alice = record {
  id = "p1";
  org_id = "o1";
  kind = user;
  roles = viewer ∷ operator ∷ [];
  display = "Alice";
}

is_allowed-any_example :
    is_allowed alice deploy false
    ≡ any (λ r. contains (allowed_actions r false) deploy) (viewer ∷ operator ∷ [])
is_allowed-any_example = is_allowed-any alice deploy false

abbrev plain : String → String
plain s = s

abbrev old : SessionRecord
old = record { sid_hash = "s1"; user_id = "u1"; created_at = 10; expires_at = 500 }

abbrev stale : SessionRecord
stale = record { sid_hash = "s0"; user_id = "u2"; created_at = 0; expires_at = 50 }

abbrev sessions : Store
sessions = stale ∷ old ∷ []

abbrev created_sessions : Store
created_sessions = old ∷ session plain "u1" 60 "s2" 100 ∷ []

differs : (x y : String) → (x == y) ≡ false → x ≢ y
differs x y h e = cc (h, (eq_iff x y).1 e)

create-get_example :
    get plain "s2" 120 created_sessions
    ≡ (if ltb 120 160 then some (session plain "u1" 60 "s2" 100) else none)
unfolding create
create-get_example =
    create-get plain "u1" "s2" 60 100 120 sessions created_sessions
      (differs "s0" "s2" refl, (differs "s1" "s2" refl, tt)) refl

abbrev payload : Claims
payload = payload_of "deploy" "prod" "shop" 300 none "n1" 1000 []

abbrev codec : Codec
codec = record { header = "h"; encode = λ c. "p"; decode = λ t. object payload; sign = λ t. "s" }

codec-IsCodec : IsCodec codec payload
unfolding has_char is_ascii
codec-IsCodec = record {
  decode-encode = refl;
  plain_header = refl;
  plain_payload = refl;
  plain_signature = λ t. refl;
  ascii_signature = λ t. refl;
}

-- A token for deploying to "prod", asked for a restore.
mint-verify_example :
    verify codec "h.p.s" (some "restore") (some "prod") none 1100
    ≡ granted
        (ltb 1100 1300)
        (meets (some "restore") "deploy")
        (meets (some "prod") "prod")
        (meets none "shop")
        payload
unfolding mint
mint-verify_example =
    mint-verify codec "deploy" "prod" "shop" "n1" 300 1000 1100 none (some "restore") (some "prod")
      none [] "h.p.s" codec-IsCodec refl

verify-signed_example :
    (header : String) × (body : String) × (split_dots "h.p.s"
      ≡ header ∷ body ∷ codec.sign (header ++ ("." ++ body)) ∷ [])
    × (codec.decode body ≡ object payload)
    × (is_live 1100 (int_of (claim "exp" payload)) ≡ true)
    × (in_scope (some "deploy") (claim "act" payload) ≡ true)
    × (in_scope (some "prod") (claim "env" payload) ≡ true)
    × (in_scope none (claim "proj" payload) ≡ true)
unfolding verify verify_parts compare_digest is_ascii split_dots
verify-signed_example =
    verify-signed codec "h.p.s" (some "deploy") (some "prod") none 1100 payload refl

-- A password that begins and ends as a reference does, and a number under a secret key.
abbrev parameters : Json
parameters = json_object (
    field "db_password" (text "${A}hunter2}")
      (field "options" (json_object (field "api_key" (scalar "3") no_fields)) no_fields))

redact_parameters :
    redact [] parameters
    ≡ json_object (
        field "db_password"
          (text "${A}hunter2}")
          (field "options" (json_object (field "api_key" (text "***") no_fields)) no_fields))
unfolding redact is_secret_key contains_lowered starts_lowered is_lowered redact_secret
    strip_env_defaults strip_from match_env starts_with ends_with
redact_parameters = refl
