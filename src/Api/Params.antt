-- ===== src/Api/Params.antt =====
-- The checks of a request's parameters (odooctl/api/routes_operations.py). Parameters are a JSON
-- object; a value that is neither a text nor a Boolean is told from these only.
use Prim.Native.Char.{code}
use Prim.Native.String.{◌++◌}
use odooctl.Prelude.{
  ℕ, zero, suc, String, Bool, true, false, not, ◌&&◌, ◌||◌, ◌==◌, Option, none, some, List, [], ◌∷◌,
  any, ltb, leb, eqb, if◌then◌else◌,
}
use odooctl.Prelude.Results.{Result, ok, err, ◌>>=◌, ◌>>◌}
use odooctl.Security.Principals.{strip}
use odooctl.Security.Tokens.{
  Value, str, integer, boolean, array, other, Claims, claim, is_text, onto_first,
}

-- What a handler raises: an HTTPException with its status and detail, or another error, which the
-- server answers with 500.
pub data ApiError : Type 0 where
  http : ℕ → String → ApiError
  uncaught : String → ApiError

abbrev pub Checked : Type 0
Checked = Result ApiError (Unit {0})

abbrev pub refuse_if : Bool → ℕ → String → Checked
refuse_if true status detail = err (http status detail)
refuse_if false status detail = ok tt

abbrev pub one_of : List String → String → Bool
one_of options s = any (λ o. o == s) options

-- `params.get(name) is True`
abbrev pub is_true : Option Value → Bool
is_true (some (boolean b)) = b
is_true (some (str t)) = false
is_true (some (integer n)) = false
is_true (some (array xs)) = false
is_true (some (other t)) = false
is_true none = false

-- `isinstance(value, str)`
abbrev pub text_of : Option Value → Option String
text_of (some (str t)) = some t
text_of (some (integer n)) = none
text_of (some (boolean b)) = none
text_of (some (array xs)) = none
text_of (some (other t)) = none
text_of none = none

in_range : ℕ → ℕ → ℕ → Bool
in_range lo hi c = leb lo c && leb c hi

is_alphanumeric : ℕ → Bool
unfolding in_range
is_alphanumeric c = in_range b'A' b'Z' c || (in_range b'a' b'z' c || in_range b'0' b'9' c)

is_id_char : ℕ → Bool
unfolding is_alphanumeric
is_id_char c = is_alphanumeric c || (eqb c b'.' || (eqb c b'_' || eqb c b'-'))

-- Up to `n` characters of an identifier, and no more.
at_most_id_chars : ℕ → String → Bool
at_most_id_chars n String.[] = true
at_most_id_chars zero (String.◌∷◌ c s) = false
at_most_id_chars (suc n) (String.◌∷◌ c s) = is_id_char (code c) && at_most_id_chars n s

-- `_SAFE_OPERATION_ID.fullmatch`
unfoldable pub is_safe_operation_id : String → Bool
unfolding is_id_char is_alphanumeric at_most_id_chars
is_safe_operation_id String.[] = false
is_safe_operation_id (String.◌∷◌ c s) = is_alphanumeric (code c) && at_most_id_chars 127 s

abbrev pub safe_id : String → Option String → Result ApiError String
safe_id name none = err (http 400 (name ++ " must be one safe operation identifier"))
safe_id name (some value) =
    if one_of ("." ∷ ".." ∷ []) value || not (is_safe_operation_id value)
    then err (http 400 (name ++ " must be one safe operation identifier"))
    else ok value

abbrev pub require_safe_operation_id : Claims → String → Result ApiError String
require_safe_operation_id params name = safe_id name (text_of (claim name params))

abbrev pub filestore_actions : List String
filestore_actions =
    "plan" ∷ "sync" ∷ "verify" ∷ "cutover" ∷ "download" ∷ "delete_source" ∷ "delete_remote_marker"
    ∷ []

-- `"/".split`, of which `PurePosixPath.parts` leaves out the empty parts and "."
unfoldable pub split_slashes : String → List String
split_slashes String.[] = "" ∷ []
split_slashes (String.◌∷◌ c s) =
    let rest = split_slashes s in
    if eqb (code c) b'/' then "" ∷ rest else onto_first (String.◌∷◌ c "") rest

abbrev is_absolute : String → Bool
is_absolute String.[] = false
is_absolute (String.◌∷◌ c s) = eqb (code c) b'/'

any_char : (ℕ → Bool) → String → Bool
any_char p String.[] = false
any_char p (String.◌∷◌ c s) = p (code c) || any_char p s

unfoldable pub is_unsafe_destination : String → Bool
unfolding split_slashes any_char
is_unsafe_destination destination =
    is_absolute destination
    || (one_of (split_slashes destination) ".."
        || (any_char (λ c. eqb c 92) destination || any_char (λ c. ltb c 32) destination))

abbrev check_destination : Option String → Checked
check_destination none = err (http 400 "filestore download requires a destination")
check_destination (some destination) = do
  refuse_if (strip destination == "") 400 "filestore download requires a destination"
  refuse_if (is_unsafe_destination destination) 400
      "queued filestore download destination must be a safe project-relative path"

-- The checks of each action but "plan", with the migration that is named.
abbrev check_migration : String → Claims → String → String → Checked
check_migration environment params action migration_id = do
  refuse_if
      (action == "cutover"
        && (not (is_text environment (claim "confirm_environment" params))
            || not (is_true (claim "confirm_source_retained" params))))
      400 "filestore cutover requires the exact environment and confirm_source_retained=true"
  (if action == "download" then check_destination (text_of (claim "destination" params)) else ok tt)
  refuse_if
      (action == "delete_source"
        && (not (is_text environment (claim "confirm_environment" params))
            || (not (is_text migration_id (claim "confirm_migration_id" params))
                || not (is_true (claim "delete_source" params)))))
      400
      "filestore source deletion requires exact environment/migration confirmations and delete_source=true"
  refuse_if
      (action == "delete_remote_marker"
        && not (is_text migration_id (claim "confirm_migration_id" params)))
      400 "filestore remote marker deletion requires exact migration confirmation"

abbrev check_action : String → Claims → String → Checked
check_action environment params action =
    if not (one_of filestore_actions action)
    then err (http 400 "filestore_migrate requires a supported action")
    else if action == "plan"
    then ok tt
    else (require_safe_operation_id params "migration_id"
        >>= check_migration environment params action)

-- The JSON text of an object, among those of the other values.
abbrev is_object : String → Bool
is_object String.[] = false
is_object (String.◌∷◌ c t) = eqb (code c) b'{'

-- `action not in _FILESTORE_ACTIONS`, which raises TypeError for a list or an object: it has no hash.
abbrev check_filestore_action : String → Claims → Option Value → Checked
check_filestore_action environment params (some (str action)) =
    check_action environment params action
check_filestore_action environment params (some (array xs)) =
    err (uncaught "unhashable type: 'list'")
check_filestore_action environment params (some (other t)) =
    if is_object t
    then err (uncaught "unhashable type: 'dict'")
    else err (http 400 "filestore_migrate requires a supported action")
check_filestore_action environment params (some (integer n)) =
    err (http 400 "filestore_migrate requires a supported action")
check_filestore_action environment params (some (boolean b)) =
    err (http 400 "filestore_migrate requires a supported action")
check_filestore_action environment params none =
    err (http 400 "filestore_migrate requires a supported action")

unfoldable pub validate_filestore_params : String → Claims → Checked
unfolding is_safe_operation_id is_unsafe_destination strip
validate_filestore_params environment params =
    check_filestore_action environment params (claim "action" params)
