-- ===== src/Runner/Nonces.antt =====
-- The nonces that were consumed (`NonceStore` of odooctl/runner/worker.py): the file
-- consumed_nonces.json, by the value that its text stands for. Times are microseconds since the
-- epoch, and one call reads the clock once. `consume` runs under an exclusive lock of the file, so
-- that a call is one step.
pub mod Reuse
use Prim.Native.String.{◌++◌}
use odooctl.Prelude.{
  ℕ, ◌+◌, ◌*◌, String, Bool, true, false, ◌==◌, Option, none, some, List, is_some, any, ltb, leb,
  if◌then◌else◌, update,
}
use odooctl.Prelude.Exec.{Exec, pure, raise, ◌>>◌}
use odooctl.Operations.Audit.{decimal}
use odooctl.Operations.Engine.{Raised, exception}
use odooctl.Security.Tokens.{Value, str, integer, boolean, array, other}

abbrev pub nonce_retention : ℕ
nonce_retention = 7200 * 1_000_000

-- The text of a time: `datetime.fromisoformat` reads it, with an offset or without one, which is
-- taken for UTC, or refuses it.
pub data Stamp : Type 0 where
  aware : ℕ → Stamp
  naive : ℕ → Stamp
  unreadable : String → Stamp

abbrev pub Nonces : Type 0
Nonces = String → Option Stamp

-- No file; a file that is no JSON object; the value of its "nonces": an object, a list, or other.
pub data NonceFile : Type 0 where
  missing : NonceFile
  corrupt : NonceFile
  mapping : Nonces → NonceFile
  legacy : List String → NonceFile
  unexpected : NonceFile

abbrev pub no_nonces : Nonces
no_nonces name = none

abbrev pub load : ℕ → NonceFile → Nonces
load now missing = no_nonces
load now corrupt = no_nonces
load now (mapping nonces) = nonces
load now (legacy names) =
    λ name. if any (λ n. n == name) names then some (aware (now + nonce_retention)) else none
load now unexpected = no_nonces

-- What becomes of one item.
abbrev pub purge_stamp : ℕ → Option Stamp → Option Stamp
purge_stamp now none = none
purge_stamp now (some (aware t)) = if leb now t then some (aware t) else none
purge_stamp now (some (naive t)) = if leb now t then some (naive t) else none
purge_stamp now (some (unreadable text)) = some (aware (now + nonce_retention))

abbrev pub purge : Nonces → ℕ → Nonces
purge nonces now name = purge_stamp now (nonces name)

-- What a payload's "nonce" is as a key of a Python dict: a text; another value, with the text that
-- `json.dumps` writes for it; or a list or an object, which cannot be a key.
pub data Nonce : Type 0 where
  text : String → Nonce
  scalar : String → Nonce
  unhashable : String → Nonce

abbrev pub other_nonce : String → Nonce
other_nonce String.[] = scalar ""
other_nonce (String.◌∷◌ c s) =
    if String.◌∷◌ c "" == "{" then unhashable "dict" else scalar (String.◌∷◌ c s)

-- `payload.get("nonce", "")`
abbrev pub nonce_of : Option Value → Nonce
nonce_of none = text ""
nonce_of (some (str t)) = text t
nonce_of (some (integer n)) = scalar (decimal n)
nonce_of (some (boolean true)) = scalar "true"
nonce_of (some (boolean false)) = scalar "false"
nonce_of (some (array xs)) = unhashable "list"
nonce_of (some (other t)) = other_nonce t

abbrev pub later : ℕ → ℕ → ℕ
later a b = if ltb a b then b else a

-- `max(floor, expires_at) if expires_at else floor`
abbrev pub retained_until : ℕ → Option ℕ → ℕ
retained_until now none = now + nonce_retention
retained_until now (some expires_at) = later (now + nonce_retention) expires_at

abbrev pub Consuming : Type 0 → Type 0
Consuming A = Exec NonceFile Raised A

-- `_write_atomic`, and the result
abbrev written : {A : Type 0} → Nonces → A → Consuming A
written nonces a file = pure a (mapping nonces)

abbrev mark : String → Option ℕ → ℕ → Nonces → Consuming Bool
mark name expires_at now nonces =
    written (update nonces name (some (aware (retained_until now expires_at)))) true

-- `nonce in nonces`: a key that is no text is never among the names of a file.
abbrev claim_nonce : Nonce → Option ℕ → ℕ → Nonces → Consuming Bool
claim_nonce (text name) expires_at now nonces =
    if is_some (nonces name) then written nonces false else mark name expires_at now nonces
claim_nonce (scalar name) expires_at now nonces = mark name expires_at now nonces
claim_nonce (unhashable kind) expires_at now nonces =
    raise (exception ("unhashable type: '" ++ (kind ++ "'")))

unfoldable pub consume : Nonce → Option ℕ → ℕ → Consuming Bool
consume nonce expires_at now file =
    claim_nonce nonce expires_at now (purge (load now file) now) file

unfoldable pub is_consumed : String → ℕ → NonceFile → Bool
is_consumed name now file = is_some (load now file name)

unfoldable pub mark_consumed : Nonce → Option ℕ → ℕ → Consuming (Unit {0})
unfolding consume
mark_consumed nonce expires_at now = consume nonce expires_at now >> pure tt
