-- ===== src/Operations/Audit.antt =====
-- The audit trail with its hash chain and high-water mark (odooctl/operations/audit.py). `digest` is
-- the SHA-256 of a text, or its HMAC under the audit key, as hexadecimal text: the key is fixed for
-- a store. `append` runs under an exclusive lock, so that one call is one step. A file is the list of
-- its lines that are not blank.
pub mod Chain
pub mod Tampering
pub mod Decimal
use Prim.Native.String.{◌++◌}
use odooctl.Prelude.{
  ℕ, zero, suc, ◌+◌, ◌-◌, ◌/◌, ◌%◌, String, Bool, true, false, not, ◌&&◌, ◌==◌, Option, none, some,
  List, [], ◌∷◌, length, ltb, if◌then◌else◌,
}
use odooctl.Prelude.{◌++◌ as ◌+++◌}
use odooctl.Security.Tokens.{is_ascii}
use odooctl.Operations.Models.{AuditEntry}

-- `json.dumps` of a text and of the parameters, with `sort_keys=True, separators=(",", ":")`.
pub record Json (Params : Type 0) : Type 0 where
  pub quote : String → String
  pub dumps : Params → String

-- A line that `AuditEntry.from_dict` reads, or another, with the `current_hash` that it has as a JSON
-- object, `""` where it has none.
pub data Line (Params : Type 0) : Type 0 where
  entry : AuditEntry Params → Line Params
  other : String → Line Params

pub record Hwm : Type 0 where
  pub count : ℕ
  pub last_hash : String
  pub mac : String

-- The files audit.jsonl and audit.hwm; the mark is `none` where the file is missing or unreadable.
pub record Trail (Params : Type 0) : Type 0 where
  pub lines : List (Line Params)
  pub hwm : Option Hwm

-- The character of a text at a position.
unfoldable pub char_at : ℕ → String → String
char_at n String.[] = ""
char_at zero (String.◌∷◌ c s) = String.◌∷◌ c ""
char_at (suc n) (String.◌∷◌ c s) = char_at n s

unfoldable pub digit : ℕ → String
unfolding char_at
digit n = char_at n "0123456789"

-- The decimal numeral; `n + 1` rounds are enough, since each divides by ten.
decimal_in : ℕ → ℕ → String
decimal_in zero n = ""
decimal_in (suc rounds) n =
    let high = decimal_in rounds (n / 10) in if ltb n 10 then digit n else high ++ digit (n % 10)

unfoldable pub decimal : ℕ → String
unfolding decimal_in digit char_at
decimal n = decimal_in (suc n) n

abbrev pub is_hash : Option String → String → Bool
is_hash none h = false
is_hash (some g) h = g == h

module _ {Params : Type 0} where
  abbrev pub load_chain : List (Line Params) → List (AuditEntry Params)
  load_chain [] = []
  load_chain (entry e ∷ ls) = e ∷ load_chain ls
  load_chain (other h ∷ ls) = load_chain ls

  abbrev pub line_hash : Line Params → String
  line_hash (entry e) = e.current_hash
  line_hash (other h) = h

  -- The hash of the last line, `before` where there is none.
  abbrev pub last_hash : String → List (Line Params) → String
  last_hash before [] = before
  last_hash before (l ∷ ls) = last_hash (line_hash l) ls

  -- `entries[n].current_hash`
  abbrev pub hash_at : ℕ → List (AuditEntry Params) → Option String
  hash_at n [] = none
  hash_at zero (e ∷ es) = some e.current_hash
  hash_at (suc n) (e ∷ es) = hash_at n es

module _ {Params : Type 0} (json : Json Params) (digest : String → String) where
  -- The members of the JSON object of `to_dict()` and `prev_hash`, in the order of their names.
  unfoldable pub canonical : AuditEntry Params → String → String
  canonical e prev =
      "{\"action\":"
      ++ (json.quote e.action
          ++ (",\"actor\":"
              ++ (json.quote e.actor
                  ++ (",\"op_id\":"
                      ++ (json.quote e.op_id
                          ++ (",\"outcome\":"
                              ++ (json.quote e.outcome
                                  ++ (",\"params_redacted\":"
                                      ++ (json.dumps e.params_redacted
                                          ++ (",\"prev_hash\":"
                                              ++ (json.quote prev
                                                  ++ (",\"target\":"
                                                      ++ (json.quote e.target
                                                          ++ (",\"timestamp\":"
                                                            ++ (json.quote e.timestamp
                                                            ++ "}")))))))))))))))

  abbrev pub hash_entry : AuditEntry Params → String → String
  hash_entry e prev = digest (canonical e prev)

  unfoldable pub hwm_mac : ℕ → String → String
  unfolding decimal
  hwm_mac count last = digest (decimal count ++ (":" ++ last))

  abbrev pub chained : AuditEntry Params → String → AuditEntry Params
  chained e prev = record e { prev_hash = prev; current_hash = hash_entry e prev }

  -- The entry as it is written, and the files.
  unfoldable pub append : AuditEntry Params → Trail Params → AuditEntry Params × Trail Params
  append e trail =
      let e' = chained e (last_hash "" trail.lines) in
      let count = length trail.lines + 1 in
      (
        e',
        record {
          lines = trail.lines +++ entry e' ∷ [];
          hwm = some record {
            count = count;
            last_hash = e'.current_hash;
            mac = hwm_mac count e'.current_hash;
          };
        },
      )

  -- `verify_chain`, with the hash that the next entry must name
  abbrev pub verify_from : String → List (AuditEntry Params) → Bool
  verify_from prev [] = true
  verify_from prev (e ∷ es) =
      let rest = verify_from e.current_hash es in
      if not (e.prev_hash == prev)
      then false
      else if not (e.current_hash == hash_entry e prev)
      then false
      else rest

  abbrev pub verify_chain : List (AuditEntry Params) → Bool
  verify_chain es = verify_from "" es

  -- `hmac.compare_digest` raises TypeError, here `none`, for a mac that is not ASCII, which is then none
  -- that the program computes.
  abbrev pub meets_hwm : List (AuditEntry Params) → Option Hwm → Option Bool
  meets_hwm es none = some true
  meets_hwm es (some h) =
      if not (h.mac == hwm_mac h.count h.last_hash)
      then (if is_ascii h.mac then some false else none)
      else if ltb (length es) h.count
      then some false
      else if ltb 0 h.count && not (is_hash (hash_at (h.count - 1) es) h.last_hash)
      then some false
      else some true

  unfoldable pub verify : Trail Params → Option Bool
  unfolding is_ascii
  verify trail =
      let entries = load_chain trail.lines in
      if not (verify_chain entries) then some false else meets_hwm entries trail.hwm
