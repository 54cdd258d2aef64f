-- ===== src/Cutover/Names.antt =====
-- Database names: quoting, validation and the name of the old database
-- (odooctl/odoo/db_swap.py, from `quote_identifier` to `database_cutover_aside_name`).
pub mod Quoting
pub mod Bytes
mod Examples
use Prim.Native.Char.{code, nul, len_utf8}
use Prim.Native.String.{len, ◌++◌}
use odooctl.Prelude.{
  ℕ, zero, suc, ◌-◌, String, Bool, true, false, ◌||◌, ◌==◌, eqb, ltb, leb, if◌then◌else◌,
}
use odooctl.Prelude.Results.{ok, err, ◌>>=◌, ◌>>◌}
use odooctl.Cutover.State.{Checked, value_error}

-- `"\x00" in name`
unfoldable pub has_char : ℕ → String → Bool
has_char n String.[] = false
has_char n (String.◌∷◌ c s) = eqb (code c) n || has_char n s

-- `name.replace(q, q q)` for a character `q`
doubled : ℕ → String → String
doubled q String.[] = ""
doubled q (String.◌∷◌ c s) =
    let rest = doubled q s in
    if eqb (code c) q then String.◌∷◌ c (String.◌∷◌ c rest) else String.◌∷◌ c rest

abbrev pub double_quote : ℕ
double_quote = 34

abbrev pub single_quote : ℕ
single_quote = 39

unfoldable pub quote_identifier : String → Checked String
unfolding has_char doubled
quote_identifier name =
    if has_char 0 name
    then err (value_error "database name cannot contain NUL bytes")
    else ok ("\"" ++ (doubled double_quote name ++ "\""))

unfoldable pub quote_literal : String → String
unfolding doubled
quote_literal value = "'" ++ (doubled single_quote value ++ "'")

abbrev pub identifier_max_bytes : ℕ
identifier_max_bytes = 63

abbrev pub aside_marker : String
aside_marker = "__odooctl_cutover_"

abbrev pub cutover_hash_length : ℕ
cutover_hash_length = 32

-- `None`, here the empty tuple, or a ValueError
unfoldable pub validate_database_name : String → String → Checked (Unit {0})
unfolding has_char
validate_database_name name field_name =
    if name == ""
    then err (value_error (field_name ++ " cannot be empty"))
    else if has_char 0 name
    then err (value_error (field_name ++ " cannot contain NUL bytes"))
    else if ltb identifier_max_bytes (len name)
    then err (value_error (field_name ++ " exceeds PostgreSQL's 63-byte identifier limit"))
    else ok tt

-- The longest whole characters within `max_bytes` bytes: cutting the encoding and decoding it with
-- `errors="ignore"` drops the character that the cut splits.
unfoldable pub take_bytes : ℕ → String → String
take_bytes max_bytes String.[] = ""
take_bytes max_bytes (String.◌∷◌ c s) =
    let rest = take_bytes (max_bytes - len_utf8 c) s in
    if leb (len_utf8 c) max_bytes then String.◌∷◌ c rest else ""

unfoldable pub truncate_utf8 : String → ℕ → String
unfolding take_bytes
truncate_utf8 value max_bytes =
    if leb (len value) max_bytes then value else take_bytes max_bytes value

-- `s[:n]`
unfoldable pub take_chars : ℕ → String → String
take_chars zero s = ""
take_chars (suc n) String.[] = ""
take_chars (suc n) (String.◌∷◌ c s) = String.◌∷◌ c (take_chars n s)

abbrev nul_text : String
nul_text = String.◌∷◌ nul ""

unfoldable pub validate_cutover_id : String → Checked (Unit {0})
unfolding has_char
validate_cutover_id cutover_id =
    if cutover_id == ""
    then err (value_error "cutover_id cannot be empty")
    else if has_char 0 cutover_id
    then err (value_error "cutover_id cannot contain NUL bytes")
    else ok tt

-- `hexdigest` is that of SHA-256, a parameter.
module _ (hexdigest : String → String) where
  unfoldable pub aside_digest : String → String → String → String
  unfolding take_chars
  aside_digest cutover_id target_db incoming_db = take_chars cutover_hash_length (
      hexdigest (
        "odooctl-database-cutover-v1"
        ++ (nul_text ++ (cutover_id ++ (nul_text ++ (target_db ++ (nul_text ++ incoming_db)))))))

  unfoldable pub aside_name : String → String → String → String
  unfolding aside_digest truncate_utf8
  aside_name target_db incoming_db cutover_id =
      let suffix = aside_marker ++ aside_digest cutover_id target_db incoming_db in
      truncate_utf8 target_db (identifier_max_bytes - len suffix) ++ suffix

  unfoldable pub database_cutover_aside_name : String → String → String → Checked String
  database_cutover_aside_name target_db incoming_db cutover_id = do
    validate_database_name target_db "target_db"
    validate_database_name incoming_db "incoming_db"
    validate_cutover_id cutover_id
    let aside = aside_name target_db incoming_db cutover_id
    validate_database_name aside "aside_db"
    ok aside
