-- ===== src/Cutover/Names/Examples.antt =====
-- The theorems on names at small inputs.
use Prim.Native.String.{len, ◌++◌}
use odooctl.Prelude.{◌≤◌, String, ◌≡◌, ◌≢◌, ◌==◌, eq_iff, arith, refl, false, some}
use odooctl.Prelude.Results.{ok}
use odooctl.Cutover.Names.{
  quote_identifier, quote_literal, validate_database_name, validate_cutover_id, has_char,
  single_quote, aside_name, database_cutover_aside_name,
}
use odooctl.Cutover.Names.Quoting.{
  read_quoted, read_identifier, read-quote_literal, read-quote_identifier,
}
use odooctl.Cutover.Names.Bytes.{IsHexDigest, database_cutover_aside_name_total}

abbrev digest : String → String
digest s = "0123456789abcdef0123456789abcdef0123456789abcdef0123456789abcdef"

digest-IsHexDigest : IsHexDigest digest
unfolding has_char
digest-IsHexDigest = record { chars = λ s. refl; bytes = λ s. refl; clean = λ s. refl }

read-quote_literal_example :
    read_quoted single_quote (quote_literal "o'hara" ++ " AND") ≡ some ("o'hara", " AND")
read-quote_literal_example = read-quote_literal "o'hara" " AND" refl

nonempty : (s : String) → (s == "") ≡ false → s ≢ ""
nonempty s h e = cc (h, (eq_iff s "").1 e)

read-quote_identifier_example :
    (has_char 0 "a\"b" ≡ false) × (read_identifier ("\"a\"\"b\"" ++ " TO") ≡ some ("a\"b", " TO"))
unfolding quote_identifier
read-quote_identifier_example =
    read-quote_identifier "a\"b" "\"a\"\"b\"" " TO" refl (nonempty "a\"b" refl) (omega arith) refl

database_cutover_aside_name_total_example :
    (database_cutover_aside_name digest "app" "next" "c1"
      ≡ ok (aside_name digest "app" "next" "c1"))
    × (len (aside_name digest "app" "next" "c1") ≤ 63)
unfolding validate_database_name validate_cutover_id
database_cutover_aside_name_total_example =
    database_cutover_aside_name_total digest digest-IsHexDigest "app" "next" "c1" refl refl refl
