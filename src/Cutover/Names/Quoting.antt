-- ===== src/Cutover/Names/Quoting.antt =====
-- What the server's lexer reads back from a quoted name.
use Prim.Native.Char.{Char, code}
use Prim.Native.String.{len, ◌++◌}
use text.Mathlib.TextLemmas.{nil-append, cons-append, append_assoc}
use odooctl.Prelude.{
  ℕ, ◌≤◌, String, ◌≡◌, ◌≢◌, refl, ◌==◌, ==_false, le→leb, leb, if-true, if-false, true, false,
  Option, none, some, eqb, if◌then◌else◌, arith, Bool-cases, inl, inr, ◌∙◌, ap, subst,
}
use odooctl.Prelude.Results.{ok, ok-injective}
use odooctl.Cutover.Names.{
  quote_literal, quote_identifier, doubled, has_char, single_quote, double_quote,
  identifier_max_bytes, take_bytes,
}

abbrev prepend : Char → Option (String × String) → Option (String × String)
prepend c none = none
prepend c (some (s, t)) = some (String.◌∷◌ c s, t)

-- The rule of SQL for what stands behind an opening quote: a doubled quote is a character of the
-- text, a single one ends it. The result is the text and what follows the closing quote.
scan : ℕ → String → Option (String × String)
scan q String.[] = none
scan q (String.◌∷◌ c String.[]) = if eqb (code c) q then some ("", "") else none
scan q (String.◌∷◌ c (String.◌∷◌ d s)) =
    let past_two = scan q s in
    let past_one = scan q (String.◌∷◌ d s) in
    if eqb (code c) q
    then (if eqb (code d) q then prepend c past_two else some ("", String.◌∷◌ d s))
    else prepend c past_one

-- The text goes on with something other than the quote.
abbrev EndsQuote : ℕ → String → Type 0
EndsQuote q String.[] = Unit
EndsQuote q (String.◌∷◌ c s) = eqb (code c) q ≡ false

scan-skip :
    (q : ℕ) (c : Char) (s : String)
    → eqb (code c) q ≡ false
    → scan q (String.◌∷◌ c s) ≡ prepend c (scan q s)
unfolding scan
scan-skip q c String.[] h = ground arith
scan-skip q c (String.◌∷◌ d s) h = ground arith

scan-pair :
    (q : ℕ) (c : Char) (s : String)
    → eqb (code c) q ≡ true
    → scan q (String.◌∷◌ c (String.◌∷◌ c s)) ≡ prepend c (scan q s)
unfolding scan
scan-pair q c s h = ground arith

scan-close :
    (q : ℕ) (e : Char) (rest : String)
    → eqb (code e) q ≡ true
    → EndsQuote q rest
    → scan q (String.◌∷◌ e rest) ≡ some ("", rest)
unfolding scan
scan-close q e String.[] h k = ground arith
scan-close q e (String.◌∷◌ d s) h k = ground arith

scan-doubled :
    (q : ℕ) (e : Char) (name rest : String)
    → eqb (code e) q ≡ true
    → EndsQuote q rest
    → scan q (doubled q name ++ String.◌∷◌ e rest) ≡ some (name, rest)
unfolding doubled
scan-doubled q e String.[] rest h k = rw nil-append (scan-close q e rest h k)
scan-doubled q e (String.◌∷◌ c s) rest h k = elim (Bool-cases (eqb (code c) q)) [
  | inl same ↦ rw same (
      rw cons-append
        (rw cons-append (scan-pair q c _ same ∙ ap (prepend c) (scan-doubled q e s rest h k))))
  | inr other ↦
      rw other
        (rw cons-append (scan-skip q c _ other ∙ ap (prepend c) (scan-doubled q e s rest h k)))
]

-- The lexer: an opening quote `q` and the text behind it.
unfoldable pub read_quoted : ℕ → String → Option (String × String)
unfolding scan
read_quoted q String.[] = none
read_quoted q (String.◌∷◌ c s) = if eqb (code c) q then scan q s else none

-- A text of one character, in front of another.
one-append : (c : Char) (s : String) → String.◌∷◌ c "" ++ s ≡ String.◌∷◌ c s
one-append c s = cons-append c "" s ∙ ap (String.◌∷◌ c) (nil-append s)

read-quoted_text :
    (q : ℕ) (c : Char) (value rest : String)
    → eqb (code c) q ≡ true
    → EndsQuote q rest
    → read_quoted q ((String.◌∷◌ c "" ++ (doubled q value ++ String.◌∷◌ c "")) ++ rest)
      ≡ some (value, rest)
unfolding read_quoted
read-quoted_text q c value rest e h =
    rw one-append
      (rw cons-append (rw e (rw append_assoc (rw one-append (scan-doubled q c value rest e h)))))

-- Whatever the value, PostgreSQL's lexer reads from the quoted literal exactly the value, and then
-- the text that the program put behind it, if that does not begin with a single quote.
pub read-quote_literal :
    (value rest : String)
    → EndsQuote single_quote rest
    → read_quoted single_quote (quote_literal value ++ rest) ≡ some (value, rest)
unfolding quote_literal
read-quote_literal value rest h = read-quoted_text single_quote _ value rest refl h

-- What PostgreSQL makes of a quoted identifier: a zero-length one is an error, and of one that is
-- longer than 63 bytes the whole characters within 63 bytes are kept.
abbrev identifier_of : Option (String × String) → Option (String × String)
identifier_of none = none
identifier_of (some (name, rest)) =
    if name == ""
    then none
    else some (
      if leb (len name) identifier_max_bytes then name else take_bytes identifier_max_bytes name,
      rest,
    )

unfoldable pub read_identifier : String → Option (String × String)
unfolding read_quoted take_bytes
read_identifier t = identifier_of (read_quoted double_quote t)

identified :
    (name rest : String)
    → name ≢ ""
    → len name ≤ identifier_max_bytes
    → identifier_of (some (name, rest)) ≡ some (name, rest)
unfolding take_bytes
identified name rest some_name fits =
    if-false _ _ _ (==_false name "" some_name)
    ∙ ap (λ n. some (n, rest)) (if-true _ _ _ (le→leb (len name) identifier_max_bytes fits))

-- A name that is quoted as an identifier holds no NUL. Where it is not empty and has at most 63 bytes,
-- PostgreSQL reads it back, and then the text behind it, if that does not begin with a double quote.
pub read-quote_identifier :
    (name quoted rest : String)
    → quote_identifier name ≡ ok quoted
    → name ≢ ""
    → len name ≤ identifier_max_bytes
    → EndsQuote double_quote rest
    → (has_char 0 name ≡ false) × (read_identifier (quoted ++ rest) ≡ some (name, rest))
unfolding quote_identifier read_identifier
read-quote_identifier name quoted rest e some_name fits h = elim (Bool-cases (has_char 0 name)) [
  | inl nul ↦ cc (nul, e)
  | inr clean ↦ (
    clean,
    ap identifier_of (
          subst (λ t. read_quoted double_quote (t ++ rest) ≡ some (name, rest))
            (ok-injective (rw clean at e)) (read-quoted_text double_quote _ name rest refl h))
        ∙ identified name rest some_name fits,
  )
]
