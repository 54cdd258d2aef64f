-- ===== src/Security/Redaction/Clean.antt =====
-- Where a match fails, it fails after the replacement of others too.
pub mod Replaced
use Prim.Native.Char.{Char, code}
use Prim.Native.String.{◌++◌}
use text.Mathlib.TextLemmas.{nil-append, cons-append}
use odooctl.Prelude.{
  ℕ, zero, suc, String, ◌≡◌, ◌⊎◌, inl, inr, refl, sym, ap, subst, ◌∙◌, Bool, true, false, not, ◌&&◌,
  ◌||◌, Option, none, some, eqb, is_some, Bool-cases, Option-cases, if-true, if-false, if_ind,
  if◌then◌else◌, arith, some_cancel,
}
use odooctl.Security.Redaction.{
  is_name_start, is_name_char, in_range, to_brace, after_name, name_rest, match_name, match_env,
  strip_from, longer, named, plus,
}

-- Somewhere the expression `_ENV_DEFAULT_RE` matches.
pub has_default : String → Bool
unfolding match_env
has_default String.[] = false
has_default (String.◌∷◌ c t) =
    let rest = has_default t in is_some (match_env (String.◌∷◌ c t)) || rest

-- The text that a match with this name is replaced by, in front of a rest.
abbrev reference : String → String → String
reference name rest = "${" ++ (name ++ ("}" ++ rest))

strip_from-kept :
    (c : Char) (t : String)
    → match_env (String.◌∷◌ c t) ≡ none
    → strip_from zero (String.◌∷◌ c t) ≡ String.◌∷◌ c (strip_from zero t)
unfolding strip_from
strip_from-kept c t h = rw (strip_from, h) refl

-- "${" in front of a text is a dollar and a brace.
opened : String → String
opened u = String.◌∷◌ "$" (String.◌∷◌ "{" u)

opened_lem : (u : String) → "${" ++ u ≡ opened u
unfolding opened
opened_lem u =
    cons-append "$" "{" u
    ∙ ap (String.◌∷◌ "$") (cons-append "{" "" u ∙ ap (String.◌∷◌ "{") (nil-append u))

strip_from-replaced :
    (c : Char) (t : String) (m : String × ℕ)
    → match_env (String.◌∷◌ c t) ≡ some m
    → strip_from zero (String.◌∷◌ c t) ≡ opened (m.0 ++ ("}" ++ strip_from m.1 t))
unfolding strip_from opened
strip_from-replaced c t m h = rw (strip_from, h) (opened_lem _)

to_brace-tail :
    (c : Char) (t : String)
    → to_brace (String.◌∷◌ c t) ≡ none
    → (eqb (code c) b'}' ≡ false) × (to_brace t ≡ none)
unfolding to_brace
to_brace-tail c t h = elim (Bool-cases (eqb (code c) b'}')) [
  | inl brace ↦ cc (rw brace at h)
  | inr other ↦ elim (Option-cases (to_brace t)) [
    | inl rest ↦ (other, rest)
    | inr (n, there) ↦ cc (rw there at (rw other at h))
  ]
]

to_brace-cons :
    (c : Char) (t : String)
    → eqb (code c) b'}' ≡ false
    → to_brace t ≡ none
    → to_brace (String.◌∷◌ c t) ≡ none
unfolding to_brace
to_brace-cons c t other rest = rw other (rw rest refl)

-- Without a closing brace behind it, nothing stands for a separator and a default.
after_name-open : (c : Char) (t : String) → to_brace t ≡ none → after_name (String.◌∷◌ c t) ≡ none
unfolding after_name
after_name-open c String.[] h = refl
after_name-open c (String.◌∷◌ d t) h = rw h (rw ((to_brace-tail d t h).1) (ground arith))

after_name-plain :
    (c : Char) (t : String)
    → eqb (code c) b'-' ≡ false
    → eqb (code c) b':' ≡ false
    → after_name (String.◌∷◌ c t) ≡ none
unfolding after_name
after_name-plain c String.[] dash colon = refl
after_name-plain c (String.◌∷◌ d t) dash colon = rw dash (rw colon refl)

plus-none : (k : ℕ) (o : Option ℕ) → plus k o ≡ none → o ≡ none
plus-none k none h = refl
plus-none k (some n) h = cc

after_name-cases :
    (c : Char) (t : String)
    → after_name (String.◌∷◌ c t) ≡ none
    → ((eqb (code c) b'-' ≡ false) × (eqb (code c) b':' ≡ false)) ⊎ (to_brace t ≡ none)
unfolding after_name to_brace
after_name-cases c String.[] h = inr refl
after_name-cases c (String.◌∷◌ d t) h = elim (Bool-cases (eqb (code c) b'-')) [
  | inl dash ↦ inr (plus-none 1 _ (rw dash at h))
  | inr undashed ↦ elim (Bool-cases (eqb (code c) b':')) [
    | inr plain ↦ inl (undashed, plain)
    | inl colon ↦ elim (Bool-cases (eqb (code d) b'-')) [
      | inl both ↦ inr (
          to_brace-cons d t (ground (arith, both))
            (plus-none 2 _ (rw both at (rw colon at (rw undashed at h)))))
      | inr single ↦ inr (plus-none 1 _ (rw single at (rw colon at (rw undashed at h))))
    ]
  ]
]

-- Where there is no closing brace, nothing matches.
name_rest-open : (s : String) → to_brace s ≡ none → name_rest s ≡ none
unfolding name_rest
name_rest-open String.[] h = refl
name_rest-open (String.◌∷◌ c t) h =
    let rest = (to_brace-tail c t h).1 in
    rw (name_rest-open t rest) (rw (after_name-open c t rest) (ground arith))

match_env-open : (s : String) → to_brace s ≡ none → match_env s ≡ none
unfolding match_env match_name
match_env-open String.[] h = refl
match_env-open (String.◌∷◌ c String.[]) h = refl
match_env-open (String.◌∷◌ c (String.◌∷◌ d String.[])) h = ground arith
match_env-open (String.◌∷◌ c (String.◌∷◌ d (String.◌∷◌ e t))) h =
    let rest =
      (to_brace-tail e t
        (to_brace-tail d (String.◌∷◌ e t)
          (to_brace-tail c (String.◌∷◌ d (String.◌∷◌ e t)) h).1).1).1 in
    rw (name_rest-open t rest) (ground arith)

-- Closing braces are not made.
to_brace-strip_from : (n : ℕ) (s : String) → to_brace s ≡ none → to_brace (strip_from n s) ≡ none
unfolding strip_from
to_brace-strip_from zero String.[] h = h
to_brace-strip_from (suc n) String.[] h = h
to_brace-strip_from (suc n) (String.◌∷◌ c t) h = to_brace-strip_from n t (to_brace-tail c t h).1
to_brace-strip_from zero (String.◌∷◌ c t) h =
    let (other, rest) = to_brace-tail c t h in
    subst (λ u. to_brace u ≡ none) (sym (strip_from-kept c t (match_env-open (String.◌∷◌ c t) h)))
      (to_brace-cons c (strip_from zero t) other (to_brace-strip_from zero t rest))

-- Each step of a failing match fails on the stripped text too.
after_name-kept :
    (c : Char) (t : String)
    → after_name (String.◌∷◌ c t) ≡ none
    → after_name (String.◌∷◌ c (strip_from zero t)) ≡ none
after_name-kept c t h = elim (after_name-cases c t h) [
  | inl plain ↦ after_name-plain c (strip_from zero t) plain.0 plain.1
  | inr rest ↦ after_name-open c (strip_from zero t) (to_brace-strip_from zero t rest)
]

longer-none : (c : Char) (o : Option (String × ℕ)) → longer c o ≡ none → o ≡ none
longer-none c none h = refl
longer-none c (some m) h = cc

named-none : (o : Option ℕ) → named o ≡ none → o ≡ none
named-none none h = refl
named-none (some n) h = cc

name_rest-opened : (u : String) → name_rest (opened u) ≡ none
unfolding opened name_rest is_name_char is_name_start in_range after_name
name_rest-opened u = refl

match_name-opened : (u : String) → match_name (opened u) ≡ none
unfolding opened match_name is_name_start in_range
match_name-opened u = refl

name_rest-kept : (s : String) → name_rest s ≡ none → name_rest (strip_from zero s) ≡ none
unfolding name_rest strip_from
name_rest-kept String.[] h = refl
name_rest-kept (String.◌∷◌ c t) h = elim (Option-cases (match_env (String.◌∷◌ c t))) [
  | inr (m, there) ↦
      subst (λ u. name_rest u ≡ none) (sym (strip_from-replaced c t m there)) (name_rest-opened _)
  | inl missing ↦
      subst (λ u. name_rest u ≡ none) (sym (strip_from-kept c t missing))
        (elim (Bool-cases (is_name_char (code c))) [
          | inl within ↦
              if-true _ _ _ within
              ∙ ap (longer c)
                  (name_rest-kept t (longer-none c (name_rest t) (sym (if-true _ _ _ within) ∙ h)))
          | inr out ↦
              if-false _ _ _ out
              ∙ ap named (after_name-kept c t (named-none _ (sym (if-false _ _ _ out) ∙ h)))
        ])
]

match_name-kept : (s : String) → match_name s ≡ none → match_name (strip_from zero s) ≡ none
unfolding match_name strip_from
match_name-kept String.[] h = refl
match_name-kept (String.◌∷◌ c t) h = elim (Option-cases (match_env (String.◌∷◌ c t))) [
  | inr (m, there) ↦
      subst (λ u. match_name u ≡ none) (sym (strip_from-replaced c t m there)) (match_name-opened _)
  | inl missing ↦
      subst (λ u. match_name u ≡ none) (sym (strip_from-kept c t missing))
        (elim (Bool-cases (is_name_start (code c))) [
          | inl within ↦
              if-true _ _ _ within
              ∙ ap (longer c)
                  (name_rest-kept t (longer-none c (name_rest t) (sym (if-true _ _ _ within) ∙ h)))
          | inr out ↦ if-false _ _ _ out
        ])
]

-- What a match of the two first characters and the name gives.
abbrev counted : Option (String × ℕ) → Option (String × ℕ)
counted none = none
counted (some m) = some (m.0, suc m.1)

counted-none : (o : Option (String × ℕ)) → counted o ≡ none → o ≡ none
counted-none none h = refl
counted-none (some m) h = cc

abbrev opens : Char → Char → Bool
opens c d = eqb (code c) b'$' && eqb (code d) b'{'

match_env-opens :
    (c d : Char) (t : String)
    → opens c d ≡ true
    → match_env (String.◌∷◌ c (String.◌∷◌ d t)) ≡ counted (match_name t)
unfolding match_env
match_env-opens c d t h = if-true _ _ _ h

match_env-apart :
    (c d : Char) (t : String) → opens c d ≡ false → match_env (String.◌∷◌ c (String.◌∷◌ d t)) ≡ none
unfolding match_env
match_env-apart c d t h = if-false _ _ _ h

match_env-opened : (c : Char) (u : String) → match_env (String.◌∷◌ c (opened u)) ≡ none
unfolding opened
match_env-opened c u = match_env-apart c "$" (String.◌∷◌ "{" u) (ground arith)

-- What did not match before does not match after.
match_env-kept :
    (c : Char) (t : String)
    → match_env (String.◌∷◌ c t) ≡ none
    → match_env (String.◌∷◌ c (strip_from zero t)) ≡ none
unfolding strip_from
match_env-kept c String.[] h = h
match_env-kept c (String.◌∷◌ d t) h = elim (Option-cases (match_env (String.◌∷◌ d t))) [
  | inr (m, there) ↦
      subst (λ u. match_env (String.◌∷◌ c u) ≡ none) (sym (strip_from-replaced d t m there))
        (match_env-opened c _)
  | inl missing ↦
      subst (λ u. match_env (String.◌∷◌ c u) ≡ none) (sym (strip_from-kept d t missing))
        (elim (Bool-cases (opens c d)) [
          | inl both ↦
              match_env-opens c d (strip_from zero t) both
              ∙ ap counted (
                  match_name-kept t
                    (counted-none (match_name t) (sym (match_env-opens c d t both) ∙ h)))
          | inr apart ↦ match_env-apart c d (strip_from zero t) apart
        ])
]
