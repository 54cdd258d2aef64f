-- ===== src/Security/Redaction/Clean/Replaced.antt =====
-- A text that went through `strip_env_defaults` has no reference with a default left.
use Prim.Native.Char.{Char, code}
use Prim.Native.String.{◌++◌}
use text.Mathlib.TextLemmas.{nil-append, cons-append}
use odooctl.Prelude.{
  ℕ, zero, suc, String, ◌≡◌, inl, inr, refl, ap, subst, ◌∙◌, Bool, true, false, ◌&&◌, ◌||◌, Option,
  none, some, eqb, is_some, Bool-cases, Option-cases, if-true, if-false, if_ind, arith,
}
use odooctl.Security.Redaction.{
  is_name_start, is_name_char, in_range, after_name, name_rest, match_name, match_env, strip_from,
  longer, named,
}
use odooctl.Security.Redaction.Clean.{
  has_default, strip_from-kept, opened, strip_from-replaced, after_name-plain, counted, opens,
  match_env-opens, match_env-apart, match_env-kept,
}

-- A name that is matched is made of the characters of names.
all_name : String → Bool
all_name String.[] = true
all_name (String.◌∷◌ c t) = let rest = all_name t in is_name_char (code c) && rest

abbrev IsNamed : Option (String × ℕ) → Type 0
IsNamed none = Unit {0}
IsNamed (some m) = all_name m.0 ≡ true

longer-IsNamed :
    (c : Char) (o : Option (String × ℕ))
    → is_name_char (code c) ≡ true
    → IsNamed o
    → IsNamed (longer c o)
unfolding all_name
longer-IsNamed c none h named_so = tt
longer-IsNamed c (some m) h named_so = rw h named_so

named-IsNamed : (o : Option ℕ) → IsNamed (named o)
unfolding all_name
named-IsNamed none = tt
named-IsNamed (some n) = refl

name_rest-IsNamed : (s : String) → IsNamed (name_rest s)
unfolding name_rest
name_rest-IsNamed String.[] = tt
name_rest-IsNamed (String.◌∷◌ c t) =
    if_ind IsNamed (is_name_char (code c)) (longer c (name_rest t))
      (named (after_name (String.◌∷◌ c t)))
      (λ within. longer-IsNamed c (name_rest t) within (name_rest-IsNamed t)) (λ _. named-IsNamed _)

start_char : (c : ℕ) → is_name_start c ≡ true → is_name_char c ≡ true
unfolding is_name_char
start_char c h = rw h refl

match_name-IsNamed : (s : String) → IsNamed (match_name s)
unfolding match_name
match_name-IsNamed String.[] = tt
match_name-IsNamed (String.◌∷◌ c t) =
    if_ind IsNamed (is_name_start (code c)) (longer c (name_rest t)) none
      (λ start. longer-IsNamed c (name_rest t) (start_char (code c) start) (name_rest-IsNamed t))
      (λ _. tt)

counted-IsNamed : (o : Option (String × ℕ)) → IsNamed o → IsNamed (counted o)
counted-IsNamed none h = h
counted-IsNamed (some m) h = h

match_env-IsNamed : (s : String) → IsNamed (match_env s)
unfolding match_env
match_env-IsNamed String.[] = tt
match_env-IsNamed (String.◌∷◌ c String.[]) = tt
match_env-IsNamed (String.◌∷◌ c (String.◌∷◌ d t)) =
    if_ind IsNamed (opens c d) (counted (match_name t)) none
      (λ _. counted-IsNamed (match_name t) (match_name-IsNamed t)) (λ _. tt)

closing : (rest : String) → "" ++ ("}" ++ rest) ≡ String.◌∷◌ "}" rest
closing rest =
    nil-append ("}" ++ rest) ∙ (cons-append "}" "" rest ∙ ap (String.◌∷◌ "}") (nil-append rest))

name_rest-brace : (rest : String) → name_rest (String.◌∷◌ "}" rest) ≡ none
unfolding name_rest is_name_char is_name_start in_range
name_rest-brace rest = ap named (after_name-plain "}" rest refl refl)

match_name-brace : (rest : String) → match_name (String.◌∷◌ "}" rest) ≡ none
unfolding match_name is_name_start in_range
match_name-brace rest = refl

all_name-both :
    (c : Char) (t : String)
    → all_name (String.◌∷◌ c t) ≡ true
    → (is_name_char (code c) ≡ true) × (all_name t ≡ true)
unfolding all_name
all_name-both c t h = ground (arith, h)

-- Behind the opening, a name and a closing brace are no reference with a default.
name_rest-closed :
    (name rest : String) → all_name name ≡ true → name_rest (name ++ ("}" ++ rest)) ≡ none
unfolding name_rest
name_rest-closed String.[] rest h = ap name_rest (closing rest) ∙ name_rest-brace rest
name_rest-closed (String.◌∷◌ c t) rest h =
    let (char, others) = all_name-both c t h in
    ap name_rest (cons-append c t ("}" ++ rest))
    ∙ (if-true _ _ _ char ∙ ap (longer c) (name_rest-closed t rest others))

match_name-closed :
    (name rest : String) → all_name name ≡ true → match_name (name ++ ("}" ++ rest)) ≡ none
unfolding match_name
match_name-closed String.[] rest h = ap match_name (closing rest) ∙ match_name-brace rest
match_name-closed (String.◌∷◌ c t) rest h =
    ap match_name (cons-append c t ("}" ++ rest)) ∙ elim (Bool-cases (is_name_start (code c))) [
      | inl start ↦
          if-true _ _ _ start ∙ ap (longer c) (name_rest-closed t rest (all_name-both c t h).1)
      | inr other ↦ if-false _ _ _ other
    ]

match_env-plain :
    (c : Char) (u : String) → eqb (code c) b'$' ≡ false → match_env (String.◌∷◌ c u) ≡ none
unfolding match_env
match_env-plain c String.[] h = refl
match_env-plain c (String.◌∷◌ d u) h = match_env-apart c d u (rw h refl)

has_default-step :
    (c : Char) (u : String)
    → match_env (String.◌∷◌ c u) ≡ none
    → has_default (String.◌∷◌ c u) ≡ has_default u
unfolding has_default
has_default-step c u h = ap (λ o. is_some o || has_default u) h

name_char-plain : (c : ℕ) → is_name_char c ≡ true → eqb c b'$' ≡ false
unfolding is_name_char is_name_start in_range
name_char-plain c h = ground arith

has_default-closed :
    (name rest : String)
    → all_name name ≡ true
    → has_default (name ++ ("}" ++ rest)) ≡ has_default rest
has_default-closed String.[] rest h =
    ap has_default (closing rest) ∙ has_default-step "}" rest (match_env-plain "}" rest refl)
has_default-closed (String.◌∷◌ c t) rest h =
    let (char, others) = all_name-both c t h in
    ap has_default (cons-append c t ("}" ++ rest))
    ∙ (has_default-step c _ (match_env-plain c _ (name_char-plain (code c) char))
        ∙ has_default-closed t rest others)

has_default-opened : (u : String) → match_name u ≡ none → has_default (opened u) ≡ has_default u
unfolding opened
has_default-opened u h =
    has_default-step "$" (String.◌∷◌ "{" u) (match_env-opens "$" "{" u refl ∙ ap counted h)
    ∙ has_default-step "{" u (match_env-plain "{" u refl)

-- Wherever a match is replaced and whatever stands around it, no match is left, also none that the
-- replacement would make.
pub has_default-strip_from : (n : ℕ) (s : String) → has_default (strip_from n s) ≡ false
unfolding strip_from has_default
has_default-strip_from zero String.[] = refl
has_default-strip_from (suc n) String.[] = refl
has_default-strip_from (suc n) (String.◌∷◌ c t) = has_default-strip_from n t
has_default-strip_from zero (String.◌∷◌ c t) = elim (Option-cases (match_env (String.◌∷◌ c t))) [
  | inl missing ↦
      ap has_default (strip_from-kept c t missing)
      ∙ (has_default-step c (strip_from zero t) (match_env-kept c t missing)
          ∙ has_default-strip_from zero t)
  | inr (m, there) ↦
      let name = subst IsNamed there (match_env-IsNamed (String.◌∷◌ c t)) in
      ap has_default (strip_from-replaced c t m there)
      ∙ (has_default-opened (m.0 ++ ("}" ++ strip_from m.1 t))
            (match_name-closed m.0 (strip_from m.1 t) name)
          ∙ (has_default-closed m.0 (strip_from m.1 t) name ∙ has_default-strip_from m.1 t))
]
