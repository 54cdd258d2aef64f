-- ===== src/Security/Redaction.antt =====
-- The masking of secrets in texts and JSON values (odooctl/security/redaction.py). Lists and tuples
-- are one case, a scalar that is no text is kept as its text, and keys are texts, as in JSON.
pub mod Clean
pub mod Masked
use Prim.Native.Char.{Char, code}
use Prim.Native.String.{◌++◌}
use odooctl.Prelude.{
  ℕ, zero, suc, ◌+◌, ◌-◌, String, Bool, true, false, not, ◌&&◌, ◌||◌, ◌==◌, Option, none, some,
  List, [], ◌∷◌, any, leb, ltb, eqb, if◌then◌else◌,
}

mutual
  pub data Json : Type 0 where
    text : String → Json
    scalar : String → Json
    object : Fields → Json
    sequence : Items → Json

  pub data Fields : Type 0 where
    no_fields : Fields
    field : String → Json → Fields → Fields

  pub data Items : Type 0 where
    no_items : Items
    item : Json → Items → Items

abbrev pub placeholder : String
placeholder = "***"

abbrev pub secret_key_tokens : List String
secret_key_tokens = "password" ∷ "secret" ∷ "token" ∷ "key" ∷ "passwd" ∷ "pass" ∷ []

unfoldable pub starts_with : String → String → Bool
starts_with String.[] t = true
starts_with (String.◌∷◌ c p) String.[] = false
starts_with (String.◌∷◌ c p) (String.◌∷◌ d t) =
    let rest = starts_with p t in eqb (code c) (code d) && rest

unfoldable pub ends_with : String → String → Bool
ends_with s String.[] = s == ""
ends_with s (String.◌∷◌ c t) = let rest = ends_with s t in s == String.◌∷◌ c t || rest

in_range : ℕ → ℕ → ℕ → Bool
in_range lo hi c = leb lo c && leb c hi

-- A letter of a token, and the character that `lower` makes that letter of: an upper case letter,
-- or the sign for kelvin. No other character becomes a letter of one of the tokens.
unfoldable pub is_lowered : ℕ → ℕ → Bool
is_lowered small c = eqb c small || (eqb (c + 32) small || (eqb c 8490 && eqb small b'k'))

-- `text.lower().startswith(token)`
unfoldable pub starts_lowered : String → String → Bool
unfolding is_lowered
starts_lowered String.[] t = true
starts_lowered (String.◌∷◌ c p) String.[] = false
starts_lowered (String.◌∷◌ c p) (String.◌∷◌ d t) =
    let rest = starts_lowered p t in is_lowered (code c) (code d) && rest

unfoldable pub contains_lowered : String → String → Bool
unfolding starts_lowered
contains_lowered token String.[] = token == ""
contains_lowered token (String.◌∷◌ c t) =
    let rest = contains_lowered token t in starts_lowered token (String.◌∷◌ c t) || rest

unfoldable pub is_secret_key : String → Bool
unfolding contains_lowered
is_secret_key key = any (λ token. contains_lowered token key) secret_key_tokens

-- The parts of `_ENV_DEFAULT_RE`, each with the number of characters that it takes.
is_name_start : ℕ → Bool
unfolding in_range
is_name_start c = in_range b'A' b'Z' c || (in_range b'a' b'z' c || eqb c b'_')

is_name_char : ℕ → Bool
unfolding is_name_start in_range
is_name_char c = is_name_start c || in_range b'0' b'9' c

-- `[^}]*\}`
to_brace : String → Option ℕ
to_brace String.[] = none
to_brace (String.◌∷◌ c t) =
    let rest = to_brace t in
    if eqb (code c) b'}' then some 1 else elim rest [ none ↦ none | some n ↦ some (suc n) ]

abbrev plus : ℕ → Option ℕ → Option ℕ
plus k none = none
plus k (some n) = some (k + n)

-- `(?::?-|:)` and what follows
after_name : String → Option ℕ
unfolding to_brace
after_name String.[] = none
after_name (String.◌∷◌ c String.[]) = none
after_name (String.◌∷◌ c (String.◌∷◌ d t)) =
    if eqb (code c) b'-'
    then plus 1 (to_brace (String.◌∷◌ d t))
    else if not (eqb (code c) b':')
    then none
    else if eqb (code d) b'-'
    then plus 2 (to_brace t)
    else plus 1 (to_brace (String.◌∷◌ d t))

abbrev Match : Type 0
Match = Option (String × ℕ)

abbrev longer : Char → Match → Match
longer c none = none
longer c (some (name, n)) = some (String.◌∷◌ c name, suc n)

abbrev named : Option ℕ → Match
named none = none
named (some n) = some ("", n)

-- The rest of a name, and what follows.
name_rest : String → Match
unfolding is_name_char after_name
name_rest String.[] = none
name_rest (String.◌∷◌ c t) =
    let rest = name_rest t in
    if is_name_char (code c) then longer c rest else named (after_name (String.◌∷◌ c t))

match_name : String → Match
unfolding is_name_start name_rest
match_name String.[] = none
match_name (String.◌∷◌ c t) = if is_name_start (code c) then longer c (name_rest t) else none

-- The name in a match at the start of a text, and how many of its characters follow the first.
unfoldable pub match_env : String → Match
unfolding match_name
match_env String.[] = none
match_env (String.◌∷◌ c String.[]) = none
match_env (String.◌∷◌ c (String.◌∷◌ d t)) =
    if eqb (code c) b'$' && eqb (code d) b'{'
    then elim (match_name t) [ none ↦ none | some m ↦ some (m.0, suc m.1) ]
    else none

-- `_ENV_DEFAULT_RE.sub`, with the characters of a match that are still to be left out.
unfoldable pub strip_from : ℕ → String → String
unfolding match_env
strip_from n String.[] = ""
strip_from (suc n) (String.◌∷◌ c t) = strip_from n t
strip_from zero (String.◌∷◌ c t) = elim (match_env (String.◌∷◌ c t)) [
  | none ↦ String.◌∷◌ c (strip_from zero t)
  | some m ↦ "${" ++ (m.0 ++ ("}" ++ strip_from m.1 t))
]

unfoldable pub strip_env_defaults : String → String
unfolding strip_from
strip_env_defaults t = strip_from zero t

unfoldable pub len : String → ℕ
len String.[] = 0
len (String.◌∷◌ c t) = suc (len t)

abbrev by_length : String → List String → List String
by_length v [] = v ∷ []
by_length v (w ∷ ws) =
    let rest = by_length v ws in if ltb (len v) (len w) then w ∷ rest else v ∷ w ∷ ws

-- `sorted({...}, key=len, reverse=True)`, for secret values in the order in which the set gives them
unfoldable pub longest_first : List String → List String
unfolding len
longest_first [] = []
longest_first (v ∷ vs) = let rest = longest_first vs in if v == "" then rest else by_length v rest

-- `text.replace(old, new)` of a text that is not empty, with the characters of an occurrence that
-- are still to be left out.
unfoldable pub replace_from : String → String → ℕ → String → String
unfolding starts_with len
replace_from old new n String.[] = ""
replace_from old new (suc n) (String.◌∷◌ c t) = replace_from old new n t
replace_from old new zero (String.◌∷◌ c t) = elim (starts_with old (String.◌∷◌ c t)) [
  | true ↦ new ++ replace_from old new (len old - 1) t
  | false ↦ String.◌∷◌ c (replace_from old new zero t)
]

abbrev replace_all : List String → String → String → String
replace_all [] new t = t
replace_all (v ∷ vs) new t = replace_all vs new (replace_from v new zero t)

unfoldable pub redact_text : List String → String → String
unfolding replace_from longest_first strip_env_defaults
redact_text secret_values t =
    replace_all (longest_first secret_values) placeholder (strip_env_defaults t)

-- What an entry under a secret key becomes.
unfoldable pub redact_secret : Json → Json
unfolding strip_env_defaults starts_with ends_with
redact_secret (text t) =
    if starts_with "${" (strip_env_defaults t) && ends_with "}" (strip_env_defaults t)
    then text (strip_env_defaults t)
    else text placeholder
redact_secret (scalar t) = text placeholder
redact_secret (object fs) = text placeholder
redact_secret (sequence xs) = text placeholder

module _ (secret_values : List String) where
  unfoldable mutual
    unfolding redact_text redact_secret is_secret_key

    pub redact : Json → Json
    redact (text t) = text (redact_text secret_values t)
    redact (scalar t) = scalar t
    redact (object fs) = object (redact_fields fs)
    redact (sequence xs) = sequence (redact_items xs)

    pub redact_fields : Fields → Fields
    redact_fields no_fields = no_fields
    redact_fields (field k v fs) =
        field k (if is_secret_key k then redact_secret v else redact v) (redact_fields fs)

    pub redact_items : Items → Items
    redact_items no_items = no_items
    redact_items (item v xs) = item (redact v) (redact_items xs)
