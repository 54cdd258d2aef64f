-- ===== src/Environments.antt =====
-- The environments of a configuration, as the other parts ask for them (`OdooCtlConfig.env` and
-- `is_protected` of odooctl/config.py). A KeyError is given by its message.
use Prim.Native.Nat.{Ordering}
use Prim.Native.String.{◌++◌, compare}
use odooctl.Prelude.{String, Bool, ◌==◌, ◌||◌, Option, none, some, List, [], ◌∷◌, map, lookup}
use odooctl.Prelude.Results.{Result, ok, err}

-- Of a backend of the filestore only the type is asked for.
pub record EnvironmentConfig : Type 0 where
  pub tier : Option String
  pub protected : Option Bool
  pub db_name : String
  pub filestore_backend : Option String

abbrev pub Environments : Type 0
Environments = List (String × EnvironmentConfig)

abbrev insert_text : String → List String → List String
insert_text s [] = s ∷ []
insert_text s (t ∷ ts) =
    let rest = insert_text s ts in
    let before = s ∷ t ∷ ts in elim (compare s t) [ Ordering.gt ↦ t ∷ rest | _ ↦ before ]

-- `sorted(names)`
unfoldable pub sorted_texts : List String → List String
sorted_texts [] = []
sorted_texts (s ∷ ss) = insert_text s (sorted_texts ss)

-- `", ".join(texts)`
abbrev joined_from : String → List String → String
joined_from s [] = s
joined_from s (t ∷ ts) = s ++ (", " ++ joined_from t ts)

abbrev pub joined : List String → String
joined [] = ""
joined (s ∷ ss) = joined_from s ss

abbrev pub names_of : Environments → List String
names_of environments = map (λ e. e.0) environments

abbrev env_or_error :
    String → Environments → Option EnvironmentConfig → Result String EnvironmentConfig
env_or_error name environments (some e) = ok e
env_or_error name environments none = err (
    "Unknown environment '"
    ++ (name ++ ("'. Known: " ++ joined (sorted_texts (names_of environments)))))

unfoldable pub env : Environments → String → Result String EnvironmentConfig
unfolding sorted_texts
env environments name = env_or_error name environments (lookup name environments)

abbrev is_production : Option String → Bool
is_production none = Bool.false
is_production (some tier) = tier == "production"

abbrev protected_or : Option Bool → Bool → Bool
protected_or (some b) otherwise = b
protected_or none otherwise = otherwise

abbrev protection_of : String → Result String EnvironmentConfig → Result String Bool
protection_of name (err key) = err key
protection_of name (ok e) =
    ok (protected_or e.protected (name == "production" || is_production e.tier))

unfoldable pub is_protected : Environments → String → Result String Bool
unfolding env
is_protected environments name = protection_of name (env environments name)
