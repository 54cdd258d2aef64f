-- ===== src/Security/Redaction/Masked.antt =====
-- What is left of a value after its masking.
use odooctl.Prelude.{
  String, ◌≡◌, ◌⊎◌, inl, inr, refl, true, false, ◌&&◌, List, arith, if_ind, if◌then◌else◌,
}
use odooctl.Security.Redaction.{
  Json, text, scalar, object, sequence, Fields, no_fields, field, Items, no_items, item,
  placeholder, starts_with, ends_with, is_secret_key, strip_env_defaults, redact_text,
  redact_secret, redact, redact_fields, redact_items,
}
use odooctl.Security.Redaction.Clean.{has_default}
use odooctl.Security.Redaction.Clean.Replaced.{has_default-strip_from}

-- The placeholder, or the text that was there without the defaults of its references: it begins with
-- "${" and ends with "}", and no reference with a default is in it.
abbrev pub Covers : Json → Json → Type 0
Covers v v' =
    (v' ≡ text placeholder)
    ⊎ ((t : String) × (v ≡ text t)
        × (v' ≡ text (strip_env_defaults t))
        × (starts_with "${" (strip_env_defaults t) ≡ true)
        × (ends_with "}" (strip_env_defaults t) ≡ true)
        × (has_default (strip_env_defaults t) ≡ false))

module _ (secret_values : List String) where
  abbrev mutual
    -- The same keys and places; each entry under a secret key is covered, and each other text is
    -- that text redacted.
    pub Masks : Json → Json → Type 0
    Masks (text t) (text t') = t' ≡ redact_text secret_values t
    Masks (scalar t) (scalar t') = t' ≡ t
    Masks (object fs) (object fs') = MasksFields fs fs'
    Masks (sequence xs) (sequence xs') = MasksItems xs xs'
    Masks _ _ = ⊥

    pub MasksFields : Fields → Fields → Type 0
    MasksFields no_fields no_fields = Unit {0}
    MasksFields (field k v fs) (field k' v' fs') =
        (k' ≡ k)
        × (((is_secret_key k ≡ true) × Covers v v') ⊎ ((is_secret_key k ≡ false) × Masks v v'))
        × MasksFields fs fs'
    MasksFields _ _ = ⊥

    pub MasksItems : Items → Items → Type 0
    MasksItems no_items no_items = Unit {0}
    MasksItems (item v xs) (item v' xs') = Masks v v' × MasksItems xs xs'
    MasksItems _ _ = ⊥

  redact_secret-Covers : (v : Json) → Covers v (redact_secret v)
  unfolding redact_secret strip_env_defaults
  redact_secret-Covers (text t) =
      if_ind (Covers (text t))
        (starts_with "${" (strip_env_defaults t) && ends_with "}" (strip_env_defaults t))
        (text (strip_env_defaults t)) (text placeholder)
        (λ bare.
          inr
            (t, refl, refl, ground (arith, bare), ground (arith, bare), has_default-strip_from 0 t))
        (λ _. inl refl)
  redact_secret-Covers (scalar t) = inl refl
  redact_secret-Covers (object fs) = inl refl
  redact_secret-Covers (sequence xs) = inl refl

  abbrev Entry : String → Json → Json → Type 0
  Entry k v v' = ((is_secret_key k ≡ true) × Covers v v') ⊎ ((is_secret_key k ≡ false) × Masks v v')

  redacted-Entry :
      (k : String) (v : Json)
      → Masks v (redact secret_values v)
      → Entry k v (if is_secret_key k then redact_secret v else redact secret_values v)
  redacted-Entry k v masks =
      if_ind (Entry k v) (is_secret_key k) (redact_secret v) (redact secret_values v)
        (λ secret. inl (secret, redact_secret-Covers v)) (λ plain. inr (plain, masks))

  mutual
    unfolding redact redact_fields redact_items

    masked : (v : Json) → Masks v (redact secret_values v)
    masked (text t) = refl
    masked (scalar t) = refl
    masked (object fs) = masked_fields fs
    masked (sequence xs) = masked_items xs

    masked_fields : (fs : Fields) → MasksFields fs (redact_fields secret_values fs)
    masked_fields no_fields = tt
    masked_fields (field k v fs) = (refl, redacted-Entry k v (masked v), masked_fields fs)

    masked_items : (xs : Items) → MasksItems xs (redact_items secret_values xs)
    masked_items no_items = tt
    masked_items (item v xs) = (masked v, masked_items xs)
