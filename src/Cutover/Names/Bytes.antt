-- ===== src/Cutover/Names/Bytes.antt =====
-- The name of the old database fits PostgreSQL's limit and keeps its whole digest.
use Prim.Native.Char.{Char, code, len_utf8}
use Prim.Native.String.len
use Prim.Native.String.count
use Prim.Native.String.{len, count, ◌++◌}
use text.Mathlib.TextPositions.{len-append, len_utf8-pos}
use text.Mathlib.TextLemmas.{nil-append, cons-append, length-append, append_inj, append_cancel_left}
use odooctl.Prelude.{
  ℕ, zero, suc, ◌-◌, ◌+◌, ◌≤◌, String, ◌≡◌, refl, false, eqb, leb, arith, ◌||◌, ap, if_ind,
  or_false, leb→le, ◌==◌, ==_false,
}
use odooctl.Prelude.Results.{ok}
use odooctl.Cutover.Names.{
  has_char, take_bytes, truncate_utf8, take_chars, aside_digest, aside_name, aside_marker,
  database_cutover_aside_name, validate_database_name, validate_cutover_id,
}

len-cons : (c : Char) (s : String) → len (String.◌∷◌ c s) ≡ len_utf8 c + len s
len-cons c s = λ i. len.cons c s i

count-cons : (c : Char) (s : String) → count (String.◌∷◌ c s) ≡ suc (count s)
count-cons c s = λ i. count.cons c s i

len-take_bytes : (m : ℕ) (s : String) → len (take_bytes m s) ≤ m
unfolding take_bytes
len-take_bytes m String.[] = omega arith
len-take_bytes m (String.◌∷◌ c s) =
    if_ind (λ t. len t ≤ m) (leb (len_utf8 c) m) _ ""
      (λ fits. omega (
        arith,
        leb→le (len_utf8 c) m fits,
        len-cons c (take_bytes (m - len_utf8 c) s),
        len-take_bytes (m - len_utf8 c) s,
      ))
      (λ _. omega arith)

len-truncate_utf8 : (s : String) (m : ℕ) → len (truncate_utf8 s m) ≤ m
unfolding truncate_utf8
len-truncate_utf8 s m = ground (arith, len-take_bytes m s)

count-le-len : (s : String) → count s ≤ len s
count-le-len String.[] = omega arith
count-le-len (String.◌∷◌ c s) =
    let (w, e) = len_utf8-pos c in omega (arith, e, len-cons c s, count-cons c s, count-le-len s)

-- Where every character is one byte, so is every character of a prefix.
take_chars-sizes :
    (n : ℕ) (s : String)
    → count s ≡ len s
    → n ≤ count s
    → (count (take_chars n s) ≡ n) × (len (take_chars n s) ≡ n)
unfolding take_chars
take_chars-sizes zero s e h = (refl, refl)
take_chars-sizes (suc n) String.[] e h = absurd (omega arith)
take_chars-sizes (suc n) (String.◌∷◌ c s) e h =
    let (w, p) = len_utf8-pos c in
    let (u, v) =
      take_chars-sizes n s (omega (arith, p, len-cons c s, count-cons c s, count-le-len s))
        (omega (arith, count-cons c s)) in
    (
      omega (arith, u, count-cons c (take_chars n s)),
      omega (
        arith,
        v,
        p,
        e,
        len-cons c s,
        count-cons c s,
        count-le-len s,
        len-cons c (take_chars n s),
      ),
    )

has_char-append : (n : ℕ) (s t : String) → has_char n (s ++ t) ≡ (has_char n s || has_char n t)
unfolding has_char
has_char-append n String.[] t = rw nil-append
has_char-append n (String.◌∷◌ c s) t = rw cons-append (ground (arith, has_char-append n s t))

has_char-take_bytes :
    (n m : ℕ) (s : String) → has_char n s ≡ false → has_char n (take_bytes m s) ≡ false
unfolding has_char take_bytes
has_char-take_bytes n m String.[] h = refl
has_char-take_bytes n m (String.◌∷◌ c s) h =
    let (first, others) = or_false (eqb (code c) n) (has_char n s) h in
    if_ind (λ t. has_char n t ≡ false) (leb (len_utf8 c) m) _ ""
      (λ _. rw first (has_char-take_bytes n (m - len_utf8 c) s others)) (λ _. refl)

has_char-take_chars :
    (n m : ℕ) (s : String) → has_char n s ≡ false → has_char n (take_chars m s) ≡ false
unfolding has_char take_chars
has_char-take_chars n zero s h = refl
has_char-take_chars n (suc m) String.[] h = refl
has_char-take_chars n (suc m) (String.◌∷◌ c s) h = ground (arith, has_char-take_chars n m s)

marker-clean : has_char 0 aside_marker ≡ false
unfolding has_char
marker-clean = refl

validate_database_name_ok :
    (name field : String)
    → (name == "") ≡ false
    → has_char 0 name ≡ false
    → len name ≤ 63
    → validate_database_name name field ≡ ok tt
unfolding validate_database_name
validate_database_name_ok name field a b h = rw a (rw b (ground arith))

pub validate_database_name-clean :
    (name field : String) → validate_database_name name field ≡ ok tt → has_char 0 name ≡ false
unfolding validate_database_name
validate_database_name-clean name field h = ground arith

-- What the program relies on of `hashlib.sha256(…).hexdigest()`: 64 characters of one byte each,
-- none of them NUL.
pub record IsHexDigest (hexdigest : String → String) : Type 0 where
  pub chars : (x : String) → count (hexdigest x) ≡ 64
  pub bytes : (x : String) → len (hexdigest x) ≡ 64
  pub clean : (x : String) → has_char 0 (hexdigest x) ≡ false

module _ (hexdigest : String → String) (hex : IsHexDigest hexdigest) where
  digest-sizes :
      (c t i : String)
      → (count (aside_digest hexdigest c t i) ≡ 32) × (len (aside_digest hexdigest c t i) ≡ 32)
  unfolding aside_digest
  digest-sizes c t i =
      take_chars-sizes 32 _ (omega (arith, hex.chars _, hex.bytes _)) (omega (arith, hex.chars _))

  suffix-sizes :
      (c t i : String)
      → (count (aside_marker ++ aside_digest hexdigest c t i) ≡ 50)
        × (len (aside_marker ++ aside_digest hexdigest c t i) ≡ 50)
  suffix-sizes c t i =
      let (u, v) = digest-sizes c t i in
      (
        omega (arith, u, length-append aside_marker (aside_digest hexdigest c t i)),
        omega (arith, v, len-append aside_marker (aside_digest hexdigest c t i)),
      )

  len-aside_name-le : (t i c : String) → len (aside_name hexdigest t i c) ≤ 63
  unfolding aside_name
  len-aside_name-le t i c =
      let suffix = aside_marker ++ aside_digest hexdigest c t i in
      omega (
        arith,
        (suffix-sizes c t i).1,
        len-append (truncate_utf8 t (63 - len suffix)) suffix,
        len-truncate_utf8 t (63 - len suffix),
      )

  len-aside_name-ge : (t i c : String) → 50 ≤ len (aside_name hexdigest t i c)
  unfolding aside_name
  len-aside_name-ge t i c =
      let suffix = aside_marker ++ aside_digest hexdigest c t i in
      omega (arith, (suffix-sizes c t i).1, len-append (truncate_utf8 t (63 - len suffix)) suffix)

  digest-clean : (c t i : String) → has_char 0 (aside_digest hexdigest c t i) ≡ false
  unfolding aside_digest
  digest-clean c t i = has_char-take_chars 0 32 _ (hex.clean _)

  aside_name-clean :
      (t i c : String) → has_char 0 t ≡ false → has_char 0 (aside_name hexdigest t i c) ≡ false
  unfolding aside_name truncate_utf8
  aside_name-clean t i c h =
      let digest = aside_digest hexdigest c t i in
      let room = 63 - len (aside_marker ++ digest) in
      rw (has_char-append 0 (truncate_utf8 t room) (aside_marker ++ digest)) (
        rw (has_char-append 0 aside_marker digest) (
          rw
            (if_ind (λ s. has_char 0 s ≡ false) (leb (len t) room) t (take_bytes room t) (λ _. h)
              (λ _. has_char-take_bytes 0 room t h))
            (rw marker-clean (digest-clean c t i))))

  aside_name-nonempty : (t i c : String) → (aside_name hexdigest t i c == "") ≡ false
  aside_name-nonempty t i c =
      ==_false _ "" (λ e. absurd (omega (arith, ap len e, len-aside_name-ge t i c)))

  -- Where hexadecimal digests are 64 characters of one byte, none of them NUL: for names and an id that
  -- pass validation, the name of the old database is always found: the
  -- final validation of the name itself cannot fail, and the name fits in 63 bytes.
  pub database_cutover_aside_name_total :
      (t i c : String)
      → validate_database_name t "target_db" ≡ ok tt
      → validate_database_name i "incoming_db" ≡ ok tt
      → validate_cutover_id c ≡ ok tt
      → (database_cutover_aside_name hexdigest t i c ≡ ok (aside_name hexdigest t i c))
        × (len (aside_name hexdigest t i c) ≤ 63)
  unfolding database_cutover_aside_name
  database_cutover_aside_name_total t i c vt vi vc =
      let fits =
        validate_database_name_ok (aside_name hexdigest t i c) "aside_db"
          (aside_name-nonempty t i c) (aside_name-clean t i c (validate_database_name-clean t _ vt))
          (len-aside_name-le t i c) in
      (rw vt (rw vi (rw vc (rw fits))), len-aside_name-le t i c)

  -- Where hexadecimal digests are 64 characters of one byte: two cutovers get the same name for the old database only if their whole 32-character digests
  -- agree: cutting the target's name never cuts the digest.
  pub aside_name-injective :
      (t t' i i' c c' : String)
      → aside_name hexdigest t i c ≡ aside_name hexdigest t' i' c'
      → aside_digest hexdigest c t i ≡ aside_digest hexdigest c' t' i'
  unfolding aside_name
  aside_name-injective t t' i i' c c' e =
      let s = aside_marker ++ aside_digest hexdigest c t i in
      let s' = aside_marker ++ aside_digest hexdigest c' t' i' in
      let p = truncate_utf8 t (63 - len s) in
      let p' = truncate_utf8 t' (63 - len s') in
      append_cancel_left aside_marker _ _
        (append_inj e (
          omega (
            arith,
            ap count e,
            length-append p s,
            length-append p' s',
            (suffix-sizes c t i).0,
            (suffix-sizes c' t' i').0,
          ))).1
