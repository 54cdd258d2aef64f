-- ===== src/Runner/Nonces/Reuse.antt =====
-- A nonce is accepted once, until the token that carries it has expired.
use odooctl.Prelude.{
  ℕ, ◌≤◌, String, ◌≡◌, ◌≢◌, refl, true, false, Option, some, List, [], ◌∷◌, All, update,
  update_self, update_ne, arith, sym, ap, subst, ◌∙◌, Option-cases, inl, inr,
}
use odooctl.Prelude.Exec.{ok}
use odooctl.Runner.Nonces.{
  NonceFile, mapping, Nonces, Stamp, is_consumed, Nonce, text, scalar, unhashable, aware,
  retained_until, load, purge, consume,
}

-- The name is in the file, with a time up to which it is kept.
pub record IsBlocked (name : String) (limit : ℕ) (file : NonceFile) : Type 0 where
  pub nonces : Nonces
  pub until : ℕ
  pub is_file : file ≡ mapping nonces
  pub entry : nonces name ≡ some (aware until)
  pub limit_le : limit ≤ until

pub record Call : Type 0 where
  pub nonce : Nonce
  pub expires_at : Option ℕ
  pub now : ℕ

-- A call that neither reads the clock after `limit` nor writes the name as what is no text.
abbrev pub IsHarmless : String → ℕ → Call → Type 0
IsHarmless name limit c = (c.now ≤ limit) × (c.nonce ≢ scalar name)

abbrev pub consume_all : List Call → NonceFile → NonceFile
consume_all [] file = file
consume_all (c ∷ cs) file = consume_all cs (consume c.nonce c.expires_at c.now file).1

purge-kept :
    (nonces : Nonces) (name : String) (until now : ℕ)
    → nonces name ≡ some (aware until)
    → now ≤ until
    → purge nonces now name ≡ some (aware until)
purge-kept nonces name until now e h = rw e (ground arith)

purge-kept-load :
    (name : String) (limit now : ℕ) (file : NonceFile) (b : IsBlocked name limit file)
    → now ≤ limit
    → purge (load now file) now name ≡ some (aware b.until)
purge-kept-load name limit now file b h =
    rw (b.is_file) (purge-kept b.nonces name b.until now b.entry (omega (arith, b.limit_le)))

-- Where it is blocked, the name is refused, and any call leaves it blocked.
pub consume-refused :
    (name : String) (limit now : ℕ) (expires_at : Option ℕ) (file : NonceFile)
    → IsBlocked name limit file
    → now ≤ limit
    → (consume (text name) expires_at now file).0 ≡ ok false
unfolding consume
consume-refused name limit now expires_at file b h =
    rw (purge-kept-load name limit now file b h) refl

-- What is kept under the name stays there when another name is written.
marked-IsBlocked :
    (name : String) (limit now : ℕ) (file : NonceFile) (k : String) (v : Option Stamp)
    → IsBlocked name limit file
    → now ≤ limit
    → k ≢ name
    → IsBlocked name limit (mapping (update (purge (load now file) now) k v))
marked-IsBlocked name limit now file k v b h differs = record {
  nonces = update (purge (load now file) now) k v;
  until = b.until;
  is_file = refl;
  entry =
      update_ne (purge (load now file) now) k v name differs
      ∙ purge-kept-load name limit now file b h;
  limit_le = b.limit_le;
}

purged-IsBlocked :
    (name : String) (limit now : ℕ) (file : NonceFile)
    → IsBlocked name limit file
    → now ≤ limit
    → IsBlocked name limit (mapping (purge (load now file) now))
purged-IsBlocked name limit now file b h = record {
  nonces = purge (load now file) now;
  until = b.until;
  is_file = refl;
  entry = purge-kept-load name limit now file b h;
  limit_le = b.limit_le;
}

pub consume-IsBlocked :
    (name : String) (limit : ℕ) (nonce : Nonce) (expires_at : Option ℕ) (now : ℕ) (file : NonceFile)
    → IsBlocked name limit file
    → now ≤ limit
    → nonce ≢ scalar name
    → IsBlocked name limit (consume nonce expires_at now file).1
unfolding consume
consume-IsBlocked name limit (text other) expires_at now file b h differs =
    let p = purged-IsBlocked name limit now file b h in
    elim (Option-cases (purge (load now file) now other)) [
      | inl fresh ↦
          let another : other ≢ name = λ e. cc (
            fresh,
            subst (λ k. purge (load now file) now k ≡ some (aware b.until)) (sym e)
                (purge-kept-load name limit now file b h),
          ) in
          rw fresh (marked-IsBlocked name limit now file other _ b h another)
      | inr (t, there) ↦ rw there p
    ]
consume-IsBlocked name limit (scalar other) expires_at now file b h differs =
    marked-IsBlocked name limit now file other _ b h (λ e. differs (ap scalar e))
consume-IsBlocked name limit (unhashable kind) expires_at now file b h differs = b

pub consumed-IsBlocked :
    (name : String) (expires_at : Option ℕ) (now : ℕ) (file : NonceFile)
    → (consume (text name) expires_at now file).0 ≡ ok true
    → IsBlocked name (retained_until now expires_at) (consume (text name) expires_at now file).1
unfolding consume
consumed-IsBlocked name expires_at now file h =
    elim (Option-cases (purge (load now file) now name)) [
      | inl fresh ↦ rw fresh record {
        nonces =
            update (purge (load now file) now) name (some (aware (retained_until now expires_at)));
        until = retained_until now expires_at;
        is_file = refl;
        entry = update_self (purge (load now file) now) name _;
        limit_le = omega arith;
      }
      | inr (t, there) ↦ cc (rw there at h)
    ]

consume_all-IsBlocked :
    (name : String) (limit : ℕ) (cs : List Call) (file : NonceFile)
    → All (IsHarmless name limit) cs
    → IsBlocked name limit file
    → IsBlocked name limit (consume_all cs file)
consume_all-IsBlocked name limit [] file a b = b
consume_all-IsBlocked name limit (c ∷ cs) file a b =
    consume_all-IsBlocked name limit cs (consume c.nonce c.expires_at c.now file).1 a.1
      (consume-IsBlocked name limit c.nonce c.expires_at c.now file b a.0.0 a.0.1)

-- A nonce that is a text is accepted once: after a call that accepted it, and after any further calls
-- that neither read the clock later than the nonce is retained nor pass a value that is no text but
-- is written as it, a call with it within that time is refused, and then it is in the file still.
-- It is retained for two hours, or until its token expires where that is later.
pub consume_once :
    (name : String) (expires_at again : Option ℕ) (now then' : ℕ) (cs : List Call)
    (file : NonceFile)
    → (consume (text name) expires_at now file).0 ≡ ok true
    → All (IsHarmless name (retained_until now expires_at)) cs
    → then' ≤ retained_until now expires_at
    → let after = consume_all cs (consume (text name) expires_at now file).1 in
      ((consume (text name) again then' after).0 ≡ ok false)
      × (is_consumed name then' (consume (text name) again then' after).1 ≡ true)
unfolding is_consumed
consume_once name expires_at again now then' cs file accepted harmless within =
    let limit = retained_until now expires_at in
    let b =
      consume_all-IsBlocked name limit cs (consume (text name) expires_at now file).1 harmless
        (consumed-IsBlocked name expires_at now file accepted) in
    let b' = consume-IsBlocked name limit (text name) again then' _ b within (λ e. cc e) in
    (consume-refused name limit then' again _ b within, rw (b'.is_file) (rw (b'.entry) refl))
