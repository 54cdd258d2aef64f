-- ===== src/Operations/Audit/Chain.antt =====
-- What `append` writes, `verify` accepts.
use odooctl.Prelude.{
  ℕ, suc, ◌+◌, ◌-◌, ◌≤◌, String, ◌≡◌, refl, sym, ap, subst, ◌∙◌, Bool, true, false, not, ◌&&◌,
  eq_refl, some, List, [], ◌∷◌, ◌++◌, length, length-append, ltb, if◌then◌else◌, arith,
}
use odooctl.Operations.Models.{AuditEntry}
use odooctl.Operations.Audit.{
  Json, Line, Trail, entry, other, load_chain, last_hash, hash_at, is_hash, canonical, hash_entry,
  hwm_mac, chained, append, verify_from, verify_chain, meets_hwm, verify,
}

module _ {Params : Type 0} where
  -- Every line reads back as an entry.
  abbrev pub readable : List (Line Params) → Bool
  readable [] = true
  readable (entry e ∷ ls) = readable ls
  readable (other h ∷ ls) = false

  -- The hash that the next entry must name.
  abbrev pub ends : String → List (AuditEntry Params) → String
  ends before [] = before
  ends before (e ∷ es) = ends e.current_hash es

  pub load_chain-append :
      (ls : List (Line Params)) (e : AuditEntry Params)
      → load_chain (ls ++ entry e ∷ []) ≡ load_chain ls ++ e ∷ []
  load_chain-append [] e = refl
  load_chain-append (entry x ∷ ls) e = ap (λ xs. x ∷ xs) (load_chain-append ls e)
  load_chain-append (other h ∷ ls) e = load_chain-append ls e

  pub readable-append :
      (ls : List (Line Params)) (e : AuditEntry Params)
      → readable ls ≡ true
      → readable (ls ++ entry e ∷ []) ≡ true
  readable-append [] e r = refl
  readable-append (entry x ∷ ls) e r = readable-append ls e r
  readable-append (other h ∷ ls) e r = cc

  pub last_hash-readable :
      (ls : List (Line Params)) (before : String)
      → readable ls ≡ true
      → last_hash before ls ≡ ends before (load_chain ls)
  last_hash-readable [] before r = refl
  last_hash-readable (entry x ∷ ls) before r = last_hash-readable ls x.current_hash r
  last_hash-readable (other h ∷ ls) before r = cc

  pub length-load_chain :
      (ls : List (Line Params)) → readable ls ≡ true → length (load_chain ls) ≡ length ls
  length-load_chain [] r = refl
  length-load_chain (entry x ∷ ls) r = ap suc (length-load_chain ls r)
  length-load_chain (other h ∷ ls) r = cc

  pub hash_at-append :
      (es : List (AuditEntry Params)) (e : AuditEntry Params)
      → hash_at (length es) (es ++ e ∷ []) ≡ some e.current_hash
  hash_at-append [] e = refl
  hash_at-append (x ∷ es) e = hash_at-append es e

  pub ends-append :
      (es : List (AuditEntry Params)) (before : String) (e : AuditEntry Params)
      → ends before (es ++ e ∷ []) ≡ e.current_hash
  ends-append [] before e = refl
  ends-append (x ∷ es) before e = ends-append es x.current_hash e

module _ {Params : Type 0} (json : Json Params) (digest : String → String) where
  verify_from-append :
      (es : List (AuditEntry Params)) (before : String) (e : AuditEntry Params)
      → verify_from json digest before es ≡ true
      → verify_from json digest before (es ++ chained json digest e (ends before es) ∷ []) ≡ true
  unfolding canonical
  verify_from-append [] before e v =
      rw (eq_refl before) (rw (eq_refl (hash_entry json digest e before)) refl)
  verify_from-append (x ∷ es) before e v = ground (arith, v, verify_from-append es x.current_hash e)

  -- A trail that verifies and whose lines all read back.
  abbrev pub IsIntact : Trail Params → Type 0
  IsIntact t = (verify json digest t ≡ some true) × (readable t.lines ≡ true)

  mark_met :
      (size count : ℕ) (same : Bool)
      → count ≤ size
      → same ≡ true
      → (if ltb size count
          then some false
          else if ltb 0 count && not same
          then some false
          else some true)
        ≡ some true
  mark_met size count same le h = ground arith

  meets_hwm-append :
      (es : List (AuditEntry Params)) (e : AuditEntry Params) (n : ℕ)
      → n ≡ length es
      → meets_hwm json digest (es ++ e ∷ []) (
          some record {
            count = n + 1;
            last_hash = e.current_hash;
            mac = hwm_mac json digest (n + 1) e.current_hash;
          })
        ≡ some true
  meets_hwm-append es e n size = rw (eq_refl (hwm_mac json digest (n + 1) e.current_hash)) (
      mark_met (length (es ++ e ∷ [])) (n + 1)
        (is_hash (hash_at (n + 1 - 1) (es ++ e ∷ [])) e.current_hash)
        (omega (arith, size, length-append es (e ∷ [])))
        (rw at_end (rw (eq_refl e.current_hash) refl)))
    where
      at_end : hash_at (n + 1 - 1) (es ++ e ∷ []) ≡ some e.current_hash
      at_end = ap (λ k. hash_at k (es ++ e ∷ [])) (omega (arith, size)) ∙ hash_at-append es e

  pub verify-parts :
      (t : Trail Params)
      → verify json digest t ≡ some true
      → (verify_chain json digest (load_chain t.lines) ≡ true)
        × (meets_hwm json digest (load_chain t.lines) t.hwm ≡ some true)
  unfolding verify
  verify-parts t v = ground (arith, v)

  verify_intro :
      (es : List (AuditEntry Params)) (t : Trail Params)
      → load_chain t.lines ≡ es
      → verify_chain json digest es ≡ true
      → meets_hwm json digest es t.hwm ≡ some true
      → verify json digest t ≡ some true
  unfolding verify
  verify_intro es t e c m = rw e (rw c m)

  -- What `append` writes, `verify` accepts: an intact trail is intact with one more entry.
  pub append-IsIntact :
      (e : AuditEntry Params) (t : Trail Params) → IsIntact t → IsIntact (append json digest e t).1
  unfolding append verify
  append-IsIntact e t (v, r) =
      let es = load_chain t.lines in
      let e' = chained json digest e (last_hash "" t.lines) in
      (
        verify_intro (es ++ e' ∷ []) (append json digest e t).1 (load_chain-append t.lines e')
            (subst (λ h. verify_from json digest "" (es ++ chained json digest e h ∷ []) ≡ true)
              (sym (last_hash-readable t.lines "" r))
              (verify_from-append es "" e (verify-parts t v).0))
            (meets_hwm-append es e' (length t.lines) (sym (length-load_chain t.lines r))),
        readable-append t.lines e' r,
      )
