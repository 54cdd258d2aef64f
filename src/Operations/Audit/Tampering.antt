-- ===== src/Operations/Audit/Tampering.antt =====
-- What the high-water mark and the chain of hashes rule out.
use Prim.Native.String.{◌++◌}
use text.Mathlib.TextLemmas.{append_cancel_left}
use odooctl.Prelude.{
  none, ℕ, zero, suc, ◌-◌, ◌≤◌, ◌<◌, String, ◌≡◌, refl, sym, ap, subst, ◌∙◌, Bool, true, false, not,
  ◌&&◌, ◌==◌, eq_iff, some, List, [], ◌∷◌, length, length-append, take, ltb, if◌then◌else◌, arith,
}
use odooctl.Security.Tokens.{is_ascii}
use odooctl.Operations.Models.{AuditEntry}
use odooctl.Operations.Audit.{
  Json, Trail, Hwm, load_chain, hash_at, is_hash, canonical, hash_entry, hwm_mac, append,
  verify_from, meets_hwm, verify,
}
use odooctl.Operations.Audit.Chain.{
  ends, IsIntact, append-IsIntact, verify-parts, ends-append, load_chain-append, length-load_chain,
}

-- What the program relies on of JSON: what a value's text is followed by does not change which value
-- is read, so that the text of a value ends where the value does.
pub record IsJson {Params : Type 0} (json : Json Params) : Type 0 where
  pub quote_ends : (x y s t : String) → json.quote x ++ s ≡ json.quote y ++ t → (x ≡ y) × (s ≡ t)
  pub dumps_ends :
      (x y : Params) (s t : String) → json.dumps x ++ s ≡ json.dumps y ++ t → (x ≡ y) × (s ≡ t)

-- All that the digest covers of an entry.
abbrev Same : {Params : Type 0} → AuditEntry Params → AuditEntry Params → Type 0
Same x y =
    (x.action ≡ y.action)
    × (x.actor ≡ y.actor)
    × (x.op_id ≡ y.op_id)
    × (x.outcome ≡ y.outcome)
    × (x.params_redacted ≡ y.params_redacted)
    × (x.target ≡ y.target)
    × (x.timestamp ≡ y.timestamp)

entry_ext :
    {Params : Type 0} (x y : AuditEntry Params)
    → Same x y
    → x.prev_hash ≡ y.prev_hash
    → x.current_hash ≡ y.current_hash
    → x ≡ y
entry_ext x y (action, actor, op_id, outcome, params, target, timestamp) prev current = λ i.
    record {
      actor = actor i;
      action = action i;
      target = target i;
      params_redacted = params i;
      outcome = outcome i;
      op_id = op_id i;
      timestamp = timestamp i;
      prev_hash = prev i;
      current_hash = current i;
    }

module _ {Params : Type 0} (json : Json Params) (digest : String → String) (law : IsJson json) where
  member :
      (name x y s t : String)
      → name ++ (json.quote x ++ s) ≡ name ++ (json.quote y ++ t)
      → (x ≡ y) × (s ≡ t)
  member name x y s t e = law.quote_ends x y s t (append_cancel_left name _ _ e)

  canonical-injective :
      (x y : AuditEntry Params) (p q : String)
      → canonical json digest x p ≡ canonical json digest y q
      → Same x y × (p ≡ q)
  unfolding canonical
  canonical-injective x y p q e =
      let (action, e1) = member _ _ _ _ _ e in
      let (actor, e2) = member _ _ _ _ _ e1 in
      let (op_id, e3) = member _ _ _ _ _ e2 in
      let (outcome, e4) = member _ _ _ _ _ e3 in
      let (params, e5) =
        law.dumps_ends _ _ _ _ (append_cancel_left ",\"params_redacted\":" _ _ e4) in
      let (prev, e6) = member _ _ _ _ _ e5 in
      let (target, e7) = member _ _ _ _ _ e6 in
      let (timestamp, e8) = member _ _ _ _ _ e7 in
      ((action, actor, op_id, outcome, params, target, timestamp), prev)

  verify_from-cons :
      (p : String) (e : AuditEntry Params) (es : List (AuditEntry Params))
      → verify_from json digest p (e ∷ es) ≡ true
      → (e.prev_hash ≡ p)
        × (e.current_hash ≡ hash_entry json digest e p)
        × (verify_from json digest e.current_hash es ≡ true)
  verify_from-cons p e es v =
      ground (arith, v, eq_iff e.prev_hash p, eq_iff e.current_hash (hash_entry json digest e p))

  verify_from-take :
      (n : ℕ) (p : String) (es : List (AuditEntry Params))
      → verify_from json digest p es ≡ true
      → verify_from json digest p (take n es) ≡ true
  verify_from-take zero p es v = refl
  verify_from-take (suc n) p [] v = refl
  verify_from-take (suc n) p (e ∷ es) v = ground (arith, v, verify_from-take n e.current_hash es)

  ends-take :
      (n : ℕ) (p : String) (es : List (AuditEntry Params)) (h : String)
      → is_hash (hash_at n es) h ≡ true
      → ends p (take (suc n) es) ≡ h
  ends-take n p [] h e = cc
  ends-take zero p (x ∷ es) h e = (eq_iff x.current_hash h).0 e
  ends-take (suc n) p (x ∷ es) h e = ends-take n x.current_hash es h e

  length-take : (n : ℕ) (es : List (AuditEntry Params)) → n ≤ length es → length (take n es) ≡ n
  length-take zero es le = refl
  length-take (suc n) [] le = omega (arith, le)
  length-take (suc n) (x ∷ es) le = ap suc (length-take n es (omega (arith, le)))

  mark_parts :
      (mac ascii same : Bool) (size count : ℕ)
      → (if not mac
          then (if ascii then some false else none)
          else if ltb size count
          then some false
          else if ltb 0 count && not same
          then some false
          else some true)
        ≡ some true
      → (count ≤ size) × (0 < count → same ≡ true)
  mark_parts mac ascii same size count h = ground (arith, h)

  module _ (collision_free : (x y : String) → digest x ≡ digest y → x ≡ y) where
    -- Two chains of one length that end in one hash are one chain.
    chains_agree :
        (xs ys : List (AuditEntry Params)) (p q : String)
        → length xs ≡ length ys
        → verify_from json digest p xs ≡ true
        → verify_from json digest q ys ≡ true
        → ends p xs ≡ ends q ys
        → (p ≡ q) × (xs ≡ ys)
    chains_agree [] [] p q size v w e = (e, refl)
    chains_agree [] (y ∷ ys) p q size v w e = absurd (omega (arith, size))
    chains_agree (x ∷ xs) [] p q size v w e = absurd (omega (arith, size))
    chains_agree (x ∷ xs) (y ∷ ys) p q size v w e =
        let (px, cx, vs) = verify_from-cons p x xs v in
        let (py, cy, ws) = verify_from-cons q y ys w in
        let (current, rest) =
          chains_agree xs ys x.current_hash y.current_hash (omega (arith, size)) vs ws e in
        let (same, prev) =
          canonical-injective x y p q (collision_free _ _ (sym cx ∙ current ∙ cy)) in
        (prev, λ i. entry_ext x y same (px ∙ prev ∙ sym py) current i ∷ rest i)

    marked :
        (es : List (AuditEntry Params)) (h : Hwm) (n : ℕ)
        → h.count ≡ suc n
        → meets_hwm json digest es (some h) ≡ some true
        → (suc n ≤ length es) × (is_hash (hash_at n es) h.last_hash ≡ true)
    marked es h n size m =
        let (le, found) =
          mark_parts (h.mac == hwm_mac json digest h.count h.last_hash) (is_ascii h.mac)
            (is_hash (hash_at (h.count - 1) es) h.last_hash) (length es) h.count m in
        (
          omega (arith, le, size),
          subst (λ k. is_hash (hash_at k es) h.last_hash ≡ true) (before size)
              (found (omega (arith, size))),
        )
      where
        before : h.count ≡ suc n → h.count - 1 ≡ n
        before size = omega (arith, size)

    -- Where JSON texts end with their values and no two texts have one digest: after an entry is
    -- appended to an intact trail, whoever rewrites the file of entries and leaves the high-water mark
    -- is found out by `verify`, unless the file still begins with exactly the entries that were
    -- written, each in all its fields and in its place.
    pub append-tampering :
        (e : AuditEntry Params) (t g : Trail Params)
        → IsIntact json digest t
        → g.hwm ≡ (append json digest e t).1.hwm
        → verify json digest g ≡ some true
        → take (suc (length t.lines)) (load_chain g.lines)
          ≡ load_chain (append json digest e t).1.lines
    unfolding append
    append-tampering e t g intact same v =
        let n = length t.lines in
        let e' = (append json digest e t).0 in
        let (written, readable) = append-IsIntact json digest e t intact in
        let h =
          subst (λ m. meets_hwm json digest (load_chain g.lines) m ≡ some true) same
            (verify-parts json digest g v).1 in
        let (le, found) = marked (load_chain g.lines) _ n (omega arith) h in
        let shape = load_chain-append t.lines e' in
        let size : suc n ≡ length (load_chain (append json digest e t).1.lines) = omega (
          arith,
          ap length shape,
          length-append (load_chain t.lines) (e' ∷ []),
          length-load_chain t.lines intact.1,
        ) in
        let last = sym (ap (ends "") shape ∙ ends-append (load_chain t.lines) "" e') in
        (chains_agree (take (suc n) (load_chain g.lines))
          (load_chain (append json digest e t).1.lines) "" ""
          (length-take (suc n) (load_chain g.lines) le ∙ size)
          (verify_from-take (suc n) "" (load_chain g.lines) (verify-parts json digest g v).0)
          (verify-parts json digest (append json digest e t).1 written).0
          (ends-take n "" (load_chain g.lines) _ found ∙ last)).1
