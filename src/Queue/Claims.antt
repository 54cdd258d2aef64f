-- ===== src/Queue/Claims.antt =====
-- No operation is claimed twice, and the oldest is claimed first.
use odooctl.Prelude.{
  String, ◌≡◌, ◌≢◌, refl, sym, subst, ◌∙◌, not, ◌==◌, eq_iff, Option, none, some, List, [], ◌∷◌,
  All, update, update_self, Bool-cases, inl, inr, arith, if_ind, some_cancel,
}
use odooctl.Queue.{
  QueueEntry, Content, readable, corrupt, Pending, Queue, Claim, without, find_pending, renamed,
  put_aside, claimed, claim_from,
}

module _ {Params : Type 0} where
  -- A pending entry stands in the file that is named for its operation.
  abbrev IsNamedFile : Pending Params → Type 0
  IsNamedFile f = (e : QueueEntry Params) → f.content ≡ readable e → e.op_id ≡ f.name

  abbrev pub IsNamed : Queue Params → Type 0
  IsNamed q = All IsNamedFile q.pending

  All-without :
      (name : String) (fs : List (Pending Params))
      → All IsNamedFile fs
      → All IsNamedFile (without name fs)
  All-without name [] a = tt
  All-without name (f ∷ fs) a =
      if_ind (All IsNamedFile) (not (f.name == name)) (f ∷ without name fs) (without name fs)
        (λ _. (a.0, All-without name fs a.1)) (λ _. All-without name fs a.1)

  find-named :
      (name : String) (fs : List (Pending Params)) (e : QueueEntry Params)
      → All IsNamedFile fs
      → find_pending name fs ≡ some (readable e)
      → e.op_id ≡ name
  find-named name [] e a h = cc
  find-named name (f ∷ fs) e a h = elim (Bool-cases (f.name == name)) [
    | inl same ↦ a.0 e (some_cancel (rw same at h)) ∙ (eq_iff f.name name).0 same
    | inr differs ↦ find-named name fs e a.1 (rw differs at h)
  ]

  pub find-without :
      (name : String) (fs : List (Pending Params)) → find_pending name (without name fs) ≡ none
  find-without name [] = refl
  find-without name (f ∷ fs) = ground (arith, find-without name fs)

  -- A file that is not there stays away.
  find-without-none :
      (name other : String) (fs : List (Pending Params))
      → find_pending name fs ≡ none
      → find_pending name (without other fs) ≡ none
  find-without-none name other [] h = refl
  find-without-none name other (f ∷ fs) h = ground (arith, h, find-without-none name other fs)

  find-without-some :
      (name other : String) (fs : List (Pending Params)) (c : Content Params)
      → find_pending name (without other fs) ≡ some c
      → find_pending name fs ≡ some c
  find-without-some name other [] c h = h
  find-without-some name other (f ∷ fs) c h = elim (Bool-cases (f.name == other)) [
    | inl same ↦ elim (Bool-cases (f.name == name)) [
      | inl named ↦
          let e = sym ((eq_iff f.name other).0 same) ∙ (eq_iff f.name name).0 named in
          let gone =
            subst (λ k. find_pending k (without other fs) ≡ none) e (find-without other fs) in
          cc (gone, rw same at h)
      | inr n ↦ rw n (find-without-some name other fs c (rw same at h))
    ]
    | inr differs ↦ ground (arith, rw differs at h, find-without-some name other fs c)
  ]

  -- A claim gives only an entry whose file was pending, and the file is `running` now.
  abbrev pub Taken : QueueEntry Params → Queue Params → Claim Params → Type 0
  Taken e q out =
      (find_pending e.op_id q.pending ≡ some (readable e))
      × (find_pending e.op_id out.1.pending ≡ none)
      × (out.1.running e.op_id ≡ some (readable e))
      × IsNamed out.1

  claimed-Taken :
      (name : String) (o : Option (Content Params)) (next : Queue Params → Claim Params)
      (q : Queue Params) (e : QueueEntry Params)
      → find_pending name q.pending ≡ o
      → IsNamed q
      → ((q' : Queue Params) → IsNamed q' → (next q').0 ≡ some e → Taken e q' (next q'))
      → (claimed name o next q).0 ≡ some e
      → Taken e q (claimed name o next q)
  claimed-Taken name none next q e f named rest h = rest q named h
  claimed-Taken name (some (readable x)) next q e f named rest h =
      subst (λ z. Taken z q (claimed name (some (readable x)) next q)) (some_cancel h)
        (
          subst (λ k. find_pending k q.pending ≡ some (readable x)) (sym same) f,
          subst (λ k. find_pending k (without name q.pending) ≡ none) (sym same)
              (find-without name q.pending),
          subst (λ k. update q.running name (some (readable x)) k ≡ some (readable x)) (sym same)
              (update_self q.running name (some (readable x))),
          All-without name q.pending named,
        )
    where
      same : x.op_id ≡ name
      same = find-named name q.pending x named f
  claimed-Taken name (some corrupt) next q e f named rest h =
      let q' = put_aside name corrupt (renamed name corrupt q) in
      let (there, gone, running, named') = rest q' (All-without name q.pending named) h in
      (find-without-some e.op_id name q.pending (readable e) there, gone, running, named')

  claim_from-Taken :
      (cs : List (Pending Params)) (q : Queue Params) (e : QueueEntry Params)
      → IsNamed q
      → (claim_from cs q).0 ≡ some e
      → Taken e q (claim_from cs q)
  unfolding claim_from
  claim_from-Taken [] q e named h = cc
  claim_from-Taken (c ∷ cs) q e named h =
      claimed-Taken c.name (find_pending c.name q.pending) (λ q'. claim_from cs q') q e refl named
        (λ q' n k. claim_from-Taken cs q' e n k) h

  -- Where every pending entry stands in the file named for its operation: two runners, one after the
  -- other, never get the same operation, whatever old listings they go through: what one has
  -- claimed, the other does not find.
  pub claim_from-exclusive :
      (cs ds : List (Pending Params)) (q : Queue Params) (e e' : QueueEntry Params)
      → IsNamed q
      → (claim_from cs q).0 ≡ some e
      → (claim_from ds (claim_from cs q).1).0 ≡ some e'
      → e.op_id ≢ e'.op_id
  claim_from-exclusive cs ds q e e' named h h' same =
      let (there, gone, running, named') = claim_from-Taken cs q e named h in
      let there' = (claim_from-Taken ds (claim_from cs q).1 e' named' h').0 in
      let found = subst (λ k. find_pending k (claim_from cs q).1.pending ≡ none) same gone in
      cc (found, there')
