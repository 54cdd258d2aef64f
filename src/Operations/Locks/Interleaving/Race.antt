-- ===== src/Operations/Locks/Interleaving/Race.antt =====
-- Two processes that find the same stale file can both come to hold the lock.
use odooctl.Prelude.{
  ℕ, String, ◌≡◌, ◌≢◌, refl, sym, subst, ◌∙◌, true, false, Option, some, eqb, eqb_iff, arith,
  if-true, if-false,
}
use odooctl.Operations.Locks.{owner}
use odooctl.Operations.Locks.Interleaving.{
  Pc, outside, stale, inside, File, Move, enter, create, exists, write, read, dead, unlink, System,
  put, act, Reach, here, next, holds,
}

put_self : (f : ℕ → Pc) (p : ℕ) (v : Pc) → put f p v p ≡ v
put_self f p v = if-true (eqb p p) v (f p) ((eqb_iff p p).1 refl)

put_ne : (f : ℕ → Pc) (p : ℕ) (v : Pc) (q : ℕ) → p ≢ q → put f p v q ≡ f q
put_ne f p v q differs = if-false (eqb p q) v (f q) (ground (arith, differs, eqb_iff p q))

-- A reachable state with what the path shows and where two processes stand.
record At (s : System) (p q : ℕ) (file : Option File) (pc qc : Pc) : Type 0 where
  state : System
  reached : Reach s state
  alive : state.alive ≡ s.alive
  shown : state.file ≡ file
  first : state.pcs p ≡ pc
  second : state.pcs q ≡ qc

swapped :
    {s : System} {p q : ℕ} {file : Option File} {pc qc : Pc}
    → At s p q file pc qc
    → At s q p file qc pc
swapped a = record {
  state = a.state;
  reached = a.reached;
  alive = a.alive;
  shown = a.shown;
  first = a.second;
  second = a.first;
}

-- The first of the two makes a call.
advance :
    {s : System} {p q : ℕ} {file file' : Option File} {pc pc' qc : Pc} (op_id : String)
    → p ≢ q
    → s.alive p ≡ true
    → Move p op_id s.alive file pc file' pc'
    → At s p q file pc qc
    → At s p q file' pc' qc
advance {s} {p} {q} {file} {file'} {pc} {pc'} op_id differs lives m a = record {
  state = record a.state { file = file'; pcs = put a.state.pcs p pc' };
  reached = next a.reached (
      act p op_id (subst (λ f. f p ≡ true) (sym a.alive) lives) (
        subst (λ f. Move p op_id f a.state.file (a.state.pcs p) file' pc') (sym a.alive)
          (subst (λ f. Move p op_id s.alive f (a.state.pcs p) file' pc') (sym a.shown)
            (subst (λ c. Move p op_id s.alive file c file' pc') (sym a.first) m))));
  alive = a.alive;
  shown = refl;
  first = put_self a.state.pcs p pc';
  second = put_ne a.state.pcs p pc' q differs ∙ a.second;
}

-- A process from outside up to the removal of a file whose owner is dead.
up_to_stale :
    {s : System} {p q holder : ℕ} {qc : Pc} (op_id other : String) (f : File)
    → p ≢ q
    → s.alive p ≡ true
    → s.alive holder ≡ false
    → f.content ≡ owner holder other
    → At s p q (some f) outside qc
    → At s p q (some f) stale qc
up_to_stale op_id other f differs lives dies content a = advance op_id differs lives (dead dies) (
    advance op_id differs lives (read content)
      (advance op_id differs lives exists (advance op_id differs lives enter a)))

-- From there to the lock.
up_to_inside :
    {s : System} {p q : ℕ} {file : Option File} {qc : Pc} (op_id : String)
    → p ≢ q
    → s.alive p ≡ true
    → At s p q file stale qc
    → At s p q (some (record { creator = p; content = owner p op_id })) inside qc
up_to_inside op_id differs lives a =
    advance op_id differs lives (write refl)
      (advance op_id differs lives create (advance op_id differs lives unlink a))

-- For every two live processes outside, and a lock file of a dead one: some order of their calls leads
-- to a state where both are alive and hold the lock.
pub stale_race :
    (s : System) (p q holder : ℕ) (f : File) (other first_op second_op : String)
    → p ≢ q
    → s.alive p ≡ true
    → s.alive q ≡ true
    → s.alive holder ≡ false
    → s.file ≡ some f
    → f.content ≡ owner holder other
    → s.pcs p ≡ outside
    → s.pcs q ≡ outside
    → (t : System) × Reach s t
      × (t.alive p ≡ true)
      × (t.alive q ≡ true)
      × (holds (t.pcs p) ≡ true)
      × (holds (t.pcs q) ≡ true)
stale_race s p q holder f other first_op second_op differs lives_p lives_q dies shown content first
      second =
    let differs' : q ≢ p = λ e. differs (sym e) in
    let begin : At s p q (some f) outside outside = record {
      state = s;
      reached = here;
      alive = refl;
      shown = shown;
      first = first;
      second = second;
    } in
    let both =
      up_to_stale second_op other f differs' lives_q dies content
        (swapped (up_to_stale first_op other f differs lives_p dies content begin)) in
    let end =
      up_to_inside second_op differs' lives_q
        (swapped (up_to_inside first_op differs lives_p (swapped both))) in
    (
      end.state,
      end.reached,
      subst (λ g. g p ≡ true) (sym end.alive) lives_p,
      subst (λ g. g q ≡ true) (sym end.alive) lives_q,
      subst (λ c. holds c ≡ true) (sym end.second) refl,
      subst (λ c. holds c ≡ true) (sym end.first) refl,
    )
