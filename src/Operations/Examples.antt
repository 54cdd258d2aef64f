-- ===== src/Operations/Examples.antt =====
-- The theorems on operations at small inputs. Texts are written here with a stroke in front of each
-- character and a full stop behind the last, which no text that follows can change.
use Prim.Native.Char.{Char, code}
use Prim.Native.String.{◌++◌}
use text.Mathlib.TextLemmas.{
  cons-append, append_cancel_left, head-eq_of_cons-eq, tail-eq_of_cons-eq,
}
use odooctl.Prelude.{
  ℕ, suc, true, String, ◌≡◌, refl, sym, ap, ◌∙◌, false, ◌==◌, none, some, [], take, arith, eqb,
  if◌then◌else◌,
}
use odooctl.Prelude.Exec.{Exec, ok}
use odooctl.Operations.Audit.{
  Json, Trail, load_chain, append, verify, canonical, hwm_mac, decimal, digit, char_at,
}
use odooctl.Operations.Audit.Chain.{IsIntact, append-IsIntact}
use odooctl.Operations.Audit.Tampering.{IsJson, append-tampering}
use odooctl.Operations.Models.{deploy, AuditEntry, create}
use odooctl.Operations.Locks.{
  Locks, owner, Signal, delivered, process_lookup_error, locked_by, enter,
}
use odooctl.Operations.Locks.Interleaving.{
  outside, creating, writing, inside, write, System, put, Reach, holds,
}
use odooctl.Operations.Locks.Interleaving.{enter as enters, create as creates}
use odooctl.Operations.Locks.Interleaving.Exclusion.{
  IsOwned, Careful, start, call, death, Careful-exclusive,
}
use odooctl.Operations.Locks.Interleaving.Race.{stale_race}
use odooctl.Operations.Locks.Interleaving.Alone.{Realized, enter-Realized}
use odooctl.Operations.Locks.Holding.{Entered, enter-Entered}
use odooctl.Operations.Engine.{Disk, Context, Raised, emit, run_operation}
use odooctl.Operations.Store.{load_events}
use odooctl.Operations.Engine.Numbers.{
  Numbered, IsNumbered, emit-IsNumbered, run_operation-Numbered,
}
use odooctl.Operations.Engine.Lifecycle.{
  Finished, Refused, KeepsRecord, started, run_operation-Finished, run_operation-Refused,
}

stop_stroke : Path Char "." "|" → ⊥
stop_stroke e = omega (arith, ap code e)

stroked : String → String
stroked String.[] = "."
stroked (String.◌∷◌ c s) = String.◌∷◌ "|" (String.◌∷◌ c (stroked s))

stroked_ends : (x y s t : String) → stroked x ++ s ≡ stroked y ++ t → (x ≡ y) × (s ≡ t)
unfolding stroked
stroked_ends String.[] String.[] s t e = (refl, append_cancel_left "." s t e)
stroked_ends String.[] (String.◌∷◌ d y) s t e =
    absurd
      (stop_stroke (head-eq_of_cons-eq (sym (cons-append "." "" s) ∙ (e ∙ cons-append "|" _ t))))
stroked_ends (String.◌∷◌ c x) String.[] s t e = absurd (
    stop_stroke (sym (head-eq_of_cons-eq (sym (cons-append "|" _ s) ∙ (e ∙ cons-append "." "" t)))))
stroked_ends (String.◌∷◌ c x) (String.◌∷◌ d y) s t e =
    let past = tail-eq_of_cons-eq (sym (cons-append "|" _ s) ∙ (e ∙ cons-append "|" _ t)) in
    let after = sym (cons-append c (stroked x) s) ∙ (past ∙ cons-append d (stroked y) t) in
    let (same, rest) = stroked_ends x y s t (tail-eq_of_cons-eq after) in
    (λ i. String.◌∷◌ (head-eq_of_cons-eq after i) (same i), rest)

abbrev json : Json String
json = record { quote = stroked; dumps = stroked }

json-IsJson : IsJson json
json-IsJson = record { quote_ends = stroked_ends; dumps_ends = stroked_ends }

abbrev same_text : String → String
same_text s = s

abbrev deployed : AuditEntry String
deployed = record {
  actor = "alice";
  action = "deploy";
  target = "prod";
  params_redacted = "{}";
  outcome = "succeeded";
  op_id = "o1";
  timestamp = "t1";
  prev_hash = "";
  current_hash = "";
}

abbrev empty_trail : Trail String
empty_trail = record { lines = []; hwm = none }

empty-IsIntact : IsIntact json same_text empty_trail
unfolding verify
empty-IsIntact = (refl, refl)

append-IsIntact_example : IsIntact json same_text (append json same_text deployed empty_trail).1
append-IsIntact_example = append-IsIntact json same_text deployed empty_trail empty-IsIntact

-- A second entry without a new mark.
abbrev grown : Trail String
grown = record {
  lines = (append json same_text deployed (append json same_text deployed empty_trail).1).1.lines;
  hwm = (append json same_text deployed empty_trail).1.hwm;
}

append-tampering_example :
    take 1 (load_chain grown.lines)
    ≡ load_chain (append json same_text deployed empty_trail).1.lines
unfolding verify stroked append canonical hwm_mac decimal digit char_at
append-tampering_example =
    append-tampering json same_text json-IsJson (λ x y e. e) deployed empty_trail grown
      empty-IsIntact refl refl

-- Process 7 is dead, all others live.
abbrev signal : ℕ → Signal
signal n = if eqb n 7 then process_lookup_error else delivered

abbrev locks : Locks
locks = record {
  files = λ env.
      if env == "prod"
      then some (owner 7 "o0")
      else if env == "test"
      then some (owner 8 "o2")
      else none;
  held = [];
}

enter-Entered_example : Entered signal 9 "prod" "o1" locks
enter-Entered_example = enter-Entered signal 9 "prod" "o1" locks

abbrev disk : Disk String
disk = record {
  store = record { records = λ id. none; events = λ id. none };
  locks = locks;
  trail = empty_trail;
}

abbrev time_of : ℕ → String
time_of n = "t"

abbrev body : String → Exec (Context String) Raised ℕ
body id c = (ok 5, emit id "t" "info" "work" "half" c)

body-KeepsRecord : KeepsRecord json same_text same_text same_text signal 9 time_of "o1" body
body-KeepsRecord c before there same = (before, there, same)

abbrev entered : Locks
unfolding enter
entered = (enter signal 9 "prod" "o1" locks).1

run_operation-Finished_example :
    Finished json same_text same_text same_text signal 9 time_of
      (create "o1" "t" deploy "p" "prod" "alice" "{}")
      false
      (body "o1" (
        started json same_text same_text same_text signal 9 time_of
          (create "o1" "t" deploy "p" "prod" "alice" "{}")
          disk
          entered)).0
      (body "o1" (
        started json same_text same_text same_text signal 9 time_of
          (create "o1" "t" deploy "p" "prod" "alice" "{}")
          disk
          entered)).1
      (run_operation json same_text same_text same_text signal 9 time_of "o1" deploy "p" "prod"
        "alice" "{}" body disk)
unfolding enter
run_operation-Finished_example =
    run_operation-Finished json same_text same_text same_text signal 9 time_of "o1" "p" "prod"
      "alice" deploy "{}" body disk entered false refl body-KeepsRecord

run_operation-Refused_example :
    Refused json same_text same_text same_text signal 9 time_of
      (create "o1" "t" deploy "p" "test" "alice" "{}")
      (locked_by 8 "o2")
      locks
      disk
      (run_operation json same_text same_text same_text signal 9 time_of "o1" deploy "p" "test"
        "alice" "{}" body disk)
unfolding enter
run_operation-Refused_example =
    run_operation-Refused json same_text same_text same_text signal 9 time_of "o1" "p" "test"
      "alice" deploy "{}" body disk locks (locked_by 8 "o2") refl

body-IsNumbered : (c : Context String) → IsNumbered "o1" c → IsNumbered "o1" (body "o1" c).1
body-IsNumbered c h = emit-IsNumbered "o1" "t" "info" "work" "half" c h

run_operation-Numbered_example :
    Numbered 0
      (load_events "o1"
        (run_operation json same_text same_text same_text signal 9 time_of "o1" deploy "p" "prod"
          "alice" "{}" body disk).1.store)
      (suc
        (body "o1" (
          started json same_text same_text same_text signal 9 time_of
            (create "o1" "t" deploy "p" "prod" "alice" "{}")
            disk
            entered)).1.seq)
unfolding enter
run_operation-Numbered_example =
    run_operation-Numbered json same_text same_text same_text signal 9 time_of "o1" "p" "prod"
      "alice" deploy "{}" body disk entered false refl body-KeepsRecord body-IsNumbered refl

-- Process 1 takes the lock, and then process 2 dies.
abbrev idle_system : System
idle_system = record { file = none; pcs = λ p. outside; alive = λ p. true }

idle-IsOwned : IsOwned idle_system
idle-IsOwned p lives h = cc

abbrev one_inside : System
one_inside = record {
  file = some (record { creator = 1; content = owner 1 "o1" });
  pcs = put (put (put (λ p. outside) 1 (creating false)) 1 writing) 1 inside;
  alive = put (λ p. true) 2 false;
}

run_one : Careful idle_system one_inside
run_one = death 2 (
    call 1 "o1" (call 1 "o1" (call 1 "o1" start refl enters tt) refl creates tt) refl (write refl)
      tt)

Careful-exclusive_example : ◌≡◌ {A = ℕ} 1 1
Careful-exclusive_example =
    Careful-exclusive idle_system one_inside 1 1 idle-IsOwned run_one refl refl refl refl

abbrev stale_system : System
stale_system = record {
  file = some (record { creator = 7; content = owner 7 "o7" });
  pcs = λ p. outside;
  alive = λ p. if eqb p 7 then false else true;
}

stale_race_example :
    (t : System) × Reach stale_system t
    × (t.alive 1 ≡ true)
    × (t.alive 2 ≡ true)
    × (holds (t.pcs 1) ≡ true)
    × (holds (t.pcs 2) ≡ true)
stale_race_example =
    stale_race stale_system 1 2 7 (record { creator = 7; content = owner 7 "o7" }) "o7" "o1" "o2"
      (λ e. omega arith) refl refl refl refl refl refl refl

enter-Realized_example :
    Realized signal 9 "prod" "o1"
      (some (record { creator = 7; content = owner 7 "o0" }))
      (enter signal 9 "prod" "o1" locks)
enter-Realized_example =
    enter-Realized signal 9 "prod" "o1" locks
      (some (record { creator = 7; content = owner 7 "o0" })) refl refl
