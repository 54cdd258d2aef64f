-- ===== src/Runner/Examples.antt =====
-- The theorems on the runner at one small project.
use odooctl.Prelude.{
  ◌*◌, String, ◌≡◌, ◌⊎◌, inl, refl, Bool, true, false, ◌==◌, none, some, [], ◌∷◌, arith,
  if◌then◌else◌,
}
use odooctl.Prelude.Exec.{ok, err}
use odooctl.Environments.{is_protected, env}
use odooctl.Queue.{QueueEntry, readable, Queue, claim_from, claim_next, candidates}
use odooctl.Operations.Engine.{base_exception}
use odooctl.Operations.Locks.{delivered}
use odooctl.Operations.Models.{backup, Operation, create}
use odooctl.Runner.Guards.{authorize, expires_at, action_of, protection, principal_from_payload}
use odooctl.Runner.Nonces.{missing, text, consume, is_consumed}
use odooctl.Runner.Nonces.Reuse.{consume_all, consume_once}
use odooctl.Runner.Execute.{State, Host, Clock, Dispatch, execute_entry}
use odooctl.Runner.Execute.Guarded.{Admitted, execute_entry-Admitted}
use odooctl.Runner.Execute.Once.{execute_all, execute_once}
use odooctl.Runner.Execute.Closing.{HasRecord, IsBody, Ends}
use odooctl.Runner.Execute.Ends.{execute_entry-Ends}
use odooctl.Runner.Execute.Missing.{Fails, execute_entry-Fails}
use odooctl.Runner.Loop.{Project, Worker, Round, run_loop}
use odooctl.Runner.Loop.Claiming.{swept, run_loop-once}
use odooctl.Security.Rbac.{is_allowed, kind_protected, require, roles_allow}
use odooctl.Security.Tokens.{
  verify_parts, compare_digest, is_ascii, Claims, array, object, payload_of, split_dots, verify,
}

-- The same nonce again after another one.
consume_once_example :
    let after =
      consume_all
        (record { nonce = text "n2"; expires_at = none; now = 20 } ∷ [])
        (consume (text "n1") (some 900) 10 missing).1 in
    ((consume (text "n1") none 30 after).0 ≡ ok false)
    × (is_consumed "n1" 30 (consume (text "n1") none 30 after).1 ≡ true)
unfolding consume
consume_once_example =
    consume_once "n1" (some 900) none 10 30
      (record { nonce = text "n2"; expires_at = none; now = 20 } ∷ []) missing refl
      ((omega arith, λ e. cc e), tt) (omega arith)

abbrev payload : Claims
payload =
    payload_of "backup" "prod" "shop" 300 none "n1" 1000 (("roles", array (some "admin" ∷ [])) ∷ [])

abbrev host : Host String
host = record {
  codec = record { header = "h"; encode = λ c. "p"; decode = λ t. object payload; sign = λ t. "s" };
  json = record { quote = λ s. s; dumps = λ s. s };
  digest = λ s. s;
  redact = λ s. s;
  repr = λ s. s;
  str_of = λ v. "alice";
  environments =
      (
        "prod",
        record {
          tier = none;
          protected = some true;
          db_name = "shop_prod";
          filestore_backend = none;
        },
      )
      ∷ [];
  signal = λ pid. delivered;
  getpid = 9;
}

abbrev entry : QueueEntry String
entry = record {
  op_id = "a";
  kind = "backup";
  project = "shop";
  environment = "prod";
  actor = "alice";
  params_redacted = "{}";
  token = "h.p.s";
  created_at = "t";
}

abbrev op : Operation String
op = create "a" "t" backup "shop" "prod" "alice" "{}"

abbrev queue : Queue String
queue = record {
  pending = record { name = "a"; mtime = 1; content = readable entry } ∷ [];
  running = λ name. none;
  failed = λ name. none;
  set_aside = λ name. none;
}

abbrev state : State String
state = record {
  disk = record {
    store = record { records = λ id. if "a" == id then some op else none; events = λ id. none };
    locks = record { files = λ env. none; held = [] };
    trail = record { lines = []; hwm = none };
  };
  queue = queue;
  nonces = missing;
}

abbrev clock : Clock
clock = record { verified = 1100; consumed = 1100_500_000; utcnow = λ n. "t" }

abbrev after : Clock
after = record { verified = 1200; consumed = 1200_500_000; utcnow = λ n. "t" }

abbrev done : Dispatch String
done e c = (ok tt, c)

abbrev interrupted : Dispatch String
interrupted e c = (err base_exception, c)

execute_entry-Admitted_example :
    Admitted host clock entry state
    ⊎ (execute_entry host clock done entry state ≡ execute_entry host clock interrupted entry state)
execute_entry-Admitted_example = execute_entry-Admitted host clock done interrupted entry state

state-Admitted : Admitted host clock entry state
unfolding verify verify_parts compare_digest is_ascii split_dots authorize expires_at action_of
    protection principal_from_payload consume is_protected env is_allowed kind_protected require
    roles_allow
state-Admitted = record {
  wanted = refl;
  payload = payload;
  accepted = refl;
  signed = ("h", "p", refl, refl);
  alive = refl;
  act = refl;
  in_environment = refl;
  in_project = refl;
  authorized_ok = refl;
  allowed = (_, true, refl, refl, refl);
  expiry = some (1300 * 1_000_000);
  expires = refl;
  fresh = refl;
}

execute_once_example :
    let s = execute_all host [] (execute_entry host clock done entry state).1 in
    execute_entry host after done entry s ≡ execute_entry host after interrupted entry s
unfolding state-Admitted
execute_once_example =
    execute_once host done done interrupted entry entry clock after state "n1" [] state-Admitted
      refl refl tt (omega arith)

state-HasRecord : HasRecord entry state.disk.store
state-HasRecord = (op, refl, refl)

done-IsBody : IsBody entry done
done-IsBody = record { keeps = λ c there. there; ends = λ c e. cc e }

execute_entry-Ends_example : Ends entry (execute_entry host clock done entry state)
unfolding verify verify_parts compare_digest is_ascii split_dots expires_at
execute_entry-Ends_example =
    execute_entry-Ends host clock done entry state (some (1300 * 1_000_000), refl, ("n1", refl))
      done-IsBody state-HasRecord

abbrev unrecorded : State String
unrecorded = record state {
  disk = record state.disk { store = record { records = λ id. none; events = λ id. none } };
}

execute_entry-Fails_example : Fails unrecorded (execute_entry host clock done entry unrecorded)
execute_entry-Fails_example = execute_entry-Fails host clock done entry unrecorded refl

abbrev project : Project String
project = record { loads = true; host = host; dispatch = done; state = state }

abbrev broken : Project String
broken = record { loads = false; host = host; dispatch = done; state = state }

abbrev worker : Worker String
worker = record { projects = broken ∷ project ∷ broken ∷ []; last_run_ok = true }

abbrev round : Round String
round = record { clock = clock; others = λ ps. ps }

abbrev claimed_queue : Queue String
unfolding claim_next claim_from candidates
claimed_queue = (claim_next queue).1

run_loop-once_example :
    (b : Bool) × (s : State String) × (run_loop true false (round ∷ []) worker ≡ (
      some (ok b),
      record {
        projects = swept broken ∷ record project { state = s } ∷ broken ∷ [];
        last_run_ok = b;
      },
    ))
    × (execute_entry host clock done entry (record state { queue = claimed_queue }) ≡ (ok b, s))
    × Ends entry (ok b, s)
unfolding verify verify_parts compare_digest is_ascii split_dots expires_at claim_next claim_from
    candidates
run_loop-once_example =
    run_loop-once false round [] worker (broken ∷ []) project (broken ∷ []) entry claimed_queue refl
      (inl refl, tt) refl refl (some (1300 * 1_000_000), refl, ("n1", refl)) done-IsBody
      state-HasRecord
