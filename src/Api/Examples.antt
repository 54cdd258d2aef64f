-- ===== src/Api/Examples.antt =====
-- The theorems on the routes at one small project.
use odooctl.Prelude.{
  ◌≤◌, String, ◌≡◌, ◌⊎◌, refl, true, false, ◌==◌, none, some, List, [], ◌∷◌, All, arith,
  if◌then◌else◌,
}
use odooctl.Prelude.Exec.{ok, err}
use odooctl.Cutover.Names.{has_char}
use odooctl.Environments.{is_protected, env}
use odooctl.Operations.Locks.{delivered}
use odooctl.Operations.Models.{backup, kind_of, Operation, Event, create}
use odooctl.Runner.Guards.{protection}
use odooctl.Runner.Nonces.{missing}
use odooctl.Runner.Execute.{State, Host, Clock, Dispatch}
use odooctl.Security.Principals.{Principal, admin, user, has_at_least}
use odooctl.Security.Rbac.{kind_protected, require, roles_allow}
use odooctl.Security.Tokens.{is_ascii, Claims, array, object, payload_of, mint}
use odooctl.Security.Tokens.Scope.{IsCodec}
use odooctl.Api.Params.{ApiError}
use odooctl.Api.Enqueue.{
  Config, Server, Request, Given, Reply, gate_of, check_target, check_filestore, check_config,
  check_request, enqueue_operation,
}
use odooctl.Api.Enqueue.Accepted.Runs.{Queued, enqueue_operation-Queued}
use odooctl.Api.Enqueue.Accepted.Authorized.{Authorized, enqueue_operation-Authorized}
use odooctl.Api.Events.{
  max_polls_ceiling, clamp_max_polls, Views, generate, find_scoped, stream_events,
}
use odooctl.Api.Events.Streamed.{Follows, stream_events-Follows}
use odooctl.Api.Cancel.{Site, Found, find_op, cancel_operation}
use odooctl.Api.Cancel.Stopped.{IsNamed, Answers, cancel_operation-Cancelled}

abbrev payload : Claims
payload =
    payload_of "backup" "prod" "shop" 300 (some "p1") "n1" 1000
      (("roles", array (some "admin" ∷ [])) ∷ [])

abbrev config : Config
config = record {
  environments =
      (
        "prod",
        record {
          tier = none;
          protected = some true;
          db_name = "shop_prod";
          filestore_backend = none;
        },
      )
      ∷ [];
  snapshot_provider = "none";
  snapshot_environment = "";
  pitr_enabled = false;
  pitr_environment = "";
}

abbrev server : Server String
server = record {
  codec = record { header = "h"; encode = λ c. "p"; decode = λ t. object payload; sign = λ t. "s" };
  registry = λ project. if project == "shop" then some (ok config) else none;
  repr = λ s. s;
  redact = λ params. "{}";
}

server-IsCodec : IsCodec server.codec payload
unfolding has_char is_ascii
server-IsCodec = record {
  decode-encode = refl;
  plain_header = refl;
  plain_payload = refl;
  plain_signature = λ t. refl;
  ascii_signature = λ t. refl;
}

abbrev alice : Principal
alice = record { id = "p1"; org_id = "o1"; kind = user; roles = admin ∷ []; display = "Alice" }

abbrev request : Request
request = record {
  project = "shop";
  token_project = "*";
  principal = alice;
  kind = "backup";
  environment = "prod";
  params = [];
}

abbrev given : Given
given = record {
  op_id = "a";
  nonce = "n1";
  issued = 1000;
  created = "t0";
  queued = "t1";
  mtime = 7;
}

abbrev empty : State String
empty = record {
  disk = record {
    store = record { records = λ id. none; events = λ id. none };
    locks = record { files = λ env. none; held = [] };
    trail = record { lines = []; hwm = none };
  };
  queue = record {
    pending = [];
    running = λ name. none;
    failed = λ name. none;
    set_aside = λ name. none;
  };
  nonces = missing;
}

abbrev host : Host String
host = record {
  codec = server.codec;
  json = record { quote = λ s. s; dumps = λ s. s };
  digest = λ s. s;
  redact = λ s. s;
  repr = λ s. s;
  str_of = λ v. "p1";
  environments = [];
  signal = λ pid. delivered;
  getpid = 9;
}

abbrev clock : Clock
clock = record { verified = 1100; consumed = 1100_500_000; utcnow = λ n. "t" }

abbrev done : Dispatch String
done e c = (ok tt, c)

abbrev reply : Reply
reply = record {
  op_id = "a";
  kind = "backup";
  project = "shop";
  environment = "prod";
  status = "queued";
  created_at = "t0";
}

enqueue_operation-Queued_example :
    Queued server request given config host clock done reply
      (enqueue_operation server request given empty).1
unfolding enqueue_operation check_request check_config check_target check_filestore gate_of kind_of
    protection is_protected env require roles_allow has_at_least kind_protected mint
enqueue_operation-Queued_example =
    enqueue_operation-Queued server request given config host clock done empty reply refl
      server-IsCodec (omega arith) (omega arith) refl

-- A token for another project.
abbrev foreign : Request
foreign = record request { token_project = "blog" }

enqueue_operation-Authorized_example :
    (((reply : Reply) × ((enqueue_operation server foreign given empty).0 ≡ ok reply))
      × Authorized server foreign)
    ⊎ ((e : ApiError) × (enqueue_operation server foreign given empty ≡ (err e, empty)))
enqueue_operation-Authorized_example = enqueue_operation-Authorized server foreign given empty

abbrev op : Operation String
op = create "a" "t0" backup "shop" "prod" "p1" "{}"

abbrev blog : Site String
blog = record { name = "blog"; resolves = true; loads = true; state = empty }

abbrev shop : Site String
shop = record {
  name = "shop";
  resolves = true;
  loads = true;
  state = record empty {
    disk = record empty.disk {
      store = record { records = λ id. if "a" == id then some op else none; events = λ id. none };
    };
  };
}

abbrev sites : List (Site String)
sites = blog ∷ shop ∷ []

sites-IsNamed : All (IsNamed "a") sites
sites-IsNamed = ((λ o h. cc h), ((λ o h. cc h), tt))

cancel_operation-Cancelled_example :
    (f : Found String) × Answers
      (λ s. s)
      "a"
      "t1"
      "shop"
      sites
      (cancel_operation (λ s. s) "a" "t1" "shop" sites)
      f
unfolding cancel_operation find_op
cancel_operation-Cancelled_example =
    cancel_operation-Cancelled (λ s. s) "a" "t1" "shop" sites ("a", "cancelled") sites-IsNamed refl

-- The event is there, and the operation queued, at each of the two polls.
abbrev started : Event
started = record {
  op_id = "a";
  seq = 1;
  timestamp = "t1";
  level = "info";
  phase = "start";
  message = "operation started";
}

abbrev views : Views String
views n = (
  record {
    records = λ id. if "a" == id then some op else none;
    events = λ id. some (started ∷ []);
  },
  record {
    records = λ id. if "a" == id then some op else none;
    events = λ id. some (started ∷ []);
  },
)

stream_events-Follows_example :
    Follows (λ s. s) "a" views [] (clamp_max_polls 2) (started ∷ [])
    × (clamp_max_polls 2 ≤ max_polls_ceiling)
unfolding stream_events generate find_scoped find_op clamp_max_polls
stream_events-Follows_example =
    stream_events-Follows (λ s. s) "a" views "shop" 2 sites (ok tt, started ∷ []) (λ n. ([], refl))
      refl
