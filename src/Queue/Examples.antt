-- ===== src/Queue/Examples.antt =====
-- The theorems on the queue at a small directory.
use odooctl.Prelude.{ℕ, String, ◌≡◌, ◌≢◌, refl, sym, none, List, [], ◌∷◌}
use odooctl.Queue.{QueueEntry, Content, readable, corrupt, Pending, Queue, claim_from}
use odooctl.Queue.Claims.{IsNamed, claim_from-exclusive}

abbrev job : String → QueueEntry ℕ
job id = record {
  op_id = id;
  kind = "backup";
  project = "p";
  environment = "prod";
  actor = "alice";
  params_redacted = 0;
  token = "t";
  created_at = "now";
}

abbrev file : String → ℕ → Content ℕ → Pending ℕ
file name mtime content = record { name = name; mtime = mtime; content = content }

abbrev listing : List (Pending ℕ)
listing =
    file "x" 1 corrupt ∷ file "a" 2 (readable (job "a")) ∷ file "b" 3 (readable (job "b")) ∷ []

abbrev queue : Queue ℕ
queue = record {
  pending = listing;
  running = λ name. none;
  failed = λ name. none;
  set_aside = λ name. none;
}

content_name :
    (e e' : QueueEntry ℕ) → Path (Content ℕ) (readable e) (readable e') → e.op_id ≡ e'.op_id
content_name e e' h = cc

queue-IsNamed : IsNamed queue
queue-IsNamed = (
  λ e h. cc,
  (λ e h. content_name e (job "a") (sym h), (λ e h. content_name e (job "b") (sym h), tt)),
)

-- Both runners go through the same listing.
claim_from-exclusive_example : (job "a").op_id ≢ (job "b").op_id
unfolding claim_from
claim_from-exclusive_example =
    claim_from-exclusive listing listing queue (job "a") (job "b") queue-IsNamed refl refl
