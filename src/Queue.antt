-- ===== src/Queue.antt =====
-- The queue between the API and the runner (odooctl/api/queue.py): the files of the directory queue/,
-- by the operation id in front of their suffixes. A file's content is the entry that
-- `QueueEntry.from_json` reads, or a text that it refuses. A listing is a value of its own, since
-- other runners may rename files between a listing and the renames that follow it.
pub mod Claims
mod Examples
use odooctl.Prelude.{
  ℕ, String, Bool, true, false, not, ◌==◌, Option, none, some, List, [], ◌∷◌, ◌++◌, filter, leb,
  if◌then◌else◌, update,
}

pub record QueueEntry (Params : Type 0) : Type 0 where
  pub op_id : String
  pub kind : String
  pub project : String
  pub environment : String
  pub actor : String
  pub params_redacted : Params
  pub token : String
  pub created_at : String

pub data Content (Params : Type 0) : Type 0 where
  readable : QueueEntry Params → Content Params
  corrupt : Content Params

-- A file `{name}.json` with the time of its last change.
pub record Pending (Params : Type 0) : Type 0 where
  pub name : String
  pub mtime : ℕ
  pub content : Content Params

pub record Queue (Params : Type 0) : Type 0 where
  pub pending : List (Pending Params)
  pub running : String → Option (Content Params)
  pub failed : String → Option (Content Params)
  pub set_aside : String → Option (Content Params)

abbrev pub Claim : Type 0 → Type 0
Claim Params = Option (QueueEntry Params) × Queue Params

module _ {Params : Type 0} where
  abbrev pub without : String → List (Pending Params) → List (Pending Params)
  without name fs = filter (λ f. not (f.name == name)) fs

  -- The rename replaces a file of the same name.
  unfoldable pub enqueue : QueueEntry Params → ℕ → Queue Params → Queue Params
  enqueue entry now q = record q {
    pending =
        without entry.op_id q.pending
        ++ record { name = entry.op_id; mtime = now; content = readable entry } ∷ [];
  }

  unfoldable pub cancel : String → Queue Params → Queue Params
  cancel op_id q = record q { pending = without op_id q.pending }

  -- `sorted(..., key=mtime)`, which keeps the order of equal keys
  abbrev pub insert : Pending Params → List (Pending Params) → List (Pending Params)
  insert f [] = f ∷ []
  insert f (g ∷ gs) = let rest = insert f gs in if leb f.mtime g.mtime then f ∷ g ∷ gs else g ∷ rest

  unfoldable pub candidates : List (Pending Params) → List (Pending Params)
  candidates [] = []
  candidates (f ∷ fs) = insert f (candidates fs)

  abbrev pub find_pending : String → List (Pending Params) → Option (Content Params)
  find_pending name [] = none
  find_pending name (f ∷ fs) =
      let rest = find_pending name fs in if f.name == name then some f.content else rest

  -- `path.rename(claimed)`
  abbrev pub renamed : String → Content Params → Queue Params → Queue Params
  renamed name content q = record q {
    pending = without name q.pending;
    running = update q.running name (some content);
  }

  -- `claimed.rename(path.with_suffix(".corrupt"))`
  abbrev pub put_aside : String → Content Params → Queue Params → Queue Params
  put_aside name content q = record q {
    running = update q.running name none;
    set_aside = update q.set_aside name (some content);
  }

  -- What becomes of a candidate, and how the loop goes on where it gives no entry.
  abbrev pub claimed :
      String → Option (Content Params) → (Queue Params → Claim Params) → Queue Params → Claim Params
  claimed name none next q = next q
  claimed name (some (readable entry)) next q = (some entry, renamed name (readable entry) q)
  claimed name (some corrupt) next q = next (put_aside name corrupt (renamed name corrupt q))

  -- The loop over a listing that was made before.
  unfoldable pub claim_from : List (Pending Params) → Queue Params → Claim Params
  claim_from [] q = (none, q)
  claim_from (f ∷ fs) q = claimed f.name (find_pending f.name q.pending) (λ q'. claim_from fs q') q

  unfoldable pub claim_next : Queue Params → Claim Params
  claim_next q = claim_from (candidates q.pending) q

  abbrev pub if_file :
      Option (Content Params) → (Content Params → Queue Params) → Queue Params → Queue Params
  if_file none change q = q
  if_file (some content) change q = change content

  unfoldable pub complete : String → Queue Params → Queue Params
  complete op_id q =
      if_file (q.running op_id) (λ content. record q { running = update q.running op_id none }) q

  unfoldable pub fail : String → Queue Params → Queue Params
  fail op_id q =
      if_file (q.running op_id)
        (λ content. record q {
          running = update q.running op_id none;
          failed = update q.failed op_id (some content);
        })
        q
