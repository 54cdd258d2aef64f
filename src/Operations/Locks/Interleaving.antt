-- ===== src/Operations/Locks/Interleaving.antt =====
-- Several processes on the lock file of one environment (odooctl/operations/locks.py), one system call
-- at a time. A process is its process id, and no id is used again. A file that was created under the
-- path has a creator, who goes on writing to it also where it has been unlinked since.
pub mod Exclusion
pub mod Race
pub mod Alone
use odooctl.Prelude.{ℕ, String, ◌≡◌, ◌≢◌, Bool, true, false, Option, none, some, eqb, if◌then◌else◌}
use odooctl.Operations.Locks.{LockFile, owner, unreadable}

-- Where a process stands in `__enter__`, `_try_create`, `_handle_existing` and `__exit__`.
pub data Pc : Type 0 where
  outside : Pc
  creating : (retried : Bool) → Pc  -- before `os.open` with O_EXCL
  writing : Pc  -- before `os.write`
  reading : Pc  -- before `read_text`
  found : (pid : ℕ) → Pc  -- before `os.kill`
  stale : Pc  -- before `unlink`
  inside : Pc

pub record File : Type 0 where
  pub creator : ℕ
  pub content : LockFile

-- One call of the process `pid` for the operation `op_id`, on what the path shows.
pub data Move (pid : ℕ) (op_id : String) (alive : ℕ → Bool)
    : Option File → Pc → Option File → Pc → Type 0 where
  enter : {file : Option File} → Move pid op_id alive file outside file (creating false)
  create :
      {retried : Bool}
      → Move pid op_id alive none
          (creating retried)
          (some (record { creator = pid; content = unreadable }))
          writing
  exists : {f : File} → Move pid op_id alive (some f) (creating false) (some f) reading
  race : {f : File} → Move pid op_id alive (some f) (creating true) (some f) outside
  write :
      {f : File}
      → f.creator ≡ pid
      → Move pid op_id alive
          (some f)
          writing
          (some (record { creator = pid; content = owner pid op_id }))
          inside
  write_other : {f : File} → f.creator ≢ pid → Move pid op_id alive (some f) writing (some f) inside
  write_unlinked : Move pid op_id alive none writing none inside
  read :
      {f : File} {holder : ℕ} {other : String}
      → f.content ≡ owner holder other
      → Move pid op_id alive (some f) reading (some f) (found holder)
  read_unreadable :
      {f : File} → f.content ≡ unreadable → Move pid op_id alive (some f) reading (some f) outside
  read_missing : Move pid op_id alive none reading none outside
  locked :
      {file : Option File} {holder : ℕ}
      → alive holder ≡ true
      → Move pid op_id alive file (found holder) file outside
  dead :
      {file : Option File} {holder : ℕ}
      → alive holder ≡ false
      → Move pid op_id alive file (found holder) file stale
  unlink : {file : Option File} → Move pid op_id alive file stale none (creating true)
  exit : {file : Option File} → Move pid op_id alive file inside none outside

pub record System : Type 0 where
  pub file : Option File
  pub pcs : ℕ → Pc
  pub alive : ℕ → Bool

abbrev pub put : {A : Type 0} → (ℕ → A) → ℕ → A → ℕ → A
put f p v q = if eqb p q then v else f q

-- A live process makes a call, or a process dies.
pub data Step (s : System) : System → Type 0 where
  act :
      (pid : ℕ) (op_id : String) {file : Option File} {pc : Pc}
      → s.alive pid ≡ true
      → Move pid op_id s.alive s.file (s.pcs pid) file pc
      → Step s (record s { file = file; pcs = put s.pcs pid pc })
  die : (pid : ℕ) → Step s (record s { alive = put s.alive pid false })

pub data Reach (s : System) : System → Type 0 where
  here : Reach s s
  next : {t u : System} → Reach s t → Step t u → Reach s u

abbrev pub holds : Pc → Bool
holds writing = true
holds inside = true
holds _ = false
