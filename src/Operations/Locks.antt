-- ===== src/Operations/Locks.antt =====
-- Per-environment locks (odooctl/operations/locks.py), as one thread of one process sees them: the
-- lock files, by environment, and the locks that the thread holds. `signal` is `os.kill(pid, 0)`.
pub mod Holding
pub mod Interleaving
use Prim.Native.String.{◌++◌}
use odooctl.Prelude.{
  ℕ, String, Bool, true, false, not, ◌==◌, Option, none, some, List, [], ◌∷◌, filter, any,
  if◌then◌else◌, update,
}
use odooctl.Prelude.Exec.{Exec, pure, raise, ◌>>=◌, ◌>>◌}

-- The file's `pid` and `op_id`, if they can be read.
pub data LockFile : Type 0 where
  owner : ℕ → String → LockFile
  unreadable : LockFile

pub data Signal : Type 0 where
  delivered : Signal
  process_lookup_error : Signal
  permission_error : Signal

pub record Locks : Type 0 where
  pub files : String → Option LockFile
  pub held : List String

pub data LockAcquisitionError : Type 0 where
  race : LockAcquisitionError
  cannot_read : LockAcquisitionError
  locked_by : ℕ → String → LockAcquisitionError

abbrev pub lock_message : (String → String) → (ℕ → String) → String → LockAcquisitionError → String
lock_message repr show env race =
    "Environment '" ++ (env ++ "' is locked (race on stale lock removal)")
lock_message repr show env cannot_read =
    "Environment '" ++ (env ++ "' is locked (unreadable lock file)")
lock_message repr show env (locked_by pid op_id) =
    "Environment '"
    ++ (env ++ ("' is locked by operation " ++ (repr op_id ++ (" (PID " ++ (show pid ++ ")")))))

abbrev pub is_held : String → List String → Bool
is_held env held = any (λ h. h == env) held

abbrev pub discard : String → List String → List String
discard env held = filter (λ h. not (h == env)) held

-- A call on the locks.
abbrev pub Locking : Type 0 → Type 0
Locking A = Exec Locks LockAcquisitionError A

abbrev write_file : String → Option LockFile → Locking (Unit {0})
write_file env file s = pure tt (record s { files = update s.files env file })

abbrev unlink : String → Locking (Unit {0})
unlink env = write_file env none

-- `os.open` with `O_CREAT | O_EXCL`, and what is done where the file exists.
abbrev created_or :
    String → LockFile → (LockFile → Locking (Unit {0})) → Option LockFile → Locking (Unit {0})
created_or env file on_exists none = write_file env (some file)
created_or env file on_exists (some found) = on_exists found

abbrev create_or : String → LockFile → (LockFile → Locking (Unit {0})) → Locking (Unit {0})
create_or env file on_exists s = created_or env file on_exists (s.files env) s

module _ (signal : ℕ → Signal) (getpid : ℕ) where
  -- `_try_create(retried=True)`
  abbrev try_create_retried : String → String → Locking (Unit {0})
  try_create_retried env op_id = create_or env (owner getpid op_id) (λ found. raise race)

  abbrev signalled : String → String → ℕ → String → Signal → Locking (Unit {0})
  signalled env op_id pid found process_lookup_error = unlink env >> try_create_retried env op_id
  signalled env op_id pid found permission_error = raise (locked_by pid found)
  signalled env op_id pid found delivered = raise (locked_by pid found)

  abbrev handle_existing : String → String → LockFile → Locking (Unit {0})
  handle_existing env op_id unreadable = raise cannot_read
  handle_existing env op_id (owner pid found) = signalled env op_id pid found (signal pid)

  abbrev try_create : String → String → Locking (Unit {0})
  try_create env op_id = create_or env (owner getpid op_id) (handle_existing env op_id)

  abbrev hold : String → Locking (Unit {0})
  hold env s = pure tt (record s { held = env ∷ s.held })

  -- `__enter__`: the result is `self._reentrant`
  unfoldable pub enter : String → String → Locking Bool
  enter env op_id s =
      if is_held env s.held
      then pure true s
      else (try_create env op_id >> (hold env >> pure false)) s

-- `__exit__`
unfoldable pub exit : String → Bool → Locks → Locks
exit env reentrant s =
    if reentrant then s else record { files = update s.files env none; held = discard env s.held }
