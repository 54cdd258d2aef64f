-- ===== src/Operations/Locks/Interleaving/Alone.antt =====
-- A process that nobody disturbs does what `enter` says.
use odooctl.Prelude.{
  ℕ, String, ◌≡◌, refl, sym, subst, Bool, true, false, Option, none, some, some_cancel,
}
use odooctl.Prelude.Exec.{Result, ok, err}
use odooctl.Operations.Locks.{
  Locks, LockFile, owner, unreadable, Signal, delivered, process_lookup_error, permission_error,
  LockAcquisitionError, is_held, enter, cannot_read, locked_by,
}
use odooctl.Operations.Locks.Holding.{EnterCase, blocks, blocker, enter-Entered}
use odooctl.Operations.Locks.Interleaving.{
  Pc, outside, reading, inside, File, Move, create, exists, write, read, read_unreadable, locked,
  dead, unlink,
}
use odooctl.Operations.Locks.Interleaving.{enter as enters}

-- The calls of one process, one after the other.
pub data Alone (pid : ℕ) (op_id : String) (alive : ℕ → Bool) (file : Option File) (pc : Pc)
    : Option File → Pc → Type 0 where
  start : Alone pid op_id alive file pc file pc
  then_call :
      {f g : Option File} {a b : Pc}
      → Alone pid op_id alive file pc f a
      → Move pid op_id alive f a g b
      → Alone pid op_id alive file pc g b

-- `os.kill(pid, 0)` raises ProcessLookupError for a dead process only.
abbrev pub is_alive : Signal → Bool
is_alive process_lookup_error = false
is_alive delivered = true
is_alive permission_error = true

abbrev pub content_of : Option File → Option LockFile
content_of none = none
content_of (some f) = some f.content

abbrev pub stands : Result LockAcquisitionError Bool → Pc
stands (ok reentrant) = inside
stands (err e) = outside

-- What `enter` gives is reached by the calls of the process alone.
abbrev pub Realized :
    (ℕ → Signal)
    → ℕ
    → String
    → String
    → Option File
    → Result LockAcquisitionError Bool × Locks
    → Type 0
Realized signal getpid env op_id file out =
    (file' : Option File) × Alone getpid op_id (λ n. is_alive (signal n)) file outside file'
      (stands out.0)
    × (content_of file' ≡ out.1.files env)

module _ (signal : ℕ → Signal) (getpid : ℕ) (env op_id : String) (locks : Locks) where
  abbrev mine : File
  mine = record { creator = getpid; content = owner getpid op_id }

  abbrev Calls : Option File → Pc → Option File → Pc → Type 0
  Calls = Alone getpid op_id (λ n. is_alive (signal n))

  taken-Realized :
      (file : Option File) (out : Result LockAcquisitionError Bool × Locks)
      → Calls file outside (some mine) inside
      → EnterCase getpid env op_id locks false none out
      → Realized signal getpid env op_id file out
  taken-Realized file out path (result, files, held, others) = (
    some mine,
    subst (λ r. Calls file outside (some mine) (stands r)) (sym result) path,
    sym files,
  )

  refused-Realized :
      (file : Option File) (e : LockAcquisitionError)
      (out : Result LockAcquisitionError Bool × Locks)
      → Calls file outside file outside
      → content_of file ≡ locks.files env
      → EnterCase getpid env op_id locks false (some e) out
      → Realized signal getpid env op_id file out
  refused-Realized file e out path shown result =
      subst (Realized signal getpid env op_id file) (sym result) (file, path, shown)

  -- A lock file is there, up to the content that is read.
  upto_reading : (f : File) → Calls (some f) outside (some f) reading
  upto_reading f = then_call (then_call start enters) exists

  owner-Realized :
      (f : File) (pid : ℕ) (other : String) (sig : Signal)
      (out : Result LockAcquisitionError Bool × Locks)
      → signal pid ≡ sig
      → f.content ≡ owner pid other
      → content_of (some f) ≡ locks.files env
      → EnterCase getpid env op_id locks false (blocks pid other sig) out
      → Realized signal getpid env op_id (some f) out
  owner-Realized f pid other delivered out e content shown case =
      refused-Realized (some f) (locked_by pid other) out
        (then_call (then_call (upto_reading f) (read content))
          (locked (subst (λ x. is_alive x ≡ true) (sym e) refl)))
        shown case
  owner-Realized f pid other permission_error out e content shown case =
      refused-Realized (some f) (locked_by pid other) out
        (then_call (then_call (upto_reading f) (read content))
          (locked (subst (λ x. is_alive x ≡ true) (sym e) refl)))
        shown case
  owner-Realized f pid other process_lookup_error out e content shown case =
      taken-Realized (some f) out
        (then_call
          (then_call
            (then_call
              (then_call (then_call (upto_reading f) (read content))
                (dead (subst (λ x. is_alive x ≡ false) (sym e) refl)))
              unlink)
            create)
          (write refl))
        case

  file-Realized :
      (file : Option File) (content : Option LockFile)
      (out : Result LockAcquisitionError Bool × Locks)
      → content_of file ≡ content
      → content_of file ≡ locks.files env
      → EnterCase getpid env op_id locks false (blocker signal content) out
      → Realized signal getpid env op_id file out
  file-Realized none none out e shown case =
      taken-Realized none out (then_call (then_call (then_call start enters) create) (write refl))
        case
  file-Realized none (some c) out e shown case = cc
  file-Realized (some f) none out e shown case = cc
  file-Realized (some f) (some unreadable) out e shown case =
      refused-Realized (some f) cannot_read out
        (then_call (upto_reading f) (read_unreadable (some_cancel e))) shown case
  file-Realized (some f) (some (owner pid other)) out e shown case =
      owner-Realized f pid other (signal pid) out refl (some_cancel e) shown case

  -- The refinement, where the thread does not hold the lock yet: what `enter` gives for the lock file
  -- that the path shows is what the single calls of the process lead to when nobody else makes any:
  -- inside with its own file, or outside with the file as it was, as the result says.
  pub enter-Realized :
      (file : Option File)
      → is_held env locks.held ≡ false
      → content_of file ≡ locks.files env
      → Realized signal getpid env op_id file (enter signal getpid env op_id locks)
  enter-Realized file unheld shown =
      let entered = enter-Entered signal getpid env op_id locks in
      let case =
        subst
          (λ held.
            EnterCase getpid env op_id locks held (blocker signal (locks.files env))
              (enter signal getpid env op_id locks))
          unheld entered in
      file-Realized file (locks.files env) (enter signal getpid env op_id locks) shown shown case
