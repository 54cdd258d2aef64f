-- ===== src/Operations/Locks/Holding.antt =====
-- When a lock is given, and what giving it back leaves.
use odooctl.Prelude.{
  ℕ, String, ◌≡◌, ◌≢◌, refl, ◌∙◌, Bool, true, false, Option, none, some, List, [], ◌∷◌, update,
  update_self, update_ne, Bool-cases, Option-cases, inl, inr, arith,
}
use odooctl.Prelude.Exec.{Result, ok, err}
use odooctl.Operations.Locks.{
  Locks, LockFile, owner, unreadable, Signal, delivered, process_lookup_error, permission_error,
  LockAcquisitionError, cannot_read, locked_by, enter, exit, is_held, discard,
}

abbrev pub blocks : ℕ → String → Signal → Option LockAcquisitionError
blocks pid op_id process_lookup_error = none
blocks pid op_id permission_error = some (locked_by pid op_id)
blocks pid op_id delivered = some (locked_by pid op_id)

-- Why a lock file keeps the lock from others, if it does: it cannot be read, or its process lives.
abbrev pub blocker : (ℕ → Signal) → Option LockFile → Option LockAcquisitionError
blocker signal none = none
blocker signal (some unreadable) = some cannot_read
blocker signal (some (owner pid op_id)) = blocks pid op_id (signal pid)

abbrev pub taken : ℕ → String → String → Locks → Locks
taken getpid env op_id s = record {
  files = update s.files env (some (owner getpid op_id));
  held = env ∷ s.held;
}

-- The three ways `__enter__` ends: the thread holds the lock already and nothing changes, a live
-- or unreadable lock file refuses it and nothing changes, or the lock is taken.
abbrev pub EnterCase :
    ℕ
    → String
    → String
    → Locks
    → Bool
    → Option LockAcquisitionError
    → Result LockAcquisitionError Bool × Locks
    → Type 0
EnterCase getpid env op_id s true blocked out = out ≡ (ok true, s)
EnterCase getpid env op_id s false (some e) out = out ≡ (err e, s)
EnterCase getpid env op_id s false none out =
    (out.0 ≡ ok false)
    × (out.1.files env ≡ some (owner getpid op_id))
    × (out.1.held ≡ env ∷ s.held)
    × ((other : String) → env ≢ other → out.1.files other ≡ s.files other)

abbrev pub Entered : (ℕ → Signal) → ℕ → String → String → Locks → Type 0
Entered signal getpid env op_id s =
    EnterCase getpid env op_id s (is_held env s.held) (blocker signal (s.files env))
      (enter signal getpid env op_id s)

data SignalCases (s : Signal) : Type 0 where
  dead : s ≡ process_lookup_error → SignalCases s
  alive : s ≡ delivered → SignalCases s
  denied : s ≡ permission_error → SignalCases s

signal_cases : (s : Signal) → SignalCases s
signal_cases delivered = alive refl
signal_cases process_lookup_error = dead refl
signal_cases permission_error = denied refl

module _ (signal : ℕ → Signal) (getpid : ℕ) (env op_id : String) where
  -- A thread that holds the lock enters again and nothing changes; where another process's lock file
  -- cannot be read or its process lives, the error says so and nothing changes; else, also where that
  -- process is dead, the lock file is this process's, the thread holds the lock, and no other lock
  -- file changes.
  pub enter-Entered : (s : Locks) → Entered signal getpid env op_id s
  unfolding enter
  enter-Entered s = elim (Bool-cases (is_held env s.held)) [
    | inl h ↦ rw h refl
    | inr h ↦ elim (Option-cases (s.files env)) [
      | inl free ↦ rw (h, free) (refl, update_self s.files env _, refl, update_ne s.files env _)
      | inr (unreadable, f) ↦ rw (h, f) refl
      | inr (owner pid op, f) ↦ elim (signal_cases (signal pid)) [
        | dead d ↦
            rw (h, f)
              (rw (d, update_self s.files env none)
                (
                  refl,
                  update_self (update s.files env none) env (some (owner getpid op_id)),
                  refl,
                  λ other ne.
                      update_ne (update s.files env none) env (some (owner getpid op_id)) other ne
                      ∙ update_ne s.files env none other ne,
                ))
        | alive d ↦ rw (h, f) (rw d refl)
        | denied d ↦ rw (h, f) (rw d refl)
      ]
    ]
  ]

  not_held-discard : (held : List String) → is_held env (discard env held) ≡ false
  not_held-discard [] = refl
  not_held-discard (h ∷ hs) = ground (arith, not_held-discard hs)

  -- Leaving a lock that the call took, whatever is held by then: the lock file is gone, and the thread
  -- does not hold the lock.
  pub exit-free :
      (s : Locks)
      → ((exit env false s).files env ≡ none) × (is_held env (exit env false s).held ≡ false)
  unfolding exit
  exit-free s = (update_self s.files env none, not_held-discard s.held)
