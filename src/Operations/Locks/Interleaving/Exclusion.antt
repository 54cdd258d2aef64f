-- ===== src/Operations/Locks/Interleaving/Exclusion.antt =====
-- At most one live process holds the lock, as long as no removal of a stale file hits a live one's.
use odooctl.Prelude.{
  ℕ, String, ◌≡◌, ◌≢◌, Bool, true, false, Option, none, some, eqb, eqb_iff, refl, sym, ap, ◌∙◌,
  subst, Bool-cases, inl, inr, some_cancel,
}
use odooctl.Operations.Locks.{LockFile, owner, unreadable}
use odooctl.Operations.Locks.Interleaving.{
  Pc, stale, File, Move, enter, create, exists, race, write, write_other, write_unlinked, read,
  read_unreadable, read_missing, locked, dead, unlink, exit, System, put, holds,
}

-- A removal of a stale file finds no file, or one that a dead process created.
abbrev pub IsCareful : (ℕ → Bool) → Option File → Pc → Type 0
IsCareful alive (some f) stale = alive f.creator ≡ false
IsCareful alive _ _ = Unit

abbrev pub Owns : ℕ → Option File → Type 0
Owns p file = (content : LockFile) × (file ≡ some (record { creator = p; content = content }))

-- Each live process that holds the lock created the file at the path.
abbrev pub IsOwned : System → Type 0
IsOwned s = (p : ℕ) → s.alive p ≡ true → holds (s.pcs p) ≡ true → Owns p s.file

creator-of : {f g : File} → Path (Option File) (some f) (some g) → f.creator ≡ g.creator
creator-of e = ap (λ (h : File). h.creator) (some_cancel e)

Owns-injective : {p q : ℕ} {file : Option File} → Owns p file → Owns q file → p ≡ q
Owns-injective (c, e) (d, e') = creator-of (sym e ∙ e')

-- What a call leaves for the process itself.
Move-self :
    {pid : ℕ} {op_id : String} {alive : ℕ → Bool} {file file' : Option File} {pc pc' : Pc}
    → Move pid op_id alive file pc file' pc'
    → (holds pc ≡ true → Owns pid file)
    → holds pc' ≡ true
    → Owns pid file'
Move-self enter own h = cc
Move-self create own h = (unreadable, refl)
Move-self exists own h = cc
Move-self race own h = cc
Move-self {pid = pid} {op_id = op_id} (write e) own h = (owner pid op_id, refl)
Move-self (write_other n) own h = own refl
Move-self write_unlinked own h = own refl
Move-self (read e) own h = cc
Move-self (read_unreadable e) own h = cc
Move-self read_missing own h = cc
Move-self (locked e) own h = cc
Move-self (dead e) own h = cc
Move-self unlink own h = cc
Move-self exit own h = cc

-- A removal that is careful does not hit the file of a live process.
careful-removal :
    (alive : ℕ → Bool) (q : ℕ) (file : Option File)
    → IsCareful alive file stale
    → alive q ≡ true
    → ¬ Owns q file
careful-removal alive q none careful lives (c, e) = cc
careful-removal alive q (some f) careful lives (c, e) =
    cc (careful, subst (λ p. alive p ≡ true) (sym (creator-of e)) lives)

-- What a call leaves for another live process that holds the lock.
Move-other :
    {pid : ℕ} {op_id : String} {alive : ℕ → Bool} {file file' : Option File} {pc pc' : Pc} (q : ℕ)
    → Move pid op_id alive file pc file' pc'
    → IsCareful alive file pc
    → (holds pc ≡ true → Owns pid file)
    → pid ≢ q
    → alive q ≡ true
    → Owns q file
    → Owns q file'
Move-other q enter careful own differs lives o = o
Move-other q create careful own differs lives (c, e) = cc
Move-other q exists careful own differs lives o = o
Move-other q race careful own differs lives o = o
Move-other q (write e) careful own differs lives o = absurd (differs (Owns-injective (own refl) o))
Move-other q (write_other n) careful own differs lives o = o
Move-other q write_unlinked careful own differs lives o = o
Move-other q (read e) careful own differs lives o = o
Move-other q (read_unreadable e) careful own differs lives o = o
Move-other q read_missing careful own differs lives o = o
Move-other q (locked e) careful own differs lives o = o
Move-other q (dead e) careful own differs lives o = o
Move-other {alive = alive} {file = file} q unlink careful own differs lives o =
    absurd (careful-removal alive q file careful lives o)
Move-other q exit careful own differs lives o = absurd (differs (Owns-injective (own refl) o))

-- An execution in which each removal of a stale file is careful.
pub data Careful (s : System) : System → Type 0 where
  start : Careful s s
  call :
      {t : System} (pid : ℕ) (op_id : String) {file : Option File} {pc : Pc}
      → Careful s t
      → t.alive pid ≡ true
      → Move pid op_id t.alive t.file (t.pcs pid) file pc
      → IsCareful t.alive t.file (t.pcs pid)
      → Careful s (record t { file = file; pcs = put t.pcs pid pc })
  death :
      {t : System} (pid : ℕ) → Careful s t → Careful s (record t { alive = put t.alive pid false })

call-IsOwned :
    (t : System) (pid : ℕ) (op_id : String) (file : Option File) (pc : Pc)
    → t.alive pid ≡ true
    → Move pid op_id t.alive t.file (t.pcs pid) file pc
    → IsCareful t.alive t.file (t.pcs pid)
    → IsOwned t
    → IsOwned (record t { file = file; pcs = put t.pcs pid pc })
call-IsOwned t pid op_id file pc lives m careful own q lives_q h = elim (Bool-cases (eqb pid q)) [
  | inl same ↦
      let e = (eqb_iff pid q).0 same in
      subst (λ p. Owns p file) e (Move-self m (own pid lives) (rw same at h))
  | inr differs ↦
      let other : pid ≢ q = λ e. cc (differs, (eqb_iff pid q).1 e) in
      Move-other q m careful (own pid lives) other lives_q (own q lives_q (rw differs at h))
]

death-IsOwned :
    (t : System) (pid : ℕ) → IsOwned t → IsOwned (record t { alive = put t.alive pid false })
death-IsOwned t pid own q lives h = elim (Bool-cases (eqb pid q)) [
  | inl same ↦ cc (rw same at lives)
  | inr differs ↦ own q (rw differs at lives) h
]

Careful-IsOwned : {s t : System} → IsOwned s → Careful s t → IsOwned t
Careful-IsOwned own start = own
Careful-IsOwned own (call {t} pid op_id {file} {pc} run lives m careful) =
    call-IsOwned t pid op_id file pc lives m careful (Careful-IsOwned own run)
Careful-IsOwned own (death {t} pid run) = death-IsOwned t pid (Careful-IsOwned own run)

-- Mutual exclusion. In every execution, with processes dying at any point, from a state in which each
-- live process that holds the lock created the file at the path (as where no process holds it): as
-- long as each removal of a stale file finds no file or that of a dead process, at most one live
-- process holds the lock.
pub Careful-exclusive :
    (s t : System) (p q : ℕ)
    → IsOwned s
    → Careful s t
    → t.alive p ≡ true
    → holds (t.pcs p) ≡ true
    → t.alive q ≡ true
    → holds (t.pcs q) ≡ true
    → p ≡ q
Careful-exclusive s t p q own run lives h lives' h' =
    Owns-injective (Careful-IsOwned own run p lives h) (Careful-IsOwned own run q lives' h')
