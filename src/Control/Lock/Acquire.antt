-- ===== src/Control/Lock/Acquire.antt =====
-- middlesox/src/control.rs: `acquire_lock_in` where no other process comes between its system calls.
use middlesox.Prelude.{ℕ, String, Bool, true, false, Option, none, some, ok, ◌≡◌, ◌≢◌, ◌↔◌, refl}
use middlesox.Control.Lock.{LockFile, LockIo, acquire_lock_in, lock_result}

-- All four system calls succeed.
abbrev pub AllSucceed : LockIo → Type 0
AllSucceed io = (io.opens ≡ true) × (io.locks ≡ true) × (io.empties ≡ true) × (io.writes ≡ true)

taken_text :
    (path : String) (i : ℕ) (text : String) (o : Bool) (h : Option ℕ)
    → h ≢ none
    → (io : LockIo) (m : Option String) → m ≡ some text
    → (acquire_lock_in path i
        (record { opens = o; locks = io.locks; empties = io.empties; writes = io.writes })
        (record { text = m; holder = h })).file.text
      ≡ some text
unfolding acquire_lock_in
taken_text path i text o none held io m e = absurd (held refl)
taken_text path i text false (some j) held io m e = e
taken_text path i text true (some j) held io (some t) e = e
taken_text path i text true (some j) held io none e = cc

module _ (path : String) (i : ℕ) (text : Option String) where
  acquire_at :
      (o l e w : Bool) (h : Option ℕ)
      → let t =
          acquire_lock_in path i
            (record { opens = o; locks = l; empties = e; writes = w })
            (record { text = text; holder = h }) in
        ((lock_result t.outcome ≡ ok tt)
          ↔ ((h ≡ none) × ((o ≡ true) × (l ≡ true) × (e ≡ true) × (w ≡ true))))
        × (lock_result t.outcome ≢ ok tt → t.file.holder ≡ h)
  unfolding acquire_lock_in
  acquire_at false l e w h = ((λ k. cc, λ (n, (p, q, r, t)). cc), λ k. refl)
  acquire_at true l e w (some j) = ((λ k. cc, λ (n, (p, q, r, t)). cc), λ k. refl)
  acquire_at true false e w none = ((λ k. cc, λ (n, (p, q, r, t)). cc), λ k. refl)
  acquire_at true true false w none = ((λ k. cc, λ (n, (p, q, r, t)). cc), λ k. refl)
  acquire_at true true true false none = ((λ k. cc, λ (n, (p, q, r, t)). cc), λ k. refl)
  acquire_at true true true true none =
      ((λ k. (refl, (refl, refl, refl, refl)), λ k. refl), λ k. elim (k refl) [ ])

-- A process that finds the lock taken leaves the text of the file, since it does not truncate the file
-- before it has the lock.
pub acquire_lock_in-text :
    (path : String) (i : ℕ) (io : LockIo) (f : LockFile) (text : String)
    → f.holder ≢ none
    → f.text ≡ some text
    → (acquire_lock_in path i io f).file.text ≡ some text
acquire_lock_in-text path i io f text held e =
    taken_text path i text io.opens f.holder held io f.text e

-- A process takes the lock exactly when no other has it and its system calls succeed; one that does not
-- leaves the lock with whom it was.
pub acquire_lem :
    (path : String) (i : ℕ) (io : LockIo) (f : LockFile)
    → ((lock_result (acquire_lock_in path i io f).outcome ≡ ok tt)
        ↔ ((f.holder ≡ none) × AllSucceed io))
      × (lock_result (acquire_lock_in path i io f).outcome ≢ ok tt
          → (acquire_lock_in path i io f).file.holder ≡ f.holder)
acquire_lem path i io f = acquire_at path i f.text io.opens io.locks io.empties io.writes f.holder
