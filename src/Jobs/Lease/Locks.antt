-- ===== src/Jobs/Lease/Locks.antt =====
-- The lock calls of app/jobs/lease.py one by one.
use adept_engine.Base.{
  ℕ, ◌≡◌, ◌≢◌, refl, Bool, true, false, Option, none, some, List, Text, arith, is_some, subst,
}
use adept_engine.Values.Json.{Fields}
use adept_engine.Jobs.Row.{Row, ClaimedJob}
use adept_engine.Jobs.Table.{Table}
use adept_engine.Jobs.Errors.{Result, ok, err}
use adept_engine.Jobs.Advisory.{
  Lock, holds, IsCompatible, try_lock-IsCompatible, end_session-IsCompatible, holds-try_lock,
  holds-try_lock_keeps, holds-end_session,
}
use adept_engine.Jobs.Lease.{
  Catalog, Scope, leased_row, scope_of, job_key, workspace_key, repository_key, lock, then_lock,
  lock_if, lock_scope, lock_row, acquire, or_close, enter_lease,
}

-- A lease that has been entered and not left.
pub record Live : Type 0 where
  pub session : ℕ
  pub job_id : ℕ
  pub scope : Scope

module _ (hash : Text → ℕ) where
  abbrev pub HoldsIf : ℕ → Option ℕ → (ℕ → Text) → Bool → List Lock → Type 0
  HoldsIf s none key sh ls = Unit
  HoldsIf s (some i) key sh ls = holds s (hash (key i)) sh ls ≡ true

  -- The session has the locks of its lease.
  abbrev pub IsCovered : List Lock → Live → Type 0
  IsCovered ls a =
      (holds a.session (hash (job_key a.job_id)) false ls ≡ true)
      × HoldsIf a.session a.scope.workspace workspace_key (is_some a.scope.repository) ls
      × HoldsIf a.session a.scope.repository repository_key false ls

  -- Locks that lose nothing of session `s`.
  abbrev pub Keeps : ℕ → List Lock → List Lock → Type 0
  Keeps s ls ls' = (k : ℕ) (sh : Bool) → holds s k sh ls ≡ true → holds s k sh ls' ≡ true

  HoldsIf-Keeps :
      (s : ℕ) (o : Option ℕ) (key : ℕ → Text) (sh : Bool) (ls ls' : List Lock)
      → Keeps s ls ls'
      → HoldsIf s o key sh ls
      → HoldsIf s o key sh ls'
  HoldsIf-Keeps s none key sh ls ls' keeps h = tt
  HoldsIf-Keeps s (some i) key sh ls ls' keeps h = keeps (hash (key i)) sh h

  pub IsCovered-Keeps :
      (ls ls' : List Lock) (a : Live) → Keeps a.session ls ls' → IsCovered ls a → IsCovered ls' a
  IsCovered-Keeps ls ls' a keeps (j, w, r) = (
    keeps (hash (job_key a.job_id)) false j,
    HoldsIf-Keeps a.session a.scope.workspace workspace_key (is_some a.scope.repository) ls ls'
        keeps w,
    HoldsIf-Keeps a.session a.scope.repository repository_key false ls ls' keeps r,
  )

  module _ (s : ℕ) where
    -- What a chain of lock calls does to the locks, whether it raises or not.
    abbrev Grows : List Lock → Result (Unit {0}) × List Lock → Type 0
    Grows ls (r, ls') = (IsCompatible ls → IsCompatible ls') × ((s' : ℕ) → Keeps s' ls ls')

    lock-Grows : (key : Text) (sh : Bool) (ls : List Lock) → Grows ls (lock hash s key sh ls)
    unfolding lock
    lock-Grows key sh ls =
        let a : Lock = record { key = hash key; session = s; shared = sh } in
        (try_lock-IsCompatible a ls, λ s' k sh' h. holds-try_lock_keeps a s' k sh' ls h)

    then_lock-Grows :
        (ls : List Lock) (x : Result (Unit {0}) × List Lock)
        (rest : List Lock → Result (Unit {0}) × List Lock)
        → Grows ls x
        → ((ls' : List Lock) → Grows ls' (rest ls'))
        → Grows ls (then_lock hash s x rest)
    then_lock-Grows ls (ok u, ls') rest g h =
        (λ c. (h ls').0 (g.0 c), λ s' k sh p. (h ls').1 s' k sh (g.1 s' k sh p))
    then_lock-Grows ls (err e, ls') rest g h = g

    lock_if-Grows :
        (o : Option ℕ) (key : ℕ → Text) (sh : Bool) (ls : List Lock)
        → Grows ls (lock_if hash s o key sh ls)
    lock_if-Grows none key sh ls = ((λ c. c), λ s' k sh' h. h)
    lock_if-Grows (some i) key sh ls = lock-Grows (key i) sh ls

    lock_scope-Grows : (x : Scope) (ls : List Lock) → Grows ls (lock_scope hash s x ls)
    lock_scope-Grows x ls =
        then_lock-Grows ls (lock_if hash s x.workspace workspace_key (is_some x.repository) ls)
          (lock_if hash s x.repository repository_key false)
          (lock_if-Grows x.workspace workspace_key (is_some x.repository) ls)
          (lock_if-Grows x.repository repository_key false)

    lock_row-Grows :
        (catalog : Catalog) (job : ClaimedJob Fields) (o : Option (Row Fields)) (ls : List Lock)
        → Grows ls (lock_row hash s catalog job o ls)
    lock_row-Grows catalog job none ls = ((λ c. c), λ s' k sh h. h)
    lock_row-Grows catalog job (some r) ls = lock_scope-Grows (scope_of catalog job r) ls

    module _ (catalog : Catalog) (job : ClaimedJob Fields) (w : Text) (t : Table Fields)
        (ls : List Lock) where
      acquire-Grows : Grows ls (acquire hash s catalog job w t ls)
      unfolding acquire
      acquire-Grows =
          then_lock-Grows ls (lock hash s (job_key job.id) false ls)
            (lock_row hash s catalog job (leased_row job w t))
            (lock-Grows (job_key job.id) false ls) (lock_row-Grows catalog job (leased_row job w t))

      pub enter_lease-IsCompatible :
          IsCompatible ls → IsCompatible (enter_lease hash s catalog job w t ls).1
      unfolding enter_lease
      enter_lease-IsCompatible c =
          close_compatible (acquire hash s catalog job w t ls) (acquire-Grows.0 c)
        where
          close_compatible :
              (x : Result (Unit {0}) × List Lock)
              → IsCompatible x.1
              → IsCompatible (or_close hash s x).1
          close_compatible (ok u, ls') c' = c'
          close_compatible (err e, ls') c' = end_session-IsCompatible s ls' c'

      pub enter_lease-Keeps :
          (s' : ℕ) → s' ≢ s → Keeps s' ls (enter_lease hash s catalog job w t ls).1
      unfolding enter_lease
      enter_lease-Keeps s' ne k sh h =
          close_keeps (acquire hash s catalog job w t ls) (acquire-Grows.1 s' k sh h)
        where
          close_keeps :
              (x : Result (Unit {0}) × List Lock)
              → holds s' k sh x.1 ≡ true
              → holds s' k sh (or_close hash s x).1 ≡ true
          close_keeps (ok u, ls') h' = h'
          close_keeps (err e, ls') h' = rw (holds-end_session s s' k sh ls' ne) h'

    lock-holds :
        (key : Text) (sh : Bool) (ls ls' : List Lock)
        → lock hash s key sh ls ≡ (ok tt, ls')
        → holds s (hash key) sh ls' ≡ true
    unfolding lock
    lock-holds key sh ls ls' h =
        let a : Lock = record { key = hash key; session = s; shared = sh } in
        ground (arith, holds-try_lock a ls)

    lock_if-HoldsIf :
        (o : Option ℕ) (key : ℕ → Text) (sh : Bool) (ls ls' : List Lock)
        → lock_if hash s o key sh ls ≡ (ok tt, ls')
        → HoldsIf s o key sh ls'
    lock_if-HoldsIf none key sh ls ls' h = tt
    lock_if-HoldsIf (some i) key sh ls ls' h = lock-holds (key i) sh ls ls' h

    then_lock_ok :
        (x : Result (Unit {0}) × List Lock) (rest : List Lock → Result (Unit {0}) × List Lock)
        (ls' : List Lock)
        → then_lock hash s x rest ≡ (ok tt, ls')
        → (x ≡ (ok tt, x.1)) × (rest x.1 ≡ (ok tt, ls'))
    then_lock_ok (ok u, ls) rest ls' h = (refl, h)
    then_lock_ok (err e, ls) rest ls' h = absurd (ground arith)

    lock_scope-HoldsIf :
        (x : Scope) (ls ls' : List Lock)
        → lock_scope hash s x ls ≡ (ok tt, ls')
        → HoldsIf s x.workspace workspace_key (is_some x.repository) ls'
          × HoldsIf s x.repository repository_key false ls'
    lock_scope-HoldsIf x ls ls' h =
        let first = lock_if hash s x.workspace workspace_key (is_some x.repository) ls in
        let second = lock_if hash s x.repository repository_key false in
        let both = then_lock_ok first second ls' h in
        let grown = lock_if-Grows x.repository repository_key false first.1 in
        (
          HoldsIf-Keeps s x.workspace workspace_key (is_some x.repository) first.1 ls'
              (λ k sh p.
                subst (λ (z : Result (Unit {0}) × List Lock). holds s k sh z.1 ≡ true) both.1
                  (grown.1 s k sh p))
              (lock_if-HoldsIf x.workspace workspace_key (is_some x.repository) ls first.1 both.0),
          lock_if-HoldsIf x.repository repository_key false first.1 ls' both.1,
        )

    -- A lease that could be entered has its locks.
    pub entered-IsCovered :
        (catalog : Catalog) (job : ClaimedJob Fields) (w : Text) (t : Table Fields) (r : Row Fields)
        (ls ls' : List Lock)
        → leased_row job w t ≡ some r
        → enter_lease hash s catalog job w t ls ≡ (ok tt, ls')
        → IsCovered ls' (record { session = s; job_id = job.id; scope = scope_of catalog job r })
    unfolding enter_lease
    entered-IsCovered catalog job w t r ls ls' found h =
        let first = lock hash s (job_key job.id) false ls in
        let rest = lock_row hash s catalog job (leased_row job w t) in
        let both = then_lock_ok first rest ls' (not_closed (then_lock hash s first rest) h) in
        let grown = lock_row-Grows catalog job (leased_row job w t) first.1 in
        let here = lock-holds (job_key job.id) false ls first.1 both.0 in
        let scoped =
          subst (λ (o : Option (Row Fields)). lock_row hash s catalog job o first.1 ≡ (ok tt, ls'))
            found both.1 in
        let scope_locks = lock_scope-HoldsIf (scope_of catalog job r) first.1 ls' scoped in
        (
          subst
              (λ (z : Result (Unit {0}) × List Lock).
                holds s (hash (job_key job.id)) false z.1 ≡ true)
              both.1 (grown.1 s (hash (job_key job.id)) false here),
          scope_locks.0,
          scope_locks.1,
        )
      where
        not_closed :
            (x : Result (Unit {0}) × List Lock)
            → or_close hash s x ≡ (ok tt, ls')
            → x ≡ (ok tt, ls')
        not_closed (ok u, ls'') e = e
        not_closed (err x, ls'') e = absurd (ground arith)
