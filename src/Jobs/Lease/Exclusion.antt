-- ===== src/Jobs/Lease/Exclusion.antt =====
-- Leases that run at the same time (app/jobs/lease.py): any number of sessions, whose steps come
-- in any order.
use adept_engine.Base.{
  ℕ, ◌≡◌, ◌≢◌, sym, ◌∙◌, Bool, true, false, not, Option, none, some, List, [], ◌∷◌, Text, ◌==◌,
  ==_iff, arith, if◌then◌else◌, keep, All, is_some, inl, inr, Bool-cases, subst, some_inj,
}
use adept_engine.Values.Json.{Fields}
use adept_engine.Jobs.Row.{Row, ClaimedJob}
use adept_engine.Jobs.Table.{Table}
use adept_engine.Jobs.Errors.{JobError, Result, ok, err}
use adept_engine.Jobs.Advisory.{
  Lock, end_session, holds, IsCompatible, end_session-IsCompatible, holds-end_session, holds-shared,
  exclusive,
}
use adept_engine.Jobs.Lease.Locks.{
  Live, HoldsIf, IsCovered, Keeps, IsCovered-Keeps, enter_lease-IsCompatible, enter_lease-Keeps,
  entered-IsCovered,
}
use adept_engine.Jobs.Lease.{
  Catalog, leased_row, scope_of, job_key, workspace_key, repository_key, enter_lease,
}

pub record World : Type 0 where
  pub locks : List Lock
  pub live : List Live

abbrev pub find_live : ℕ → List Live → Option Live
find_live s [] = none
find_live s (a ∷ rest) = if a.session == s then some a else find_live s rest

abbrev pub without : ℕ → List Live → List Live
without s = keep (λ a. not (a.session == s))

module _ (hash : Text → ℕ) where
  -- A guard thread opens a new connection and enters a lease, or fails to; or one ends.
  pub data Step (w : World) : World → Type 0 where
    entered :
        (s : ℕ) (catalog : Catalog) (job : ClaimedJob Fields) (worker_id : Text) (t : Table Fields)
        (r : Row Fields) (ls : List Lock)
        → find_live s w.live ≡ none
        → leased_row job worker_id t ≡ some r
        → enter_lease hash s catalog job worker_id t w.locks ≡ (ok tt, ls)
        → Step w (record {
          locks = ls;
          live = (record { session = s; job_id = job.id; scope = scope_of catalog job r }) ∷ w.live;
        })
    refused :
        (s : ℕ) (catalog : Catalog) (job : ClaimedJob Fields) (worker_id : Text) (t : Table Fields)
        (e : JobError) (ls : List Lock)
        → find_live s w.live ≡ none
        → enter_lease hash s catalog job worker_id t w.locks ≡ (err e, ls)
        → Step w (record { locks = ls; live = w.live })
    left : (s : ℕ) → Step w (record { locks = end_session s w.locks; live = without s w.live })

  pub data Reach : World → Type 0 where
    start : Reach (record { locks = []; live = [] })
    next : {w v : World} → Reach w → Step w v → Reach v

  -- No two sessions have conflicting locks, and every running lease has its locks.
  pub record IsSafe (w : World) : Type 0 where
    pub compatible : IsCompatible w.locks
    pub covered : All (IsCovered hash w.locks) w.live

  others :
      (s : ℕ) (ls ls' : List Lock)
      → ((s' : ℕ) → s' ≢ s → Keeps hash s' ls ls')
      → (live : List Live) → find_live s live ≡ none
      → All (IsCovered hash ls) live
      → All (IsCovered hash ls') live
  others s ls ls' keeps [] fresh h = tt
  others s ls ls' keeps (a ∷ live) fresh h = (
    IsCovered-Keeps hash ls ls' a (keeps a.session (ground arith)) h.0,
    others s ls ls' keeps live (ground arith) h.1,
  )

  staying :
      (s : ℕ) (ls : List Lock) (live : List Live)
      → All (IsCovered hash ls) live
      → All (IsCovered hash (end_session s ls)) (without s live)
  staying s ls [] h = tt
  staying s ls (a ∷ live) h = elim (Bool-cases (a.session == s)) [
    | inl e ↦ rw e (staying s ls live h.1)
    | inr e ↦ rw e (
      IsCovered-Keeps hash ls (end_session s ls) a
          (λ k sh p. rw (holds-end_session s a.session k sh ls (ground arith)) p) h.0,
      staying s ls live h.1,
    )
  ]

  module _ (s : ℕ) (catalog : Catalog) (job : ClaimedJob Fields) (worker : Text) (t : Table Fields)
      (w : World) (ls : List Lock) (result : Result (Unit {0})) where
    after-IsCompatible :
        IsSafe w → enter_lease hash s catalog job worker t w.locks ≡ (result, ls) → IsCompatible ls
    after-IsCompatible h ran =
        subst (λ (z : Result (Unit {0}) × List Lock). IsCompatible z.1) ran
          (enter_lease-IsCompatible hash s catalog job worker t w.locks h.compatible)

    after-IsCovered :
        find_live s w.live ≡ none
        → IsSafe w
        → enter_lease hash s catalog job worker t w.locks ≡ (result, ls)
        → All (IsCovered hash ls) w.live
    after-IsCovered fresh h ran =
        others s w.locks ls
          (λ s' ne k sh p.
            subst (λ (z : Result (Unit {0}) × List Lock). holds s' k sh z.1 ≡ true) ran
              (enter_lease-Keeps hash s catalog job worker t w.locks s' ne k sh p))
          w.live fresh h.covered

  Step-IsSafe : {w v : World} → Step w v → IsSafe w → IsSafe v
  Step-IsSafe {w} (entered s catalog job worker t r ls fresh found ran) h = record {
    compatible = after-IsCompatible s catalog job worker t w ls (ok tt) h ran;
    covered = (
      entered-IsCovered hash s catalog job worker t r w.locks ls found ran,
      after-IsCovered s catalog job worker t w ls (ok tt) fresh h ran,
    );
  }
  Step-IsSafe {w} (refused s catalog job worker t e ls fresh ran) h = record {
    compatible = after-IsCompatible s catalog job worker t w ls (err e) h ran;
    covered = after-IsCovered s catalog job worker t w ls (err e) fresh h ran;
  }
  Step-IsSafe {w} (left s) h = record {
    compatible = end_session-IsCompatible s w.locks h.compatible;
    covered = staying s w.locks w.live h.covered;
  }

  pub Reach-IsSafe : {w : World} → Reach w → IsSafe w
  Reach-IsSafe start = record { compatible = tt; covered = tt }
  Reach-IsSafe (next r st) = Step-IsSafe st (Reach-IsSafe r)

  IsCovered-at :
      (ls : List Lock) (s : ℕ) (live : List Live) (a : Live)
      → All (IsCovered hash ls) live
      → find_live s live ≡ some a
      → (a.session ≡ s) × IsCovered hash ls a
  IsCovered-at ls s [] a h e = absurd (ground arith)
  IsCovered-at ls s (x ∷ live) a h e = elim (Bool-cases (x.session == s)) [
    | inl p ↦
        subst (λ (z : Live). (z.session ≡ s) × IsCovered hash ls z) (some_inj (rw p at e))
          ((==_iff x.session s).0 p, h.0)
    | inr p ↦ IsCovered-at ls s live a h.1 (rw p at e)
  ]

  holds_at :
      (s : ℕ) (o : Option ℕ) (key : ℕ → Text) (sh : Bool) (ls : List Lock) (i : ℕ)
      → HoldsIf hash s o key sh ls
      → o ≡ some i
      → holds s (hash (key i)) sh ls ≡ true
  holds_at s none key sh ls i h e = absurd (ground arith)
  holds_at s (some j) key sh ls i h e =
      subst (λ k. holds s (hash (key k)) sh ls ≡ true) (some_inj e) h

  module _ (w : World) (reached : Reach w) (s s' : ℕ) (a b : Live)
      (running : find_live s w.live ≡ some a) (also_running : find_live s' w.live ≡ some b) where
    safe : IsSafe w
    safe = Reach-IsSafe reached

    of_a : (a.session ≡ s) × IsCovered hash w.locks a
    of_a = IsCovered-at w.locks s w.live a safe.covered running

    of_b : (b.session ≡ s') × IsCovered hash w.locks b
    of_b = IsCovered-at w.locks s' w.live b safe.covered also_running

    one_session :
        (k : ℕ) (sh : Bool)
        → holds a.session k false w.locks ≡ true
        → holds b.session k sh w.locks ≡ true
        → s ≡ s'
    one_session k sh h h' =
        sym (of_a.0)
        ∙ exclusive a.session b.session k w.locks safe.compatible h
            (holds-shared b.session k sh w.locks h')
        ∙ of_b.0

    -- In every state that leases reach, two running leases on one job are one lease.
    pub lease_job_exclusive : a.job_id ≡ b.job_id → s ≡ s'
    lease_job_exclusive same_job = one_session (hash (job_key a.job_id)) false (of_a.1.0) (
        subst (λ i. holds b.session (hash (job_key i)) false w.locks ≡ true) (sym same_job)
          (of_b.1.0))

    -- In every state that leases reach, two running leases on one repository are one lease.
    pub lease_repository_exclusive :
        (i : ℕ) → a.scope.repository ≡ some i → b.scope.repository ≡ some i → s ≡ s'
    lease_repository_exclusive i ra rb =
        one_session (hash (repository_key i)) false
          (holds_at a.session a.scope.repository repository_key false w.locks i (of_a.1.2) ra)
          (holds_at b.session b.scope.repository repository_key false w.locks i (of_b.1.2) rb)

    -- In every state that leases reach, a running lease on a workspace and on no repository of it
    -- excludes every other lease in that workspace, with a repository or without.
    pub lease_workspace_exclusive :
        (i : ℕ)
        → a.scope.workspace ≡ some i
        → a.scope.repository ≡ none
        → b.scope.workspace ≡ some i
        → s ≡ s'
    lease_workspace_exclusive i wa ra wb =
        one_session (hash (workspace_key i)) (is_some b.scope.repository)
          (subst (λ o. holds a.session (hash (workspace_key i)) (is_some o) w.locks ≡ true) ra
            (holds_at a.session a.scope.workspace workspace_key (is_some a.scope.repository) w.locks
              i (of_a.1.1) wa))
          (holds_at b.session b.scope.workspace workspace_key (is_some b.scope.repository) w.locks i
            (of_b.1.1) wb)
