-- ===== src/Jobs/Advisory.antt =====
-- PostgreSQL's session advisory locks, as app/jobs/lease.py takes them by `pg_try_advisory_lock`
-- and `pg_try_advisory_lock_shared`: a session is never in its own way, and the locks of a session
-- go when it ends.
use adept_engine.Base.{
  ℕ, ◌≡◌, ◌≢◌, refl, Bool, true, false, ◌&&◌, ◌||◌, not, List, [], ◌∷◌, ◌==◌, arith, if◌then◌else◌,
  keep, inl, inr, Bool-cases,
}

pub record Lock : Type 0 where
  pub key : ℕ
  pub session : ℕ
  pub shared : Bool

-- Two locks that two sessions cannot have together.
abbrev pub conflict : Lock → Lock → Bool
conflict a b = a.key == b.key && (not (a.session == b.session) && not (a.shared && b.shared))

abbrev pub any_conflict : Lock → List Lock → Bool
any_conflict a [] = false
any_conflict a (b ∷ ls) = conflict a b || any_conflict a ls

-- The result of the function, and the locks that are held then.
unfoldable pub try_lock : Lock → List Lock → Bool × List Lock
try_lock a ls = if any_conflict a ls then (false, ls) else (true, a ∷ ls)

unfoldable pub end_session : ℕ → List Lock → List Lock
end_session s ls = keep (λ a. not (a.session == s)) ls

-- A lock of the session on the key, shared or not as asked, or one that is not shared.
abbrev pub holds : ℕ → ℕ → Bool → List Lock → Bool
holds s k sh [] = false
holds s k sh (a ∷ ls) = (a.session == s && (a.key == k && (sh || not a.shared))) || holds s k sh ls

-- No two locks conflict.
abbrev pub IsCompatible : List Lock → Type 0
IsCompatible [] = Unit
IsCompatible (a ∷ ls) = (any_conflict a ls ≡ false) × IsCompatible ls

pub try_lock-IsCompatible :
    (a : Lock) (ls : List Lock) → IsCompatible ls → IsCompatible (try_lock a ls).1
unfolding try_lock
try_lock-IsCompatible a ls h = elim (Bool-cases (any_conflict a ls)) [
  | inl e ↦ rw e h
  | inr e ↦ rw e (e, h)
]

any_conflict-keep :
    (p : Lock → Bool) (a : Lock) (ls : List Lock)
    → any_conflict a ls ≡ false
    → any_conflict a (keep p ls) ≡ false
any_conflict-keep p a [] h = refl
any_conflict-keep p a (b ∷ ls) h = ground (arith, any_conflict-keep p a ls)

keep-IsCompatible : (p : Lock → Bool) (ls : List Lock) → IsCompatible ls → IsCompatible (keep p ls)
keep-IsCompatible p [] h = tt
keep-IsCompatible p (a ∷ ls) h = elim (Bool-cases (p a)) [
  | inl e ↦ rw e (any_conflict-keep p a ls h.0, keep-IsCompatible p ls h.1)
  | inr e ↦ rw e (keep-IsCompatible p ls h.1)
]

pub end_session-IsCompatible :
    (s : ℕ) (ls : List Lock) → IsCompatible ls → IsCompatible (end_session s ls)
unfolding end_session
end_session-IsCompatible s ls h = keep-IsCompatible (λ a. not (a.session == s)) ls h

pub holds-try_lock :
    (a : Lock) (ls : List Lock)
    → (try_lock a ls).0 ≡ true
    → holds a.session a.key a.shared (try_lock a ls).1 ≡ true
unfolding try_lock
holds-try_lock a ls h = ground arith

-- Taking a lock loses none.
pub holds-try_lock_keeps :
    (a : Lock) (s k : ℕ) (sh : Bool) (ls : List Lock)
    → holds s k sh ls ≡ true
    → holds s k sh (try_lock a ls).1 ≡ true
unfolding try_lock
holds-try_lock_keeps a s k sh ls h = ground arith

-- Another session's end loses none.
pub holds-end_session :
    (s s' k : ℕ) (sh : Bool) (ls : List Lock)
    → s' ≢ s
    → holds s' k sh (end_session s ls) ≡ holds s' k sh ls
unfolding end_session
holds-end_session s s' k sh [] ne = refl
holds-end_session s s' k sh (a ∷ ls) ne = ground (arith, holds-end_session s s' k sh ls ne)

pub holds-shared :
    (s k : ℕ) (sh : Bool) (ls : List Lock) → holds s k sh ls ≡ true → holds s k true ls ≡ true
holds-shared s k sh [] h = absurd (ground arith)
holds-shared s k sh (a ∷ ls) h = ground (arith, holds-shared s k sh ls)

-- What stands in the way of a conflicting lock of another session.
conflict_with :
    (a : Lock) (s k : ℕ) (ls : List Lock)
    → any_conflict a ls ≡ false
    → holds s k true ls ≡ true
    → a.key ≡ k
    → a.shared ≡ false
    → a.session ≡ s
conflict_with a s k [] c h e x = absurd (ground arith)
conflict_with a s k (b ∷ ls) c h e x = ground (arith, conflict_with a s k ls)

conflict_with_shared :
    (a : Lock) (s k : ℕ) (ls : List Lock)
    → any_conflict a ls ≡ false
    → holds s k false ls ≡ true
    → a.key ≡ k
    → a.session ≡ s
conflict_with_shared a s k [] c h e = absurd (ground arith)
conflict_with_shared a s k (b ∷ ls) c h e = ground (arith, conflict_with_shared a s k ls)

-- Where a session has an exclusive lock, no other session has any lock on that key.
pub exclusive :
    (s s' k : ℕ) (ls : List Lock)
    → IsCompatible ls
    → holds s k false ls ≡ true
    → holds s' k true ls ≡ true
    → s ≡ s'
exclusive s s' k [] c h h' = absurd (ground arith)
exclusive s s' k (a ∷ ls) c h h' =
    ground (arith, conflict_with a s' k ls, conflict_with_shared a s k ls, exclusive s s' k ls c.1)
