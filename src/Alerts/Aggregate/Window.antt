-- ===== src/Alerts/Aggregate/Window.antt =====
-- Which observations `aggregate_dora_metric` of app/jobs/handlers/evaluate_alerts.py counts.
use adept_engine.Base.{
  ℕ, suc, ◌≡◌, refl, ap, sym, ◌∙◌, Bool, true, false, ◌&&◌, ◌||◌, Option, none, some, List, [], ◌∷◌,
  ◌++◌, Text, ltb, leb, if◌then◌else◌, same, is_some, arith, All, All-append, Bool-cases, inl, inr,
  same_iff,
}
use adept_engine.Base.Among.{true≢false_of}
use adept_engine.Metrics.Snapshot.{or_option}
use adept_engine.Alerts.Aggregate.{
  RawObservation, other, observation, RawSnapshot, Observations, has_key, setdefault, key_of,
  observe, observe_list, observe_snapshot, observe_all,
}

-- The value of a key.
abbrev pub lookup : Text → Observations → Option ℕ
lookup key [] = none
lookup key ((k, v) ∷ os) = let rest = lookup key os in if same k key then some v else rest

-- No key stands twice.
abbrev pub IsDistinct : Observations → Type 0
IsDistinct [] = Unit
IsDistinct ((k, v) ∷ os) = All (λ o. same k o.0 ≡ false) os × IsDistinct os

module _ (window_start window_end : ℕ) where
  -- The observation, if it is well formed and lies in the window.
  abbrev pub valid : ℕ → ℕ → RawObservation → Observations
  valid snapshot index other = []
  valid snapshot index (observation none value key) = []
  valid snapshot index (observation (some at) none key) = []
  valid snapshot index (observation (some at) (some value) key) =
      if leb window_start at && ltb at window_end
      then (key_of key snapshot index, value) ∷ []
      else []

  abbrev pub valid_list : ℕ → ℕ → List RawObservation → Observations
  valid_list snapshot index [] = []
  valid_list snapshot index (r ∷ rs) = valid snapshot index r ++ valid_list snapshot (suc index) rs

  abbrev pub valid_snapshot : ℕ → Option (List RawObservation) → Observations
  valid_snapshot snapshot none = []
  valid_snapshot snapshot (some rs) = valid_list snapshot 0 rs

  -- All of them, in the order of the snapshots.
  abbrev pub valid_all : List RawSnapshot → Observations
  valid_all [] = []
  valid_all (s ∷ ss) = valid_snapshot s.id s.observations ++ valid_all ss

lookup-append :
    (key : Text) (os ps : Observations)
    → lookup key (os ++ ps) ≡ or_option (lookup key os) (lookup key ps)
lookup-append key [] ps = refl
lookup-append key ((k, v) ∷ os) ps = elim (Bool-cases (same k key)) [
  | inl e ↦ rw e refl
  | inr e ↦ rw e (lookup-append key os ps)
]

||-false : (a b : Bool) → (a || b) ≡ false → (a ≡ false) × (b ≡ false)
||-false true b h = absurd (ground arith)
||-false false b h = (refl, h)

lookup-has_key :
    (key k : Text) (os : Observations)
    → has_key k os ≡ true
    → same k key ≡ true
    → is_some (lookup key os) ≡ true
unfolding has_key
lookup-has_key key k [] h s = absurd (ground arith)
lookup-has_key key k ((k', v) ∷ os) h s = elim (Bool-cases (same k' key)) [
  | inl e ↦ rw e refl
  | inr e ↦ rw e (elim (Bool-cases (same k' k)) [
    | inl t ↦ absurd (true≢false_of s (sym (ap (λ x. same x key) ((same_iff k' k).0 t)) ∙ e))
    | inr t ↦ lookup-has_key key k os (rw t at h) s
  ])
]

or_option_assoc : (a b c : Option ℕ) → or_option (or_option a b) c ≡ or_option a (or_option b c)
or_option_assoc none b c = refl
or_option_assoc (some a) b c = refl

or_option_some : (a b : Option ℕ) → is_some a ≡ true → a ≡ or_option a b
or_option_some none b h = absurd (ground arith)
or_option_some (some a) b h = refl

or_option-none : (a : Option ℕ) → a ≡ or_option a none
or_option-none none = refl
or_option-none (some a) = refl

lookup-setdefault :
    (key k : Text) (v : ℕ) (os : Observations)
    → lookup key (setdefault k v os) ≡ or_option (lookup key os) (lookup key ((k, v) ∷ []))
unfolding setdefault
lookup-setdefault key k v os = elim (Bool-cases (has_key k os)) [
  | inr e ↦ rw e (lookup-append key os ((k, v) ∷ []))
  | inl e ↦ rw e (elim (Bool-cases (same k key)) [
    | inl s ↦ rw s (or_option_some (lookup key os) (some v) (lookup-has_key key k os e s))
    | inr s ↦ rw s (or_option-none (lookup key os))
  ])
]

snoc-IsDistinct :
    (k : Text) (v : ℕ) (os : Observations)
    → IsDistinct os
    → has_key k os ≡ false
    → IsDistinct (os ++ (k, v) ∷ [])
unfolding has_key
snoc-IsDistinct k v [] h e = (tt, tt)
snoc-IsDistinct k v ((k', v') ∷ os) h e =
    let (head, rest) = ||-false (same k' k) (has_key k os) e in
    (
      All-append (λ o. same k' o.0 ≡ false) os ((k, v) ∷ []) h.0 (head, tt),
      snoc-IsDistinct k v os h.1 rest,
    )

setdefault-IsDistinct :
    (k : Text) (v : ℕ) (os : Observations) → IsDistinct os → IsDistinct (setdefault k v os)
unfolding setdefault
setdefault-IsDistinct k v os h = elim (Bool-cases (has_key k os)) [
  | inl e ↦ rw e h
  | inr e ↦ rw e (snoc-IsDistinct k v os h e)
]

module _ (window_start window_end : ℕ) where
  observe-IsDistinct :
      (snapshot index : ℕ) (r : RawObservation) (os : Observations)
      → IsDistinct os
      → IsDistinct (observe window_start window_end snapshot index r os)
  unfolding observe
  observe-IsDistinct snapshot index other os h = h
  observe-IsDistinct snapshot index (observation none value key) os h = h
  observe-IsDistinct snapshot index (observation (some at) none key) os h = h
  observe-IsDistinct snapshot index (observation (some at) (some value) key) os h =
      elim (Bool-cases (leb window_start at && ltb at window_end)) [
        | inl e ↦ rw e (setdefault-IsDistinct (key_of key snapshot index) value os h)
        | inr e ↦ rw e h
      ]

  lookup-observe :
      (key : Text) (snapshot index : ℕ) (r : RawObservation) (os : Observations)
      → lookup key (observe window_start window_end snapshot index r os)
        ≡ or_option (lookup key os) (lookup key (valid window_start window_end snapshot index r))
  unfolding observe
  lookup-observe key snapshot index other os = or_option-none (lookup key os)
  lookup-observe key snapshot index (observation none value k) os = or_option-none (lookup key os)
  lookup-observe key snapshot index (observation (some at) none k) os =
      or_option-none (lookup key os)
  lookup-observe key snapshot index (observation (some at) (some value) k) os =
      elim (Bool-cases (leb window_start at && ltb at window_end)) [
        | inl e ↦ rw e (lookup-setdefault key (key_of k snapshot index) value os)
        | inr e ↦ rw e (or_option-none (lookup key os))
      ]

  observe_list-IsDistinct :
      (snapshot index : ℕ) (rs : List RawObservation) (os : Observations)
      → IsDistinct os
      → IsDistinct (observe_list window_start window_end snapshot index rs os)
  unfolding observe_list
  observe_list-IsDistinct snapshot index [] os h = h
  observe_list-IsDistinct snapshot index (r ∷ rs) os h =
      observe_list-IsDistinct snapshot (suc index) rs _ (observe-IsDistinct snapshot index r os h)

  lookup-observe_list :
      (key : Text) (snapshot index : ℕ) (rs : List RawObservation) (os : Observations)
      → lookup key (observe_list window_start window_end snapshot index rs os)
        ≡ or_option
            (lookup key os)
            (lookup key (valid_list window_start window_end snapshot index rs))
  unfolding observe_list
  lookup-observe_list key snapshot index [] os = or_option-none (lookup key os)
  lookup-observe_list key snapshot index (r ∷ rs) os =
      let here = valid window_start window_end snapshot index r in
      let rest = valid_list window_start window_end snapshot (suc index) rs in
      lookup-observe_list key snapshot (suc index) rs
        (observe window_start window_end snapshot index r os)
      ∙ ap (λ o. or_option o (lookup key rest)) (lookup-observe key snapshot index r os)
      ∙ or_option_assoc (lookup key os) (lookup key here) (lookup key rest)
      ∙ ap (or_option (lookup key os)) (sym (lookup-append key here rest))

  observe_snapshot-IsDistinct :
      (snapshot : ℕ) (rs : Option (List RawObservation)) (os : Observations)
      → IsDistinct os
      → IsDistinct (observe_snapshot window_start window_end snapshot rs os)
  observe_snapshot-IsDistinct snapshot none os h = h
  observe_snapshot-IsDistinct snapshot (some rs) os h = observe_list-IsDistinct snapshot 0 rs os h

  lookup-observe_snapshot :
      (key : Text) (snapshot : ℕ) (rs : Option (List RawObservation)) (os : Observations)
      → lookup key (observe_snapshot window_start window_end snapshot rs os)
        ≡ or_option
            (lookup key os)
            (lookup key (valid_snapshot window_start window_end snapshot rs))
  lookup-observe_snapshot key snapshot none os = or_option-none (lookup key os)
  lookup-observe_snapshot key snapshot (some rs) os = lookup-observe_list key snapshot 0 rs os

  all-IsDistinct :
      (ss : List RawSnapshot) (os : Observations)
      → IsDistinct os
      → IsDistinct (observe_all window_start window_end ss os)
  unfolding observe_all
  all-IsDistinct [] os h = h
  all-IsDistinct (s ∷ ss) os h =
      all-IsDistinct ss _ (observe_snapshot-IsDistinct s.id s.observations os h)

  lookup-all :
      (key : Text) (ss : List RawSnapshot) (os : Observations)
      → lookup key (observe_all window_start window_end ss os)
        ≡ or_option (lookup key os) (lookup key (valid_all window_start window_end ss))
  unfolding observe_all
  lookup-all key [] os = or_option-none (lookup key os)
  lookup-all key (s ∷ ss) os =
      let here = valid_snapshot window_start window_end s.id s.observations in
      let rest = valid_all window_start window_end ss in
      lookup-all key ss (observe_snapshot window_start window_end s.id s.observations os)
      ∙ ap (λ o. or_option o (lookup key rest)) (lookup-observe_snapshot key s.id s.observations os)
      ∙ or_option_assoc (lookup key os) (lookup key here) (lookup key rest)
      ∙ ap (or_option (lookup key os)) (sym (lookup-append key here rest))

  -- However often the snapshots of a window repeat an observation, each of its well-formed
  -- observations in the window counts once, with the value that its key has first; nothing else
  -- counts.
  pub observe_all_once :
      (ss : List RawSnapshot) (key : Text)
      → IsDistinct (observe_all window_start window_end ss [])
        × (lookup key (observe_all window_start window_end ss [])
            ≡ lookup key (valid_all window_start window_end ss))
  observe_all_once ss key = (all-IsDistinct ss [] tt, lookup-all key ss [])
