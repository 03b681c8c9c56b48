-- ===== src/Metrics/Service/Snapshots/Stored.antt =====
-- What `_upsert_snapshots` of app/metrics/service.py stores.
use adept_engine.Base.{
  ℕ, suc, ◌≡◌, refl, ap, sym, ◌∙◌, Bool, true, ◌&&◌, Option, none, some, List, [], ◌∷◌, Text, ◌==◌,
  same, arith, All, &&-true, same_iff, ==_iff, same_refl, inl, inr,
}
use adept_engine.Base.Among.{Among}
use adept_engine.Base.Upsert.{first, IsKey, first-upsert, merged, IsHeld, Gives, absorb_hits}
use adept_engine.Metrics.Service.Snapshots.{
  Snapshot, SnapshotRow, same_period, same_snapshot, update_snapshot, row_of, rows_from,
  upsert_snapshots,
}

-- The five columns of a key beside the repository agree.
abbrev pub Agree : Snapshot → Snapshot → Type 0
Agree a b =
    (a.metric_type ≡ b.metric_type)
    × (a.granularity ≡ b.granularity)
    × (a.period_start ≡ b.period_start)
    × (a.period_end ≡ b.period_end)
    × (a.calculation_version ≡ b.calculation_version)

pub same_period_sound : (a b : Snapshot) → same_period a b ≡ true → Agree a b
same_period_sound a b h =
    let (t, h1) = &&-true (same a.metric_type b.metric_type) _ h in
    let (g, h2) = &&-true (same a.granularity b.granularity) _ h1 in
    let (s, h3) = &&-true (a.period_start == b.period_start) _ h2 in
    let (e, v) =
      &&-true (a.period_end == b.period_end) (same a.calculation_version b.calculation_version)
        h3 in
    (
      (same_iff a.metric_type b.metric_type).0 t,
      (same_iff a.granularity b.granularity).0 g,
      (==_iff a.period_start b.period_start).0 s,
      (==_iff a.period_end b.period_end).0 e,
      (same_iff a.calculation_version b.calculation_version).0 v,
    )

abbrev period_test : Text → Text → ℕ → ℕ → Text → Snapshot → Bool
period_test t g s e v c =
    same t c.metric_type
    && (same g c.granularity
        && (s == c.period_start && (e == c.period_end && same v c.calculation_version)))

same_period_left : (a b c : Snapshot) → same_period a b ≡ true → same_period a c ≡ same_period b c
same_period_left a b c h =
    let (t, g, s, e, v) = same_period_sound a b h in
    ap (λ x. period_test x a.granularity a.period_start a.period_end a.calculation_version c) t
    ∙ ap (λ x. period_test b.metric_type x a.period_start a.period_end a.calculation_version c) g
    ∙ ap (λ x. period_test b.metric_type b.granularity x a.period_end a.calculation_version c) s
    ∙ ap (λ x. period_test b.metric_type b.granularity b.period_start x a.calculation_version c) e
    ∙ ap (λ x. period_test b.metric_type b.granularity b.period_start b.period_end x c) v

same_period_self : (a : Snapshot) → same_period a a ≡ true
same_period_self a =
    rw (same_refl a.metric_type, same_refl a.granularity, same_refl a.calculation_version)
      (ground arith)

same_period_flip : (a b : Snapshot) → same_period a b ≡ true → same_period b a ≡ true
same_period_flip a b h = sym (same_period_left a b a h) ∙ same_period_self a

pub snapshots_are_keys : IsKey same_snapshot update_snapshot
snapshots_are_keys = record {
  flip = λ a b h.
      let (r, p) =
        &&-true (a.repository_id == b.repository_id) (same_period a.snapshot b.snapshot) h in
      let q = same_period_flip a.snapshot b.snapshot p in
      let k : (b.repository_id == a.repository_id) ≡ true = ground arith in rw (k, q) refl;
  agree = λ a b c h.
      let (r, p) =
        &&-true (a.repository_id == b.repository_id) (same_period a.snapshot b.snapshot) h in
      let q = same_period_left a.snapshot b.snapshot c.snapshot p in
      let k : (a.repository_id == c.repository_id) ≡ (b.repository_id == c.repository_id) =
        ground arith in
      rw (k, q) refl;
  kept = λ x old e h. refl;
}

-- The columns beside those of the key.
abbrev pub HasValues : Snapshot → SnapshotRow → Type 0
HasValues x r =
    ((r.snapshot.value ≡ x.value) × (r.snapshot.unit ≡ x.unit))
    × ((r.snapshot.sample_size ≡ x.sample_size) × (r.snapshot.dimensions ≡ x.dimensions))

-- A snapshot of the batch with the same key has the same values.
abbrev pub IsConsistent : Snapshot → Snapshot → Type 0
IsConsistent x e = same_period x e ≡ true → x ≡ e

module _ (now : ℕ) (new_id : ℕ → ℕ) (workspace repository : ℕ) (x : Snapshot) where
  abbrev probe : SnapshotRow
  probe = row_of now new_id workspace repository 0 x

  from_merged :
      (i : ℕ) (s : Snapshot)
      → x ≡ s
      → (o : Option SnapshotRow)
      → HasValues x
          (merged same_snapshot update_snapshot o (row_of now new_id workspace repository i s))
  from_merged i s e none = rw e ((refl, refl), (refl, refl))
  from_merged i s e (some r) = rw e ((refl, refl), (refl, refl))

  rows_give :
      (i : ℕ) (ss : List Snapshot)
      → All (IsConsistent x) ss
      → All
          (Gives same_snapshot update_snapshot probe (HasValues x))
          (rows_from now new_id workspace repository i ss)
  rows_give i [] h = tt
  rows_give i (s ∷ ss) h = (
    λ k o. from_merged i s (h.0 (&&-true (repository == repository) (same_period x s) k).1) o,
    rows_give (suc i) ss h.1,
  )

  rows_hit :
      (i : ℕ) (ss : List Snapshot)
      → Among x ss
      → (e : SnapshotRow) × Among e (rows_from now new_id workspace repository i ss)
        × (same_snapshot probe e ≡ true)
  rows_hit i [] m = absurd m
  rows_hit i (s ∷ ss) (inl q) = (
    row_of now new_id workspace repository i s,
    inl refl,
    rw (ap (same_period x) q, same_period_self x) (ground arith),
  )
  rows_hit i (s ∷ ss) (inr m) = let (e, n, k) = rows_hit (suc i) ss m in (e, inr n, k)

  -- A snapshot of a batch stands in the table with its values, if no other of the batch with its key
  -- says something else.
  pub upsert_snapshots_stored :
      (ss : List Snapshot) (t : List SnapshotRow)
      → All (IsConsistent x) ss
      → Among x ss
      → IsHeld same_snapshot update_snapshot probe
          (HasValues x)
          (first (same_snapshot probe) (upsert_snapshots now new_id workspace repository ss t).1)
  unfolding upsert_snapshots
  upsert_snapshots_stored [] t h m = absurd m
  upsert_snapshots_stored (s ∷ ss) t h m =
      let rows = rows_from now new_id workspace repository 0 (s ∷ ss) in
      let (e, n, k) = rows_hit 0 (s ∷ ss) m in
      rw (first-upsert snapshots_are_keys probe rows t) (
        absorb_hits same_snapshot update_snapshot probe (HasValues x) rows
          (first (same_snapshot probe) t) e (rows_give 0 (s ∷ ss) h) n k)
