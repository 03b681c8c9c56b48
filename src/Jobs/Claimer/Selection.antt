-- ===== src/Jobs/Claimer/Selection.antt =====
-- Which rows CLAIM_SQL takes (app/jobs/claimer.py).
use adept_engine.Base.{
  ℕ, ◌≡◌, refl, ap, Bool, true, false, ◌&&◌, some, [], ◌∷◌, Text, arith, All, All-imp, All-both,
  All-take, All-drop, count_if, keep, drop, length, min, length-take, length-map, length-append,
  is_some, inl, inr, Bool-cases, Option-cases, subst, some_inj, ◌∙◌, sym, take-append-drop,
}
use adept_engine.Base.Sorting.{sort_by, All-sort_by, sort_by-IsSorted, take-le-drop, length-sort_by}
use adept_engine.Jobs.Row.{Row}
use adept_engine.Jobs.Table.{
  Table, find, find-id, All-find, UniqueIds, find-update_where, apply_if, update_where-UniqueIds,
  All-update_where_each,
}
use adept_engine.Jobs.Invariant.{IsValid, AllValid}
use adept_engine.Jobs.Table.Select.{
  IsIn, All-IsIn, keep-UniqueIds, length-keep, take-UniqueIds, find-append, find-sort_by, find-keep,
  length-pos_of_find, sort_by-UniqueIds, picked, count_if-picked,
}
use adept_engine.Base.Among.{All-keep, All-keep_test}
use adept_engine.Jobs.Claimer.{Locks, is_due, row_le, chosen, is_chosen, set_running, claim}
use adept_engine.Jobs.Claimer.Order.{row_le-IsTotal}

set_running-IsValid :
    {J : Type 0} (r : Row J)
    → IsValid r
    → (now : ℕ) (w : Text) → is_due now r ≡ true
    → IsValid (set_running now w r)
set_running-IsValid r v now w due = ground arith

module _ {J : Type 0} (l : Locks) (now : ℕ) (limit : ℕ) (t : Table J) (u : UniqueIds t) where
  -- Ready, and not locked by another transaction.
  abbrev open_to_claim : Row J → Bool
  open_to_claim r = is_due now r && l.claim_free r.id

  abbrev ready : Table J
  ready = sort_by row_le (keep open_to_claim t)

  abbrev taken : Table J
  taken = chosen l now limit t

  all_ready : (P : Row J → Type 0) → All P (keep open_to_claim t) → All P taken
  all_ready P h = All-take P limit ready (All-sort_by row_le P (keep open_to_claim t) h)

  taken-IsIn : All (IsIn t) taken
  taken-IsIn = all_ready (IsIn t) (All-keep (IsIn t) open_to_claim t (All-IsIn t u))

  taken_open : All (λ r. open_to_claim r ≡ true) taken
  taken_open = all_ready (λ r. open_to_claim r ≡ true) (All-keep_test open_to_claim t)

  taken-UniqueIds : UniqueIds taken
  taken-UniqueIds =
      take-UniqueIds limit ready
        (sort_by-UniqueIds row_le (keep open_to_claim t) (keep-UniqueIds open_to_claim t u))

  length-taken : length taken ≡ min limit (count_if open_to_claim t)
  length-taken =
      length-take limit ready
      ∙ ap (min limit) (length-sort_by row_le (keep open_to_claim t) ∙ length-keep open_to_claim t)

  -- A row of `t` whose id was taken is the row that was taken.
  taken_row :
      (Q : Row J → Type 0) (r : Row J) → All Q taken → IsIn t r → picked taken r ≡ true → Q r
  taken_row Q r h i p = elim (Option-cases (find r.id taken)) [
    | inl e ↦ absurd (ground arith)
    | inr (y, e) ↦
        let found = All-find (IsIn t) r.id taken y taken-IsIn e in
        let here = subst (λ k. find k t ≡ some y) (find-id r.id taken y e) found in
        subst Q (some_inj (sym here ∙ i)) (All-find Q r.id taken y h e)
  ]

  -- What holds of the rows that were taken holds of those that the update finds.
  all_claimed : (Q : Row J → Type 0) → All Q taken → All Q (keep (is_chosen taken) t)
  all_claimed Q h =
      all_of_both (keep (is_chosen taken) t) (All-keep (IsIn t) (is_chosen taken) t (All-IsIn t u))
        (All-keep_test (is_chosen taken) t)
    where
      all_of_both :
          (xs : Table J) → All (IsIn t) xs → All (λ r. is_chosen taken r ≡ true) xs → All Q xs
      all_of_both [] i p = tt
      all_of_both (x ∷ xs) i p = (taken_row Q x h i.0 p.0, all_of_both xs i.1 p.1)

  -- The claim takes as many jobs as are ready, up to the limit.
  pub length-claim :
      (w : Text) → length (claim l now w limit t).0 ≡ min limit (count_if open_to_claim t)
  unfolding claim
  length-claim w =
      length-map (set_running now w) (keep (is_chosen taken) t)
      ∙ length-keep (is_chosen taken) t
      ∙ count_if-picked taken t u taken-UniqueIds taken-IsIn
      ∙ length-taken

  -- A row that is claimed was ready, and runs for the worker afterwards.
  abbrev pub IsStarted : Text → Table J → Row J → Type 0
  IsStarted w t' x =
      IsIn t x
      × (is_due now x ≡ true)
      × (l.claim_free x.id ≡ true)
      × (find x.id t' ≡ some (set_running now w x))

  pub started :
      (w : Text) (x : Row J)
      → IsIn t x
      → is_chosen taken x ≡ true
      → IsStarted w (claim l now w limit t).1 x
  unfolding claim
  started w x i p =
      let open_x = taken_row (λ r. open_to_claim r ≡ true) x taken_open i p in
      (
        i,
        ground arith,
        ground arith,
        find-update_where (is_chosen taken) (set_running now w) (λ r. refl) x.id t ∙ rw i (rw p),
      )

  pub claimed-IsStarted :
      (w : Text) → All (IsStarted w (claim l now w limit t).1) (keep (is_chosen taken) t)
  claimed-IsStarted w =
      go (keep (is_chosen taken) t) (All-keep (IsIn t) (is_chosen taken) t (All-IsIn t u))
        (All-keep_test (is_chosen taken) t)
    where
      go :
          (xs : Table J)
          → All (IsIn t) xs
          → All (λ r. is_chosen taken r ≡ true) xs
          → All (IsStarted w (claim l now w limit t).1) xs
      go [] i p = tt
      go (x ∷ xs) i p = (started w x i.0 p.0, go xs i.1 p.1)

  claimed-IsValid :
      (w : Text) (r : Row J)
      → IsValid r × IsIn t r
      → IsValid (apply_if (is_chosen taken) (set_running now w) r)
  claimed-IsValid w r (v, i) = elim (Bool-cases (is_chosen taken r)) [
    | inl e ↦ rw e (set_running-IsValid r v now w (started w r i e).1)
    | inr e ↦ rw e v
  ]

  pub claim-AllValid : (w : Text) → All IsValid t → AllValid (claim l now w limit t).1
  unfolding claim
  claim-AllValid w v = (
    update_where-UniqueIds (is_chosen taken) (set_running now w) (λ r. refl) t u,
    All-update_where_each IsValid (is_chosen taken) (set_running now w) t
        (All-imp (claimed-IsValid w) t (All-both IsValid (IsIn t) t v (All-IsIn t u))),
  )

  module _ (r : Row J) (i : IsIn t r) (ready_r : open_to_claim r ≡ true) (w : Text)
      (left : find r.id (claim l now w limit t).1 ≡ some r) where
    not_chosen : is_chosen taken r ≡ false
    unfolding claim
    not_chosen = elim (Bool-cases (is_chosen taken r)) [
      | inl e ↦ absurd (
          omega (arith, ap (λ (x : Row J). x.attempts) (some_inj (sym (started w r i e).3 ∙ left))))
      | inr e ↦ e
    ]

    in_rest : is_some (find r.id (drop limit ready)) ≡ true
    in_rest =
        let at_all =
          find-sort_by row_le r.id (keep open_to_claim t)
          ∙ find-keep open_to_claim r.id t r i ready_r in
        let split = ap (λ (s : Table J). is_some (find r.id s)) (take-append-drop limit ready) in
        let parts = find-append r.id taken (drop limit ready) in
        ground (arith, at_all, split, parts, not_chosen)

    rest-IsIn : All (IsIn t) (drop limit ready)
    rest-IsIn = All-drop (IsIn t) limit ready (
        All-sort_by row_le (IsIn t) (keep open_to_claim t)
          (All-keep (IsIn t) open_to_claim t (All-IsIn t u)))

    before_rest : (x : Row J) → All (λ y. row_le x y ≡ true) (drop limit ready) → row_le x r ≡ true
    before_rest x h = elim (Option-cases (find r.id (drop limit ready))) [
      | inl e ↦ absurd (ground (arith, in_rest))
      | inr (y, e) ↦
          let found = All-find (IsIn t) r.id (drop limit ready) y rest-IsIn e in
          let here = subst (λ k. find k t ≡ some y) (find-id r.id (drop limit ready) y e) found in
          subst (λ z. row_le x z ≡ true) (some_inj (sym here ∙ i))
            (All-find (λ z. row_le x z ≡ true) r.id (drop limit ready) y h e)
    ]

    -- A ready job that a claim leaves has all claimed jobs before it in the queue.
    pub claim_takes_first : All (λ x. row_le x r ≡ true) (keep (is_chosen taken) t)
    claim_takes_first =
        all_claimed (λ x. row_le x r ≡ true)
          (All-imp before_rest taken (
            take-le-drop row_le limit ready
              (sort_by-IsSorted row_le row_le-IsTotal (keep open_to_claim t))))

    pub claim_is_full : length (claim l now w limit t).0 ≡ limit
    claim_is_full = omega (
      arith,
      length-claim w,
      length-taken,
      length-append taken (drop limit ready),
      ap (λ (s : Table J). length s) (take-append-drop limit ready),
      length-take limit ready,
      length-sort_by row_le (keep open_to_claim t),
      length-keep open_to_claim t,
      length-pos_of_find r.id (drop limit ready) in_rest,
    )
