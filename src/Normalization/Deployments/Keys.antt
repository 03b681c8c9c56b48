-- ===== src/Normalization/Deployments/Keys.antt =====
-- The key of `_run_upsert` of app/normalization/deployments.py.
use adept_engine.Base.{
  ◌≡◌, refl, ap, sym, Bool, true, false, Text, ◌==◌, same, arith, &&-true, same_iff,
}
use adept_engine.Base.Upsert.{IsKey}
use adept_engine.Store.{DeploymentRow}
use adept_engine.Normalization.Deployments.{same_deployment, is_no_older, merge_deployment}

pub deployments_are_keys : IsKey same_deployment merge_deployment
unfolding merge_deployment
deployments_are_keys = record {
  flip = λ a b h.
      let (r, q) = &&-true (a.repository_id == b.repository_id) _ h in
      let (s, e) = &&-true (same a.source b.source) _ q in
      let k : (b.repository_id == a.repository_id) ≡ true = ground arith in
      rw
        (
          k,
          flip_same a.source b.source s,
          flip_same a.external_deployment_id b.external_deployment_id e,
        )
        refl;
  agree = λ a b c h.
      let (r, q) = &&-true (a.repository_id == b.repository_id) _ h in
      let (s, e) = &&-true (same a.source b.source) _ q in
      let k : (a.repository_id == c.repository_id) ≡ (b.repository_id == c.repository_id) =
        ground arith in
      rw
        (
          k,
          ap (λ x. same x c.source) ((same_iff a.source b.source).0 s),
          ap (λ x. same x c.external_deployment_id)
              ((same_iff a.external_deployment_id b.external_deployment_id).0 e),
        )
        refl;
  kept = λ x old e h. kept_key x old e (is_no_older old.finished_at e.finished_at) refl;
}
  where
    flip_same : (a b : Text) → same a b ≡ true → same b a ≡ true
    flip_same a b h = (same_iff b a).1 (sym ((same_iff a b).0 h))

    kept_key :
        (x old e : DeploymentRow) (b : Bool)
        → is_no_older old.finished_at e.finished_at ≡ b
        → same_deployment x (merge_deployment old e) ≡ same_deployment x old
    kept_key x old e true h = rw h refl
    kept_key x old e false h = rw h refl
