-- ===== src/PodSnapshot/Cascade.antt =====
-- A PodSnapshot is released only when its work order is gone.
use snapshot.Prelude.{
  Str, ◌≡◌, refl, ◌⊎◌, inl, inr, true, false, Option, none, some, [], ◌∷◌, Bool-cases,
}
use snapshot.Kube.Prog.{Trace, Holds, ends, calls, Holds-if}
use snapshot.Kube.Condition.{Meta}
use snapshot.Kube.Finalizer.{ControllerUtil}
use snapshot.Kube.Objects.{
  PodSnapshot, PodSnapshotContent, Reply, found, error, ApiError, not_found, already_exists,
  other_error,
}
use snapshot.PodSnapshot.Client.{
  Op, Ans, update_snapshot, get_content, delete_content, Outcome, Action,
}
use snapshot.PodSnapshot.Content.{PodSnapshotReconciler}
use snapshot.PodSnapshot.Reconcile.{
  bound_name, has_finalizer, drop_finalizer, after_confirm, is_real, after_delete, delete_bound,
  handle_delete, reconcile_found,
}
use snapshot.PodSnapshot.Writes.{AnyEnd}

module _ (u : ControllerUtil) (snap : PodSnapshot) where
  -- The bound content was deleted, with no error but "not found", and then was seen to be gone.
  pub data Gone : Trace Op Ans → Type 0 where
    gone :
        {name : Str} {e : Option ApiError} {t : Trace Op Ans}
        → bound_name snap.bound ≡ some name
        → is_real e ≡ false
        → Gone ((get_content name, error not_found) ∷ (delete_content name, e) ∷ t)

  -- An update that leaves the finalizer off: nothing was bound, or what was bound is gone.
  abbrev pub ReleasesWhenGone : Trace Op Ans → Op → Type 0
  ReleasesWhenGone t (update_snapshot s) =
      has_finalizer u s ≡ false → (bound_name snap.bound ≡ none) ⊎ Gone t
  ReleasesWhenGone t (delete_content name) = bound_name snap.bound ≡ some name
  ReleasesWhenGone t _ = Unit

  abbrev Careful : Trace Op Ans → Action Outcome → Type 0
  Careful t p = Holds ReleasesWhenGone AnyEnd t p

  drop_finalizer-Careful :
      (t : Trace Op Ans)
      → (bound_name snap.bound ≡ none) ⊎ Gone t
      → Careful t (drop_finalizer u snap)
  unfolding drop_finalizer
  drop_finalizer-Careful t h = calls (λ _. h) (λ e. ends tt)

  after_confirm-Careful :
      (name : Str) (e : Option ApiError) (r : Reply PodSnapshotContent) (t : Trace Op Ans)
      → bound_name snap.bound ≡ some name
      → is_real e ≡ false
      → Careful ((get_content name, r) ∷ (delete_content name, e) ∷ t) (after_confirm u snap r)
  unfolding after_confirm
  after_confirm-Careful name e (found c) t h k = ends tt
  after_confirm-Careful name e (error not_found) t h k = drop_finalizer-Careful _ (inr (gone h k))
  after_confirm-Careful name e (error already_exists) t h k = ends tt
  after_confirm-Careful name e (error (other_error x)) t h k = ends tt

  after_delete-Careful :
      (name : Str) (e : Option ApiError) (t : Trace Op Ans)
      → bound_name snap.bound ≡ some name
      → Careful ((delete_content name, e) ∷ t) (after_delete u snap name e)
  unfolding after_delete
  after_delete-Careful name e t h = elim (Bool-cases (is_real e)) [
    | inl r ↦ rw r (ends tt)
    | inr r ↦ rw r (calls tt (λ x. after_confirm-Careful name e x t h r))
  ]

  delete_bound-Careful :
      (b : Option Str) (t : Trace Op Ans)
      → bound_name snap.bound ≡ b
      → Careful t (delete_bound u snap b)
  unfolding delete_bound
  delete_bound-Careful none t h = drop_finalizer-Careful t (inl h)
  delete_bound-Careful (some name) t h = calls h (λ e. after_delete-Careful name e t h)

  module _ (m : Meta) (sr : PodSnapshotReconciler) where
    -- Reconciling a PodSnapshot that is being deleted takes its finalizer off only when no content
    -- is bound, or when the bound content, and no other, was deleted and then was not found; it
    -- deletes no other content.
    pub reconcile_found-ReleasesWhenGone :
        snap.deleting ≡ true → Holds ReleasesWhenGone AnyEnd [] (reconcile_found m u sr snap)
    unfolding reconcile_found handle_delete
    reconcile_found-ReleasesWhenGone d =
        Holds-if snap.deleting
          (λ _.
            Holds-if (has_finalizer u snap)
              (λ _. delete_bound-Careful (bound_name snap.bound) [] refl) (λ _. ends tt))
          (λ e. cc)
