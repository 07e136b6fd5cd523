-- ===== src/PodSnapshot/Conditions.antt =====
-- What mark_ready, mark_failed and mark_pending leave in the conditions.
use snapshot.Prelude.{Str, ◌≡◌, ◌≢◌, ◌∙◌, true, false, ◌&&◌, some}
use snapshot.Kube.Condition.{
  ready, failed, is_true, is_false, Message, Meta, MetaLaws, is_status_condition_true,
}
use snapshot.Kube.Objects.{PodSnapshot}
use snapshot.PodSnapshot.Status.{set_condition, mark_ready, mark_failed, mark_pending}

ready_ne_failed : ready ≢ failed
ready_ne_failed h = cc

failed_ne_ready : failed ≢ ready
failed_ne_ready h = cc

-- Ready and Failed are not both True.
abbrev pub IsCoherent : Meta → PodSnapshot → Type 0
IsCoherent m snap =
    (is_status_condition_true m snap.conditions ready
      && is_status_condition_true m snap.conditions failed)
    ≡ false

module _ (m : Meta) (laws : MetaLaws m) where
  module _ (snap : PodSnapshot) (reason : Str) (message : Message) where
    pub mark_ready-find :
        (m.find (mark_ready m snap reason message).0.conditions ready
          ≡ some (record { kind = ready; status = is_true; reason = reason; message = message }))
        × (m.find (mark_ready m snap reason message).0.conditions failed
            ≡ some
                (record { kind = failed; status = is_false; reason = reason; message = message }))
    unfolding mark_ready set_condition
    mark_ready-find = (
      laws.find-set_ne _ _ ready ready_ne_failed ∙ laws.find-set_self _ _,
      laws.find-set_self _ _,
    )

    pub mark_failed-find :
        (m.find (mark_failed m snap reason message).0.conditions ready
          ≡ some (record { kind = ready; status = is_false; reason = reason; message = message }))
        × (m.find (mark_failed m snap reason message).0.conditions failed
            ≡ some (record { kind = failed; status = is_true; reason = reason; message = message }))
    unfolding mark_failed set_condition
    mark_failed-find = (
      laws.find-set_self _ _,
      laws.find-set_ne _ _ failed failed_ne_ready ∙ laws.find-set_self _ _,
    )

    pub mark_pending-find :
        (m.find (mark_pending m snap reason message).0.conditions ready
          ≡ some (record { kind = ready; status = is_false; reason = reason; message = message }))
        × (m.find (mark_pending m snap reason message).0.conditions failed
            ≡ m.find snap.conditions failed)
    unfolding mark_pending set_condition
    mark_pending-find = (laws.find-set_self _ _, laws.find-set_ne _ _ failed failed_ne_ready)

    pub mark_ready-truth :
        (is_status_condition_true m (mark_ready m snap reason message).0.conditions ready ≡ true)
        × (is_status_condition_true m (mark_ready m snap reason message).0.conditions failed
            ≡ false)
    unfolding is_status_condition_true
    mark_ready-truth = (rw mark_ready-find.0, rw mark_ready-find.1)

    pub mark_failed-truth :
        (is_status_condition_true m (mark_failed m snap reason message).0.conditions ready ≡ false)
        × (is_status_condition_true m (mark_failed m snap reason message).0.conditions failed
            ≡ true)
    unfolding is_status_condition_true
    mark_failed-truth = (rw mark_failed-find.0, rw mark_failed-find.1)

    pub mark_pending-truth :
        (is_status_condition_true m (mark_pending m snap reason message).0.conditions ready ≡ false)
        × (is_status_condition_true m (mark_pending m snap reason message).0.conditions failed
            ≡ is_status_condition_true m snap.conditions failed)
    unfolding is_status_condition_true
    mark_pending-truth = (rw mark_pending-find.0, rw mark_pending-find.1)
