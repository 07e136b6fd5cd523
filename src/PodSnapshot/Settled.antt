-- ===== src/PodSnapshot/Settled.antt =====
-- What Reconcile does after it has settled a PodSnapshot.
use snapshot.Prelude.{
  Str, ◌≡◌, refl, ◌∙◌, inl, inr, Bool, false, ◌||◌, Option, none, some, Bool-cases,
}
use snapshot.Kube.Prog.{done}
use snapshot.Kube.Condition.{Condition, ready, failed, Message, Meta, MetaLaws}
use snapshot.Kube.Objects.{PodSnapshot, PodSnapshotContent}
use snapshot.PodSnapshot.Client.{stop}
use snapshot.PodSnapshot.Status.{
  set_condition, mark_ready, mark_failed, mark_pending, mirrored, mirrored_status, write_if_changed,
  propagate_status, is_content_succeeded, is_content_failed,
}
use snapshot.PodSnapshot.Conditions.{mark_ready-find, mark_failed-find, mark_pending-find}

or_false : {a b : Bool} → a ≡ false → b ≡ false → (a || b) ≡ false
or_false p q = rw (p, q)

ready_ne_failed : ready ≡ failed → ⊥
ready_ne_failed h = cc

failed_ne_ready : failed ≡ ready → ⊥
failed_ne_ready h = cc

write_unchanged :
    (step : Str) (p : PodSnapshot × Bool) → p.1 ≡ false → write_if_changed step p ≡ done stop
unfolding write_if_changed
write_unchanged step (s, changed) h = rw h

module _ (m : Meta) (laws : MetaLaws m) where
  module _ (snap : PodSnapshot) (reason : Str) (message : Message) where
    -- Marks that are set already are no change.
    mark_ready_again : (mark_ready m (mark_ready m snap reason message).0 reason message).1 ≡ false
    mark_ready_again =
        let (r, f) = mark_ready-find m laws snap reason message in
        unfold mark_ready set_condition in
        or_false ((laws.changed_iff _ _).1 (laws.find-set_ne _ _ failed failed_ne_ready ∙ f))
          ((laws.changed_iff _ _).1 r)

    mark_failed_again :
        (mark_failed m (mark_failed m snap reason message).0 reason message).1 ≡ false
    mark_failed_again =
        let (r, f) = mark_failed-find m laws snap reason message in
        unfold mark_failed set_condition in
        or_false ((laws.changed_iff _ _).1 (laws.find-set_ne _ _ ready ready_ne_failed ∙ r))
          ((laws.changed_iff _ _).1 f)

    mark_pending_again :
        (mark_pending m (mark_pending m snap reason message).0 reason message).1 ≡ false
    mark_pending_again =
        let (r, f) = mark_pending-find m laws snap reason message in
        unfold mark_pending set_condition in (laws.changed_iff _ _).1 r

  mirrored_again :
      (snap : PodSnapshot) (o : Option Condition)
      (mark : PodSnapshot → Str → Message → PodSnapshot × Bool)
      → ((s : PodSnapshot) (r : Str) (c : Message) → (mark (mark s r c).0 r c).1 ≡ false)
      → (mirrored o
          (mark (mirrored o (mark snap) (snap, false)).0)
          ((mirrored o (mark snap) (snap, false)).0, false)).1
        ≡ false
  mirrored_again snap none mark h = refl
  mirrored_again snap (some c) mark h = h snap c.reason c.message

  mirrored_status_again :
      (snap : PodSnapshot) (c : PodSnapshotContent)
      → (mirrored_status m (mirrored_status m snap c).0 c).1 ≡ false
  unfolding mirrored_status
  mirrored_status_again snap c = elim (Bool-cases (is_content_succeeded m c)) [
    | inl s ↦ rw s (mirrored_again snap (m.find c.conditions ready) (mark_ready m) mark_ready_again)
    | inr s ↦ elim (Bool-cases (is_content_failed m c)) [
      | inl f ↦
          rw (s, f)
            (mirrored_again snap (m.find c.conditions failed) (mark_failed m) mark_failed_again)
      | inr f ↦ rw (s, f) (mark_pending_again snap _ _)
    ]
  ]

  -- Mirroring a content that has not changed since it was last mirrored writes nothing, whatever
  -- result the content has.
  pub propagate_status_idem :
      (snap : PodSnapshot) (c : PodSnapshotContent)
      → propagate_status m (mirrored_status m snap c).0 c ≡ done stop
  unfolding propagate_status
  propagate_status_idem snap c =
      write_unchanged _ (mirrored_status m (mirrored_status m snap c).0 c)
        (mirrored_status_again snap c)
