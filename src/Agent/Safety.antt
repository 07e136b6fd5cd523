-- ===== src/Agent/Safety.antt =====
-- The dump of a source and the results that the capture writes.
use snapshot.Prelude.{Str, ◌≡◌, Bool, false, some, List}
use snapshot.Kube.Prog.{Trace, Holds}
use snapshot.Kube.Condition.{Meta, MetaLaws}
use snapshot.Kube.Objects.{found}
use snapshot.Agent.Types.{
  WorkOrder, Op, Ans, cached_content, patch_status, checkpoint, Outcome, Action,
}
use snapshot.Agent.Ready.{AnyEnd, IsOpen}
use snapshot.Agent.Evidence.{Answered, MayDump, HasResult}

module _ (m : Meta) (order : WorkOrder) where
  abbrev pub Justified : Trace Op Ans → Op → Type 0
  Justified t (checkpoint p) = MayDump m order p t
  Justified t (patch_status w) = HasResult m order w t
  Justified t _ = Unit

module _ (m : Meta) (laws : MetaLaws m) (node : Str) (fetches : Bool) (order : WorkOrder)
    (undecided : IsOpen m order) where
  abbrev Ok : Trace Op Ans → Action Outcome → Type 0
  Ok t p = Holds (Justified m order) AnyEnd t p

-- A work order that the agent of the node works on: read under its name, addressed to the node,
-- not being deleted and without a result.
pub record IsWorkedOn (m : Meta) (node name : Str) (order : WorkOrder) (t : Trace Op Ans)
    : Type 0 where
  pub was_read : Answered (cached_content name) (found (some order)) t
  pub on_node : order.content.source_node ≡ node
  pub alive : order.content.deleting ≡ false
  pub without_result : IsOpen m order

module _ (m : Meta) (node name : Str) where
  abbrev pub IsJustified : Trace Op Ans → Op → Type 0
  IsJustified t (checkpoint p) =
      (order : WorkOrder) × IsWorkedOn m node name order t × MayDump m order p t
  IsJustified t (patch_status w) =
      (order : WorkOrder) × IsWorkedOn m node name order t × HasResult m order w t
  IsJustified t _ = Unit
