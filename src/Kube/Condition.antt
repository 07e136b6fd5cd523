-- ===== src/Kube/Condition.antt =====
-- metav1.Condition, and the functions of k8s.io/apimachinery/pkg/api/meta on lists of them.
-- LastTransitionTime and
-- ObservedGeneration, which nothing here reads, are left out.
use snapshot.Prelude.{Str, ◌≡◌, ◌≢◌, ◌↔◌, Bool, true, false, Option, none, some, List}

-- The condition types that the objects of api/v1alpha1 use.
pub data ConditionType : Type 0 where
  ready failed completed running captured : ConditionType

pub data Status : Type 0 where
  is_true is_false is_unknown : Status

-- A message is kept as the text, or as a format with its arguments, or as an error in context:
-- what package fmt prints from it is not modelled.
pub data Message : Type 0 where
  text : Str → Message
  fmt : Str → List Str → Message
  wrap : Message → Message → Message

pub record Condition : Type 0 where
  pub kind : ConditionType
  pub status : Status
  pub reason : Str
  pub message : Message

-- meta.SetStatusCondition, with its report of a change, and meta.FindStatusCondition.
pub record Meta : Type 0 where
  pub set : List Condition → Condition → List Condition × Bool
  pub find : List Condition → ConditionType → Option Condition

-- What package meta documents of the two.
pub record MetaLaws (m : Meta) : Type 0 where
  pub find-set_self : (cs : List Condition) (c : Condition) → m.find (m.set cs c).0 c.kind ≡ some c
  pub find-set_ne :
      (cs : List Condition) (c : Condition) (k : ConditionType)
      → k ≢ c.kind
      → m.find (m.set cs c).0 k ≡ m.find cs k
  pub changed_iff :
      (cs : List Condition) (c : Condition) → ((m.set cs c).1 ≡ false) ↔ (m.find cs c.kind ≡ some c)

module _ (m : Meta) where
  abbrev pub holds_true : Option Condition → Bool
  holds_true none = false
  holds_true (some c) = elim c.status [ is_true ↦ true | _ ↦ false ]

  -- meta.IsStatusConditionTrue
  unfoldable pub is_status_condition_true : List Condition → ConditionType → Bool
  is_status_condition_true cs k = holds_true (m.find cs k)
