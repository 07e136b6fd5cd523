-- ===== src/Agent/Ready.antt =====
-- What the Ready write needs, and how often it is tried.
use snapshot.Prelude.{
  ℕ, zero, suc, ◌+◌, ◌≤◌, Str, ◌≡◌, Bool, true, false, Option, none, some, [], ◌∷◌, arith,
}
use snapshot.Kube.Prog.{Trace, Holds, ends, calls, Holds-if}
use snapshot.Kube.Condition.{Meta}
use snapshot.Kube.Objects.{Reply, found, error}
use snapshot.Agent.Types.{
  WorkOrder, PatchReply, patched, conflict, patch_error, Op, Ans, patch_status, get_content,
  Outcome, Action,
}
use snapshot.Agent.Capture.{
  is_content_ready, is_content_failed, after_ready, after_ready_patch,
  mark_checkpoint_ready_with_source, mark_checkpoint_ready,
}

abbrev pub AnyEnd : Trace Op Ans → Outcome → Type 0
AnyEnd t o = Unit

-- The status patches of a trace.
unfoldable pub patches : Trace Op Ans → ℕ
patches [] = 0
patches ((patch_status _, _) ∷ t) = suc (patches t)
patches ((_, _) ∷ t) = patches t

abbrev pub Any : Trace Op Ans → Op → Type 0
Any t o = Unit

-- Neither result is recorded yet.
abbrev pub IsOpen : Meta → WorkOrder → Type 0
IsOpen m order = (is_content_ready m order ≡ false) × (is_content_failed m order ≡ false)

module _ (m : Meta) {Allowed : Trace Op Ans → Op → Type 0}
    {E : Trace Op Ans → Outcome → Type 0} where
  -- After a conflict the writer goes on only from a content that has no result.
  after_ready-Holds :
      (name : Str) (again : WorkOrder → Action Outcome) (r : Reply WorkOrder) (t : Trace Op Ans)
      → ((o : Outcome) → E ((get_content name, r) ∷ t) o)
      → ((current : WorkOrder)
          → IsOpen m current
          → Holds Allowed E ((get_content name, found current) ∷ t) (again current))
      → Holds Allowed E ((get_content name, r) ∷ t) (after_ready m name again r)
  after_ready-Holds name again (error e) t fine h = ends (fine _)
  after_ready-Holds name again (found current) t fine h =
      Holds-if (is_content_failed m current) (λ _. ends (fine _))
        (λ f. Holds-if (is_content_ready m current) (λ _. ends (fine _)) (λ r. h current (r, f)))

  pub after_ready_patch-Holds :
      (name : Str) (again : WorkOrder → Action Outcome) (x : PatchReply) (t : Trace Op Ans)
      → Allowed t (get_content name)
      → ((o : Outcome) → E t o)
      → ((r : Reply WorkOrder) (o : Outcome) → E ((get_content name, r) ∷ t) o)
      → ((current : WorkOrder)
          → IsOpen m current
          → Holds Allowed E ((get_content name, found current) ∷ t) (again current))
      → Holds Allowed E t (after_ready_patch m name again x)
  after_ready_patch-Holds name again patched t a fine fine' h = ends (fine _)
  after_ready_patch-Holds name again (patch_error e) t a fine fine' h = ends (fine _)
  after_ready_patch-Holds name again conflict t a fine fine' h =
      calls a (λ r. after_ready-Holds name again r t (fine' r) h)

module _ (m : Meta) where
  -- However often it conflicts, the Ready status is written at most once for each try that is
  -- left.
  tries_left :
      (n : ℕ) (name : Str) (source : Option Str) (container : Str) (artifact : Option Str)
      (order : WorkOrder) (t : Trace Op Ans) (most : ℕ)
      → patches t + n ≤ most
      → Holds Any
          (λ s _. patches s ≤ most)
          t
          (mark_checkpoint_ready_with_source m n name source container artifact order)
  unfolding mark_checkpoint_ready_with_source patches
  tries_left zero name source container artifact order t most h = ends (omega arith)
  tries_left (suc n) name source container artifact order t most h = calls tt (λ x.
      after_ready_patch-Holds m name _ x _ tt (λ _. omega arith) (λ _ _. omega arith)
        (λ current _. tries_left n name source container artifact current _ most (omega arith)))

  -- Making a checkpoint Ready writes the status at most eight times, whatever is answered.
  pub mark_checkpoint_ready_bound :
      (fetches : Bool) (order : WorkOrder) (path container : Str) (artifact : Option Str)
      → Holds Any
          (λ s _. patches s ≤ 8)
          []
          (mark_checkpoint_ready m fetches order path container artifact)
  unfolding mark_checkpoint_ready patches
  mark_checkpoint_ready_bound fetches order path container none =
      calls tt (λ source. tries_left 8 _ source container none order _ 8 (omega arith))
  mark_checkpoint_ready_bound true order path container (some handle) =
      calls tt (λ source. tries_left 8 _ source container (some handle) order _ 8 (omega arith))
  mark_checkpoint_ready_bound false order path container (some handle) =
      tries_left 8 _ none container (some handle) order [] 8 (omega arith)
