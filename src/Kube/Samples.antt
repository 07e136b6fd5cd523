-- ===== src/Kube/Samples.antt =====
-- Values for package meta and controllerutil, which show that what is documented can be met.
use mathlib.Core.Bool.{decide, decide_iff}
use native.Mathlib.Decide.{ℕ_discrete}
use snapshot.Prelude.{
  Str, ◌≡◌, ◌≢◌, ◌↔◌, inl, inr, ap, Bool, true, false, not, Option, none, some, List, [], ◌∷◌,
  str_eq, if◌then◌else◌, arith, Bool-cases,
}
use snapshot.Kube.Condition.{
  ConditionType, ready, failed, completed, running, captured, Condition, Meta, MetaLaws,
}
use snapshot.Kube.Finalizer.{ControllerUtil}

pub Condition-discrete : Discrete (Option Condition)
Condition-discrete = hlevel ℕ_discrete

abbrev pub kind_eq : ConditionType → ConditionType → Bool
kind_eq ready ready = true
kind_eq failed failed = true
kind_eq completed completed = true
kind_eq running running = true
kind_eq captured captured = true
kind_eq _ _ = false

pub kind_eq_refl : (k : ConditionType) → kind_eq k k ≡ true
kind_eq_refl k = ground arith

pub kind_eq_sound : (j k : ConditionType) → kind_eq j k ≡ true → j ≡ k
kind_eq_sound j k h = ground arith

abbrev pub find : List Condition → ConditionType → Option Condition
find [] k = none
find (c ∷ cs) k = if kind_eq c.kind k then some c else find cs k

abbrev pub replace : List Condition → Condition → List Condition
replace [] c = c ∷ []
replace (d ∷ cs) c = if kind_eq d.kind c.kind then c ∷ cs else d ∷ replace cs c

find-replace_self : (cs : List Condition) (c : Condition) → find (replace cs c) c.kind ≡ some c
find-replace_self [] c = rw (kind_eq_refl c.kind)
find-replace_self (d ∷ cs) c = elim (Bool-cases (kind_eq d.kind c.kind)) [
  | inl e ↦ rw e (rw (kind_eq_refl c.kind))
  | inr e ↦ rw (e, e) (find-replace_self cs c)
]

find-replace_ne :
    (cs : List Condition) (c : Condition) (k : ConditionType)
    → k ≢ c.kind
    → find (replace cs c) k ≡ find cs k
find-replace_ne [] c k h = ground arith
find-replace_ne (d ∷ cs) c k h = ground (arith, find-replace_ne cs c k h)

abbrev pub is_same : Option Condition → Option Condition → Bool
is_same a b = decide (Condition-discrete a b)

is_same_iff : (a b : Option Condition) → (not (is_same a b) ≡ false) ↔ (a ≡ b)
is_same_iff a b = (
  λ h. (decide_iff (Condition-discrete a b)).0 (ground arith),
  λ e. ap not ((decide_iff (Condition-discrete a b)).1 e),
)

abbrev pub sample_meta : Meta
sample_meta = record {
  set = λ cs c. (replace cs c, not (is_same (find cs c.kind) (some c)));
  find = find;
}

pub sample_meta_laws : MetaLaws sample_meta
sample_meta_laws = record {
  find-set_self = find-replace_self;
  find-set_ne = find-replace_ne;
  changed_iff = λ cs c. is_same_iff (find cs c.kind) (some c);
}

abbrev pub has : List Str → Str → Bool
has [] f = false
has (g ∷ fs) f = if str_eq g f then true else has fs f

abbrev pub without : List Str → Str → List Str
without [] f = []
without (g ∷ fs) f = let rest = without fs f in if str_eq g f then rest else g ∷ rest

abbrev pub sample_util : ControllerUtil
sample_util = record {
  contains_finalizer = has;
  add_finalizer = λ fs f. if has fs f then fs else f ∷ fs;
  remove_finalizer = without;
}
