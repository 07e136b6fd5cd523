-- ===== src/Compat/Coverage.antt =====
-- The mount rule and the instruction-set rule, by what they find missing.
use mathlib.Core.Path.{ap₂}
use snapshot.Prelude.{
  Str, ◌≡◌, refl, ◌∙◌, sym, ◌⊎◌, inl, inr, ◌↔◌, Bool, true, false, List, [], ◌∷◌, ◌++◌, ◌==◌,
  ==_iff, ◌&&◌, ◌||◌, not, contains, if◌then◌else◌, arith, All, Bool-cases, str_eq_iff, codes,
}
use snapshot.Compat.Types.{Libs, SetLaws, Environment, Mismatch}
use snapshot.Compat.CpuFeatures.{
  x86_instruction_sets, arm64_instruction_sets, instruction_sets, cpu_features_rule,
}
use snapshot.Compat.Rules.{missing_mounts, mount_rule, criu_handled}

-- The target has the path, or it is one of the two that CRIU rebuilds.
abbrev pub IsProvided : List Str → Str → Type 0
IsProvided existing path =
    (contains path existing ≡ true) ⊎ (path ≡ codes "/") ⊎ (path ≡ codes "/dev/shm")

or_iff : (a b : Bool) → ((a || b) ≡ true) ↔ ((a ≡ true) ⊎ (b ≡ true))
or_iff true b = (λ _. inl refl, λ _. refl)
or_iff false b = (λ h. inr h, λ h. elim h [ inl e ↦ grind arith | inr e ↦ e ])

criu_handled_iff :
    (path : Str) → (criu_handled path ≡ true) ↔ ((path ≡ codes "/") ⊎ (path ≡ codes "/dev/shm"))
unfolding criu_handled
criu_handled_iff path = (
  λ h. elim ((or_iff _ _).0 h) [
    | inl e ↦ inl ((str_eq_iff _ _).0 e)
    | inr e ↦ inr ((str_eq_iff _ _).0 e)
  ],
  λ h.
      (or_iff _ _).1
        (elim h [ inl e ↦ inl ((str_eq_iff _ _).1 e) | inr e ↦ inr ((str_eq_iff _ _).1 e) ]),
)

IsProvided-iff :
    (existing : List Str) (path : Str)
    → ((contains path existing || criu_handled path) ≡ true) ↔ IsProvided existing path
IsProvided-iff existing path = (
  λ h. elim ((or_iff _ _).0 h) [ inl e ↦ inl e | inr e ↦ inr ((criu_handled_iff path).0 e) ],
  λ h. (or_iff _ _).1 (elim h [ inl e ↦ inl e | inr e ↦ inr ((criu_handled_iff path).1 e) ]),
)

missing_mounts_exact :
    (existing paths : List Str)
    → (missing_mounts existing paths ≡ []) ↔ All (IsProvided existing) paths
unfolding missing_mounts
missing_mounts_exact existing [] = (λ _. tt, λ _. refl)
missing_mounts_exact existing (p ∷ ps) = elim (Bool-cases (contains p existing || criu_handled p)) [
  | inl e ↦ (
    λ h. ((IsProvided-iff existing p).0 e, (missing_mounts_exact existing ps).0 (rw e at h)),
    λ h. rw e ((missing_mounts_exact existing ps).1 h.1),
  )
  | inr e ↦
      (λ h. let stuck = rw e at h in cc, λ h. let held = (IsProvided-iff existing p).1 h.0 in cc)
]

-- The mount rule passes exactly when every mount that the checkpoint left to the environment is
-- among the paths that the target recorded, or is one of / and /dev/shm, which CRIU rebuilds. So a
-- target that recorded no paths is refused every other mount, and not taken for unknown.
pub mount_rule_exact :
    (source target : Environment)
    → (mount_rule source target ≡ [])
      ↔ All (IsProvided target.existing_mount_paths) source.externalized_mounts
unfolding mount_rule
mount_rule_exact source target =
    missing_mounts_exact target.existing_mount_paths source.externalized_mounts

-- A flag that names an instruction set, and that the list has.
abbrev pub offers : List Str → Str → Bool
offers flags x =
    contains x (x86_instruction_sets tt ++ arm64_instruction_sets tt) && contains x flags

and_not : {a b : Bool} → (a && not b) ≡ false → a ≡ true → b ≡ true
and_not h e = ground arith

not_and : {a b : Bool} → (a ≡ true → b ≡ true) → (a && not b) ≡ false
not_and h = ground arith

if_nil : (b : Bool) (m : Mismatch) → ((if b then [] else m ∷ []) ≡ []) ↔ (b ≡ true)
if_nil true m = (λ _. refl, λ _. refl)
if_nil false m = (λ h. cc, λ h. cc)

abbrev pub Covers : Environment → Environment → Type 0
Covers source target =
    (x : Str) → offers source.cpu_features x ≡ true → offers target.cpu_features x ≡ true

module _ (k : Libs) (laws : SetLaws k) where
  has-instruction_sets :
      (x : Str) (flags : List Str) → k.has x (instruction_sets k flags) ≡ offers flags x
  unfolding instruction_sets
  has-instruction_sets x flags =
      laws.has-intersection x _ _ ∙ ap₂ (λ a b. a && b) (laws.has-new x _) (laws.has-new x flags)

  no_instruction_sets :
      (flags : List Str)
      → ((k.len (instruction_sets k flags) == 0) ≡ true) ↔ ((x : Str) → offers flags x ≡ false)
  no_instruction_sets flags = (
    λ h x. sym (has-instruction_sets x flags) ∙ (laws.len_zero _).0 ((==_iff _ 0).0 h) x,
    λ h. (==_iff _ 0).1 ((laws.len_zero _).1 (λ x. has-instruction_sets x flags ∙ h x)),
  )

  has-missing :
      (source target : Environment) (x : Str)
      → k.has x (
          k.difference
            (instruction_sets k source.cpu_features)
            (instruction_sets k target.cpu_features))
        ≡ (offers source.cpu_features x && not (offers target.cpu_features x))
  has-missing source target x =
      laws.has-difference x _ _
      ∙ ap₂ (λ a b. a && not b) (has-instruction_sets x source.cpu_features)
          (has-instruction_sets x target.cpu_features)

  none_missing :
      (source target : Environment)
      → ((k.len (
              k.difference
                (instruction_sets k source.cpu_features)
                (instruction_sets k target.cpu_features))
            == 0)
          ≡ true)
        ↔ Covers source target
  none_missing source target = (
    λ h x. and_not (sym (has-missing source target x) ∙ (laws.len_zero _).0 ((==_iff _ 0).0 h) x),
    λ h. (==_iff _ 0).1 ((laws.len_zero _).1 (λ x. has-missing source target x ∙ not_and (h x))),
  )

  settled :
      (source target : Environment)
      → (k.len (instruction_sets k source.cpu_features) == 0) ≡ false
      → (k.len (instruction_sets k target.cpu_features) == 0) ≡ false
      → ((x : Str) → offers source.cpu_features x ≡ false)
        ⊎ ((x : Str) → offers target.cpu_features x ≡ false)
        ⊎ Covers source target
      → Covers source target
  settled source target e f (inl h) = cc (e, (no_instruction_sets source.cpu_features).1 h)
  settled source target e f (inr (inl h)) = cc (f, (no_instruction_sets target.cpu_features).1 h)
  settled source target e f (inr (inr h)) = h

  -- The instruction-set rule passes exactly when one side names no instruction set at all, which
  -- leaves it unknown, or when every instruction set of the source is one of the target.
  pub cpu_features_exact :
      (source target : Environment)
      → (cpu_features_rule k source target ≡ []) ↔ (
          ((x : Str) → offers source.cpu_features x ≡ false)
          ⊎ ((x : Str) → offers target.cpu_features x ≡ false)
          ⊎ Covers source target)
  unfolding cpu_features_rule
  cpu_features_exact source target =
      elim (Bool-cases (k.len (instruction_sets k source.cpu_features) == 0)) [
        | inl e ↦ (λ _. inl ((no_instruction_sets source.cpu_features).0 e), λ _. rw e)
        | inr e ↦ elim (Bool-cases (k.len (instruction_sets k target.cpu_features) == 0)) [
          | inl f ↦ (λ _. inr (inl ((no_instruction_sets target.cpu_features).0 f)), λ _. rw (e, f))
          | inr f ↦ (
            λ h. inr (inr ((none_missing source target).0 ((if_nil _ _).0 (rw (e, f) at h)))),
            λ h.
                rw (e, f)
                  ((if_nil _ _).1 ((none_missing source target).1 (settled source target e f h))),
          )
        ]
      ]
