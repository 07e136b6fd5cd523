-- ===== src/Compat/Registration.antt =====
-- registerChecks partitions the rules by gate, and Compare reports only the rules of its gate.
use mathlib.Core.List.{append-nil, append_assoc}
use snapshot.Prelude.{
  Str, ◌≡◌, ◌≢◌, refl, ap, ◌∙◌, sym, ◌⊎◌, inl, inr, Bool, true, false, none, some, List, [], ◌∷◌,
  ◌++◌, All, All-append, Bool-cases, Option-cases, arith, if◌then◌else◌,
}
use snapshot.Compat.Types.{
  Libs, Gate, preflight, inspect, other, Check, cpu_arch, cpu_features, kernel_version,
  kernel_minimum, image_digest, memory_limit, cpu_limit, mount, gpu_model, gpu_count,
  driver_version, driver_minimum, Environment, Mismatch,
}
use snapshot.Compat.Table.{
  Row, ByGate, rows_at, add_row, register_from, register_checks, no_rows, named, run_rows,
  checks_by_gate, compare,
}

abbrev pub is_gate : Gate → Gate → Bool
is_gate preflight preflight = true
is_gate inspect inspect = true
is_gate _ _ = false

-- The rules of a list that name a gate, in the order of the list.
abbrev pub naming : Gate → List Row → List Row
naming g [] = []
naming g (r ∷ rows) = let rest = naming g rows in if is_gate r.gate g then r ∷ rest else rest

-- A rule whose gate nothing calls.
abbrev pub IsStray : Row → Type 0
IsStray r = (s : Str) × (r.gate ≡ other s)

abbrev only : Bool → Row → List Row
only true r = r ∷ []
only false r = []

add_row-rows :
    (gate g : Gate) (r : Row) (t u : ByGate)
    → add_row gate r t ≡ some u
    → rows_at u g ≡ rows_at t g ++ only (is_gate gate g) r
add_row-rows preflight preflight r t u h = ground arith
add_row-rows preflight inspect r t u h = rw append-nil (ground arith)
add_row-rows preflight (other s) r t u h = refl
add_row-rows inspect preflight r t u h = rw append-nil (ground arith)
add_row-rows inspect inspect r t u h = ground arith
add_row-rows inspect (other s) r t u h = refl
add_row-rows (other s) g r t u h = cc

naming-cons :
    (g : Gate) (r : Row) (rows : List Row)
    → naming g (r ∷ rows) ≡ only (is_gate r.gate g) r ++ naming g rows
naming-cons g r rows = elim (Bool-cases (is_gate r.gate g)) [ inl e ↦ rw e | inr e ↦ rw e ]

add_row-known :
    (g : Gate) (r : Row) (t u : ByGate) → add_row g r t ≡ some u → (s : Str) → g ≢ other s
add_row-known preflight r t u h s = λ e. cc
add_row-known inspect r t u h s = λ e. cc
add_row-known (other x) r t u h s = λ e. cc

register_from-known :
    (t u : ByGate) (rows : List Row) → register_from t rows ≡ some u → All (λ r. ¬ IsStray r) rows
unfolding register_from
register_from-known t u [] h = tt
register_from-known t u (r ∷ rows) h = elim (Option-cases (add_row r.gate r t)) [
  | inl e ↦ let stuck : none ≡ some u = rw e at h in cc
  | inr (v, e) ↦
      let rest : register_from v rows ≡ some u = rw e at h in
      (λ stray. add_row-known r.gate r t v e stray.0 stray.1, register_from-known v u rows rest)
]

register_from-rows :
    (t u : ByGate) (rows : List Row) (g : Gate)
    → register_from t rows ≡ some u
    → rows_at u g ≡ rows_at t g ++ naming g rows
unfolding register_from
register_from-rows t u [] g h = rw append-nil (cc)
register_from-rows t u (r ∷ rows) g h = elim (Option-cases (add_row r.gate r t)) [
  | inl e ↦ let stuck : none ≡ some u = rw e at h in cc
  | inr (v, e) ↦
      let rest : register_from v rows ≡ some u = rw e at h in
      register_from-rows v u rows g rest
      ∙ rw (add_row-rows r.gate g r t v e) (
          append_assoc (rows_at t g) (only (is_gate r.gate g) r) (naming g rows)
          ∙ ap (λ l. rows_at t g ++ l) (sym (naming-cons g r rows)))
]

no_rows-rows : (g : Gate) → rows_at no_rows g ≡ []
no_rows-rows preflight = refl
no_rows-rows inspect = refl
no_rows-rows (other s) = refl

-- Registration that does not panic has met no rule at a gate that nothing calls, and has at each
-- gate exactly the rules that name it, in table order.
pub register_checks_partition :
    (rows : List Row) (t : ByGate) (g : Gate)
    → register_checks rows ≡ some t
    → All (λ r. ¬ IsStray r) rows × (rows_at t g ≡ naming g rows)
unfolding register_checks
register_checks_partition rows t g h = (
  register_from-known no_rows t rows h,
  register_from-rows no_rows t rows g h ∙ rw (no_rows-rows g),
)

-- A mismatch that Compare reports carries the name of a rule registered at the gate.
abbrev pub IsNamedBy : List Row → Mismatch → Type 0
IsNamedBy [] m = ⊥
IsNamedBy (r ∷ rows) m = (m.check ≡ r.name) ⊎ IsNamedBy rows m

named-IsNamedBy :
    (r : Row) (rows : List Row) (ms : List Mismatch) → All (IsNamedBy (r ∷ rows)) (named r.name ms)
unfolding named
named-IsNamedBy r rows [] = tt
named-IsNamedBy r rows (m ∷ ms) = (inl refl, named-IsNamedBy r rows ms)

IsNamedBy-cons :
    (r : Row) (rows : List Row) (ms : List Mismatch)
    → All (IsNamedBy rows) ms
    → All (IsNamedBy (r ∷ rows)) ms
IsNamedBy-cons r rows [] h = tt
IsNamedBy-cons r rows (m ∷ ms) h = (inr h.0, IsNamedBy-cons r rows ms h.1)

run_rows-IsNamedBy :
    (rows : List Row) (source target : Environment)
    → All (IsNamedBy rows) (run_rows rows source target)
unfolding run_rows
run_rows-IsNamedBy [] source target = tt
run_rows-IsNamedBy (r ∷ rows) source target =
    All-append (IsNamedBy (r ∷ rows)) _ _ (named-IsNamedBy r rows (r.compare source target))
      (IsNamedBy-cons r rows _ (run_rows-IsNamedBy rows source target))

abbrev pub preflight_checks : List Check
preflight_checks =
    cpu_arch ∷ cpu_features ∷ kernel_version ∷ kernel_minimum ∷ memory_limit ∷ cpu_limit ∷ []

abbrev pub inspect_checks : List Check
inspect_checks = image_digest ∷ mount ∷ gpu_model ∷ gpu_count ∷ driver_version ∷ driver_minimum ∷ []

abbrev pub OneOf : List Check → Mismatch → Type 0
OneOf [] m = ⊥
OneOf (c ∷ cs) m = (m.check ≡ c) ⊎ OneOf cs m

-- Whatever the two environments, each mismatch reported at a gate names one of that gate's six
-- checks, none is left without a name, and a gate that nothing calls reports nothing.
pub compare_names :
    (k : Libs) (source target : Environment)
    → All (OneOf preflight_checks) (compare k preflight source target)
      × All (OneOf inspect_checks) (compare k inspect source target)
      × ((s : Str) → compare k (other s) source target ≡ [])
unfolding compare
compare_names k source target = (
  run_rows-IsNamedBy (rows_at (checks_by_gate k) preflight) source target,
  run_rows-IsNamedBy (rows_at (checks_by_gate k) inspect) source target,
  λ s. refl,
)
