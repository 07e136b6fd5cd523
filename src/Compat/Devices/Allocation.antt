-- ===== src/Compat/Devices/Allocation.antt =====
-- The model summary does not depend on the order in which the GPUs were allocated.
use mathlib.Core.Path.{fun_ext}
use mathlib.Core.List.{Perm, Permᴰ}
use mathlib.Core.Logic.{∥∥₁_elim}
use snapshot.Prelude.{
  ℕ, ◌+◌, Str, ◌≡◌, refl, ap, ◌∙◌, sym, inl, inr, Bool, true, false, Option, none, some, List, [],
  ◌∷◌, ◌++◌, str_eq, str_eq_iff, contains, trim_space, if◌then◌else◌, arith, Bool-cases,
}
use snapshot.Compat.Types.{GpuDevice}
use snapshot.Compat.Devices.{
  bump, count_of, continue_with, count_models, keys, sort_strings, insert_sorted, render_model,
  summary, gpu_models,
}
use snapshot.Compat.Devices.Order.{
  sort_strings-snoc, insert_sorted_comm, contains-sort_strings, contains-insert_sorted,
}

abbrev Counts : Type 0
Counts = List (Str × ℕ)

-- Two maps that the loop and the summary cannot tell apart.
record SameCounts (c d : Counts) : Type 0 where
  count : (x : Str) → count_of x c ≡ count_of x d
  order : sort_strings (keys c) ≡ sort_strings (keys d)

count_of-bump :
    (x m : Str) (c : Counts)
    → count_of x (bump m c) ≡ (if str_eq m x then count_of x c + 1 else count_of x c)
unfolding count_of bump
count_of-bump x m [] = ground arith
count_of-bump x m ((j, n) ∷ c) =
    ground (arith, count_of-bump x m c, str_eq_iff j m, str_eq_iff m x, str_eq_iff j x)

keys-bump :
    (m : Str) (c : Counts)
    → keys (bump m c) ≡ (if contains m (keys c) then keys c else keys c ++ m ∷ [])
unfolding bump contains
keys-bump m [] = refl
keys-bump m ((j, n) ∷ c) = ground (arith, keys-bump m c, str_eq_iff j m, str_eq_iff m j)

abbrev add_key : Str → List Str → List Str
add_key m ks = if contains m ks then ks else insert_sorted m ks

add_key_swap : (a b : Str) (ks : List Str) → add_key a (add_key b ks) ≡ add_key b (add_key a ks)
add_key_swap a b ks = ground (
  arith,
  contains-insert_sorted a b ks,
  contains-insert_sorted b a ks,
  insert_sorted_comm a b ks,
  str_eq_iff a b,
  str_eq_iff b a,
)

sorted-bump :
    (m : Str) (c : Counts) → sort_strings (keys (bump m c)) ≡ add_key m (sort_strings (keys c))
sorted-bump m c =
    rw (contains-sort_strings, keys-bump)
      (elim (Bool-cases (contains m (keys c))) [
        | inl e ↦ rw e
        | inr e ↦ rw e (sort_strings-snoc (keys c) m)
      ])

bump-SameCounts : (m : Str) {c d : Counts} → SameCounts c d → SameCounts (bump m c) (bump m d)
bump-SameCounts m {c} {d} h = record {
  count = λ x. count_of-bump x m c ∙ rw (h.count x) (sym (count_of-bump x m d));
  order = sorted-bump m c ∙ rw h.order (sym (sorted-bump m d));
}

bump-swap : (a b : Str) (c : Counts) → SameCounts (bump a (bump b c)) (bump b (bump a c))
bump-swap a b c = record {
  count = λ x. ground (
    arith,
    count_of-bump x a (bump b c),
    count_of-bump x b c,
    count_of-bump x b (bump a c),
    count_of-bump x a c,
  );
  order =
      sorted-bump a (bump b c)
      ∙ ap (add_key a) (sorted-bump b c)
      ∙ add_key_swap a b (sort_strings (keys c))
      ∙ sym (ap (add_key b) (sorted-bump a c))
      ∙ sym (sorted-bump b (bump a c));
}

-- Two runs of the loop that end alike.
data SameRun : Option Counts → Option Counts → Type 0 where
  both_unknown : SameRun none none
  both_known : {c d : Counts} → SameCounts c d → SameRun (some c) (some d)

SameCounts-refl : (c : Counts) → SameCounts c c
SameCounts-refl c = record { count = λ x. refl; order = refl }

SameCounts-trans : {b c d : Counts} → SameCounts b c → SameCounts c d → SameCounts b d
SameCounts-trans h k = record { count = λ x. h.count x ∙ k.count x; order = h.order ∙ k.order }

SameRun-trans : {o p q : Option Counts} → SameRun o p → SameRun p q → SameRun o q
SameRun-trans both_unknown both_unknown = both_unknown
SameRun-trans (both_known h) (both_known k) = both_known (SameCounts-trans h k)

SameRun-continue_with :
    (b : Bool) {o p : Option Counts} → SameRun o p → SameRun (continue_with b o) (continue_with b p)
SameRun-continue_with true h = both_unknown
SameRun-continue_with false h = h

count_models-SameRun :
    (ds : List GpuDevice) {c d : Counts}
    → SameCounts c d
    → SameRun (count_models c ds) (count_models d ds)
unfolding count_models
count_models-SameRun [] h = both_known h
count_models-SameRun (x ∷ ds) h =
    SameRun-continue_with (str_eq (trim_space x.product_name) [])
      (count_models-SameRun ds (bump-SameCounts (trim_space x.product_name) h))

continue_with_swap :
    (a b : Bool) (o : Option Counts)
    → continue_with a (continue_with b o) ≡ continue_with b (continue_with a o)
continue_with_swap true true o = refl
continue_with_swap true false o = refl
continue_with_swap false b o = refl

count_models-swap :
    (a b : GpuDevice) (l : List GpuDevice) (c : Counts)
    → SameRun (count_models c (a ∷ b ∷ l)) (count_models c (b ∷ a ∷ l))
unfolding count_models
count_models-swap a b l c =
    let m = trim_space a.product_name in
    let n = trim_space b.product_name in
    rw (continue_with_swap (str_eq m [])) (
      SameRun-continue_with (str_eq n [])
        (SameRun-continue_with (str_eq m []) (count_models-SameRun l (bump-swap n m c))))

count_models-Permᴰ :
    {xs ys : List GpuDevice}
    → Permᴰ xs ys
    → (c : Counts) → SameRun (count_models c xs) (count_models c ys)
unfolding count_models
count_models-Permᴰ Permᴰ.nil c = both_known (SameCounts-refl c)
count_models-Permᴰ (Permᴰ.cons {b = b} e p) c = rw e (
    SameRun-continue_with (str_eq (trim_space b.product_name) [])
      (count_models-Permᴰ p (bump (trim_space b.product_name) c)))
count_models-Permᴰ (Permᴰ.swap {a' = a'} {b' = b'} {l = l} e f) c =
    rw (e, f) (count_models-swap b' a' l c)
count_models-Permᴰ (Permᴰ.trans p q) c =
    SameRun-trans (count_models-Permᴰ p c) (count_models-Permᴰ q c)

summary-SameRun : {o p : Option Counts} → SameRun o p → summary o ≡ summary p
unfolding render_model
summary-SameRun both_unknown = refl
summary-SameRun (both_known {c} {d} h) =
    let same : render_model c ≡ render_model d = fun_ext (λ m. rw (h.count m)) in rw (h.order, same)

abbrev is_nil : List GpuDevice → Bool
is_nil [] = true
is_nil (_ ∷ _) = false

is_nil-Permᴰ : {xs ys : List GpuDevice} → Permᴰ xs ys → is_nil xs ≡ is_nil ys
is_nil-Permᴰ Permᴰ.nil = refl
is_nil-Permᴰ (Permᴰ.cons e p) = refl
is_nil-Permᴰ (Permᴰ.swap e f) = refl
is_nil-Permᴰ (Permᴰ.trans p q) = is_nil-Permᴰ p ∙ is_nil-Permᴰ q

gpu_models-if :
    (xs : List GpuDevice)
    → gpu_models xs ≡ (if is_nil xs then none else summary (count_models [] xs))
unfolding gpu_models
gpu_models-if [] = refl
gpu_models-if (x ∷ xs) = refl

gpu_models-Permᴰ : {xs ys : List GpuDevice} → Permᴰ xs ys → gpu_models xs ≡ gpu_models ys
gpu_models-Permᴰ {xs} {ys} p =
    gpu_models-if xs
    ∙ rw (is_nil-Permᴰ p, summary-SameRun (count_models-Permᴰ p [])) (sym (gpu_models-if ys))

Summary-set : IsSet (Option Str)
Summary-set = hlevel

-- Two nodes that list the same GPUs in any order have the same model summary, or both have none.
pub gpu_models-perm : (xs ys : List GpuDevice) → Perm xs ys → gpu_models xs ≡ gpu_models ys
gpu_models-perm xs ys p = ∥∥₁_elim p (Summary-set _ _) gpu_models-Permᴰ
