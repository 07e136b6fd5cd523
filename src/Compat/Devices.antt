-- ===== src/Compat/Devices.antt =====
-- gpuModels of api/compat/checks.go: a summary of the models that ignores allocation order.
mod Order
pub mod Allocation
use snapshot.Prelude.{
  ℕ, suc, ◌+◌, Str, Bool, true, false, Option, none, some, List, [], ◌∷◌, ◌++◌, ◌==◌, ltb, map,
  str_eq, trim_space, itoa, join, codes, if◌then◌else◌,
}
use snapshot.Compat.Types.{GpuDevice}

-- Go's order on strings, by code points.
unfoldable pub str_leb : Str → Str → Bool
str_leb [] t = true
str_leb (a ∷ s) [] = false
str_leb (a ∷ s) (b ∷ t) =
    let rest = str_leb s t in if ltb a b then true else if a == b then rest else false

-- counts[model]++
unfoldable pub bump : Str → List (Str × ℕ) → List (Str × ℕ)
bump model [] = (model, 1) ∷ []
bump model ((m, n) ∷ counts) =
    if str_eq m model then (m, n + 1) ∷ counts else (m, n) ∷ bump model counts

-- counts[model]
unfoldable pub count_of : Str → List (Str × ℕ) → ℕ
count_of model [] = 0
count_of model ((m, n) ∷ counts) = if str_eq m model then n else count_of model counts

abbrev pub continue_with : Bool → Option (List (Str × ℕ)) → Option (List (Str × ℕ))
continue_with true rest = none
continue_with false rest = rest

-- The first loop, over the counts so far: `none` where a device has no name.
unfoldable pub count_models : List (Str × ℕ) → List GpuDevice → Option (List (Str × ℕ))
unfolding bump trim_space
count_models counts [] = some counts
count_models counts (device ∷ devices) =
    let model = trim_space device.product_name in
    continue_with (str_eq model []) (count_models (bump model counts) devices)

abbrev pub keys : List (Str × ℕ) → List Str
keys [] = []
keys ((m, n) ∷ counts) = m ∷ keys counts

-- sort.Strings
unfoldable pub insert_sorted : Str → List Str → List Str
unfolding str_leb
insert_sorted s [] = s ∷ []
insert_sorted s (t ∷ ts) = if str_leb s t then s ∷ t ∷ ts else t ∷ insert_sorted s ts

unfoldable pub sort_strings : List Str → List Str
unfolding insert_sorted
sort_strings [] = []
sort_strings (s ∷ ss) = insert_sorted s (sort_strings ss)

unfoldable pub render_model : List (Str × ℕ) → Str → Str
unfolding count_of
render_model counts model = model ++ (codes " x" ++ itoa (count_of model counts))

abbrev pub summary : Option (List (Str × ℕ)) → Option Str
summary none = none
summary (some counts) =
    some (join (codes ", ") (map (render_model counts) (sort_strings (keys counts))))

-- `none` where the models are unknown.
unfoldable pub gpu_models : List GpuDevice → Option Str
unfolding count_models render_model sort_strings
gpu_models [] = none
gpu_models (device ∷ devices) = summary (count_models [] (device ∷ devices))
