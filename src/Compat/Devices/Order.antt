-- ===== src/Compat/Devices/Order.antt =====
-- Go's order on strings is total, and sorting by insertion forgets the order of its input.
use snapshot.Prelude.{
  Str, ◌≡◌, refl, ap, ◌∙◌, true, false, List, [], ◌∷◌, ◌++◌, ◌||◌, str_eq, contains, arith,
}
use snapshot.Compat.Devices.{str_leb, insert_sorted, sort_strings}

pub str_leb_total : (s t : Str) → str_leb s t ≡ false → str_leb t s ≡ true
unfolding str_leb
str_leb_total [] t h = cc
str_leb_total (a ∷ s) [] h = refl
str_leb_total (a ∷ s) (b ∷ t) h = ground (arith, str_leb_total s t)

pub str_leb_antisym : (s t : Str) → str_leb s t ≡ true → str_leb t s ≡ true → s ≡ t
unfolding str_leb
str_leb_antisym [] [] h k = refl
str_leb_antisym [] (b ∷ t) h k = cc
str_leb_antisym (a ∷ s) [] h k = cc
str_leb_antisym (a ∷ s) (b ∷ t) h k = ground (arith, str_leb_antisym s t)

pub str_leb_trans : (s t u : Str) → str_leb s t ≡ true → str_leb t u ≡ true → str_leb s u ≡ true
unfolding str_leb
str_leb_trans [] t u h k = refl
str_leb_trans (a ∷ s) [] u h k = cc
str_leb_trans (a ∷ s) (b ∷ t) [] h k = cc
str_leb_trans (a ∷ s) (b ∷ t) (c ∷ u) h k = ground (arith, str_leb_trans s t u)

pub insert_sorted_comm :
    (a b : Str) (l : List Str)
    → insert_sorted a (insert_sorted b l) ≡ insert_sorted b (insert_sorted a l)
unfolding insert_sorted
insert_sorted_comm a b [] =
    ground (arith, str_leb_total a b, str_leb_antisym a b, str_leb_total b a, str_leb_antisym b a)
insert_sorted_comm a b (t ∷ l) = ground (
  arith,
  insert_sorted_comm a b l,
  str_leb_total a b,
  str_leb_antisym a b,
  str_leb_total b a,
  str_leb_total a t,
  str_leb_total b t,
  str_leb_trans a b t,
  str_leb_trans b a t,
  str_leb_trans a t b,
  str_leb_trans b t a,
)

pub sort_strings-snoc :
    (l : List Str) (m : Str) → sort_strings (l ++ m ∷ []) ≡ insert_sorted m (sort_strings l)
unfolding sort_strings
sort_strings-snoc [] m = refl
sort_strings-snoc (x ∷ l) m =
    ap (insert_sorted x) (sort_strings-snoc l m) ∙ insert_sorted_comm x m (sort_strings l)

pub contains-insert_sorted :
    (x s : Str) (l : List Str) → contains x (insert_sorted s l) ≡ (str_eq x s || contains x l)
unfolding insert_sorted contains
contains-insert_sorted x s [] = refl
contains-insert_sorted x s (t ∷ l) = ground (arith, contains-insert_sorted x s l)

pub contains-sort_strings : (x : Str) (l : List Str) → contains x (sort_strings l) ≡ contains x l
unfolding sort_strings contains
contains-sort_strings x [] = refl
contains-sort_strings x (s ∷ l) =
    contains-insert_sorted x s (sort_strings l)
    ∙ ap (λ b. str_eq x s || b) (contains-sort_strings x l)
