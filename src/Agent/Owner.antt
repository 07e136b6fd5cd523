-- ===== src/Agent/Owner.antt =====
-- chooseActiveContent of agent/internal/controller/controller.go: which of the work orders that
-- name one pod owns it.
use snapshot.Prelude.{
  Str, ◌≡◌, refl, Bool, true, false, Option, none, some, List, [], ◌∷◌, if◌then◌else◌, arith,
}
use snapshot.Kube.Condition.{Meta}
use snapshot.Agent.Types.{WorkOrder}
use snapshot.Agent.Capture.{
  str_ltb, is_active, comes_first, better, choose_from, name_of, choose_active_content,
}

str_ltb_trans : (s t u : Str) → str_ltb s t ≡ true → str_ltb t u ≡ true → str_ltb s u ≡ true
unfolding str_ltb
str_ltb_trans [] [] u h k = grind arith
str_ltb_trans [] (b ∷ t) [] h k = grind arith
str_ltb_trans [] (b ∷ t) (c ∷ u) h k = refl
str_ltb_trans (a ∷ s) [] u h k = grind arith
str_ltb_trans (a ∷ s) (b ∷ t) [] h k = grind arith
str_ltb_trans (a ∷ s) (b ∷ t) (c ∷ u) h k = ground (arith, str_ltb_trans s t u)

str_ltb_irrefl : (s : Str) → str_ltb s s ≡ false
unfolding str_ltb
str_ltb_irrefl [] = refl
str_ltb_irrefl (a ∷ s) = ground (arith, str_ltb_irrefl s)

str_ltb_total : (s t : Str) → str_ltb s t ≡ false → str_ltb t s ≡ false → s ≡ t
unfolding str_ltb
str_ltb_total [] [] h k = refl
str_ltb_total [] (b ∷ t) h k = grind arith
str_ltb_total (a ∷ s) [] h k = grind arith
str_ltb_total (a ∷ s) (b ∷ t) h k = ground (arith, str_ltb_total s t)

pub data In : WorkOrder → List WorkOrder → Type 0 where
  here : {o : WorkOrder} {os : List WorkOrder} → In o (o ∷ os)
  there : {o p : WorkOrder} {os : List WorkOrder} → In o os → In o (p ∷ os)

module _ (m : Meta) where
  comes_first_trans :
      (x y z : WorkOrder)
      → comes_first m x y ≡ true
      → comes_first m y z ≡ true
      → comes_first m x z ≡ true
  comes_first_trans x y z h k =
      ground (arith, str_ltb_trans x.content.name y.content.name z.content.name)

  comes_first_irrefl : (x : WorkOrder) → comes_first m x x ≡ false
  comes_first_irrefl x = ground (arith, str_ltb_irrefl x.content.name)

  comes_first_total :
      (x y : WorkOrder)
      → comes_first m x y ≡ false
      → comes_first m y x ≡ false
      → x.content.name ≡ y.content.name
  comes_first_total x y h k = ground (arith, str_ltb_total x.content.name y.content.name)

  -- An order that does not come before the one that is chosen so far.
  abbrev NotBefore : WorkOrder → Option WorkOrder → Type 0
  NotBefore x none = is_active m x ≡ false
  NotBefore x (some c) = is_active m x ≡ true → comes_first m x c ≡ false

  replaced-NotBefore :
      (x o c : WorkOrder) (first : Bool)
      → comes_first m o c ≡ first
      → NotBefore x (some c)
      → NotBefore x (if first then some o else some c)
  replaced-NotBefore x o c true e h = λ k. ground (arith, comes_first_trans x o c, h k)
  replaced-NotBefore x o c false e h = h

  keeps-better :
      (x o : WorkOrder) (chosen : Option WorkOrder)
      → NotBefore x chosen
      → NotBefore x (better m o chosen)
  keeps-better x o none h = λ k. grind arith
  keeps-better x o (some c) h = replaced-NotBefore x o c (comes_first m o c) refl h

  keeps :
      (x o : WorkOrder) (chosen : Option WorkOrder) (active : Bool)
      → NotBefore x chosen
      → NotBefore x (if active then better m o chosen else chosen)
  keeps x o chosen true h = keeps-better x o chosen h
  keeps x o chosen false h = h

  first-NotBefore :
      (o c : WorkOrder) (first : Bool)
      → comes_first m o c ≡ first
      → NotBefore o (if first then some o else some c)
  first-NotBefore o c true e = λ k. comes_first_irrefl o
  first-NotBefore o c false e = λ k. e

  better-NotBefore : (o : WorkOrder) (chosen : Option WorkOrder) → NotBefore o (better m o chosen)
  better-NotBefore o none = λ k. comes_first_irrefl o
  better-NotBefore o (some c) = first-NotBefore o c (comes_first m o c) refl

  inactive-NotBefore :
      (o : WorkOrder) (chosen : Option WorkOrder) → is_active m o ≡ false → NotBefore o chosen
  inactive-NotBefore o none h = h
  inactive-NotBefore o (some c) h = λ k. grind arith

  takes :
      (o : WorkOrder) (chosen : Option WorkOrder) (active : Bool)
      → is_active m o ≡ active
      → NotBefore o (if active then better m o chosen else chosen)
  takes o chosen true e = better-NotBefore o chosen
  takes o chosen false e = inactive-NotBefore o chosen e

  choose_from-keeps :
      (x : WorkOrder) (orders : List WorkOrder) (chosen : Option WorkOrder)
      → NotBefore x chosen
      → NotBefore x (choose_from m chosen orders)
  unfolding choose_from
  choose_from-keeps x [] chosen h = h
  choose_from-keeps x (o ∷ os) chosen h =
      choose_from-keeps x os (if is_active m o then better m o chosen else chosen)
        (keeps x o chosen (is_active m o) h)

  choose_from-NotBefore :
      (x : WorkOrder) (orders : List WorkOrder) (chosen : Option WorkOrder)
      → In x orders
      → NotBefore x (choose_from m chosen orders)
  unfolding choose_from
  choose_from-NotBefore x [] chosen i = elim i [ ]
  choose_from-NotBefore x (o ∷ os) chosen here =
      choose_from-keeps x os (if is_active m x then better m x chosen else chosen)
        (takes x chosen (is_active m x) refl)
  choose_from-NotBefore x (o ∷ os) chosen (there i) =
      choose_from-NotBefore x os (if is_active m o then better m o chosen else chosen) i

  -- The chosen order is active and stands in the list.
  abbrev Stands : List WorkOrder → Option WorkOrder → Type 0
  Stands orders none = Unit
  Stands orders (some c) = (is_active m c ≡ true) × In c orders

  first-Stands :
      (orders : List WorkOrder) (o c : WorkOrder) (first : Bool)
      → Stands orders (some o)
      → Stands orders (some c)
      → Stands orders (if first then some o else some c)
  first-Stands orders o c true h k = h
  first-Stands orders o c false h k = k

  chosen-Stands :
      (orders : List WorkOrder) (o : WorkOrder) (chosen : Option WorkOrder) (active : Bool)
      → is_active m o ≡ active
      → In o orders
      → Stands orders chosen
      → Stands orders (if active then better m o chosen else chosen)
  chosen-Stands orders o chosen false e i h = h
  chosen-Stands orders o none true e i h = (e, i)
  chosen-Stands orders o (some c) true e i h = first-Stands orders o c (comes_first m o c) (e, i) h

  choose_from-Stands :
      (whole orders : List WorkOrder) (chosen : Option WorkOrder)
      → ((x : WorkOrder) → In x orders → In x whole)
      → Stands whole chosen
      → Stands whole (choose_from m chosen orders)
  unfolding choose_from
  choose_from-Stands whole [] chosen sub h = h
  choose_from-Stands whole (o ∷ os) chosen sub h =
      choose_from-Stands whole os (if is_active m o then better m o chosen else chosen)
        (λ x i. sub x (there i)) (chosen-Stands whole o chosen (is_active m o) refl (sub o here) h)

  same-choice :
      (xs ys : List WorkOrder) (c d : Option WorkOrder)
      → ((x : WorkOrder) → In x xs → NotBefore x c)
      → ((y : WorkOrder) → In y ys → NotBefore y d)
      → ((x : WorkOrder) → In x xs → In x ys)
      → ((y : WorkOrder) → In y ys → In y xs)
      → Stands xs c
      → Stands ys d
      → name_of m c ≡ name_of m d
  same-choice xs ys none none f g to from h k = refl
  same-choice xs ys none (some d) f g to from h (e, i) = let late = f d (from d i) in grind arith
  same-choice xs ys (some c) none f g to from (e, i) k = let late = g c (to c i) in grind arith
  same-choice xs ys (some c) (some d) f g to from (e, i) (e', i') =
      comes_first_total c d (g c (to c i) e) (f d (from d i') e')

  -- Two listings of the index that hold the same work orders, in whatever order and however
  -- often, choose the same one.
  pub choose_active_content_same :
      (xs ys : List WorkOrder)
      → ((x : WorkOrder) → In x xs → In x ys)
      → ((y : WorkOrder) → In y ys → In y xs)
      → choose_active_content m xs ≡ choose_active_content m ys
  unfolding choose_active_content
  choose_active_content_same xs ys to from =
      same-choice xs ys (choose_from m none xs) (choose_from m none ys)
        (λ x i. choose_from-NotBefore x xs none i) (λ y i. choose_from-NotBefore y ys none i) to
        from (choose_from-Stands xs xs none (λ x i. i) tt)
        (choose_from-Stands ys ys none (λ y i. i) tt)
