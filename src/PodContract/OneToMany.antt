-- ===== src/PodContract/OneToMany.antt =====
-- ValidateContainerMappings, against what it is to accept.
use snapshot.Prelude.{
  ◌≡◌, ◌≢◌, refl, ◌↔◌, Str, Bool, true, false, not, List, [], ◌∷◌, str_eq, str_eq_iff, contains,
  trim_space, map, All, if◌then◌else◌, arith,
}
use snapshot.Kube.Condition.{Message}
use snapshot.PodContract.Types.{ok, refused, Check, Validation, ContainerMapping}
use snapshot.PodContract.Mappings.{is_label, is_nil, validate_entries, validate_container_mappings}

-- No destination stands twice.
abbrev pub AreDistinct : List Str → Type 0
AreDistinct [] = Unit
AreDistinct (d ∷ ds) = All (λ e. e ≢ d) ds × AreDistinct ds

abbrev pub destinations : List ContainerMapping → List Str
destinations = map (λ m. m.destination)

if-ok :
    (b : Bool) (cause : Message) (rest : Check)
    → ((if b then refused cause else rest) ≡ ok tt) ↔ ((b ≡ false) × (rest ≡ ok tt))
if-ok true cause rest = (λ e. grind arith, λ e. grind arith)
if-ok false cause rest = (λ e. (refl, e), λ e. e.1)

not-false_iff : (b : Bool) → (not b ≡ false) ↔ (b ≡ true)
not-false_iff true = (λ _. refl, λ _. refl)
not-false_iff false = ground arith

-- A destination that is new to a longer list is new to the shorter one and not its head.
new_cons :
    (d x : Str) (seen : List Str)
    → (contains x (d ∷ seen) ≡ false) ↔ ((x ≢ d) × (contains x seen ≡ false))
unfolding contains
new_cons d x seen = ground (arith, str_eq_iff x d)

fresh_cons :
    (d : Str) (seen ds : List Str)
    → All (λ x. contains x (d ∷ seen) ≡ false) ds
      ↔ (All (λ x. x ≢ d) ds × All (λ x. contains x seen ≡ false) ds)
fresh_cons d seen [] = (λ _. (tt, tt), λ _. tt)
fresh_cons d seen (x ∷ ds) =
    let here = new_cons d x seen in
    let rest = fresh_cons d seen ds in
    (
      λ h. let (ne, new) = here.0 h.0 in let (nes, news) = rest.0 h.1 in ((ne, nes), (new, news)),
      λ h. (here.1 (h.0.0, h.1.0), rest.1 (h.0.1, h.1.1)),
    )

module _ (v : Validation) (captured : Str) where
  -- One entry that the rules allow.
  abbrev pub IsAllowed : ContainerMapping → Type 0
  IsAllowed m =
      (is_label v m.source ≡ true) × (is_label v m.destination ≡ true) × (m.source ≡ captured)

  abbrev Fits : List Str → List ContainerMapping → Type 0
  Fits seen ms =
      All IsAllowed ms
      × All (λ d. contains d seen ≡ false) (destinations ms)
      × AreDistinct (destinations ms)

  validate_entries_iff :
      (seen : List Str) (ms : List ContainerMapping)
      → (validate_entries v captured seen ms ≡ ok tt) ↔ Fits seen ms
  unfolding validate_entries
  validate_entries_iff seen [] = (λ _. (tt, tt, tt), λ _. refl)
  validate_entries_iff seen (m ∷ ms) =
      let rest = validate_entries_iff (m.destination ∷ seen) ms in
      let new = fresh_cons m.destination seen (destinations ms) in
      (
        λ e.
            let (a1, r1) = (if-ok (not (is_label v m.source)) _ _).0 e in
            let (a2, r2) = (if-ok (not (is_label v m.destination)) _ _).0 r1 in
            let (a3, r3) = (if-ok (not (str_eq m.source captured)) _ _).0 r2 in
            let (a4, r4) = (if-ok (contains m.destination seen) _ _).0 r3 in
            let (allowed, fresh, distinct) = rest.0 r4 in
            let (apart, news) = new.0 fresh in
            (
              (
                (
                  (not-false_iff _).0 a1,
                  (not-false_iff _).0 a2,
                  (str_eq_iff m.source captured).0 ((not-false_iff _).0 a3),
                ),
                allowed,
              ),
              (a4, news),
              (apart, distinct),
            ),
        λ ((ok1, allowed), (unseen, news), (apart, distinct)).
            rw (ok1.0, ok1.1, (str_eq_iff m.source captured).1 ok1.2, unseen)
              (rest.1 (allowed, new.1 (apart, news), distinct)),
      )

none_seen : (ds : List Str) → All (λ d. contains d [] ≡ false) ds
unfolding contains
none_seen [] = tt
none_seen (d ∷ ds) = (refl, none_seen ds)

is_nil_iff : (ms : List ContainerMapping) → (is_nil ms ≡ false) ↔ (ms ≢ [])
is_nil_iff [] = (λ e. grind arith, λ ne. elim (ne refl) [ ])
is_nil_iff (m ∷ ms) = (λ _ e. grind arith, λ _. refl)

-- The mappings are accepted exactly when the captured container and every name in them are
-- labels, there is a mapping, every source is the captured container, and no destination stands
-- twice.
pub validate_container_mappings_iff :
    (v : Validation) (captured : Str) (ms : List ContainerMapping)
    → (validate_container_mappings v ms captured ≡ ok tt) ↔ (
        (is_label v (trim_space captured) ≡ true)
        × (ms ≢ [])
        × All (IsAllowed v (trim_space captured)) ms
        × AreDistinct (destinations ms))
unfolding validate_container_mappings
validate_container_mappings_iff v captured ms =
    let entries = validate_entries_iff v (trim_space captured) [] ms in
    (
      λ e.
          let (a1, r1) = (if-ok (not (is_label v (trim_space captured))) _ _).0 e in
          let (a2, r2) = (if-ok (is_nil ms) _ _).0 r1 in
          let (allowed, _, distinct) = entries.0 r2 in
          ((not-false_iff _).0 a1, (is_nil_iff ms).0 a2, allowed, distinct),
      λ (label, some, allowed, distinct).
          rw (label, (is_nil_iff ms).1 some)
            (entries.1 (allowed, none_seen (destinations ms), distinct)),
    )
