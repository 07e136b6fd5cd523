-- ===== src/Kube/Prog.antt =====
-- A handler as a program: it calls an operation, and goes on from the answer, which is not known
-- when the call is made. So a theorem about a program holds whatever the others do meanwhile.
use snapshot.Prelude.{◌≡◌, refl, List, ◌∷◌, Bool, true, false, if◌then◌else◌}

module _ (Op : Type 0) (Ans : Op → Type 0) where
  pub data Prog (A : Type 0) : Type 0 where
    done : A → Prog A
    call : (o : Op) → (Ans o → Prog A) → Prog A

  -- What has been called and answered, the latest first.
  abbrev pub Trace : Type 0
  Trace = List ((o : Op) × Ans o)

module _ {Op : Type 0} {Ans : Op → Type 0} where
  abbrev pub ask : (o : Op) → Prog Op Ans (Ans o)
  ask o = call o done

  infixl 5 ◌>>=◌ ◌>>◌
  abbrev pub ◌>>=◌ : {A B : Type 0} → Prog Op Ans A → (A → Prog Op Ans B) → Prog Op Ans B
  done a >>= f = f a
  call o k >>= f = call o (λ x. k x >>= f)

  abbrev pub ◌>>◌ : {A B : Type 0} → Prog Op Ans A → Prog Op Ans B → Prog Op Ans B
  m >> n = m >>= λ _. n

  module _ {A : Type 0} (Allowed : Trace Op Ans → Op → Type 0)
      (Ends : Trace Op Ans → A → Type 0) where
    -- Every call is allowed after what was called before it, and the program ends well.
    pub data Holds : Trace Op Ans → Prog Op Ans A → Type 0 where
      ends : {t : Trace Op Ans} {a : A} → Ends t a → Holds t (done a)
      calls :
          {t : Trace Op Ans} {o : Op} {k : Ans o → Prog Op Ans A}
          → Allowed t o
          → ((x : Ans o) → Holds ((o, x) ∷ t) (k x))
          → Holds t (call o k)

  module _ {A : Type 0} {Allowed : Trace Op Ans → Op → Type 0}
      {Ends : Trace Op Ans → A → Type 0} where
    pub Holds-if :
        {t : Trace Op Ans} {m n : Prog Op Ans A} (b : Bool)
        → (b ≡ true → Holds Allowed Ends t m)
        → (b ≡ false → Holds Allowed Ends t n)
        → Holds Allowed Ends t (if b then m else n)
    Holds-if true hm hn = hm refl
    Holds-if false hm hn = hn refl

  module _ {A : Type 0} {Allowed Allowed' : Trace Op Ans → Op → Type 0}
      {Ends : Trace Op Ans → A → Type 0} where
    -- Calls that are allowed are allowed under any weaker rule.
    pub Holds-mono :
        {t : Trace Op Ans} {p : Prog Op Ans A}
        → ((t : Trace Op Ans) (o : Op) → Allowed t o → Allowed' t o)
        → Holds Allowed Ends t p
        → Holds Allowed' Ends t p
    Holds-mono weaker (ends e) = ends e
    Holds-mono weaker (calls a k) = calls (weaker _ _ a) (λ x. Holds-mono weaker (k x))

  module _ {A B : Type 0} {Allowed : Trace Op Ans → Op → Type 0} {Ends : Trace Op Ans → A → Type 0}
      {Ends' : Trace Op Ans → B → Type 0} (Known : Trace Op Ans → Type 0)
      (grow : (t : Trace Op Ans) (o : Op) (x : Ans o) → Known t → Known ((o, x) ∷ t)) where
    -- One program after the other, with what is known of the calls before both.
    pub Holds-bind :
        {t : Trace Op Ans} {p : Prog Op Ans A} {f : A → Prog Op Ans B}
        → Known t
        → Holds Allowed Ends t p
        → ((s : Trace Op Ans) (a : A) → Known s → Ends s a → Holds Allowed Ends' s (f a))
        → Holds Allowed Ends' t (p >>= f)
    Holds-bind known (ends e) h = h _ _ known e
    Holds-bind known (calls a k) h = calls a (λ x. Holds-bind (grow _ _ x known) (k x) h)

  module _ {A : Type 0} {Allowed : Trace Op Ans → Op → Type 0} {Ends : Trace Op Ans → A → Type 0}
      (Known : Trace Op Ans → Type 0)
      (grow : (t : Trace Op Ans) (o : Op) (x : Ans o) → Known t → Known ((o, x) ∷ t)) where
    -- What is known before a program is known at each of its calls.
    pub Holds-recall :
        {t : Trace Op Ans} {p : Prog Op Ans A}
        → Known t
        → Holds Allowed Ends t p
        → Holds (λ s o. Known s × Allowed s o) Ends t p
    Holds-recall known (ends e) = ends e
    Holds-recall known (calls a k) = calls (known, a) (λ x. Holds-recall (grow _ _ x known) (k x))

  -- The program run against a world that answers.
  unfoldable pub run : {S A : Type 0} → ((o : Op) → S → Ans o × S) → Prog Op Ans A → S → A × S
  run world (done a) s = (a, s)
  run world (call o k) s = let (x, s') = world o s in run world (k x) s'

-- The rules for the ways to build a program.
pub ruleset program_rules = (ends, calls, Holds-if)
