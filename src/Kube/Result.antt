-- ===== src/Kube/Result.antt =====
-- A Go function's value and error.
use snapshot.Prelude.{◌≡◌, refl, Bool, true, false, if◌then◌else◌, arith}
use snapshot.Kube.Condition.{Message}

pub data Result {ℓ} (A : Type ℓ) : Type ℓ where
  ok : A → Result A
  refused : Message → Result A

module _ {ℓ κ} {A : Type ℓ} {B : Type κ} where
  infixl 5 ◌>>=◌ ◌>>◌
  abbrev pub ◌>>=◌ : Result A → (A → Result B) → Result B
  ok a >>= f = f a
  refused e >>= f = refused e

  abbrev pub ◌>>◌ : Result A → Result B → Result B
  m >> n = m >>= λ _. n

pub bind-ok {ℓ κ} :
    {A : Type ℓ} {B : Type κ} (m : Result A) {f : A → Result B} {b : B}
    → (m >>= f) ≡ ok b
    → (a : A) × (m ≡ ok a) × (f a ≡ ok b)
bind-ok (ok a) h = (a, refl, h)
bind-ok (refused e) h = grind arith

pub ok-injective : {A : Type 0} {a b : A} → ok a ≡ ok b → a ≡ b
ok-injective e = cc

-- A guard that did not refuse.
pub guard-ok :
    {A : Type 0} (b : Bool) (cause : Message) (x : Result A) {a : A}
    → (if b then refused cause else x) ≡ ok a
    → (b ≡ false) × (x ≡ ok a)
guard-ok true cause x e = grind arith
guard-ok false cause x e = (refl, e)
