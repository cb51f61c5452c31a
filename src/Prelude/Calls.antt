-- ===== src/Prelude/Calls.antt =====
-- A call on a state that may fail: the state after it, and the result. What was written before an
-- error stays written.
use mathlib.Core.Bool.{Bool, true, false}
use mathlib.Core.Path.{◌≡◌, refl}
use timongo.Prelude.Tests.{if◌then◌else◌}
use timongo.Prelude.Returns.{Error, Result, ok, err, panic}

abbrev pub Call {ℓ κ} : Type ℓ → Type κ → Type (ℓ ⊔ κ)
Call S A = S → S × Result A

abbrev pub and_then {ℓ κ μ} :
    {S : Type ℓ} {A : Type κ} {B : Type μ} → S × Result A → (A → Call S B) → S × Result B
and_then (s, ok a) f = f a s
and_then (s, err e) f = (s, err e)
and_then (s, panic) f = (s, panic)

pub and_then-ok {ℓ κ μ} :
    {S : Type ℓ} {A : Type κ} {B : Type μ} (p : S × Result A) (f : A → Call S B) (a : A)
    → p.1 ≡ ok a
    → and_then p f ≡ f a p.0
and_then-ok (s, r) f a h = rw h refl

infixl 5 ◌>>=◌
abbrev pub ◌>>=◌ {ℓ κ μ} :
    {S : Type ℓ} {A : Type κ} {B : Type μ} → Call S A → (A → Call S B) → Call S B
◌>>=◌ m f s = and_then (m s) f

infixl 5 ◌>>◌
abbrev pub ◌>>◌ {ℓ κ} : {S : Type ℓ} {B : Type κ} → Call S (Unit {0}) → Call S B → Call S B
m >> k = m >>= λ _. k

-- What leaves the state alone.
abbrev pub lift {ℓ κ} : {S : Type ℓ} {A : Type κ} → Result A → Call S A
lift r s = (s, r)

abbrev pub done {ℓ κ} : {S : Type ℓ} {A : Type κ} → A → Call S A
done a = lift (ok a)

-- What holds of a call that goes on after another one.
pub and_then-case {ℓ κ μ ν} :
    {S : Type ℓ} {A : Type κ} {B : Type μ} (Q : S × Result B → Type ν) (p : S × Result A)
    (f : A → Call S B)
    → ((a : A) → p.1 ≡ ok a → Q (f a p.0))
    → ((e : Error) → p.1 ≡ err e → Q (p.0, err e))
    → (p.1 ≡ panic → Q (p.0, panic))
    → Q (and_then p f)
and_then-case Q (s, ok a) f h h' h'' = h a refl
and_then-case Q (s, err e) f h h' h'' = h' e refl
and_then-case Q (s, panic) f h h' h'' = h'' refl

-- What a computation keeps, whether it succeeds or not, and a rule for each way to compose.
module _ {ℓ} {S : Type 0} (Inv : S → Type ℓ) where
  abbrev pub Keeps : {A : Type 0} → Call S A → Type ℓ
  Keeps m = (s : S) → Inv s → Inv (m s).0

  pub Keeps-lift :
      {A B : Type 0} (r : Result A) (f : A → Call S B)
      → ((a : A) → Keeps (f a))
      → Keeps (lift r >>= f)
  Keeps-lift (ok a) f h s i = h a s i
  Keeps-lift (err e) f h s i = i
  Keeps-lift panic f h s i = i

  kept :
      {A B : Type 0} (p : S × Result A) (f : A → Call S B)
      → Inv p.0
      → ((a : A) → Keeps (f a))
      → Inv (and_then p f).0
  kept (s, ok a) f i h = h a s i
  kept (s, err e) f i h = i
  kept (s, panic) f i h = i

  pub Keeps-seq :
      {A B : Type 0} (m : Call S A) (f : A → Call S B)
      → Keeps m
      → ((a : A) → Keeps (f a))
      → Keeps (m >>= f)
  Keeps-seq m f h h' s i = kept (m s) f (h s i) h'

  pub Keeps-if :
      {A : Type 0} (b : Bool) (m m' : Call S A)
      → (b ≡ true → Keeps m)
      → Keeps m'
      → Keeps (if b then m else m')
  Keeps-if true m m' h h' = h refl
  Keeps-if false m m' h h' = h'

-- A call that went on and succeeded: both of its halves did.
pub and_then-eq-ok {ℓ κ μ} :
    {S : Type ℓ} {A : Type κ} {B : Type μ} (p : S × Result A) (f : A → Call S B) {b : B}
    → (and_then p f).1 ≡ ok b
    → (a : A) × (p.1 ≡ ok a) × (and_then p f ≡ f a p.0) × ((f a p.0).1 ≡ ok b)
and_then-eq-ok (s, ok a) f h = (a, refl, refl, h)
and_then-eq-ok (s, err e) f h = cc
and_then-eq-ok (s, panic) f h = cc
