-- ===== src/Prelude/Returns.antt =====
-- What a Go call returns: a value, an error value, or a run-time panic.
use mathlib.Core.Path.{◌≡◌, refl}
use mathlib.Core.Logic.{◌⊎◌, inl, inr}
use Prim.Native.String.{String}
use Prim.Native.Nat.{ℕ}

-- The errors that the modelled packages build, one constructor for each format string. The
-- arguments are what the code formats into the message.
pub data Error : Type 0 where
  unsupported_stage unsupported_update unsupported_accumulator : String → Error
  missing_required not_in_enum invalid_type : String → Error
  missing_id : Error
  unsupported_id : String → Error
  duplicate_key : String → Error
  -- an error of a library, or one whose text is no more than that text
  library_error : String → Error
  -- a `*mongoerrors.Error`: its code, its name and its message
  command_error : ℕ → String → String → Error

pub data Result {ℓ} (A : Type ℓ) : Type ℓ where
  ok : A → Result A
  err : Error → Result A
  panic : Result A

-- `x, err := m; if err != nil { return err }`, and a panic goes up.
infixl 5 ◌>>=◌
abbrev pub ◌>>=◌ {ℓ κ} : {X : Type ℓ} {Y : Type κ} → Result X → (X → Result Y) → Result Y
panic >>= next = panic
err error >>= next = err error
ok x >>= next = next x

-- A bind that succeeds: both of its halves do.
pub >>=-eq-ok {ℓ κ} :
    {X : Type ℓ} {Y : Type κ} (first : Result X) (next : X → Result Y) {y : Y}
    → (first >>= next) ≡ ok y
    → (x : X) × (first ≡ ok x) × (next x ≡ ok y)
>>=-eq-ok panic next succeeds = cc
>>=-eq-ok (err error) next succeeds = cc
>>=-eq-ok (ok x) next succeeds = (x, refl, succeeds)

infixl 5 ◌>>◌
abbrev pub ◌>>◌ {ℓ} : {Y : Type ℓ} → Result (Unit {0}) → Result Y → Result Y
check >> last = check >>= λ _. last

pub >>=_assoc {ℓ} :
    {A B C : Type ℓ} (m : Result A) (f : A → Result B) (g : B → Result C)
    → (m >>= f >>= g) ≡ (m >>= λ a. f a >>= g)
>>=_assoc (ok a) f g = refl
>>=_assoc (err e) f g = refl
>>=_assoc panic f g = refl

pub >>=-ok {ℓ} : {A : Type ℓ} (m : Result A) → (m >>= λ a. ok a) ≡ m
>>=-ok (ok a) = refl
>>=-ok (err e) = refl
>>=-ok panic = refl

pub >>=-congr {ℓ κ} :
    {A : Type ℓ} {B : Type κ} (m : Result A) {f g : A → Result B}
    → ((a : A) → f a ≡ g a)
    → (m >>= f) ≡ (m >>= g)
>>=-congr (ok a) h = h a
>>=-congr (err e) h = refl
>>=-congr panic h = refl

pub Result-cases {ℓ} :
    {A : Type ℓ} (m : Result A)
    → ((a : A) × (m ≡ ok a)) ⊎ (((e : Error) × (m ≡ err e)) ⊎ (m ≡ panic))
Result-cases (ok a) = inl (a, refl)
Result-cases (err e) = inr (inl (e, refl))
Result-cases panic = inr (inr refl)

-- A step with no result in front of a return.
pub return-eq-ok {ℓ} :
    {A : Type ℓ} (m : Result (Unit {0})) (a : A) {b : A}
    → (m >>= λ _. ok a) ≡ ok b
    → (m ≡ ok tt) × (ok b ≡ ok a)
return-eq-ok (ok u) a h = (refl, cc)
return-eq-ok (err e) a h = cc
return-eq-ok panic a h = cc

pub ok-injective {ℓ} : {A : Type ℓ} {a b : A} → ok a ≡ ok b → a ≡ b
ok-injective h = cc
