-- ===== src/Handler/Calls/Rules.antt =====
-- What a computation on the store ensures, and one rule for each way to compose.
use timongo.Prelude.{
  all-append, String, Bool, true, List, [], ◌∷◌, ◌++◌, all, ◌≡◌, refl, sym, ap, ◌∙◌, Result, ok,
  err, panic, arith, Error, subst,
}
use timongo.Prelude.Calls.{Call, and_then, ◌>>=◌, lift, done}
use timongo.Value.{Doc}
use timongo.Mql.Schema.{text_or_empty}
use timongo.Mql.Path.{or_nil}
use timongo.Prelude.Dict.{lookup}
use timongo.Backend.{BackendStore}
use timongo.Handler.Arguments.{required_string}
use timongo.Backend.Calls.{StoreCall, perform, perform_all}

-- A result that is there has the property.
abbrev pub AfterOk {ℓ} : {A : Type 0} → (A → Type ℓ) → Result A → Type ℓ
AfterOk Q (ok a) = Q a
AfterOk Q (err e) = Unit
AfterOk Q panic = Unit

pub required_string-ok :
    {F : Type 0} (cmd : Doc F) (key v : String)
    → required_string cmd key ≡ ok v
    → v ≡ text_or_empty (or_nil (lookup key cmd))
unfolding required_string
required_string-ok cmd key v h = ground arith

module _ {F S : Type 0} (store : BackendStore F S) (P : StoreCall F → Bool) where
  -- The state after it is that after some calls which `P` permits, and a result has the property.
  abbrev pub Ensures : {A : Type 0} → (A → Type 0) → Call S A → Type 0
  Ensures Q m =
      (s : S)
      → (calls : List (StoreCall F)) × (all P calls ≡ true)
        × ((m s).0 ≡ perform_all store calls s)
        × AfterOk Q (m s).1

  perform_all-append :
      (cs ds : List (StoreCall F)) (s : S)
      → perform_all store (cs ++ ds) s ≡ perform_all store ds (perform_all store cs s)
  perform_all-append [] ds s = refl
  perform_all-append (c ∷ cs) ds s = perform_all-append cs ds (perform store c s)

  all-joined :
      (cs ds : List (StoreCall F)) → all P cs ≡ true → all P ds ≡ true → all P (cs ++ ds) ≡ true
  all-joined cs ds h k = rw (all-append P cs ds, h, k) refl

  pub Ensures-done : {A : Type 0} (Q : A → Type 0) (a : A) → Q a → Ensures Q (done a)
  Ensures-done Q a q s = ([], refl, refl, q)

  pub Ensures-err : {A : Type 0} (Q : A → Type 0) (e : Error) → Ensures Q (lift (err e))
  Ensures-err Q e s = ([], refl, refl, tt)

  pub Ensures-lift :
      {A B : Type 0} (Q : B → Type 0) (r : Result A) (f : A → Call S B)
      → ((a : A) → r ≡ ok a → Ensures Q (f a))
      → Ensures Q (lift r >>= f)
  Ensures-lift Q (ok a) f h s = h a refl s
  Ensures-lift Q (err e) f h s = ([], refl, refl, tt)
  Ensures-lift Q panic f h s = ([], refl, refl, tt)

  after_calls :
      {A B : Type 0} (Q : B → Type 0) (calls : List (StoreCall F)) (p : S × Result A)
      (f : A → Call S B) (s : S)
      → all P calls ≡ true
      → p.0 ≡ perform_all store calls s
      → ((a : A) → Ensures Q (f a))
      → (cs : List (StoreCall F)) × (all P cs ≡ true)
        × ((and_then p f).0 ≡ perform_all store cs s)
        × AfterOk Q (and_then p f).1
  after_calls Q calls (s', ok a) f s allowed e h =
      let (rest, permitted, state, reply) = h a s' in
      (
        calls ++ rest,
        all-joined calls rest allowed permitted,
        state ∙ ap (perform_all store rest) e ∙ sym (perform_all-append calls rest s),
        reply,
      )
  after_calls Q calls (s', err x) f s allowed e h = (calls, allowed, e, tt)
  after_calls Q calls (s', panic) f s allowed e h = (calls, allowed, e, tt)

  -- One call of the store, and then the rest.
  pub Ensures-call :
      {A B : Type 0} (Q : B → Type 0) (c : StoreCall F) (m : Call S A) (f : A → Call S B)
      → ((s : S) → (m s).0 ≡ perform store c s)
      → P c ≡ true
      → ((a : A) → Ensures Q (f a))
      → Ensures Q (m >>= f)
  Ensures-call Q c m f e permitted h s =
      after_calls Q (c ∷ []) (m s) f s (rw permitted refl) (e s) h

  -- A computation, and then the rest.
  pub Ensures-seq :
      {A B : Type 0} (Q : B → Type 0) (m : Call S A) (f : A → Call S B)
      → Ensures (λ _. Unit {0}) m
      → ((a : A) → Ensures Q (f a))
      → Ensures Q (m >>= f)
  Ensures-seq Q m f h h' s =
      let (calls, allowed, e, _) = h s in after_calls Q calls (m s) f s allowed e h'

  -- A field such as `$db`: what follows has its text.
  pub Ensures-required :
      {B : Type 0} (Q : B → Type 0) (cmd : Doc F) (key : String) (f : String → Call S B)
      → Ensures Q (f (text_or_empty (or_nil (lookup key cmd))))
      → Ensures Q (lift (required_string cmd key) >>= f)
  Ensures-required Q cmd key f h =
      Ensures-lift Q (required_string cmd key) f
        λ v e. subst (λ w. Ensures Q (f w)) (sym (required_string-ok cmd key v e)) h
