-- ===== src/Base/Results.antt =====
-- The outcome of a Go function: a result, a returned error, or a panic.
use mathlib.Core.Path.{◌≡◌, refl}
use mathlib.Core.Bool.{Bool, true, false}
use mathlib.Core.Logic.{◌⊎◌, inl, inr}
use mathlib.Core.Option.{Option, none, some}
use tinydfs_master.Base.Strings.{GoString}

-- The errors that `fmt.Errorf` makes, one constructor for each format.
pub data Error : Type 0 where
  path_not_exist : GoString → Error
  current_path_not_exist : GoString → Error
  target_path_not_exist : GoString → Error
  path_has_same_name : GoString → Error
  target_has_same_name : GoString → Error
  data_node_not_exist : GoString → Error

pub data Result {ℓ} (A : Type ℓ) : Type ℓ where
  -- a nil dereference, a write to a nil map, or an index out of range
  panic : Result A
  err : Error → Result A
  ok : A → Result A

infixl 5 ◌>>=◌ ◌>>◌
abbrev pub ◌>>=◌ {κ μ} : {X : Type κ} {Y : Type μ} → Result X → (X → Result Y) → Result Y
panic >>= next = panic
err e >>= next = err e
ok x >>= next = next x

abbrev pub ◌>>◌ {μ} : {Y : Type μ} → Result (Unit {0}) → Result Y → Result Y
test >> rest = test >>= λ _. rest

-- `if b { return nil, e }`
abbrev pub fail_if : Bool → Error → Result (Unit {0})
fail_if true e = err e
fail_if false e = ok tt

-- `if x != nil { return nil, e }`
abbrev pub fail_if_some {ℓ} : {A : Type ℓ} → Option A → Error → Result (Unit {0})
fail_if_some none e = ok tt
fail_if_some (some a) e = err e

-- `if !isExist { return nil, e }`
abbrev pub or_fail {ℓ} : {A : Type ℓ} → Option A → Error → Result A
or_fail none e = err e
or_fail (some a) e = ok a

-- A field or method of a nil pointer is a panic.
abbrev pub deref {ℓ} : {A : Type ℓ} → Option A → Result A
deref none = panic
deref (some a) = ok a

pub Result-cases {ℓ} :
    {A : Type ℓ} (r : Result A)
    → ((a : A) × (r ≡ ok a)) ⊎ (((e : Error) × (r ≡ err e)) ⊎ (r ≡ panic))
Result-cases (ok a) = inl (a, refl)
Result-cases (err e) = inr (inl (e, refl))
Result-cases panic = inr (inr refl)

pub ok-injective {ℓ} : {A : Type ℓ} {a b : A} → ok a ≡ ok b → a ≡ b
ok-injective e = cc

-- Inversion of a successful chain by steps, each passing on what its success shows.
module _ {ℓ κ} {B : Type ℓ} {b : B} (C : Type κ) where
  pub after_bind {μ} :
      {A : Type μ} (m : Result A) (f : A → Result B)
      → (m >>= f) ≡ ok b
      → ((a : A) → m ≡ ok a → f a ≡ ok b → C)
      → C
  after_bind (ok a) f h k = k a refl h
  after_bind (err e) f h k = cc
  after_bind panic f h k = cc

  pub after_or_fail {μ} :
      {A : Type μ} (o : Option A) (e : Error) (f : A → Result B)
      → (or_fail o e >>= f) ≡ ok b
      → ((a : A) → o ≡ some a → f a ≡ ok b → C)
      → C
  after_or_fail none e f h k = cc
  after_or_fail (some a) e f h k = k a refl h

  pub after_deref {μ} :
      {A : Type μ} (o : Option A) (f : A → Result B)
      → (deref o >>= f) ≡ ok b
      → ((a : A) → o ≡ some a → f a ≡ ok b → C)
      → C
  after_deref none f h k = cc
  after_deref (some a) f h k = k a refl h

  pub after_fail_if :
      (t : Bool) (e : Error) (r : Result B)
      → (fail_if t e >> r) ≡ ok b
      → (t ≡ false → r ≡ ok b → C)
      → C
  after_fail_if true e r h k = cc
  after_fail_if false e r h k = k refl h

  pub after_fail_if_some {μ} :
      {A : Type μ} (o : Option A) (e : Error) (r : Result B)
      → (fail_if_some o e >> r) ≡ ok b
      → (o ≡ none → r ≡ ok b → C)
      → C
  after_fail_if_some none e r h k = k refl h
  after_fail_if_some (some a) e r h k = cc
