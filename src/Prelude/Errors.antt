-- ===== src/Prelude/Errors.antt =====
-- What the program raises, and computations that may raise it.
use Prim.Native.Nat.{ℕ}
use Prim.Native.String.{String}
use mathlib.Core.Path.{◌≡◌, refl, ap, ◌∙◌, subst}
use mathlib.Core.Logic.{◌⊎◌, inl, inr}
use mathlib.Core.List.{List}

-- One constructor for each exception that the modelled code raises. `out_of_fuel` is no exception
-- of the program: it marks a loop of the model that was given too few rounds.
pub data Error : Type 0 where
  unknown_revision : String → Error
  unknown_branch : String → Error
  ambiguous_merge_base : String → String → List String → Error
  nothing_to_merge : String → String → Error
  circular_dependency : List ℕ → Error
  bridge_error : Error
  key_error type_error value_error assertion_error stop_iteration token_already_used out_of_fuel :
      Error
  unknown_table : String → Error
  unknown_column : String → Error
  unknown_index : String → Error

pub data Result {ℓ} (A : Type ℓ) : Type ℓ where
  ok : A → Result A
  err : Error → Result A

infixl 5 ◌>>=◌ ◌>>◌
abbrev pub ◌>>=◌ {ℓ μ} : {A : Type ℓ} {B : Type μ} (r : Result A) (go : A → Result B) → Result B
err raised >>= go = err raised
ok value >>= go = go value

abbrev pub ◌>>◌ {ℓ} : {B : Type ℓ} (check : Result (Unit {0})) (rest : Result B) → Result B
check >> rest = check >>= λ _. rest

pub Result-cases {ℓ} :
    {A : Type ℓ} (r : Result A) → ((a : A) × (r ≡ ok a)) ⊎ ((e : Error) × (r ≡ err e))
Result-cases (ok a) = inl (a, refl)
Result-cases (err e) = inr (e, refl)

-- A property of the value, where the computation returns one.
abbrev pub OnOk {ℓ κ} : {A : Type ℓ} → (A → Type κ) → Result A → Type κ
OnOk P (ok a) = P a
OnOk P (err e) = Unit

pub of_OnOk {ℓ κ} : {A : Type ℓ} (P : A → Type κ) (r : Result A) {a : A} → OnOk P r → r ≡ ok a → P a
of_OnOk P r h q = subst (OnOk P) q h

-- A computation that raises nothing.
abbrev pub Returns {ℓ} : {A : Type ℓ} → Result A → Type ℓ
Returns {A} r = (a : A) × (r ≡ ok a)

pub bind-Returns {ℓ κ} :
    {A : Type ℓ} {B : Type κ} (r : Result A) (go : A → Result B)
    → Returns r
    → ((a : A) → Returns (go a))
    → Returns (r >>= go)
bind-Returns r go (a, q) h = let (b, p) = h a in (b, ap (◌>>= go) q ∙ p)

-- It raises nothing, and its value has the property.
abbrev pub Gives {ℓ κ} : {A : Type ℓ} → (A → Type κ) → Result A → Type (ℓ ⊔ κ)
Gives {A} P r = (a : A) × (r ≡ ok a) × P a

pub bind-Gives {ℓ κ μ ν} :
    {A : Type ℓ} {B : Type κ} {P : A → Type μ} {Q : B → Type ν} (r : Result A) (go : A → Result B)
    → Gives P r
    → ((a : A) → P a → Gives Q (go a))
    → Gives Q (r >>= go)
bind-Gives r go (a, q, p) h = let (b, done, is) = h a p in (b, ap (◌>>= go) q ∙ done, is)
