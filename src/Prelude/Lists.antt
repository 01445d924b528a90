-- ===== src/Prelude/Lists.antt =====
-- Lists measured by native numbers, and membership as the program tests it (`x in xs`).
use Prim.Native.Nat.{ℕ, zero, suc, ◌+◌, ◌≤◌}
use mathlib.Core.Path.{◌≡◌, refl, ap, sym, ◌∙◌}
use mathlib.Core.Logic.{◌⊎◌, inl, inr}
use mathlib.Core.Bool.{Bool, true, false, not, ◌||◌, ◌&&◌}
use mathlib.Core.Option.{Option, none, some}
use mathlib.Core.List.{List, [], ◌∷◌, ◌++◌}
use native.Mathlib.Omega.{arith}
use db_version_control.Prelude.Tests.{Eq, ◌==◌, if◌then◌else◌, Bool-cases}

module _ {ℓ} {A : Type ℓ} where
  abbrev pub length : List A → ℕ
  length [] = 0
  length (x ∷ xs) = suc (length xs)

  abbrev pub get_elem? : List A → ℕ → Option A
  get_elem? [] i = none
  get_elem? (x ∷ xs) zero = some x
  get_elem? (x ∷ xs) (suc i) = get_elem? xs i

  pub List-cases : (xs : List A) → (xs ≡ []) ⊎ ((x : A) × (rest : List A) × (xs ≡ x ∷ rest))
  List-cases [] = inl refl
  List-cases (x ∷ xs) = inr (x, xs, refl)

  pub length-append : (xs ys : List A) → length (xs ++ ys) ≡ length xs + length ys
  length-append [] ys = omega arith
  length-append (x ∷ xs) ys = omega (arith, length-append xs ys)

  abbrev pub All {κ} : (A → Type κ) → List A → Type κ
  All P [] = Unit
  All P (x ∷ xs) = P x × All P xs

  pub All-append {κ} : (P : A → Type κ) (xs ys : List A) → All P xs → All P ys → All P (xs ++ ys)
  All-append P [] ys h k = k
  All-append P (x ∷ xs) ys h k = (h.0, All-append P xs ys h.1 k)

  pub All-map_of {κ μ} :
      {P : A → Type κ} {Q : A → Type μ} (xs : List A) → ((x : A) → P x → Q x) → All P xs → All Q xs
  All-map_of [] f h = tt
  All-map_of (x ∷ xs) f h = (f x h.0, All-map_of xs f h.1)

  -- The elements that pass a test, in order (a list comprehension with `if`).
  unfoldable pub keep : (A → Bool) → List A → List A
  keep p [] = []
  keep p (x ∷ xs) = let rest = keep p xs in if p x then x ∷ rest else rest

  pub length-keep : (p : A → Bool) (xs : List A) → length (keep p xs) ≤ length xs
  unfolding keep
  length-keep p [] = omega arith
  length-keep p (x ∷ xs) = ground (arith, length-keep p xs)

  -- any(p(x) for x in xs)
  unfoldable pub any_of : (A → Bool) → List A → Bool
  any_of p [] = false
  any_of p (x ∷ xs) = let rest = any_of p xs in p x || rest

-- [x for xs in xss for x in xs]
abbrev pub concat_map {ℓ κ} : {A : Type ℓ} {B : Type κ} → (A → List B) → List A → List B
concat_map f [] = []
concat_map f (x ∷ xs) = f x ++ concat_map f xs

-- range(n), counted up from `i`.
unfoldable pub range_from : ℕ → ℕ → List ℕ
range_from i zero = []
range_from i (suc n) = i ∷ range_from (suc i) n

module _ {ℓ} {A : Type ℓ} ⦃e : Eq A⦄ where
  -- x in xs
  abbrev pub contains : List A → A → Bool
  contains [] a = false
  contains (x ∷ xs) a = a == x || contains xs a

  pub contains-append :
      (xs ys : List A) (a : A) → contains (xs ++ ys) a ≡ contains xs a || contains ys a
  contains-append [] ys a = refl
  contains-append (x ∷ xs) ys a = ground (arith, contains-append xs ys a)

  pub contains-keep :
      (p : A → Bool) (xs : List A) (a : A) → contains (keep p xs) a ≡ contains xs a && p a
  unfolding keep
  contains-keep p [] a = refl
  contains-keep p (x ∷ xs) a = elim (Bool-cases (a == x)) [
    | inl h ↦ let q : a ≡ x = (e.beq_iff a x).0 h in ground (arith, contains-keep p xs a, ap p q)
    | inr h ↦ ground (arith, contains-keep p xs a)
  ]

  pub All-contains {κ} :
      (P : A → Type κ) (xs : List A) (a : A) → All P xs → contains xs a ≡ true → P a
  All-contains P [] a h m = cc
  All-contains P (x ∷ xs) a h m = elim (Bool-cases (a == x)) [
    | inl q ↦ mathlib.Core.Path.subst P (sym ((e.beq_iff a x).0 q)) h.0
    | inr q ↦ All-contains P xs a h.1 (ground arith)
  ]

  -- No element twice.
  abbrev pub Distinct : List A → Type 0
  Distinct [] = Unit
  Distinct (x ∷ xs) = (contains xs x ≡ false) × Distinct xs

  pub Distinct-snoc :
      (xs : List A) (a : A) → Distinct xs → contains xs a ≡ false → Distinct (xs ++ a ∷ [])
  Distinct-snoc [] a h m = (refl, tt)
  Distinct-snoc (x ∷ xs) a h m = (
    ground (arith, contains-append xs (a ∷ []) x, e.beq_iff a x, e.beq_iff x a),
    Distinct-snoc xs a h.1 (ground arith),
  )

  pub Distinct-keep : (p : A → Bool) (xs : List A) → Distinct xs → Distinct (keep p xs)
  unfolding keep
  Distinct-keep p [] h = tt
  Distinct-keep p (x ∷ xs) h = elim (Bool-cases (p x)) [
    | inl q ↦ rw q (ground (arith, contains-keep p xs x), Distinct-keep p xs h.1)
    | inr q ↦ rw q (Distinct-keep p xs h.1)
  ]

  length-keep_out :
      (a : A) (xs : List A)
      → contains xs a ≡ true
      → suc (length (keep (λ x. not (x == a)) xs)) ≤ length xs
  unfolding keep
  length-keep_out a [] m = cc
  length-keep_out a (x ∷ xs) m = elim (Bool-cases (x == a)) [
    | inl q ↦ rw q (omega (arith, length-keep (λ y. not (y == a)) xs))
    | inr q ↦
        rw q (omega (arith, length-keep_out a xs (ground (arith, e.beq_iff a x, e.beq_iff x a))))
  ]

  -- Distinct elements of a list are no more than the list has.
  pub length-le :
      (xs ys : List A)
      → Distinct xs
      → ((a : A) → contains xs a ≡ true → contains ys a ≡ true)
      → length xs ≤ length ys
  length-le [] ys d h = omega arith
  length-le (x ∷ xs) ys d h =
      let there = h x (ground (arith, e.beq_iff x x)) in
      let fewer = length-le xs (keep (λ y. not (y == x)) ys) d.1 (λ a m.
        let other : (a == x) ≡ true → contains xs x ≡ true =
          λ t. mathlib.Core.Path.subst (λ z. contains xs z ≡ true) ((e.beq_iff a x).0 t) m in
        ground (arith, contains-keep (λ y. not (y == x)) ys a, h a, d.0, other)) in
      omega (arith, fewer, length-keep_out x ys there)
