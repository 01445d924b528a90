-- ===== src/Prelude/Dict.antt =====
-- Python's `dict`: entries in insertion order, where an assignment to a key that is there keeps
-- its place. The keys of every dict built by these operations are distinct.
use mathlib.Core.Path.{◌≡◌, refl}
use mathlib.Core.Bool.{Bool, true, false, not, ◌||◌, ◌&&◌}
use mathlib.Core.Option.{Option, none, some}
use mathlib.Core.List.{List, [], ◌∷◌, ◌++◌}
use mathlib.Core.Logic.{inl, inr}
use native.Mathlib.Omega.{arith}
use db_version_control.Prelude.Tests.{Eq, ◌==◌, if◌then◌else◌, Bool-cases}
use db_version_control.Prelude.Lists.{contains, Distinct}

abbrev pub Dict {ℓ κ} : Type ℓ → Type κ → Type (ℓ ⊔ κ)
Dict K V = List (K × V)

module _ {ℓ κ} {K : Type ℓ} {V : Type κ} where
  -- list(d.keys()), list(d.values())
  abbrev pub keys : Dict K V → List K
  keys [] = []
  keys ((k, v) ∷ d) = k ∷ keys d

  abbrev pub values : Dict K V → List V
  values [] = []
  values ((k, v) ∷ d) = v ∷ values d

module _ {ℓ κ} {K : Type ℓ} ⦃e : Eq K⦄ {V : Type κ} where
  -- d.get(k)
  unfoldable pub get : Dict K V → K → Option V
  get [] k = none
  get ((j, v) ∷ d) k = let rest = get d k in if k == j then some v else rest

  -- k in d
  abbrev pub has : Dict K V → K → Bool
  has d k = contains (keys d) k

  -- d[k] = v
  unfoldable pub put : Dict K V → K → V → Dict K V
  put [] k v = (k, v) ∷ []
  put ((j, w) ∷ d) k v = let rest = put d k v in if k == j then (j, v) ∷ d else (j, w) ∷ rest

  -- del d[k], for a key that is there; d.pop(k, None)
  unfoldable pub remove : Dict K V → K → Dict K V
  remove [] k = []
  remove ((j, w) ∷ d) k = let rest = remove d k in if k == j then rest else (j, w) ∷ rest

  pub get-put :
      (d : Dict K V) (k j : K) (v : V) → get (put d k v) j ≡ (if j == k then some v else get d j)
  unfolding get put
  get-put [] k j v = refl
  get-put ((i, w) ∷ d) k j v =
      ground (arith, get-put d k j v, e.beq_iff k i, e.beq_iff j i, e.beq_iff j k)

  pub get-remove :
      (d : Dict K V) (k j : K) → get (remove d k) j ≡ (if j == k then none else get d j)
  unfolding get remove
  get-remove [] k j = ground arith
  get-remove ((i, w) ∷ d) k j =
      ground (arith, get-remove d k j, e.beq_iff k i, e.beq_iff j i, e.beq_iff j k)

  pub has-put : (d : Dict K V) (k j : K) (v : V) → has (put d k v) j ≡ j == k || has d j
  unfolding put
  has-put [] k j v = refl
  has-put ((i, w) ∷ d) k j v =
      ground (arith, has-put d k j v, e.beq_iff k i, e.beq_iff j i, e.beq_iff j k)

  pub has-remove : (d : Dict K V) (k j : K) → has (remove d k) j ≡ not (j == k) && has d j
  unfolding remove
  has-remove [] k j = ground arith
  has-remove ((i, w) ∷ d) k j =
      ground (arith, has-remove d k j, e.beq_iff k i, e.beq_iff j i, e.beq_iff j k)

  pub get_of_has : (d : Dict K V) (k : K) → has d k ≡ true → (v : V) × (get d k ≡ some v)
  unfolding get
  get_of_has [] k h = cc
  get_of_has ((j, w) ∷ d) k h = elim (Bool-cases (k == j)) [
    | inl q ↦ (w, ground arith)
    | inr q ↦ let (v, p) = get_of_has d k (ground arith) in (v, ground arith)
  ]

  pub has_of_get : (d : Dict K V) (k : K) (v : V) → get d k ≡ some v → has d k ≡ true
  unfolding get
  has_of_get [] k v h = cc
  has_of_get ((j, w) ∷ d) k v h = ground (arith, has_of_get d k v)

  pub get_of_not_has : (d : Dict K V) (k : K) → has d k ≡ false → get d k ≡ none
  unfolding get
  get_of_not_has [] k h = refl
  get_of_not_has ((j, w) ∷ d) k h = ground (arith, get_of_not_has d k)

  pub put_twice : (d : Dict K V) (k : K) (v w : V) → put (put d k v) k w ≡ put d k w
  unfolding put
  put_twice [] k v w = ground (arith, e.beq_iff k k)
  put_twice ((j, u) ∷ d) k v w = ground (arith, put_twice d k v w, e.beq_iff k j)

  -- Assignment to a new key appends.
  pub put-fresh : (d : Dict K V) (k : K) (v : V) → has d k ≡ false → put d k v ≡ d ++ (k, v) ∷ []
  unfolding put
  put-fresh [] k v h = refl
  put-fresh ((j, w) ∷ d) k v h = ground (arith, put-fresh d k v)

  pub Distinct-put :
      (d : Dict K V) (k : K) (v : V) → Distinct (keys d) → Distinct (keys (put d k v))
  unfolding put
  Distinct-put [] k v h = (refl, tt)
  Distinct-put ((j, w) ∷ d) k v h = elim (Bool-cases (k == j)) [
    | inl q ↦ rw q h
    | inr q ↦
        rw q (ground (arith, has-put d k j v, e.beq_iff k j, e.beq_iff j k), Distinct-put d k v h.1)
  ]

  pub Distinct-remove : (d : Dict K V) (k : K) → Distinct (keys d) → Distinct (keys (remove d k))
  unfolding remove
  Distinct-remove [] k h = tt
  Distinct-remove ((j, w) ∷ d) k h = elim (Bool-cases (k == j)) [
    | inl q ↦ rw q (Distinct-remove d k h.1)
    | inr q ↦ rw q (ground (arith, has-remove d k j), Distinct-remove d k h.1)
  ]

pub ruleset dict_laws = (get-put, get-remove, has-put, has-remove)
