-- ===== src/Merge/Grouping/Partition.antt =====
-- `group_by_identity` is a partition: one group for each identity that some operation is about,
-- which holds exactly that identity's operations, side by side and in their order.
use db_version_control.Prelude.{
  Bool, true, false, none, some, List, [], ◌∷◌, ◌++◌, ◌==◌, nat_eq, nat_beq_iff, ◌≡◌, ◌||◌, refl,
  sym, ap, ◌∙◌, inl, inr, arith, if◌then◌else◌, Bool-cases, All, Distinct, keep, contains, map,
  any_of, subst,
}
use mathlib.Core.List.{append-nil, append_assoc}
use db_version_control.Prelude.Dict.{
  get, put, has, keys, values, get-put, has-put, Distinct-put, has_of_get,
}
use db_version_control.Model.Schema.{Uuid}
use db_version_control.Model.Operations.{
  Operation, create_table, drop_table, add_column, drop_column, rename_column, alter_column_type,
  alter_column_nullability, alter_column_default, add_index, drop_index, rename_index,
  add_constraint, drop_constraint, CompoundOperation,
}
use db_version_control.Merge.Grouping.{
  target_id, flatten, IdentityGroup, Groups, group_at, add_a, add_b, add_all, groups_of,
  group_by_identity,
}

-- Whether an operation is about an identity.
unfoldable pub is_about : Uuid → Operation → Bool
is_about i op = elim (target_id op) [ none ↦ false | some j ↦ i == j ]

-- any(is_about(i, op) for op in ops)
abbrev pub is_touched : Uuid → List Operation → Bool
is_touched i ops = any_of (is_about i) ops

-- What has been added so far, on each side.
record Holds (groups : Groups) (xs ys : List Operation) : Type 0 where
  sides_a : (i : Uuid) → (group_at groups i).ops_a ≡ keep (is_about i) xs
  sides_b : (i : Uuid) → (group_at groups i).ops_b ≡ keep (is_about i) ys
  named : (i : Uuid) → (group_at groups i).identity_id ≡ i
  touched : (i : Uuid) → has groups i ≡ is_touched i xs || is_touched i ys
  distinct : Distinct (keys groups)

keep-snoc :
    (p : Operation → Bool) (xs : List Operation) (x : Operation)
    → keep p (xs ++ x ∷ []) ≡ (if p x then keep p xs ++ x ∷ [] else keep p xs)
unfolding keep
keep-snoc p [] x = ground arith
keep-snoc p (y ∷ xs) x = ground (arith, keep-snoc p xs x)

any_of-snoc :
    (p : Operation → Bool) (xs : List Operation) (x : Operation)
    → any_of p (xs ++ x ∷ []) ≡ any_of p xs || p x
unfolding any_of
any_of-snoc p [] x = ground arith
any_of-snoc p (y ∷ xs) x = ground (arith, any_of-snoc p xs x)

group_at-put :
    (groups : Groups) (k i : Uuid) (g : IdentityGroup)
    → group_at (put groups k g) i ≡ (if i == k then g else group_at groups i)
unfolding group_at
group_at-put groups k i g = ground (arith, get-put groups k i g)

module _ (groups : Groups) (xs ys : List Operation) (op : Operation) (k : Uuid)
    (q : target_id op ≡ some k) (h : Holds groups xs ys) where
  about : (i : Uuid) → is_about i op ≡ (i == k)
  unfolding is_about
  about i = rw (q, is_about)

  abbrev push_a : IdentityGroup
  push_a = record (group_at groups k) { ops_a = (group_at groups k).ops_a ++ op ∷ [] }

  abbrev push_b : IdentityGroup
  push_b = record (group_at groups k) { ops_b = (group_at groups k).ops_b ++ op ∷ [] }

  added_a : Holds (put groups k push_a) (xs ++ op ∷ []) ys
  added_a = record {
    sides_a = λ i. ground (
      arith,
      group_at-put groups k i push_a,
      about i,
      keep-snoc (is_about i) xs op,
      h.sides_a i,
      h.sides_a k,
      nat_beq_iff i k,
    );
    sides_b = λ i.
        ground (arith, group_at-put groups k i push_a, h.sides_b i, h.sides_b k, nat_beq_iff i k);
    named =
        λ i. ground (arith, group_at-put groups k i push_a, h.named i, h.named k, nat_beq_iff i k);
    touched = λ i.
        ground
          (arith, has-put groups k i push_a, about i, any_of-snoc (is_about i) xs op, h.touched i);
    distinct = Distinct-put groups k push_a h.distinct;
  }

  added_b : Holds (put groups k push_b) xs (ys ++ op ∷ [])
  added_b = record {
    sides_a = λ i.
        ground (arith, group_at-put groups k i push_b, h.sides_a i, h.sides_a k, nat_beq_iff i k);
    sides_b = λ i. ground (
      arith,
      group_at-put groups k i push_b,
      about i,
      keep-snoc (is_about i) ys op,
      h.sides_b i,
      h.sides_b k,
      nat_beq_iff i k,
    );
    named =
        λ i. ground (arith, group_at-put groups k i push_b, h.named i, h.named k, nat_beq_iff i k);
    touched = λ i.
        ground
          (arith, has-put groups k i push_b, about i, any_of-snoc (is_about i) ys op, h.touched i);
    distinct = Distinct-put groups k push_b h.distinct;
  }

target_some : (op : Operation) → (k : Uuid) × (target_id op ≡ some k)
unfolding target_id
target_some (create_table t) = (t.id, refl)
target_some (add_column _ c) = (c.id, refl)
target_some (add_index _ i) = (i.id, refl)
target_some (add_constraint _ c) = (c.id, refl)
target_some (drop_column _ c) = (c, refl)
target_some (rename_column c _ _) = (c, refl)
target_some (alter_column_type c _ _) = (c, refl)
target_some (alter_column_nullability c _) = (c, refl)
target_some (alter_column_default c _ _) = (c, refl)
target_some (drop_index i) = (i, refl)
target_some (rename_index i _ _) = (i, refl)
target_some (drop_constraint c) = (c, refl)
target_some (drop_table t) = (t, refl)

add_a-Holds :
    (groups : Groups) (xs ys : List Operation) (op : Operation)
    → Holds groups xs ys
    → Holds (add_a groups op) (xs ++ op ∷ []) ys
unfolding add_a
add_a-Holds groups xs ys op h =
    let (k, q) = target_some op in rw (add_a, q) (added_a groups xs ys op k q h)

add_b-Holds :
    (groups : Groups) (xs ys : List Operation) (op : Operation)
    → Holds groups xs ys
    → Holds (add_b groups op) xs (ys ++ op ∷ [])
unfolding add_b
add_b-Holds groups xs ys op h =
    let (k, q) = target_some op in rw (add_b, q) (added_b groups xs ys op k q h)

all_a-Holds :
    (groups : Groups) (xs more ys : List Operation)
    → Holds groups xs ys
    → Holds (add_all add_a groups more) (xs ++ more) ys
unfolding add_all
all_a-Holds groups xs [] ys h = rw append-nil h
all_a-Holds groups xs (op ∷ more) ys h =
    subst (λ l. Holds (add_all add_a (add_a groups op) more) l ys) (append_assoc xs (op ∷ []) more)
      (all_a-Holds (add_a groups op) (xs ++ op ∷ []) more ys (add_a-Holds groups xs ys op h))

all_b-Holds :
    (groups : Groups) (xs ys more : List Operation)
    → Holds groups xs ys
    → Holds (add_all add_b groups more) xs (ys ++ more)
unfolding add_all
all_b-Holds groups xs ys [] h = rw append-nil h
all_b-Holds groups xs ys (op ∷ more) h =
    subst (λ l. Holds (add_all add_b (add_b groups op) more) xs l) (append_assoc ys (op ∷ []) more)
      (all_b-Holds (add_b groups op) xs (ys ++ op ∷ []) more (add_b-Holds groups xs ys op h))

Holds-nil : Holds [] [] []
unfolding group_at get keep any_of
Holds-nil = record {
  sides_a = λ i. refl;
  sides_b = λ i. refl;
  named = λ i. refl;
  touched = λ i. refl;
  distinct = tt;
}

groups_of-Holds :
    (ops_a ops_b : List CompoundOperation)
    → Holds (groups_of ops_a ops_b) (flatten ops_a) (flatten ops_b)
unfolding groups_of
groups_of-Holds ops_a ops_b =
    all_b-Holds (add_all add_a [] (flatten ops_a)) (flatten ops_a) [] (flatten ops_b)
      (all_a-Holds [] [] (flatten ops_a) [] Holds-nil)

-- The group of its identity: all of that identity's operations, in order, and at least one.
pub record IsGroup (ops_a ops_b : List CompoundOperation) (g : IdentityGroup) : Type 0 where
  pub from_a : g.ops_a ≡ keep (is_about g.identity_id) (flatten ops_a)
  pub from_b : g.ops_b ≡ keep (is_about g.identity_id) (flatten ops_b)
  pub inhabited :
      is_touched g.identity_id (flatten ops_a) || is_touched g.identity_id (flatten ops_b) ≡ true

pub record IsPartition (ops_a ops_b : List CompoundOperation) (gs : List IdentityGroup)
    : Type 0 where
  pub groups : All (IsGroup ops_a ops_b) gs
  pub distinct : Distinct (map (λ g. g.identity_id) gs)
  pub complete :
      (i : Uuid)
      → is_touched i (flatten ops_a) || is_touched i (flatten ops_b) ≡ true
      → contains (map (λ g. g.identity_id) gs) i ≡ true

ne_of_absent :
    (d : Groups) (j k : Uuid) (g : IdentityGroup)
    → has d k ≡ false
    → get d j ≡ some g
    → (j == k) ≡ false
ne_of_absent d j k g out q = elim (Bool-cases (j == k)) [
  | inr e ↦ e
  | inl e ↦
      let there = has_of_get d k g (subst (λ x. get d x ≡ some g) ((nat_beq_iff j k).0 e) q) in
      ground arith
]

-- The values of a dict with distinct keys are what its look-ups return.
values-All :
    (P : IdentityGroup → Type 0) (d : Groups)
    → Distinct (keys d)
    → ((k : Uuid) (g : IdentityGroup) → get d k ≡ some g → P g)
    → All P (values d)
unfolding get
values-All P [] u f = tt
values-All P ((k, g) ∷ d) u f = (
  f k g (ground (arith, nat_beq_iff k k)),
  values-All P d u.1 (λ j g' q. f j g' (ground (arith, ne_of_absent d j k g' u.0 q))),
)

values-keys :
    (d : Groups)
    → Distinct (keys d)
    → ((k : Uuid) (g : IdentityGroup) → get d k ≡ some g → g.identity_id ≡ k)
    → map (λ g. g.identity_id) (values d) ≡ keys d
unfolding get
values-keys [] u f = refl
values-keys ((k, g) ∷ d) u f = ground (
  arith,
  f k g (ground (arith, nat_beq_iff k k)),
  values-keys d u.1 (λ j g' q. f j g' (ground (arith, ne_of_absent d j k g' u.0 q))),
)

group_at_of_get : (d : Groups) (k : Uuid) (g : IdentityGroup) → get d k ≡ some g → group_at d k ≡ g
unfolding group_at
group_at_of_get d k g q = rw (q, group_at)

module _ (ops_a ops_b : List CompoundOperation) where
  abbrev built : Groups
  built = groups_of ops_a ops_b

  held : Holds built (flatten ops_a) (flatten ops_b)
  held = groups_of-Holds ops_a ops_b

  built_id : (k : Uuid) (g : IdentityGroup) → get built k ≡ some g → g.identity_id ≡ k
  built_id k g q = subst (λ x. x.identity_id ≡ k) (group_at_of_get built k g q) (held.named k)

  built-IsGroup : (k : Uuid) (g : IdentityGroup) → get built k ≡ some g → IsGroup ops_a ops_b g
  built-IsGroup k g q =
      let same : group_at built k ≡ g = group_at_of_get built k g q in
      let id : k ≡ g.identity_id = sym (built_id k g q) in
      record {
        from_a =
            subst (λ x. g.ops_a ≡ keep (is_about x) (flatten ops_a)) id
              (sym (ap (λ x. x.ops_a) same) ∙ held.sides_a k);
        from_b =
            subst (λ x. g.ops_b ≡ keep (is_about x) (flatten ops_b)) id
              (sym (ap (λ x. x.ops_b) same) ∙ held.sides_b k);
        inhabited =
            subst (λ x. is_touched x (flatten ops_a) || is_touched x (flatten ops_b) ≡ true) id
              (sym (held.touched k) ∙ has_of_get built k g q);
      }

  -- `group_by_identity` returns one group for each identity that an operation of either branch is
  -- about, and no other; a group holds all of its identity's operations, each side in its order.
  pub group_by_identity-IsPartition : IsPartition ops_a ops_b (group_by_identity ops_a ops_b)
  unfolding group_by_identity
  group_by_identity-IsPartition =
      let ids = values-keys built held.distinct built_id in
      record {
        groups = values-All (IsGroup ops_a ops_b) built held.distinct built-IsGroup;
        distinct = rw ids held.distinct;
        complete = λ i t. rw ids (held.touched i ∙ t);
      }
