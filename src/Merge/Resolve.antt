-- ===== src/Merge/Resolve.antt =====
-- merge/resolve.py: what the merge node stores for a group, with a person's token where it needs one.
use db_version_control.Prelude.{
  String, Bool, true, false, Option, none, some, List, [], ◌∷◌, ◌++◌, ◌==◌, nat_eq, string_eq,
  if◌then◌else◌, contains, ◌≡◌, ◌≢◌, sym, subst, arith, Bool-cases, Option-cases, inl, inr,
  nat_beq_iff,
}
use db_version_control.Prelude.Errors.{
  type_error, value_error, token_already_used, Result, ok, err, Result-cases,
}
use db_version_control.Model.Schema.{Uuid}
use db_version_control.Model.Operations.{
  Operation, drop_column, add_column, add_index, add_constraint, drop_index, drop_constraint,
}
use db_version_control.Merge.Grouping.{IdentityGroup}
use db_version_control.Merge.Classify.{
  unrelated, identical, commuting, order_irrelevant, conflict, partial_conflict, ClassifiedGroup,
}

pub record HumanConfirmationToken : Type 0 where
  pub group_id : Uuid
  pub chosen_resolution : List Operation
  pub nonce : Uuid

unfoldable pub corrective_drop_for : Operation → Result Operation
corrective_drop_for (add_column table_id column) = ok (drop_column table_id column.id)
corrective_drop_for (add_index _ index) = ok (drop_index index.id)
corrective_drop_for (add_constraint _ constraint) = ok (drop_constraint constraint.id)
corrective_drop_for _ = err type_error

-- `chosen` of the two prompts, from the answer after `.strip().lower()`.
unfoldable pub chosen_for : Bool → IdentityGroup → String → List Operation
chosen_for true group chosen_side = if chosen_side == "b" then group.ops_b else group.ops_a
chosen_for false group chosen_side =
    if chosen_side == "a"
    then group.ops_a
    else if chosen_side == "b"
    then group.ops_b
    else group.ops_a ++ group.ops_b

-- `answer` is what `input` returned, after `.strip().lower()`; `nonce` what uuid4 returned.
unfoldable pub confirm_from_cli : String → Uuid → ClassifiedGroup → Result HumanConfirmationToken
confirm_from_cli answer nonce group = elim group.cross_object_referencing_op [
  | some op ↦ elim (corrective_drop_for op) [
    | ok drop ↦ ok (record {
      group_id = group.group.identity_id;
      chosen_resolution = drop ∷ [];
      nonce = nonce;
    })
    | err e ↦ err e
  ]
  | none ↦ ok (record {
    group_id = group.group.identity_id;
    chosen_resolution = chosen_for group.single_valued_field group.group answer;
    nonce = nonce;
  })
]

-- `_spent_nonces`, the only state of a ResolutionEngine.
pub record ResolutionEngine : Type 0 where
  pub spent_nonces : List Uuid

abbrev pub new_engine : ResolutionEngine
new_engine = record { spent_nonces = [] }

unfoldable pub auto_resolve : ClassifiedGroup → Option (List Operation)
auto_resolve group = elim group.classification [
  | identical ↦ some []
  | unrelated ↦ some []
  | commuting ↦ some []
  | order_irrelevant ↦ some []
  | conflict ↦ none
  | partial_conflict ↦ none
]

unfoldable pub commit_resolution :
    ResolutionEngine
    → ClassifiedGroup
    → HumanConfirmationToken
    → Result (List Operation × ResolutionEngine)
commit_resolution engine group token =
    if token.group_id == group.group.identity_id
    then (if contains engine.spent_nonces token.nonce
        then err token_already_used
        else ok
            (token.chosen_resolution, record { spent_nonces = token.nonce ∷ engine.spent_nonces }))
    else err value_error

-- The engine after any further resolutions.
pub data Later (engine : ResolutionEngine) : ResolutionEngine → Type 0 where
  at_once : Later engine engine
  committed :
      {now after : ResolutionEngine} {ops : List Operation} (group : ClassifiedGroup)
      (token : HumanConfirmationToken)
      → Later engine now
      → commit_resolution now group token ≡ ok (ops, after)
      → Later engine after

-- What a resolution that was committed has checked, and the nonces that are spent then.
commit_made :
    (engine engine' : ResolutionEngine) (group : ClassifiedGroup) (token : HumanConfirmationToken)
    (ops : List Operation)
    → commit_resolution engine group token ≡ ok (ops, engine')
    → (ops ≡ token.chosen_resolution)
      × (token.group_id ≡ group.group.identity_id)
      × (engine' ≡ record { spent_nonces = token.nonce ∷ engine.spent_nonces })
unfolding commit_resolution
commit_made engine engine' group token ops h =
    elim (Bool-cases (token.group_id == group.group.identity_id)) [
      | inr q ↦ ground arith
      | inl q ↦ elim (Bool-cases (contains engine.spent_nonces token.nonce)) [
        | inl s ↦ ground arith
        | inr s ↦ (
          ground arith,
          ground (arith, nat_beq_iff token.group_id group.group.identity_id),
          ground arith,
        )
      ]
    ]

spent-Later :
    {engine later : ResolutionEngine} (nonce : Uuid)
    → contains engine.spent_nonces nonce ≡ true
    → Later engine later
    → contains later.spent_nonces nonce ≡ true
spent-Later nonce h at_once = h
spent-Later nonce h (committed {now} {after} {ops} group token l c) =
    subst (λ e. contains e.spent_nonces nonce ≡ true)
      (sym (commit_made now after group token ops c).2) (ground (arith, spent-Later nonce h l))

-- A committed resolution is the one that the token carries, for the group it was issued for. The
-- same token is refused from then on, after any further resolutions, for that group and for every
-- other one.
pub commit_resolution_once :
    (engine engine' later : ResolutionEngine) (group : ClassifiedGroup)
    (token : HumanConfirmationToken) (ops : List Operation)
    → commit_resolution engine group token ≡ ok (ops, engine')
    → Later engine' later
    → (ops ≡ token.chosen_resolution)
      × (token.group_id ≡ group.group.identity_id)
      × ((other : ClassifiedGroup) (r : List Operation × ResolutionEngine)
          → commit_resolution later other token ≢ ok r)
unfolding commit_resolution
commit_resolution_once engine engine' later group token ops h l =
    let (same, for_group, made) = commit_made engine engine' group token ops h in
    let spent : contains engine'.spent_nonces token.nonce ≡ true =
      subst (λ e. contains e.spent_nonces token.nonce ≡ true) (sym made)
        (ground (arith, nat_beq_iff token.nonce token.nonce)) in
    let refused = spent-Later token.nonce spent l in
    (same, for_group, λ other r p. ground (arith, refused))

confirm_from_cli-fields :
    (group : ClassifiedGroup) (answer : String) (fresh : Uuid) (token : HumanConfirmationToken)
    → confirm_from_cli answer fresh group ≡ ok token
    → (token.group_id ≡ group.group.identity_id) × (token.nonce ≡ fresh)
unfolding confirm_from_cli
confirm_from_cli-fields group answer fresh token h =
    elim (Option-cases group.cross_object_referencing_op) [
      | inl q ↦ ground arith
      | inr (op, q) ↦ elim (Result-cases (corrective_drop_for op)) [
        | inl (drop, r) ↦ ground arith
        | inr (e, r) ↦ ground arith
      ]
    ]

-- What a person confirms at the terminal resolves the group: a token from `confirm_from_cli` that
-- was not spent yet is accepted for its group, gives the operations that it carries, and is spent
-- afterwards.
pub confirmed_commits :
    (engine : ResolutionEngine) (group : ClassifiedGroup) (answer : String) (nonce : Uuid)
    (token : HumanConfirmationToken)
    → confirm_from_cli answer nonce group ≡ ok token
    → contains engine.spent_nonces nonce ≡ false
    → commit_resolution engine group token
      ≡ ok (token.chosen_resolution, record { spent_nonces = nonce ∷ engine.spent_nonces })
unfolding commit_resolution
confirmed_commits engine group answer nonce token h fresh = ground (
  arith,
  confirm_from_cli-fields group answer nonce token h,
  nat_beq_iff token.group_id group.group.identity_id,
)
