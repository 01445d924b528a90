-- ===== src/Web/ConfirmAdapter.antt =====
-- confirm_adapter.py: the choice that a browser sends, in place of an answer at the terminal.
pub mod Agrees
use db_version_control.Prelude.{
  ℕ, String, Bool, true, false, not, ◌&&◌, Option, none, some, List, [], ◌∷◌, ◌++◌, Eq, ◌==◌,
  string_eq, if◌then◌else◌,
}
use db_version_control.Prelude.Errors.{Result, ok, err}
use db_version_control.Model.Schema.{Uuid}
use db_version_control.Model.Operations.{Operation}
use db_version_control.Merge.Grouping.{IdentityGroup}
use db_version_control.Merge.Classify.{ClassifiedGroup}
use db_version_control.Merge.Resolve.{HumanConfirmationToken, corrective_drop_for}

pub data UiMode : Type 0 where
  cross_object single_choice free_choice : UiMode

unfoldable pub classify_ui_mode : ClassifiedGroup → UiMode
classify_ui_mode group = elim group.cross_object_referencing_op [
  | some op ↦ cross_object
  | none ↦ if group.single_valued_field then single_choice else free_choice
]

unfoldable pub chosen_in_browser : Bool → IdentityGroup → String → List Operation
chosen_in_browser single_valued_field group choice =
    if choice == "b"
    then group.ops_b
    else if choice == "both" && not single_valued_field
    then group.ops_a ++ group.ops_b
    else group.ops_a

-- `nonce` is what uuid4 returned.
unfoldable pub build_token_from_choice :
    ClassifiedGroup → String → Uuid → Result HumanConfirmationToken
build_token_from_choice group choice nonce = elim group.cross_object_referencing_op [
  | some op ↦ elim (corrective_drop_for op) [
    | ok drop ↦ ok (record {
      group_id = group.group.identity_id;
      chosen_resolution = drop ∷ [];
      nonce = nonce;
    })
    | err e ↦ err e
  ]
  | none ↦ ok (record {
    group_id = group.group.identity_id;
    chosen_resolution = chosen_in_browser group.single_valued_field group.group choice;
    nonce = nonce;
  })
]
