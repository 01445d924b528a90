-- ===== src/Web/ConfirmAdapter/Agrees.antt =====
-- The browser's tokens against the terminal's.
use db_version_control.Prelude.{
  String, true, false, List, string_eq, ◌≡◌, refl, ap, ◌⊎◌, inl, inr, arith, Bool-cases,
  Option-cases, subst, sym,
}
use db_version_control.Prelude.Errors.{Result, ok}
use db_version_control.Model.Schema.{Uuid}
use db_version_control.Model.Operations.{Operation}
use db_version_control.Merge.Grouping.{IdentityGroup}
use db_version_control.Merge.Classify.{ClassifiedGroup}
use db_version_control.Merge.Resolve.{HumanConfirmationToken, chosen_for, confirm_from_cli}
use db_version_control.Web.ConfirmAdapter.{
  UiMode, cross_object, single_choice, free_choice, classify_ui_mode, chosen_in_browser,
  build_token_from_choice,
}

-- The buttons that a mode offers.
abbrev pub IsOffered : UiMode → String → Type 0
IsOffered cross_object choice = choice ≡ "ack"
IsOffered single_choice choice = (choice ≡ "a") ⊎ (choice ≡ "b")
IsOffered free_choice choice = (choice ≡ "a") ⊎ (choice ≡ "b") ⊎ (choice ≡ "both")

chosen_same_single :
    (group : IdentityGroup) (choice : String)
    → chosen_in_browser true group choice ≡ chosen_for true group choice
unfolding chosen_in_browser chosen_for
chosen_same_single group choice = ground arith

chosen_same_free :
    (group : IdentityGroup) (choice : String)
    → (choice ≡ "a") ⊎ (choice ≡ "b") ⊎ (choice ≡ "both")
    → chosen_in_browser false group choice ≡ chosen_for false group choice
unfolding chosen_in_browser chosen_for
chosen_same_free group choice (inl q) =
    subst (λ c. chosen_in_browser false group c ≡ chosen_for false group c) (sym q) refl
chosen_same_free group choice (inr (inl q)) =
    subst (λ c. chosen_in_browser false group c ≡ chosen_for false group c) (sym q) refl
chosen_same_free group choice (inr (inr q)) =
    subst (λ c. chosen_in_browser false group c ≡ chosen_for false group c) (sym q) refl

abbrev token_for : ClassifiedGroup → Uuid → List Operation → Result HumanConfirmationToken
token_for group nonce ops =
    ok (record { group_id = group.group.identity_id; chosen_resolution = ops; nonce = nonce })

-- For a choice that the group's mode offers, the browser builds the token that the terminal gives
-- for the same answer and nonce, or raises the same error.
pub build_token_from_choice-confirm_from_cli :
    (group : ClassifiedGroup) (choice : String) (nonce : Uuid)
    → IsOffered (classify_ui_mode group) choice
    → build_token_from_choice group choice nonce ≡ confirm_from_cli choice nonce group
unfolding build_token_from_choice confirm_from_cli classify_ui_mode
build_token_from_choice-confirm_from_cli group choice nonce h =
    elim (Option-cases group.cross_object_referencing_op) [
      | inr (op, q) ↦ rw (q, build_token_from_choice, confirm_from_cli) refl
      | inl q ↦ elim (Bool-cases group.single_valued_field) [
        | inl s ↦
            rw (q, s, build_token_from_choice, confirm_from_cli)
              (ap (token_for group nonce) (chosen_same_single group.group choice))
        | inr s ↦
            rw (q, s, build_token_from_choice, confirm_from_cli)
              (ap (token_for group nonce)
                (chosen_same_free group.group choice (rw (q, s, classify_ui_mode) at h)))
      ]
    ]
