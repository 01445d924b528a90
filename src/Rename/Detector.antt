-- ===== src/Rename/Detector.antt =====
-- rename_detect/detector.py: which dropped column became which added column, with a person's consent.
pub mod Counts
pub mod Total
use db_version_control.Prelude.{
  ℕ, zero, suc, ◌+◌, ◌*◌, String, Bool, true, false, not, ◌&&◌, ◌||◌, Option, none, some, List, [],
  ◌∷◌, ◌++◌, map, Eq, ◌==◌, string_eq, nat_eq, discrete_eq, ℕ_discrete, String-discrete,
  if◌then◌else◌, length, contains,
}
use db_version_control.Prelude.Dict.{Dict, get, put}
use db_version_control.Prelude.Errors.{Result, ok, err, out_of_fuel}
use db_version_control.Model.Schema.{Column, Column-discrete, TypeSpec-discrete}
use db_version_control.Snapshots.Raw.{RawColumn}
use db_version_control.Snapshots.Diff.{by_name}
use db_version_control.Rename.Similarity.{Floats, SimilarityScore, score}
use db_version_control.Rename.Match.{
  Object, Candidate, best_mutual_match, should_ignore_position, column_eq, raw_column_eq,
}

pub data ProposalStatus : Type 0 where
  pending proposed confirmed rejected : ProposalStatus

module _ {A : Type 0} ⦃e : Eq A⦄ where
  -- xs.remove(x): the first element that is equal goes.
  unfoldable pub remove : List (Object A) → Object A → List (Object A)
  remove [] x = []
  remove (y ∷ ys) x = let rest = remove ys x in if y.value == x.value then ys else y ∷ rest

module _ (fs : Floats) where
  pub record RenameProposal : Type 0 where
    pub old_column : Object Column
    pub new_column : Object RawColumn
    pub similarity : fs.Float
    pub status : ProposalStatus

  pub record DetectionResult : Type 0 where
    pub proposals : List RenameProposal
    pub plain_drops : List (Object Column)
    pub plain_adds : List (Object RawColumn)

  -- `confirm`, with the number of questions before this one; and the status that its answer gives.
  abbrev pub ConfirmFn : Type 0
  ConfirmFn = ℕ → RenameProposal → Bool

  unfoldable pub settled : Bool → RenameProposal → RenameProposal
  settled answer proposal = record proposal { status = if answer then confirmed else rejected }

  pub record Pool : Type 0 where
    pub remaining_old : List (Object Column)
    pub remaining_new : List (Object RawColumn)
    pub proposals : List RenameProposal
    pub rejected_pairs : List (ℕ × ℕ)

  unfoldable pub proposal_for : Candidate fs → RenameProposal
  proposal_for c = record {
    old_column = c.old_column;
    new_column = c.new_column;
    similarity = c.similarity;
    status = proposed;
  }

  -- The body of the `while` loop once there is a match.
  unfoldable pub settle : Pool → Candidate fs → Bool → Pool
  settle pool c answer =
      let proposals = pool.proposals ++ settled answer (proposal_for c) ∷ [] in
      if answer
      then record {
        remaining_old = remove pool.remaining_old c.old_column;
        remaining_new = remove pool.remaining_new c.new_column;
        proposals = proposals;
        rejected_pairs = pool.rejected_pairs;
      }
      else record pool {
        proposals = proposals;
        rejected_pairs = (c.old_column.id, c.new_column.id) ∷ pool.rejected_pairs;
      }

  unfoldable pub result_of : Pool → DetectionResult
  result_of pool = record {
    proposals = pool.proposals;
    plain_drops = pool.remaining_old;
    plain_adds = pool.remaining_new;
  }

  module _ (confirm : ConfirmFn) where
    -- The `while` loop. With a list empty there is no match either.
    unfoldable pub detect_loop : ℕ → ℕ → Bool → Pool → Result DetectionResult
    detect_loop zero table_size ignore_position pool = err out_of_fuel
    detect_loop (suc fuel) table_size ignore_position pool =
        elim (best_mutual_match fs pool.remaining_old pool.remaining_new table_size ignore_position
          pool.rejected_pairs) [
            | none ↦ ok (result_of pool)
            | some c ↦
                detect_loop fuel table_size ignore_position
                  (settle pool c (confirm (length pool.proposals) (proposal_for c)))
          ]

    unfoldable pub resolve_single_proposal : RenameProposal → DetectionResult
    resolve_single_proposal proposal =
        let asked = record proposal { status = proposed } in
        if confirm 0 asked
        then record { proposals = settled true asked ∷ []; plain_drops = []; plain_adds = [] }
        else record {
          proposals = settled false asked ∷ [];
          plain_drops = proposal.old_column ∷ [];
          plain_adds = proposal.new_column ∷ [];
        }

    unfoldable pub detect_pool :
        List (Object Column) → List (Object RawColumn) → ℕ → Bool → Result DetectionResult
    detect_pool old_columns new_columns table_size ignore_position =
        detect_loop (suc (length old_columns * length new_columns + length old_columns)) table_size
          ignore_position
          (record {
            remaining_old = old_columns;
            remaining_new = new_columns;
            proposals = [];
            rejected_pairs = [];
          })

    unfoldable pub detect_renames :
        List (Object Column)
        → List (Object RawColumn)
        → ℕ
        → List Column
        → List RawColumn
        → Result DetectionResult
    detect_renames (old_column ∷ []) (new_column ∷ []) table_size all_old all_new = ok (
        resolve_single_proposal (record {
          old_column = old_column;
          new_column = new_column;
          similarity = fs.literal "-1.0";
          status = pending;
        }))
    detect_renames old_columns new_columns table_size all_old all_new =
        detect_pool old_columns new_columns table_size (should_ignore_position fs all_old all_new)
