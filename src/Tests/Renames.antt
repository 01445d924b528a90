-- ===== src/Tests/Renames.antt =====
-- Renamed columns, with scores in thousandths.
use Prim.Native.Nat.{◌/◌}
use db_version_control.Prelude.{
  decide, nat_eq, range_from, String-discrete, ℕ_discrete, ℕ, ◌+◌, ◌-◌, ◌*◌, String, true, false,
  none, List, [], ◌∷◌, ◌==◌, string_eq, if◌then◌else◌, ltb, leb, ◌≡◌, refl,
}
use db_version_control.Prelude.Strings.{codes}
use db_version_control.Prelude.Errors.{ok}
use db_version_control.Model.Schema.{Column, Column-discrete}
use db_version_control.Snapshots.Raw.{RawColumn, RawTable}
use db_version_control.Rename.Similarity.{
  Floats, levenshtein, by_rows, rows, next_row, last_cell, lesser, substitution, score,
  name_similarity, type_similarity, constraint_overlap, given, position_proximity,
}
use db_version_control.Rename.Similarity.Distance.{IsFewest, levenshtein-IsFewest}
use db_version_control.Prelude.Dict.{get, put}
use db_version_control.Snapshots.Diff.{by_name}
use db_version_control.Rename.Match.{
  Object, RawColumn-discrete, Pair-discrete, best_mutual_match, greatest, first_max, candidates_of,
  candidate_of, passed_over, best_per_key, best_of, ranked, insert_ranked, scored, score_all,
  score_row, should_ignore_position, count_moved,
}
use db_version_control.Rename.Detector.{
  DetectionResult, ConfirmFn, detect_renames, detect_pool, detect_loop, settle, settled, remove,
  result_of, proposal_for,
}
use db_version_control.Rename.Detector.Total.{IsSettled, detect_renames_total}
use db_version_control.Dag.Walk.{apply_each}
use db_version_control.Snapshots.Diff.{RawDiff}
use db_version_control.Snapshots.ToOperations.{create_and_columns, raw_table_to_table}
use db_version_control.Snapshots.ToOperations.Generated.{create_and_columns-applied}
use db_version_control.Tests.Samples.{text_type, email, users, one_table}

kitten : levenshtein "kitten" "sitting" ≡ 3
unfolding levenshtein by_rows rows next_row last_cell lesser substitution range_from
kitten = refl

levenshtein-IsFewest_example : IsFewest (codes "name") (codes "mane") (levenshtein "name" "mane")
levenshtein-IsFewest_example = levenshtein-IsFewest "name" "mane"

abbrev thousandths : String → ℕ
thousandths text =
    if text == "1.0"
    then 1000
    else if text == "0.9"
    then 900
    else if text == "0.8"
    then 800
    else if text == "0.6"
    then 600
    else if text == "0.5"
    then 500
    else if text == "0.45"
    then 450
    else if text == "0.3"
    then 300
    else if text == "0.25"
    then 250
    else if text == "0.2"
    then 200
    else if text == "0.15"
    then 150
    else 0

abbrev pub fixed_point : Floats
fixed_point = record {
  Float = ℕ;
  literal = thousandths;
  ratio = λ a b. a * 1000 / b;
  plus = λ a b. a + b;
  minus = λ a b. a - b;
  times = λ a b. a * b / 1000;
  below = ltb;
  at_least = λ a b. leb b a;
}

abbrev age : Column
age = record {
  id = 12;
  name = "age";
  type = text_type;
  nullable = true;
  default = none;
  position = 1;
}

abbrev old_columns : List (Object Column)
old_columns = record { id = 100; value = email } ∷ record { id = 101; value = age } ∷ []

abbrev mail : RawColumn
mail = record { name = "mail"; type = text_type; nullable = false; default = none; position = 0 }

abbrev new_columns : List (Object RawColumn)
new_columns = record { id = 200; value = mail } ∷ []

abbrev pub agree : ConfirmFn fixed_point
agree n proposal = true

detect_renames_total_example :
    (result : DetectionResult fixed_point) × (detect_renames fixed_point agree old_columns
        new_columns 2
        (email ∷ age ∷ [])
        (mail ∷ [])
      ≡ ok result)
    × IsSettled fixed_point agree old_columns new_columns result
detect_renames_total_example =
    detect_renames_total fixed_point agree old_columns new_columns 2 (email ∷ age ∷ []) (mail ∷ [])

renamed :
    (result : DetectionResult fixed_point) × (detect_renames fixed_point agree old_columns
        new_columns 2
        (email ∷ age ∷ [])
        (mail ∷ [])
      ≡ ok result)
    × (result.plain_drops ≡ record { id = 101; value = age } ∷ [])
unfolding detect_renames detect_pool detect_loop best_mutual_match greatest first_max candidates_of
    candidate_of passed_over best_per_key best_of ranked insert_ranked scored score_all score_row
    score name_similarity levenshtein by_rows rows next_row last_cell lesser substitution range_from
    type_similarity constraint_overlap given position_proximity settle settled remove result_of
    proposal_for should_ignore_position count_moved get put by_name RawColumn-discrete Pair-discrete
    String-discrete ℕ_discrete Column-discrete decide
renamed = (_, refl, refl)

abbrev accounts : RawTable
accounts = record {
  name = "accounts";
  columns = mail ∷ [];
  indexes = [];
  foreign_keys = [];
  uniques = [];
  checks = [];
}

create_and_columns-applied_example :
    apply_each one_table (create_and_columns (λ n. n + 20) 0 accounts)
    ≡ ok (put one_table 20 (raw_table_to_table (λ n. n + 20) 0 accounts))
create_and_columns-applied_example = create_and_columns-applied (λ n. n + 20) 0 accounts one_table

-- The column of `users` is renamed, and `accounts` is new.
abbrev edited : RawDiff
edited = record {
  matched_tables =
      record {
        table = users;
        raw = record accounts { name = "users" };
        unchanged_columns = [];
        retyped_columns = [];
        unmatched_old_columns = email ∷ [];
        unmatched_new_columns = mail ∷ [];
      }
      ∷ [];
  unmatched_old_tables = [];
  unmatched_new_tables = accounts ∷ [];
}
