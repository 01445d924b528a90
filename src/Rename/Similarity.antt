-- ===== src/Rename/Similarity.antt =====
-- rename_detect/similarity.py: how likely an old and a new column are one column, edited.
pub mod Distance
use db_version_control.Prelude.{
  ℕ, zero, suc, ◌+◌, ◌-◌, String, Bool, true, false, ◌&&◌, ◌||◌, Option, none, some, List, [], ◌∷◌,
  Eq, ◌==◌, string_eq, nat_eq, if◌then◌else◌, ltb, leb, length, range_from,
}
use db_version_control.Prelude.Strings.{codes}
use db_version_control.Model.Schema.{TypeSpec, Column}
use db_version_control.Snapshots.Raw.{RawColumn}
use db_version_control.Snapshots.Diff.{flag_eq}

-- Python's floats: the literals by their text, true division of integers, and what is done with them.
pub record Floats : Type 1 where
  pub Float : Type 0
  pub literal : String → Float
  pub ratio : ℕ → ℕ → Float
  pub plus : Float → Float → Float
  pub minus : Float → Float → Float
  pub times : Float → Float → Float
  pub below : Float → Float → Bool
  pub at_least : Float → Float → Bool

unfoldable pub lesser : ℕ → ℕ → ℕ
lesser a b = if leb a b then a else b

-- char_a != char_b, as a number.
unfoldable pub substitution : ℕ → ℕ → ℕ
substitution x y = if x == y then 0 else 1

-- The inner loop: the cells that it appends to `current_row`. `left` is current_row[j - 1], and the
-- list of the row before stands at previous_row[j - 1].
unfoldable pub next_row : ℕ → List ℕ → List ℕ → ℕ → List ℕ
next_row x (y ∷ ys) (diagonal ∷ above ∷ previous) left =
    let cell = lesser (lesser (left + 1) (above + 1)) (diagonal + substitution x y) in
    cell ∷ next_row x ys (above ∷ previous) cell
next_row x (y ∷ ys) (diagonal ∷ []) left = []
next_row x (y ∷ ys) [] left = []
next_row x [] previous left = []

-- The outer loop, from row `i` on.
unfoldable pub rows : List ℕ → List ℕ → ℕ → List ℕ → List ℕ
rows [] b i previous_row = previous_row
rows (x ∷ xs) b i previous_row = rows xs b (suc i) (i ∷ next_row x b previous_row i)

-- row[-1], of a row that starts with `first`.
unfoldable pub last_cell : ℕ → List ℕ → ℕ
last_cell first [] = first
last_cell first (x ∷ xs) = last_cell x xs

unfoldable pub by_rows : List ℕ → List ℕ → ℕ
by_rows [] b = length b
by_rows (x ∷ xs) [] = length (x ∷ xs)
by_rows (x ∷ xs) (y ∷ ys) =
    last_cell 0 (rows (x ∷ xs) (y ∷ ys) 1 (range_from 0 (length (y ∷ ys) + 1)))

unfoldable pub levenshtein : String → String → ℕ
levenshtein a b = if a == b then 0 else by_rows (codes a) (codes b)

module _ (fs : Floats) where
  unfoldable pub name_similarity : String → String → fs.Float
  name_similarity old_name new_name =
      let distance = levenshtein old_name new_name in
      let old_length = length (codes old_name) in
      let new_length = length (codes new_name) in
      let longest = if ltb old_length new_length then new_length else old_length in
      if old_name == new_name || longest == 0
      then fs.literal "1.0"
      else fs.minus (fs.literal "1.0") (fs.ratio distance longest)

  unfoldable pub is_pair : String → String → String → String → Bool
  is_pair a b old_name new_name =
      (old_name == a && new_name == b) || (old_name == b && new_name == a)

  -- _TYPE_FAMILY_SIMILARITY.get(frozenset({old_name, new_name}), 0.0), of two different names.
  unfoldable pub type_family_similarity : String → String → fs.Float
  type_family_similarity old_name new_name =
      if is_pair "string" "text" old_name new_name
      then fs.literal "0.9"
      else if is_pair "string" "enum" old_name new_name
      then fs.literal "0.5"
      else if is_pair "text" "enum" old_name new_name
      then fs.literal "0.3"
      else if is_pair "int" "bigint" old_name new_name
      then fs.literal "0.8"
      else if is_pair "int" "decimal" old_name new_name
      then fs.literal "0.3"
      else if is_pair "decimal" "bigint" old_name new_name
      then fs.literal "0.2"
      else fs.literal "0.0"

  unfoldable pub type_similarity : TypeSpec → TypeSpec → fs.Float
  type_similarity old_type new_type =
      if old_type.name == new_type.name
      then fs.literal "1.0"
      else type_family_similarity old_type.name new_type.name

  -- x is not None
  unfoldable pub given : {A : Type 0} → Option A → Bool
  given none = false
  given (some x) = true

  unfoldable pub constraint_overlap : Column → RawColumn → fs.Float
  constraint_overlap old_column new_column =
      let nullable_agree = if old_column.nullable == new_column.nullable then 1 else 0 in
      let default_agree = if given old_column.default == given new_column.default then 1 else 0 in
      fs.ratio (nullable_agree + default_agree) 2

  unfoldable pub position_proximity : ℕ → ℕ → ℕ → fs.Float
  position_proximity old_position new_position table_size =
      let moved = (old_position - new_position) + (new_position - old_position) in
      if leb table_size 1
      then fs.literal "1.0"
      else fs.minus (fs.literal "1.0") (fs.ratio moved table_size)

  pub record SimilarityScore : Type 0 where
    pub total : fs.Float
    pub name : fs.Float
    pub type : fs.Float
    pub constraints : fs.Float
    pub position : fs.Float

  unfoldable pub score : Column → RawColumn → ℕ → Bool → SimilarityScore
  score old_column new_column table_size ignore_position =
      let name = name_similarity old_column.name new_column.name in
      let type_ = type_similarity old_column.type new_column.type in
      let constraints = constraint_overlap old_column new_column in
      let position =
        if ignore_position
        then fs.literal "1.0"
        else position_proximity old_column.position new_column.position table_size in
      record {
        total =
            fs.plus
              (fs.plus
                (fs.plus (fs.times (fs.literal "0.45") name) (fs.times (fs.literal "0.25") type_))
                (fs.times (fs.literal "0.15") constraints))
              (fs.times (fs.literal "0.15") position);
        name = name;
        type = type_;
        constraints = constraints;
        position = position;
      }
