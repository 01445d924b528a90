-- ===== src/Rename/Match.antt =====
-- rename_detect/detector.py: the pair of columns that prefer each other by a clear lead.
pub mod Found
use db_version_control.Prelude.{
  ℕ, zero, suc, ◌+◌, ◌*◌, String, Bool, true, false, not, ◌&&◌, ◌||◌, Option, none, some, List, [],
  ◌∷◌, ◌++◌, map, Eq, ◌==◌, string_eq, nat_eq, discrete_eq, ℕ_discrete, String-discrete,
  if◌then◌else◌, length, contains,
}
use db_version_control.Prelude.Dict.{Dict, get, put}
use db_version_control.Prelude.Errors.{Result, ok, err, out_of_fuel}
use db_version_control.Model.Schema.{Column, Column-discrete, TypeSpec-discrete}
use db_version_control.Snapshots.Raw.{RawColumn}
use db_version_control.Snapshots.Diff.{by_name}
use db_version_control.Rename.Similarity.{Floats, SimilarityScore, score}

-- A value with its identity: `id` is what Python's id returns.
pub record Object (A : Type 0) : Type 0 where
  pub id : ℕ
  pub value : A

unfoldable pub RawColumn-discrete : Discrete RawColumn
unfolding String-discrete ℕ_discrete
RawColumn-discrete = hlevel (String-discrete, ℕ_discrete)

instance abbrev pub column_eq : Eq Column
column_eq = discrete_eq Column-discrete

instance abbrev pub raw_column_eq : Eq RawColumn
raw_column_eq = discrete_eq RawColumn-discrete

unfoldable pub Pair-discrete : Discrete (ℕ × ℕ)
unfolding ℕ_discrete
Pair-discrete = hlevel ℕ_discrete

instance abbrev pub pair_eq : Eq (ℕ × ℕ)
pair_eq = discrete_eq Pair-discrete

module _ (fs : Floats) where
  -- The loop of `_should_ignore_position`: how many moved, and how many were compared.
  unfoldable pub count_moved : Dict String RawColumn → ℕ × ℕ → List Column → ℕ × ℕ
  count_moved new_by_name counts [] = counts
  count_moved new_by_name (moved, compared) (old_column ∷ more) =
      count_moved new_by_name
        (elim (get new_by_name old_column.name) [
          | none ↦ (moved, compared)
          | some new_column ↦ (
            if new_column.position == old_column.position then moved else moved + 1,
            compared + 1,
          )
        ])
        more

  unfoldable pub should_ignore_position : List Column → List RawColumn → Bool
  should_ignore_position [] new_columns = false
  should_ignore_position (c ∷ cs) [] = false
  should_ignore_position (c ∷ cs) (d ∷ ds) =
      let (moved, compared) =
        count_moved (by_name (λ (r : RawColumn). r.name) [] (d ∷ ds)) (0, 0) (c ∷ cs) in
      if compared == 0 then false else fs.at_least (fs.ratio moved compared) (fs.literal "0.5")

  abbrev pub Scores : Type 0
  Scores = Dict (ℕ × ℕ) fs.Float

  module _ (table_size : ℕ) (ignore_position : Bool) (excluded : List (ℕ × ℕ)) where
    -- The two loops that fill `scores`.
    unfoldable pub score_row : Scores → Object Column → List (Object RawColumn) → Scores
    score_row scores old_column [] = scores
    score_row scores old_column (new_column ∷ more) =
        let key : ℕ × ℕ = (old_column.id, new_column.id) in
        let total = (score fs old_column.value new_column.value table_size ignore_position).total in
        score_row (if contains excluded key then scores else put scores key total) old_column more

    unfoldable pub score_all : Scores → List (Object Column) → List (Object RawColumn) → Scores
    score_all scores [] new_columns = scores
    score_all scores (old_column ∷ more) new_columns =
        score_all (score_row scores old_column new_columns) more new_columns

  pub record Best (B : Type 0) : Type 0 where
    pub partner : Object B
    pub best_score : fs.Float
    pub gap : fs.Float

  module _ {B : Type 0} where
    -- [(partner, scores[key]) for partner in inner if key in scores]
    unfoldable pub scored : (ℕ → ℕ × ℕ) → Scores → List (Object B) → List (Object B × fs.Float)
    scored key scores [] = []
    scored key scores (partner ∷ more) = elim (get scores (key partner.id)) [
      | none ↦ scored key scores more
      | some s ↦ (partner, s) ∷ scored key scores more
    ]

    -- ranked.sort(key=lambda p: p[1], reverse=True), which keeps the order of equal scores.
    unfoldable pub insert_ranked :
        Object B × fs.Float → List (Object B × fs.Float) → List (Object B × fs.Float)
    insert_ranked p [] = p ∷ []
    insert_ranked p (q ∷ qs) =
        let rest = insert_ranked p qs in if fs.below p.1 q.1 then q ∷ rest else p ∷ q ∷ qs

    unfoldable pub ranked : List (Object B × fs.Float) → List (Object B × fs.Float)
    ranked [] = []
    ranked (p ∷ ps) = insert_ranked p (ranked ps)

    unfoldable pub best_of : List (Object B × fs.Float) → Option (Best B)
    best_of [] = none
    best_of ((p, s) ∷ []) =
        some (record { partner = p; best_score = s; gap = fs.minus s (fs.literal "0.0") })
    best_of ((p, s) ∷ (q, t) ∷ more) =
        some (record { partner = p; best_score = s; gap = fs.minus s t })

  -- `key` makes the pair (old, new) of an item and its partner.
  unfoldable pub best_per_key :
      {A B : Type 0}
      → (ℕ → ℕ → ℕ × ℕ)
      → Scores
      → Dict ℕ (Best B)
      → List (Object A)
      → List (Object B)
      → Dict ℕ (Best B)
  best_per_key key scores result [] inner = result
  best_per_key key scores result (item ∷ outer) inner =
      best_per_key key scores
        (elim (best_of (ranked (scored (key item.id) scores inner))) [
          | none ↦ result
          | some best ↦ put result item.id best
        ])
        outer inner

  pub record Candidate : Type 0 where
    pub old_column : Object Column
    pub new_column : Object RawColumn
    pub similarity : fs.Float

  -- The tests of one round that continue with the next.
  unfoldable pub passed_over : Best RawColumn → Best Column → Object Column → Bool
  passed_over old_best new_best old_column =
      not (new_best.partner.id == old_column.id)
      || (fs.below old_best.best_score (fs.literal "0.6")
          || (fs.below old_best.gap (fs.literal "0.15")
              || fs.below new_best.gap (fs.literal "0.15")))

  -- One round of the loop over `old_columns`.
  unfoldable pub candidate_of :
      Dict ℕ (Best RawColumn) → Dict ℕ (Best Column) → Object Column → Option Candidate
  candidate_of best_for_old best_for_new old_column = elim (get best_for_old old_column.id) [
    | none ↦ none
    | some old_best ↦ elim (get best_for_new old_best.partner.id) [
      | none ↦ none
      | some new_best ↦
          if passed_over old_best new_best old_column
          then none
          else some (record {
            old_column = old_column;
            new_column = old_best.partner;
            similarity = old_best.best_score;
          })
    ]
  ]

  unfoldable pub candidates_of :
      Dict ℕ (Best RawColumn) → Dict ℕ (Best Column) → List (Object Column) → List Candidate
  candidates_of best_for_old best_for_new [] = []
  candidates_of best_for_old best_for_new (old_column ∷ more) =
      elim (candidate_of best_for_old best_for_new old_column) [
        | none ↦ candidates_of best_for_old best_for_new more
        | some c ↦ c ∷ candidates_of best_for_old best_for_new more
      ]

  -- max(candidates, key=lambda c: c[2]): the first of the greatest.
  unfoldable pub first_max : Candidate → List Candidate → Candidate
  first_max c [] = c
  first_max c (d ∷ ds) = first_max (if fs.below c.similarity d.similarity then d else c) ds

  unfoldable pub greatest : List Candidate → Option Candidate
  greatest [] = none
  greatest (c ∷ cs) = some (first_max c cs)

  -- No score gives no candidate, so that the early return of the source is the general case.
  unfoldable pub best_mutual_match :
      List (Object Column) → List (Object RawColumn) → ℕ → Bool → List (ℕ × ℕ) → Option Candidate
  best_mutual_match old_columns new_columns table_size ignore_position excluded =
      let scores = score_all table_size ignore_position excluded [] old_columns new_columns in
      let best_for_old =
        best_per_key (λ item partner. (item, partner)) scores [] old_columns new_columns in
      let best_for_new =
        best_per_key (λ item partner. (partner, item)) scores [] new_columns old_columns in
      greatest (candidates_of best_for_old best_for_new old_columns)
