-- ===== src/Rename/Similarity/Distance.antt =====
-- The rows of `_levenshtein` against the edits that they count.
use db_version_control.Prelude.{
  ℕ, suc, ◌+◌, ◌≤◌, String, List, [], ◌∷◌, ◌++◌, ◌==◌, string_eq, nat_eq, nat_beq_iff, inl, inr,
  ◌≡◌, refl, sym, ap, ◌∙◌, subst, ◌⊎◌, arith, leb, length, range_from, Bool-cases,
}
use mathlib.Core.List.{append-nil}
use db_version_control.Prelude.Strings.{codes}
use db_version_control.Rename.Similarity.{
  lesser, substitution, next_row, rows, last_cell, by_rows, levenshtein,
}

-- The distance by its recursion.
unfoldable pub dist : List ℕ → List ℕ → ℕ
dist [] ys = length ys
dist (x ∷ xs) [] = length (x ∷ xs)
dist (x ∷ xs) (y ∷ ys) =
    lesser (lesser (dist (x ∷ xs) ys + 1) (dist xs (y ∷ ys) + 1)) (dist xs ys + substitution x y)

dist-empty : (xs : List ℕ) → dist xs [] ≡ length xs
unfolding dist
dist-empty [] = refl
dist-empty (x ∷ xs) = refl

-- The row of the prefix `ra` (backwards) past the column of `done` (backwards).
cells : List ℕ → List ℕ → List ℕ → List ℕ
cells ra done [] = []
cells ra done (y ∷ ys) = dist ra (y ∷ done) ∷ cells ra (y ∷ done) ys

next_row_lem :
    (x : ℕ) (ra done b : List ℕ)
    → next_row x b (dist ra done ∷ cells ra done b) (dist (x ∷ ra) done) ≡ cells (x ∷ ra) done b
unfolding next_row cells dist
next_row_lem x ra done [] = refl
next_row_lem x ra done (y ∷ ys) = ap (dist (x ∷ ra) (y ∷ done) ∷◌) (next_row_lem x ra (y ∷ done) ys)

-- The list backwards, in front of another.
back : List ℕ → List ℕ → List ℕ
back [] done = done
back (x ∷ xs) done = back xs (x ∷ done)

back-back : (xs done more : List ℕ) → back (back xs done) more ≡ back done (xs ++ more)
unfolding back
back-back [] done more = refl
back-back (x ∷ xs) done more = back-back xs (x ∷ done) more

back_twice : (xs : List ℕ) → back (back xs []) [] ≡ xs
unfolding back
back_twice xs = back-back xs [] [] ∙ append-nil xs

rows_lem :
    (xs b ra : List ℕ)
    → rows xs b (suc (length ra)) (dist ra [] ∷ cells ra [] b)
      ≡ dist (back xs ra) [] ∷ cells (back xs ra) [] b
unfolding rows back dist
rows_lem [] b ra = refl
rows_lem (x ∷ xs) b ra =
    ap (λ row. rows xs b (suc (suc (length ra))) (suc (length ra) ∷ row)) (next_row_lem x ra [] b)
    ∙ rows_lem xs b (x ∷ ra)

cells-range_from : (b done : List ℕ) → cells [] done b ≡ range_from (suc (length done)) (length b)
unfolding cells range_from dist
cells-range_from [] done = refl
cells-range_from (y ∷ ys) done = ap (suc (length done) ∷◌) (cells-range_from ys (y ∷ done))

first_row : (b : List ℕ) → range_from 0 (length b + 1) ≡ 0 ∷ cells [] [] b
unfolding range_from
first_row b =
    ap (range_from 0) {y = suc (length b)} (ground arith) ∙ ap (0 ∷◌) (sym (cells-range_from b []))

last_cell_lem :
    (ra done b : List ℕ) → last_cell (dist ra done) (cells ra done b) ≡ dist ra (back b done)
unfolding last_cell cells back
last_cell_lem ra done [] = refl
last_cell_lem ra done (y ∷ ys) = last_cell_lem ra (y ∷ done) ys

-- `n` single-character edits turn the first list into the second.
pub data Edits : List ℕ → List ℕ → ℕ → Type 0 where
  done : Edits [] [] 0
  insert : {xs ys : List ℕ} {n : ℕ} (y : ℕ) → Edits xs ys n → Edits xs (y ∷ ys) (n + 1)
  delete : {xs ys : List ℕ} {n : ℕ} (x : ℕ) → Edits xs ys n → Edits (x ∷ xs) ys (n + 1)
  replace : {xs ys : List ℕ} {n : ℕ} (x y : ℕ) → Edits xs ys n → Edits (x ∷ xs) (y ∷ ys) (n + 1)
  keep_one : {xs ys : List ℕ} {n : ℕ} (x : ℕ) → Edits xs ys n → Edits (x ∷ xs) (x ∷ ys) n

pub record IsFewest (xs ys : List ℕ) (n : ℕ) : Type 0 where
  pub possible : Edits xs ys n
  pub least : (m : ℕ) → Edits xs ys m → n ≤ m

module _ {xs ys : List ℕ} where
  at_cost : {n m : ℕ} → n ≡ m → Edits xs ys n → Edits xs ys m
  at_cost q e = subst (Edits xs ys) q e

substituted :
    {xs ys : List ℕ} {n : ℕ} (x y : ℕ)
    → Edits xs ys n
    → Edits (x ∷ xs) (y ∷ ys) (n + substitution x y)
unfolding substitution
substituted {xs} {ys} {n} x y e = elim (Bool-cases (x == y)) [
  | inl q ↦
      at_cost (ground arith)
        (subst (λ z. Edits (x ∷ xs) (z ∷ ys) n) ((nat_beq_iff x y).0 q) (keep_one x e))
  | inr q ↦ at_cost (ground arith) (replace x y e)
]

lesser-cases : (a b : ℕ) → (lesser a b ≡ a) ⊎ (lesser a b ≡ b)
unfolding lesser
lesser-cases a b = elim (Bool-cases (leb a b)) [ inl q ↦ rw q (inl refl) | inr q ↦ rw q (inr refl) ]

dist-Edits : (xs ys : List ℕ) → Edits xs ys (dist xs ys)
unfolding dist substitution
dist-Edits [] [] = done
dist-Edits [] (y ∷ ys) = at_cost (omega arith) (insert y (dist-Edits [] ys))
dist-Edits (x ∷ xs) [] = at_cost (omega (arith, dist-empty xs)) (delete x (dist-Edits xs []))
dist-Edits (x ∷ xs) (y ∷ ys) =
    let inserted = dist (x ∷ xs) ys + 1 in
    let deleted = dist xs (y ∷ ys) + 1 in
    elim (lesser-cases (lesser inserted deleted) (dist xs ys + substitution x y)) [
      | inl q ↦ elim (lesser-cases inserted deleted) [
        | inl r ↦ at_cost (sym (q ∙ r)) (insert y (dist-Edits (x ∷ xs) ys))
        | inr r ↦ at_cost (sym (q ∙ r)) (delete x (dist-Edits xs (y ∷ ys)))
      ]
      | inr q ↦ at_cost (sym q) (substituted x y (dist-Edits xs ys))
    ]

dist_least : {xs ys : List ℕ} {n : ℕ} → Edits xs ys n → dist xs ys ≤ n
unfolding dist lesser substitution
dist_least done = omega arith
dist_least (insert {xs = []} y e) = omega (arith, dist_least e)
dist_least (insert {xs = x ∷ xs} y e) = ground (arith, dist_least e)
dist_least (delete {xs} {ys = []} x e) = omega (arith, dist_least e, dist-empty xs)
dist_least (delete {ys = y ∷ ys} x e) = ground (arith, dist_least e)
dist_least (replace x y e) = ground (arith, dist_least e)
dist_least (keep_one x e) = ground (arith, dist_least e, nat_beq_iff x x)

Edits-back :
    {xs ys us vs : List ℕ} {n m : ℕ}
    → Edits xs ys n
    → Edits us vs m
    → Edits (back xs us) (back ys vs) (n + m)
unfolding back
Edits-back done f = at_cost (omega arith) f
Edits-back (insert y e) f = at_cost (omega arith) (Edits-back e (insert y f))
Edits-back (delete x e) f = at_cost (omega arith) (Edits-back e (delete x f))
Edits-back (replace x y e) f = at_cost (omega arith) (Edits-back e (replace x y f))
Edits-back (keep_one x e) f = Edits-back e (keep_one x f)

unchanged : (xs : List ℕ) → Edits xs xs 0
unchanged [] = done
unchanged (x ∷ xs) = keep_one x (unchanged xs)

dist-IsFewest : (xs ys : List ℕ) → IsFewest xs ys (dist xs ys)
dist-IsFewest xs ys = record { possible = dist-Edits xs ys; least = λ m e. dist_least e }

-- From either end, the fewest edits are as many.
back-IsFewest : (xs ys : List ℕ) → IsFewest xs ys (dist (back xs []) (back ys []))
unfolding back
back-IsFewest xs ys = record {
  possible =
      let n = dist (back xs []) (back ys []) in
      let turned = Edits-back (dist-Edits (back xs []) (back ys [])) done in
      subst (λ us. Edits us ys n) (back_twice xs)
        (subst (λ vs. Edits (back (back xs []) []) vs n) (back_twice ys)
          (at_cost (omega arith) turned));
  least = λ m e. omega (arith, dist_least (Edits-back e done));
}

by_rows-IsFewest : (xs ys : List ℕ) → IsFewest xs ys (by_rows xs ys)
unfolding by_rows last_cell dist
by_rows-IsFewest [] ys = dist-IsFewest [] ys
by_rows-IsFewest (x ∷ xs) [] = dist-IsFewest (x ∷ xs) []
by_rows-IsFewest (x ∷ xs) (y ∷ ys) =
    let table = rows_lem (x ∷ xs) (y ∷ ys) [] in
    let last = last_cell_lem (back (x ∷ xs) []) [] (y ∷ ys) in
    subst (IsFewest (x ∷ xs) (y ∷ ys))
      (sym (
        ap (λ row. last_cell 0 (rows (x ∷ xs) (y ∷ ys) 1 row)) (first_row (y ∷ ys))
        ∙ ap (last_cell 0) table
        ∙ last))
      (back-IsFewest (x ∷ xs) (y ∷ ys))

-- `_levenshtein` returns the fewest insertions, deletions and replacements of one character that
-- turn the first text into the second.
pub levenshtein-IsFewest : (a b : String) → IsFewest (codes a) (codes b) (levenshtein a b)
unfolding levenshtein
levenshtein-IsFewest a b = elim (Bool-cases (a == b)) [
  | inl q ↦ rw q (
      subst (λ c. IsFewest (codes a) (codes c) 0) ((string_eq.beq_iff a b).0 q)
        (record { possible = unchanged (codes a); least = λ m e. omega arith }))
  | inr q ↦ rw q (by_rows-IsFewest (codes a) (codes b))
]
