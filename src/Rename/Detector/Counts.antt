-- ===== src/Rename/Detector/Counts.antt =====
-- How a removal and a rejection shrink the pool of `detect_renames`.
use db_version_control.Prelude.{
  ℕ, suc, ◌+◌, ◌≤◌, ◌<◌, true, false, List, [], ◌∷◌, ◌++◌, Eq, ◌==◌, nat_eq, ◌≡◌, refl, sym, ap,
  inl, inr, arith, if◌then◌else◌, length, contains, Bool-cases, beq_refl,
}
use mathlib.Core.List.{Memᴰ}
use db_version_control.Model.Schema.{Column}
use db_version_control.Snapshots.Raw.{RawColumn}
use db_version_control.Rename.Match.{Object, pair_eq, column_eq, raw_column_eq}
use db_version_control.Rename.Detector.{remove}

module _ {A : Type 0} ⦃e : Eq A⦄ where
  -- How many objects of a list have the value.
  abbrev pub occurrences : List (Object A) → A → ℕ
  occurrences [] a = 0
  occurrences (x ∷ xs) a = (if x.value == a then 1 else 0) + occurrences xs a

  pub occurrences-append :
      (xs ys : List (Object A)) (a : A)
      → occurrences (xs ++ ys) a ≡ occurrences xs a + occurrences ys a
  occurrences-append [] ys a = omega arith
  occurrences-append (x ∷ xs) ys a = omega (arith, occurrences-append xs ys a)

  -- One object of the value goes.
  pub occurrences-remove :
      (xs : List (Object A)) (x : Object A) (a : A)
      → Memᴰ x xs
      → occurrences xs a ≡ (if x.value == a then 1 else 0) + occurrences (remove xs x) a
  unfolding remove
  occurrences-remove [] x a m = elim m [ ]
  occurrences-remove (y ∷ ys) x a m = elim (Bool-cases (y.value == x.value)) [
    | inl q ↦
        rw q
          (ap (λ v. (if v == a then 1 else 0) + occurrences ys a) ((e.beq_iff y.value x.value).0 q))
    | inr q ↦ rw q (elim m [
      | Memᴰ.head r ↦ let same : (y.value == x.value) ≡ true = rw r (beq_refl y.value) in cc
      | Memᴰ.tail r ↦ omega (arith, occurrences-remove ys x a r)
    ])
  ]

  -- An object that moves to the end of another list.
  pub occurrences-move :
      (done left : List (Object A)) (x : Object A) (a : A)
      → Memᴰ x left
      → occurrences ((done ++ x ∷ []) ++ remove left x) a ≡ occurrences (done ++ left) a
  occurrences-move done left x a m = omega (
    arith,
    occurrences-append (done ++ x ∷ []) (remove left x) a,
    occurrences-append done (x ∷ []) a,
    occurrences-append done left a,
    occurrences-remove left x a m,
  )

  pub length-remove :
      (xs : List (Object A)) (x : Object A) → Memᴰ x xs → length xs ≡ suc (length (remove xs x))
  unfolding remove
  length-remove [] x m = elim m [ ]
  length-remove (y ∷ ys) x m = elim (Bool-cases (y.value == x.value)) [
    | inl q ↦ rw q refl
    | inr q ↦ rw q (elim m [
      | Memᴰ.head r ↦ let same : (y.value == x.value) ≡ true = rw r (beq_refl y.value) in cc
      | Memᴰ.tail r ↦ omega (arith, length-remove ys x r)
    ])
  ]

-- The pairs of the pool that were not rejected.
unfoldable pub open_with : List (ℕ × ℕ) → ℕ → List (Object RawColumn) → ℕ
open_with excluded i [] = 0
open_with excluded i (n ∷ news) =
    (if contains excluded (i, n.id) then 0 else 1) + open_with excluded i news

unfoldable pub open_pairs : List (ℕ × ℕ) → List (Object Column) → List (Object RawColumn) → ℕ
open_pairs excluded [] news = 0
open_pairs excluded (o ∷ olds) news = open_with excluded o.id news + open_pairs excluded olds news

pub open_with-remove :
    (excluded : List (ℕ × ℕ)) (i : ℕ) (news : List (Object RawColumn)) (n : Object RawColumn)
    → open_with excluded i (remove news n) ≤ open_with excluded i news
unfolding open_with remove
open_with-remove excluded i [] n = omega arith
open_with-remove excluded i (m ∷ news) n = elim (Bool-cases (m.value == n.value)) [
  | inl q ↦ rw q (ground arith)
  | inr q ↦ rw q (omega (arith, open_with-remove excluded i news n))
]

pub open_pairs-remove_new :
    (excluded : List (ℕ × ℕ)) (olds : List (Object Column)) (news : List (Object RawColumn))
    (n : Object RawColumn)
    → open_pairs excluded olds (remove news n) ≤ open_pairs excluded olds news
unfolding open_pairs
open_pairs-remove_new excluded [] news n = omega arith
open_pairs-remove_new excluded (o ∷ olds) news n =
    omega (arith, open_with-remove excluded o.id news n, open_pairs-remove_new excluded olds news n)

pub open_pairs-remove_old :
    (excluded : List (ℕ × ℕ)) (olds : List (Object Column)) (news : List (Object RawColumn))
    (o : Object Column)
    → open_pairs excluded (remove olds o) news ≤ open_pairs excluded olds news
unfolding open_pairs remove
open_pairs-remove_old excluded [] news o = omega arith
open_pairs-remove_old excluded (p ∷ olds) news o = elim (Bool-cases (p.value == o.value)) [
  | inl q ↦ rw q (omega arith)
  | inr q ↦ rw q (omega (arith, open_pairs-remove_old excluded olds news o))
]

pub open_with-reject :
    (excluded : List (ℕ × ℕ)) (pair : ℕ × ℕ) (i : ℕ) (news : List (Object RawColumn))
    → open_with (pair ∷ excluded) i news ≤ open_with excluded i news
unfolding open_with
open_with-reject excluded pair i [] = omega arith
open_with-reject excluded pair i (n ∷ news) = ground (arith, open_with-reject excluded pair i news)

pub open_with-reject_new :
    (excluded : List (ℕ × ℕ)) (i : ℕ) (news : List (Object RawColumn)) (n : Object RawColumn)
    → Memᴰ n news
    → contains excluded (i, n.id) ≡ false
    → open_with ((i, n.id) ∷ excluded) i news < open_with excluded i news
unfolding open_with
open_with-reject_new excluded i [] n m h = elim m [ ]
open_with-reject_new excluded i (x ∷ news) n m h = elim m [
  | Memᴰ.head r ↦
      let here : ℕ × ℕ = (i, x.id) in
      let same : (here == (i, n.id)) ≡ true = rw r (beq_refl here) in
      let new : contains excluded (i, x.id) ≡ false = rw (sym r) h in
      ground (arith, open_with-reject excluded (i, n.id) i news)
  | Memᴰ.tail r ↦ ground (arith, open_with-reject_new excluded i news n r h)
]

pub open_pairs-reject :
    (excluded : List (ℕ × ℕ)) (pair : ℕ × ℕ) (olds : List (Object Column))
    (news : List (Object RawColumn))
    → open_pairs (pair ∷ excluded) olds news ≤ open_pairs excluded olds news
unfolding open_pairs
open_pairs-reject excluded pair [] news = omega arith
open_pairs-reject excluded pair (o ∷ olds) news =
    omega
      (arith, open_with-reject excluded pair o.id news, open_pairs-reject excluded pair olds news)

pub open_pairs-reject_new :
    (excluded : List (ℕ × ℕ)) (olds : List (Object Column)) (news : List (Object RawColumn))
    (o : Object Column) (n : Object RawColumn)
    → Memᴰ o olds
    → Memᴰ n news
    → contains excluded (o.id, n.id) ≡ false
    → open_pairs ((o.id, n.id) ∷ excluded) olds news < open_pairs excluded olds news
unfolding open_pairs
open_pairs-reject_new excluded [] news o n m k h = elim m [ ]
open_pairs-reject_new excluded (p ∷ olds) news o n m k h = elim m [
  | Memᴰ.head r ↦
      let less : open_with ((o.id, n.id) ∷ excluded) p.id news < open_with excluded p.id news =
        rw (sym r) (open_with-reject_new excluded o.id news n k h) in
      omega (arith, less, open_pairs-reject excluded (o.id, n.id) olds news)
  | Memᴰ.tail r ↦ omega (
    arith,
    open_with-reject excluded (o.id, n.id) p.id news,
    open_pairs-reject_new excluded olds news o n r k h,
  )
]
