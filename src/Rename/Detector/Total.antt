-- ===== src/Rename/Detector/Total.antt =====
-- The loop of `detect_renames` ends, and every column is accounted for.
use db_version_control.Prelude.{
  ℕ, zero, suc, ◌+◌, ◌*◌, ◌≤◌, ◌<◌, Bool, true, false, List, [], ◌∷◌, ◌++◌, nat_eq, ◌≡◌, refl, sym,
  ap, ◌∙◌, subst, inl, inr, arith, if◌then◌else◌, length, Bool-cases, Option-cases,
}
use db_version_control.Prelude.Errors.{ok}
use native.Mathlib.Nat.{suc-mul}
use mathlib.Core.List.{Memᴰ, append-nil}
use db_version_control.Model.Schema.{Column}
use db_version_control.Snapshots.Raw.{RawColumn}
use db_version_control.Rename.Similarity.{Floats}
use db_version_control.Rename.Match.{
  Object, pair_eq, column_eq, raw_column_eq, Candidate, best_mutual_match,
}
use db_version_control.Rename.Match.Found.{IsOpen, best_mutual_match-IsOpen}
use db_version_control.Rename.Detector.Counts.{
  occurrences, occurrences-move, length-remove, open_with, open_pairs, open_pairs-remove_new,
  open_pairs-remove_old, open_pairs-reject_new,
}
use db_version_control.Rename.Detector.{
  pending, proposed, confirmed, remove, RenameProposal, DetectionResult, ConfirmFn, settled, Pool,
  proposal_for, settle, result_of, detect_loop, resolve_single_proposal, detect_pool,
  detect_renames,
}

open_with-le :
    (excluded : List (ℕ × ℕ)) (i : ℕ) (news : List (Object RawColumn))
    → open_with excluded i news ≤ length news
unfolding open_with
open_with-le excluded i [] = omega arith
open_with-le excluded i (n ∷ news) = ground (arith, open_with-le excluded i news)

open_pairs-le :
    (excluded : List (ℕ × ℕ)) (olds : List (Object Column)) (news : List (Object RawColumn))
    → open_pairs excluded olds news ≤ length olds * length news
unfolding open_pairs
open_pairs-le excluded [] news = omega arith
open_pairs-le excluded (o ∷ olds) news =
    let head = open_with-le excluded o.id news in
    let rest = open_pairs-le excluded olds news in
    omega (arith, head, rest, suc-mul (length olds) (length news))

module _ (fs : Floats) where
  unfoldable pub is_confirmed : RenameProposal fs → Bool
  is_confirmed p = elim p.status [ confirmed ↦ true | _ ↦ false ]

  -- The columns of the confirmed proposals.
  abbrev pub confirmed_old : List (RenameProposal fs) → List (Object Column)
  confirmed_old [] = []
  confirmed_old (p ∷ ps) =
      let rest = confirmed_old ps in if is_confirmed p then p.old_column ∷ rest else rest

  abbrev pub confirmed_new : List (RenameProposal fs) → List (Object RawColumn)
  confirmed_new [] = []
  confirmed_new (p ∷ ps) =
      let rest = confirmed_new ps in if is_confirmed p then p.new_column ∷ rest else rest

  confirmed_old-append :
      (ps qs : List (RenameProposal fs))
      → confirmed_old (ps ++ qs) ≡ confirmed_old ps ++ confirmed_old qs
  confirmed_old-append [] qs = refl
  confirmed_old-append (p ∷ ps) qs = ground (arith, confirmed_old-append ps qs)

  confirmed_new-append :
      (ps qs : List (RenameProposal fs))
      → confirmed_new (ps ++ qs) ≡ confirmed_new ps ++ confirmed_new qs
  confirmed_new-append [] qs = refl
  confirmed_new-append (p ∷ ps) qs = ground (arith, confirmed_new-append ps qs)

  -- Each proposal was asked about, in turn from question `k` on, and has the status of the answer.
  abbrev pub Answered : ConfirmFn fs → ℕ → List (RenameProposal fs) → Type 0
  Answered confirm k [] = Unit
  Answered confirm k (p ∷ ps) =
      (p ≡ settled fs (confirm k (record p { status = proposed })) p) × Answered confirm (suc k) ps

  Answered-snoc :
      (confirm : ConfirmFn fs) (k : ℕ) (ps : List (RenameProposal fs)) (p : RenameProposal fs)
      → Answered confirm k ps
      → p ≡ settled fs (confirm (k + length ps) (record p { status = proposed })) p
      → Answered confirm k (ps ++ p ∷ [])
  Answered-snoc confirm k [] p h q = (
    subst (λ j. p ≡ settled fs (confirm j (record p { status = proposed })) p) (omega arith) q,
    tt,
  )
  Answered-snoc confirm k (r ∷ ps) p h q = (
    h.0,
    Answered-snoc confirm (suc k) ps p h.1 (
        subst (λ j. p ≡ settled fs (confirm j (record p { status = proposed })) p) (omega arith) q),
  )

  -- Every column of the pool is confirmed as renamed or left over, as often as it was there, and each
  -- proposal has the status of its answer.
  pub record IsSettled (confirm : ConfirmFn fs) (olds : List (Object Column))
      (news : List (Object RawColumn)) (result : DetectionResult fs) : Type 0 where
    pub old_kept :
        (c : Column)
        → occurrences (confirmed_old result.proposals ++ result.plain_drops) c ≡ occurrences olds c
    pub new_kept :
        (c : RawColumn)
        → occurrences (confirmed_new result.proposals ++ result.plain_adds) c ≡ occurrences news c
    pub answered : Answered confirm 0 result.proposals

  module _ (confirm : ConfirmFn fs) (olds : List (Object Column))
      (news : List (Object RawColumn)) where
    asked-Answered :
        (proposals : List (RenameProposal fs)) (c : Candidate fs) (answer : Bool)
        → confirm (length proposals) (proposal_for fs c) ≡ answer
        → Answered confirm 0 proposals
        → Answered confirm 0 (proposals ++ settled fs answer (proposal_for fs c) ∷ [])
    unfolding settled proposal_for
    asked-Answered proposals c answer q h =
        let proposal = settled fs answer (proposal_for fs c) in
        let asked =
          ap (λ j. confirm j (proposal_for fs c)) {x = 0 + length proposals} (omega arith) ∙ q in
        Answered-snoc confirm 0 proposals proposal h (sym (ap (λ b. settled fs b proposal) asked))

    settle-IsSettled :
        (pool : Pool fs) (c : Candidate fs) (answer : Bool)
        → confirm (length pool.proposals) (proposal_for fs c) ≡ answer
        → Memᴰ c.old_column pool.remaining_old
        → Memᴰ c.new_column pool.remaining_new
        → IsSettled confirm olds news (result_of fs pool)
        → IsSettled confirm olds news (result_of fs (settle fs pool c answer))
    unfolding settle settled result_of proposal_for is_confirmed
    settle-IsSettled pool c true q m k h =
        let done = pool.proposals in
        let asked = settled fs true (proposal_for fs c) ∷ [] in
        record {
          old_kept = λ a.
              ap (λ xs. occurrences (xs ++ remove pool.remaining_old c.old_column) a)
                (confirmed_old-append done asked)
              ∙ occurrences-move (confirmed_old done) pool.remaining_old c.old_column a m
              ∙ h.old_kept a;
          new_kept = λ a.
              ap (λ xs. occurrences (xs ++ remove pool.remaining_new c.new_column) a)
                (confirmed_new-append done asked)
              ∙ occurrences-move (confirmed_new done) pool.remaining_new c.new_column a k
              ∙ h.new_kept a;
          answered = asked-Answered done c true q h.answered;
        }
    settle-IsSettled pool c false q m k h =
        let done = pool.proposals in
        let asked = settled fs false (proposal_for fs c) ∷ [] in
        record {
          old_kept = λ a.
              ap (λ xs. occurrences (xs ++ pool.remaining_old) a)
                (confirmed_old-append done asked ∙ append-nil (confirmed_old done))
              ∙ h.old_kept a;
          new_kept = λ a.
              ap (λ xs. occurrences (xs ++ pool.remaining_new) a)
                (confirmed_new-append done asked ∙ append-nil (confirmed_new done))
              ∙ h.new_kept a;
          answered = asked-Answered done c false q h.answered;
        }

  measure : Pool fs → ℕ
  measure pool =
      open_pairs pool.rejected_pairs pool.remaining_old pool.remaining_new
      + length pool.remaining_old

  settle_shrinks :
      (pool : Pool fs) (c : Candidate fs) (answer : Bool)
      → IsOpen fs pool.remaining_old pool.remaining_new pool.rejected_pairs c
      → measure (settle fs pool c answer) < measure pool
  unfolding settle measure
  settle_shrinks pool c true h = omega (
    arith,
    length-remove pool.remaining_old c.old_column h.old_in,
    open_pairs-remove_old pool.rejected_pairs pool.remaining_old pool.remaining_new c.old_column,
    open_pairs-remove_new pool.rejected_pairs (remove pool.remaining_old c.old_column)
        pool.remaining_new c.new_column,
  )
  settle_shrinks pool c false h = omega (
    arith,
    open_pairs-reject_new pool.rejected_pairs pool.remaining_old pool.remaining_new c.old_column
        c.new_column h.old_in h.new_in h.new_pair,
  )

  module _ (confirm : ConfirmFn fs) (olds : List (Object Column)) (news : List (Object RawColumn))
      (table_size : ℕ) (ignore_position : Bool) where
    detect_loop_total :
        (fuel : ℕ) (pool : Pool fs)
        → measure pool < fuel
        → IsSettled confirm olds news (result_of fs pool)
        → (result : DetectionResult fs) × (detect_loop fs confirm fuel table_size ignore_position
              pool
            ≡ ok result)
          × IsSettled confirm olds news result
    unfolding detect_loop
    detect_loop_total zero pool l h = absurd (omega (arith, l))
    detect_loop_total (suc fuel) pool l h =
        elim (Option-cases (
          best_mutual_match fs pool.remaining_old pool.remaining_new table_size ignore_position
            pool.rejected_pairs)) [
              | inl q ↦ (result_of fs pool, rw (q, detect_loop) refl, h)
              | inr (c, q) ↦
                  let is_open =
                    best_mutual_match-IsOpen fs pool.remaining_old pool.remaining_new table_size
                      ignore_position pool.rejected_pairs c q in
                  let answer = confirm (length pool.proposals) (proposal_for fs c) in
                  let (result, done, is) =
                    detect_loop_total fuel (settle fs pool c answer)
                      (omega (arith, l, settle_shrinks pool c answer is_open))
                      (settle-IsSettled confirm olds news pool c answer refl is_open.old_in
                        is_open.new_in h) in
                  (result, rw (q, detect_loop) done, is)
            ]

    detect_pool_total :
        (result : DetectionResult fs) × (detect_pool fs confirm olds news table_size ignore_position
          ≡ ok result)
        × IsSettled confirm olds news result
    unfolding detect_pool measure result_of
    detect_pool_total =
        detect_loop_total _ _ (omega (arith, open_pairs-le [] olds news))
          (record { old_kept = λ a. refl; new_kept = λ a. refl; answered = tt })

  resolve_single_proposal-IsSettled :
      (confirm : ConfirmFn fs) (proposal : RenameProposal fs)
      → IsSettled confirm
          (proposal.old_column ∷ [])
          (proposal.new_column ∷ [])
          (resolve_single_proposal fs confirm proposal)
  unfolding resolve_single_proposal settled is_confirmed
  resolve_single_proposal-IsSettled confirm proposal =
      let asked = record proposal { status = proposed } in
      elim (Bool-cases (confirm 0 asked)) [
        | inl q ↦
            rw (q, resolve_single_proposal)
              (record {
                old_kept = λ a. refl;
                new_kept = λ a. refl;
                answered = (sym (ap (λ b. settled fs b (settled fs true asked)) q), tt);
              })
        | inr q ↦
            rw (q, resolve_single_proposal)
              (record {
                old_kept = λ a. refl;
                new_kept = λ a. refl;
                answered = (sym (ap (λ b. settled fs b (settled fs false asked)) q), tt);
              })
      ]

  -- Whatever is answered, and however floats compare, `detect_renames` returns. Each old column, as
  -- often as it was given, is one of a confirmed proposal or a plain drop; each new column is one of a
  -- confirmed proposal or a plain add. Each proposal was asked about in turn and has the status of
  -- the answer.
  pub detect_renames_total :
      (confirm : ConfirmFn fs) (olds : List (Object Column)) (news : List (Object RawColumn))
      (table_size : ℕ) (all_old : List Column) (all_new : List RawColumn)
      → (result : DetectionResult fs) × (detect_renames fs confirm olds news table_size all_old
            all_new
          ≡ ok result)
        × IsSettled confirm olds news result
  unfolding detect_renames resolve_single_proposal settled is_confirmed
  detect_renames_total confirm [] news table_size all_old all_new =
      detect_pool_total confirm [] news table_size _
  detect_renames_total confirm (o ∷ p ∷ olds) news table_size all_old all_new =
      detect_pool_total confirm (o ∷ p ∷ olds) news table_size _
  detect_renames_total confirm (o ∷ []) [] table_size all_old all_new =
      detect_pool_total confirm (o ∷ []) [] table_size _
  detect_renames_total confirm (o ∷ []) (n ∷ m ∷ news) table_size all_old all_new =
      detect_pool_total confirm (o ∷ []) (n ∷ m ∷ news) table_size _
  detect_renames_total confirm (o ∷ []) (n ∷ []) table_size all_old all_new = (
    _,
    refl,
    resolve_single_proposal-IsSettled confirm (record {
      old_column = o;
      new_column = n;
      similarity = fs.literal "-1.0";
      status = pending;
    }),
  )
