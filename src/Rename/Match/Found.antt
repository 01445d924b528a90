-- ===== src/Rename/Match/Found.antt =====
-- What `_best_mutual_match` returns: a pair of the pool that was not rejected before.
use db_version_control.Prelude.{
  ℕ, Bool, false, none, some, List, [], ◌∷◌, ◌==◌, nat_eq, ◌≡◌, refl, sym, ◌∙◌, subst, inl, inr,
  arith, All, All-map_of, contains, Bool-cases, Option-cases, nat_beq_iff,
}
use db_version_control.Prelude.Dict.{Dict, get, put, get-put}
use mathlib.Core.List.{Memᴰ}
use mathlib.Core.Option.{some-injective}
use db_version_control.Model.Schema.{Column}
use db_version_control.Snapshots.Raw.{RawColumn}
use db_version_control.Rename.Similarity.{Floats, score}
use db_version_control.Rename.Match.{
  Object, pair_eq, Scores, score_row, score_all, Best, scored, insert_ranked, ranked, best_of,
  best_per_key, Candidate, passed_over, candidate_of, candidates_of, first_max, greatest,
  best_mutual_match,
}

module _ (fs : Floats) where
  module _ (table_size : ℕ) (ignore_position : Bool) (excluded : List (ℕ × ℕ)) where
    -- No excluded pair has a score.
    abbrev NoneExcluded : Scores fs → Type 0
    NoneExcluded scores =
        (key : ℕ × ℕ) (s : fs.Float) → get scores key ≡ some s → contains excluded key ≡ false

    score_row-NoneExcluded :
        (news : List (Object RawColumn)) (scores : Scores fs) (old_column : Object Column)
        → NoneExcluded scores
        → NoneExcluded (score_row fs table_size ignore_position excluded scores old_column news)
    unfolding score_row
    score_row-NoneExcluded [] scores old_column h = h
    score_row-NoneExcluded (n ∷ news) scores old_column h =
        let key : ℕ × ℕ = (old_column.id, n.id) in
        let total = (score fs old_column.value n.value table_size ignore_position).total in
        score_row-NoneExcluded news _ old_column (elim (Bool-cases (contains excluded key)) [
          | inl q ↦ rw q h
          | inr q ↦ rw q (λ k s p. elim (Bool-cases (k == key)) [
            | inl r ↦ subst (λ j. contains excluded j ≡ false) (sym ((pair_eq.beq_iff k key).0 r)) q
            | inr r ↦ h k s (ground (arith, get-put scores key k total))
          ])
        ])

    score_all-NoneExcluded :
        (olds : List (Object Column)) (scores : Scores fs) (news : List (Object RawColumn))
        → NoneExcluded scores
        → NoneExcluded (score_all fs table_size ignore_position excluded scores olds news)
    unfolding score_all
    score_all-NoneExcluded [] scores news h = h
    score_all-NoneExcluded (o ∷ olds) scores news h =
        score_all-NoneExcluded olds _ news (score_row-NoneExcluded news scores o h)

  module _ {B : Type 0} where
    module _ {κ} (P : Object B × fs.Float → Type κ) where
      insert_ranked-All :
          (p : Object B × fs.Float) (ps : List (Object B × fs.Float))
          → P p
          → All P ps
          → All P (insert_ranked fs p ps)
      unfolding insert_ranked
      insert_ranked-All p [] h hs = (h, tt)
      insert_ranked-All p (q ∷ qs) h hs = elim (Bool-cases (fs.below p.1 q.1)) [
        | inl r ↦ rw r (hs.0, insert_ranked-All p qs h hs.1)
        | inr r ↦ rw r (h, hs)
      ]

      ranked-All : (ps : List (Object B × fs.Float)) → All P ps → All P (ranked fs ps)
      unfolding ranked
      ranked-All [] hs = tt
      ranked-All (p ∷ ps) hs = insert_ranked-All p (ranked fs ps) hs.0 (ranked-All ps hs.1)

      best_of_lem :
          (ps : List (Object B × fs.Float)) (b : Best fs B)
          → All P ps
          → best_of fs ps ≡ some b
          → P (b.partner, b.best_score)
      unfolding best_of
      best_of_lem [] b hs q = cc
      best_of_lem (p ∷ []) b hs q =
          subst (λ (x : Best fs B). P (x.partner, x.best_score)) (some-injective _ _ q) hs.0
      best_of_lem (p ∷ r ∷ more) b hs q =
          subst (λ (x : Best fs B). P (x.partner, x.best_score)) (some-injective _ _ q) hs.0

    -- A partner that stands in the list, with the score of the pair.
    abbrev pub IsScored : (ℕ → ℕ × ℕ) → Scores fs → List (Object B) → Object B × fs.Float → Type 0
    IsScored key scores inner p = Memᴰ p.0 inner × (get scores (key p.0.id) ≡ some p.1)

    scored-IsScored :
        (key : ℕ → ℕ × ℕ) (scores : Scores fs) (inner : List (Object B))
        → All (IsScored key scores inner) (scored fs key scores inner)
    unfolding scored
    scored-IsScored key scores [] = tt
    scored-IsScored key scores (x ∷ inner) =
        let more : All (IsScored key scores (x ∷ inner)) (scored fs key scores inner) =
          All-map_of (scored fs key scores inner) (λ p h. (Memᴰ.tail h.0, h.1))
            (scored-IsScored key scores inner) in
        elim (Option-cases (get scores (key x.id))) [
          | inl q ↦ rw (q, scored) more
          | inr (s, q) ↦ rw (q, scored) ((Memᴰ.head refl, q), more)
        ]

  module _ {B : Type 0} (key : ℕ → ℕ → ℕ × ℕ) (scores : Scores fs) (inner : List (Object B)) where
    abbrev pub AllScored : Dict ℕ (Best fs B) → Type 0
    AllScored d =
        (i : ℕ) (b : Best fs B)
        → get d i ≡ some b
        → IsScored (key i) scores inner (b.partner, b.best_score)

    put-AllScored :
        (d : Dict ℕ (Best fs B)) (k : ℕ) (best : Best fs B)
        → AllScored d
        → IsScored (key k) scores inner (best.partner, best.best_score)
        → AllScored (put d k best)
    put-AllScored d k best h found i b p = elim (Bool-cases (i == k)) [
      | inl r ↦
          let e : get (put d k best) i ≡ some best = ground (arith, get-put d k i best) in
          subst (λ (x : Best fs B). IsScored (key i) scores inner (x.partner, x.best_score))
            (some-injective _ _ (sym e ∙ p))
            (subst (λ j. IsScored (key j) scores inner (best.partner, best.best_score))
              (sym ((nat_beq_iff i k).0 r)) found)
      | inr r ↦ h i b (ground (arith, get-put d k i best))
    ]

    best_per_key-AllScored :
        {A : Type 0} (outer : List (Object A)) (d : Dict ℕ (Best fs B))
        → AllScored d
        → AllScored (best_per_key fs key scores d outer inner)
    unfolding best_per_key
    best_per_key-AllScored [] d h = h
    best_per_key-AllScored (x ∷ outer) d h =
        let all = scored-IsScored (key x.id) scores inner in
        best_per_key-AllScored outer _
          (elim (Option-cases (best_of fs (ranked fs (scored fs (key x.id) scores inner)))) [
            | inl q ↦ rw q h
            | inr (best, q) ↦ rw q (
                put-AllScored d x.id best h
                  (best_of_lem (IsScored (key x.id) scores inner) _ best (ranked-All _ _ all) q))
          ])

  module _ (olds : List (Object Column)) (news : List (Object RawColumn)) (scores : Scores fs) where
    -- Both columns are in the pool, and their pair has a score.
    pub record IsFound (c : Candidate fs) : Type 0 where
      pub old_in : Memᴰ c.old_column olds
      pub new_in : Memᴰ c.new_column news
      pub scored : get scores (c.old_column.id, c.new_column.id) ≡ some c.similarity

    module _ (best_for_old : Dict ℕ (Best fs RawColumn)) (best_for_new : Dict ℕ (Best fs Column))
        (h : AllScored (λ item partner. (item, partner)) scores news best_for_old) where
      candidate_of-IsFound :
          (o : Object Column) (c : Candidate fs)
          → Memᴰ o olds
          → candidate_of fs best_for_old best_for_new o ≡ some c
          → IsFound c
      unfolding candidate_of
      candidate_of-IsFound o c m q = elim (Option-cases (get best_for_old o.id)) [
        | inl e ↦ let p : none ≡ some c = rw (e, candidate_of) at q in cc
        | inr (old_best, e) ↦ elim (Option-cases (get best_for_new old_best.partner.id)) [
          | inl e' ↦ let p : none ≡ some c = rw (e, candidate_of, e') at q in cc
          | inr (new_best, e') ↦ elim (Bool-cases (passed_over fs old_best new_best o)) [
            | inl r ↦ let p : none ≡ some c = rw (e, candidate_of, e', r) at q in cc
            | inr r ↦
                let (partner_in, has_score) = h o.id old_best e in
                let taken : Candidate fs = record {
                  old_column = o;
                  new_column = old_best.partner;
                  similarity = old_best.best_score;
                } in
                let p : some taken ≡ some c = rw (e, candidate_of, e', r) at q in
                subst IsFound (some-injective _ _ p)
                  (record { old_in = m; new_in = partner_in; scored = has_score })
          ]
        ]
      ]

      candidates_of-IsFound :
          (os : List (Object Column))
          → All (λ o. Memᴰ o olds) os
          → All IsFound (candidates_of fs best_for_old best_for_new os)
      unfolding candidates_of
      candidates_of-IsFound [] m = tt
      candidates_of-IsFound (o ∷ os) m =
          elim (Option-cases (candidate_of fs best_for_old best_for_new o)) [
            | inl q ↦ rw (q, candidates_of) (candidates_of-IsFound os m.1)
            | inr (c, q) ↦
                rw (q, candidates_of) (candidate_of-IsFound o c m.0 q, candidates_of-IsFound os m.1)
          ]

    first_max-IsFound :
        (cs : List (Candidate fs)) (c : Candidate fs)
        → IsFound c
        → All IsFound cs
        → IsFound (first_max fs c cs)
    unfolding first_max
    first_max-IsFound [] c h hs = h
    first_max-IsFound (d ∷ ds) c h hs = elim (Bool-cases (fs.below c.similarity d.similarity)) [
      | inl q ↦ rw q (first_max-IsFound ds d hs.0 hs.1)
      | inr q ↦ rw q (first_max-IsFound ds c h hs.1)
    ]

    greatest-IsFound :
        (cs : List (Candidate fs)) (c : Candidate fs)
        → All IsFound cs
        → greatest fs cs ≡ some c
        → IsFound c
    unfolding greatest
    greatest-IsFound [] c h q = cc
    greatest-IsFound (d ∷ ds) c h q =
        subst IsFound (some-injective _ _ q) (first_max-IsFound ds d h.0 h.1)

  members : {A : Type 0} (xs : List A) → All (λ x. Memᴰ x xs) xs
  members [] = tt
  members (x ∷ xs) = (Memᴰ.head refl, All-map_of xs (λ y m. Memᴰ.tail m) (members xs))

  -- The pair stands in the pool and was not rejected.
  pub record IsOpen (olds : List (Object Column)) (news : List (Object RawColumn))
      (excluded : List (ℕ × ℕ)) (c : Candidate fs) : Type 0 where
    pub old_in : Memᴰ c.old_column olds
    pub new_in : Memᴰ c.new_column news
    pub new_pair : contains excluded (c.old_column.id, c.new_column.id) ≡ false

  pub best_mutual_match-IsOpen :
      (olds : List (Object Column)) (news : List (Object RawColumn)) (table_size : ℕ)
      (ignore_position : Bool) (excluded : List (ℕ × ℕ)) (c : Candidate fs)
      → best_mutual_match fs olds news table_size ignore_position excluded ≡ some c
      → IsOpen olds news excluded c
  unfolding best_mutual_match get
  best_mutual_match-IsOpen olds news table_size ignore_position excluded c q =
      let scores = score_all fs table_size ignore_position excluded [] olds news in
      let pair : ℕ → ℕ → ℕ × ℕ = λ item partner. (item, partner) in
      let best = best_per_key-AllScored pair scores news olds [] (λ i b p. cc) in
      let found =
        greatest-IsFound olds news scores _ c
          (candidates_of-IsFound olds news scores _ _ best olds (members olds)) q in
      record {
        old_in = found.old_in;
        new_in = found.new_in;
        new_pair =
            score_all-NoneExcluded table_size ignore_position excluded olds [] news (λ k s p. cc) _
              _ found.scored;
      }
