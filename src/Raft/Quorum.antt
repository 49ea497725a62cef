-- ===== src/Raft/Quorum.antt =====
-- pkg/jdb/raft.go: votes counted against a majority.
use josefina.Prelude.{
  ℕ, ◌+◌, ◌≤◌, ◌≡◌, ◌≢◌, String, List, [], ◌∷◌, length, arith, if◌then◌else◌, Bool-cases, inl, inr,
  sym, ◌∙◌,
}
use mathlib.Core.Bool.{false≢true}
use josefina.Prelude.Eq.{◌=?◌, string_eq}
use text.Mathlib.TextEquality.{eq_iff}
use josefina.Raft.{majority}

-- How many of the votes are for `c`; a node that has not voted has the vote "".
unfoldable pub votes_for : String → List String → ℕ
votes_for c [] = 0
votes_for c (v ∷ vs) = if v =? c then votes_for c vs + 1 else votes_for c vs

votes_for_disjoint :
    (a b : String) (votes : List String)
    → a ≢ b
    → votes_for a votes + votes_for b votes ≤ length votes
unfolding votes_for
votes_for_disjoint a b [] h = omega arith
votes_for_disjoint a b (v ∷ vs) h =
    ground (arith, eq_iff v a, eq_iff v b, votes_for_disjoint a b vs h)

-- Where each node has one vote, two candidates that both have the majority of all the nodes' votes
-- are the same.
pub majority_unique :
    (a b : String) (votes : List String)
    → majority (length votes) ≤ votes_for a votes
    → majority (length votes) ≤ votes_for b votes
    → a ≡ b
unfolding majority
majority_unique a b votes p q = elim (Bool-cases (a =? b)) [
  | inl same ↦ (eq_iff a b).0 same
  | inr other ↦
      absurd (
        omega
          (arith, votes_for_disjoint a b votes (λ e. false≢true (sym other ∙ (eq_iff a b).1 e))))
]
