-- ===== src/Raft/Wins.antt =====
-- pkg/jdb/raft.go: a candidate with the votes of a majority becomes the leader.
use josefina.Prelude.{
  ℕ, suc, ◌+◌, ◌-◌, ◌≤◌, Bool, true, false, Option, none, some, List, [], ◌∷◌, ◌≡◌, refl, ap, ◌∙◌,
  arith, All, if◌then◌else◌, ltb, leb, ◌==◌, ◌&&◌, inl, inr, Bool-cases,
}
use josefina.Raft.{
  Node, Election, RequestVoteReply, is_candidate, majority, leader, candidate, on_vote_reply,
  count_vote, become_leader,
}

-- The answers to one election in the order in which they come back, each with its time.
unfoldable pub on_replies : List (Option RequestVoteReply × ℕ) → Node × Election → Node × Election
unfolding on_vote_reply
on_replies [] s = s
on_replies ((reply, now) ∷ replies) (s, el) = on_replies replies (on_vote_reply s el reply now)

abbrev pub granted : List (Option RequestVoteReply × ℕ) → ℕ
granted [] = 0
granted ((none, now) ∷ replies) = granted replies
granted ((some reply, now) ∷ replies) =
    if reply.vote_granted then suc (granted replies) else granted replies

-- An answer of no later term, or none.
abbrev pub IsOfTerm : ℕ → Option RequestVoteReply × ℕ → Type 0
IsOfTerm term (none, now) = Unit
IsOfTerm term (some reply, now) = reply.term ≤ term

as_leader :
    (s : Node) (el : Election) (reply : RequestVoteReply) (now : ℕ)
    → s.state ≡ leader
    → reply.term ≤ s.term
    → on_vote_reply s el (some reply) now ≡ (s, el)
unfolding on_vote_reply
as_leader s el reply now h t = rw (not_later s.term reply.term t, h) refl
  where
    not_later : (m n : ℕ) → n ≤ m → ltb m n ≡ false
    not_later m n l = ground arith

as_candidate :
    (s : Node) (el : Election) (reply : RequestVoteReply) (now : ℕ)
    → s.state ≡ candidate
    → el.term ≡ s.term
    → reply.term ≤ s.term
    → on_vote_reply s el (some reply) now
      ≡ (if reply.vote_granted then count_vote s el now else (s, el))
unfolding on_vote_reply
as_candidate s el reply now h e t =
    rw (not_later s.term reply.term t, ap is_candidate h, same_term el.term s.term e)
      (if_true reply.vote_granted)
  where
    not_later : (m n : ℕ) → n ≤ m → ltb m n ≡ false
    not_later m n l = ground arith

    same_term : (m n : ℕ) → m ≡ n → (m == n) ≡ true
    same_term m n e = ground arith

    if_true :
        (b : Bool)
        → (if b && true then count_vote s el now else (s, el))
          ≡ (if b then count_vote s el now else (s, el))
    if_true true = refl
    if_true false = refl

leader_stays :
    (replies : List (Option RequestVoteReply × ℕ)) (s : Node) (el : Election)
    → s.state ≡ leader
    → All (IsOfTerm s.term) replies
    → (on_replies replies (s, el)).0.state ≡ leader
unfolding on_replies on_vote_reply
leader_stays [] s el h t = h
leader_stays ((none, now) ∷ replies) s el h t = leader_stays replies s _ h t.1
leader_stays ((some reply, now) ∷ replies) s el h t =
    ap (λ r. (on_replies replies r).0.state) (as_leader s el reply now h t.0)
    ∙ leader_stays replies s el h t.1

-- A candidate whose election this is, and that has votes enough in these answers
abbrev IsWinning : List (Option RequestVoteReply × ℕ) → Node → Election → Type 0
IsWinning replies s el =
    (s.state ≡ candidate)
    × (el.term ≡ s.term)
    × All (IsOfTerm s.term) replies
    × (1 ≤ granted replies)
    × (majority el.total ≤ el.votes + granted replies)

count_vote-cases :
    (replies : List (Option RequestVoteReply × ℕ)) (s : Node) (el : Election) (now : ℕ)
    → s.state ≡ candidate
    → el.term ≡ s.term
    → All (IsOfTerm s.term) replies
    → majority el.total ≤ el.votes + suc (granted replies)
    → ((s : Node) (el : Election)
        → IsWinning replies s el
        → (on_replies replies (s, el)).0.state ≡ leader)
    → (on_replies replies (count_vote s el now)).0.state ≡ leader
unfolding count_vote become_leader
count_vote-cases replies s el now h e t enough later =
    elim (Bool-cases (leb (majority el.total) (el.votes + 1))) [
      | inl wins ↦ rw wins (leader_stays replies _ _ refl t)
      | inr short ↦ rw short (later s _ (h, e, t, ground arith, ground arith))
    ]

by_vote :
    (vote : Bool) (replies : List (Option RequestVoteReply × ℕ)) (s : Node) (el : Election)
    (now : ℕ)
    → s.state ≡ candidate
    → el.term ≡ s.term
    → All (IsOfTerm s.term) replies
    → 1 ≤ (if vote then suc (granted replies) else granted replies)
    → majority el.total ≤ el.votes + (if vote then suc (granted replies) else granted replies)
    → ((s : Node) (el : Election)
        → IsWinning replies s el
        → (on_replies replies (s, el)).0.state ≡ leader)
    → (on_replies replies (if vote then count_vote s el now else (s, el))).0.state ≡ leader
by_vote true replies s el now h e t some_vote enough later =
    count_vote-cases replies s el now h e t enough later
by_vote false replies s el now h e t some_vote enough later =
    later s el (h, e, t, some_vote, enough)

-- A candidate of the election's term, to which the peers answer with no later term, with one vote
-- or more, and with votes that make up the majority of the peers with those that it has, is the
-- leader when these answers are in, in whatever order they come and whatever calls fail.
pub on_replies-leader :
    (replies : List (Option RequestVoteReply × ℕ)) (s : Node) (el : Election)
    → s.state ≡ candidate
    → el.term ≡ s.term
    → All (IsOfTerm s.term) replies
    → 1 ≤ granted replies
    → majority el.total ≤ el.votes + granted replies
    → (on_replies replies (s, el)).0.state ≡ leader
unfolding on_replies majority
on_replies-leader [] s el h e t some_vote enough = absurd (omega arith)
on_replies-leader ((none, now) ∷ replies) s el h e t some_vote enough =
    on_replies-leader replies s (record el { total = el.total - 1 }) h e t.1 some_vote
      (fewer el.total enough)
  where
    fewer :
        (total : ℕ)
        → majority total ≤ el.votes + granted replies
        → majority (total - 1) ≤ el.votes + granted replies
    fewer total m = omega arith
on_replies-leader ((some reply, now) ∷ replies) s el h e t some_vote enough =
    ap (λ r. (on_replies replies r).0.state) (as_candidate s el reply now h e t.0)
    ∙ by_vote reply.vote_granted replies s el now h e t.1 some_vote enough
        (λ s el w. on_replies-leader replies s el w.0 w.1 w.2 w.3 w.4)
