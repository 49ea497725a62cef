-- ===== src/Raft/Votes.antt =====
-- pkg/jdb/raft.go: the terms and the votes of one node.
use josefina.Prelude.{
  ℕ, ◌+◌, ◌≤◌, ◌≡◌, ◌≢◌, refl, ◌∙◌, sym, true, none, some, ltb, arith, ◌||◌, ◌&&◌, Bool-cases, inl,
  inr, ◌==◌, if◌then◌else◌,
}
use josefina.Prelude.Eq.{◌=?◌, string_eq}
use text.Mathlib.TextEquality.{eq_iff}
use josefina.Raft.{
  Node, RequestVoteArgs, start_election, on_vote_reply, request_vote, heartbeat, on_heartbeat_reply,
  Step, elect, vote_reply, vote, beat, beat_reply, Reach, here, next,
}

-- A step that keeps the term keeps a vote that has been given.
abbrev pub Keeps : Node → Node → Type 0
Keeps s t = (s.term ≤ t.term) × (t.term ≡ s.term → s.voted_for ≢ "" → t.voted_for ≡ s.voted_for)

Step-Keeps : {s t : Node} → Step s t → Keeps s t
Step-Keeps {s} (elect now) = unfold start_election in ground arith
Step-Keeps {s} (vote_reply el none now) = unfold on_vote_reply in ground arith
Step-Keeps {s} (vote_reply el (some r) now) = unfold on_vote_reply in ground arith
Step-Keeps {s} (vote args now) =
    unfold request_vote in
    ground (arith, eq_iff s.voted_for "", eq_iff s.voted_for args.candidate_id)
Step-Keeps {s} (beat args now) = unfold heartbeat in ground arith
Step-Keeps {s} (beat_reply none) = unfold on_heartbeat_reply in ground arith
Step-Keeps {s} (beat_reply (some r)) = unfold on_heartbeat_reply in ground arith

Keeps-trans : (s t u : Node) → Keeps s t → Keeps t u → Keeps s u
Keeps-trans s t u (p, q) (p', q') = (
  omega arith,
  λ e v. let mid = q (omega arith) v in q' (omega arith) (λ w. v (sym mid ∙ w)) ∙ mid,
)

pub Reach-Keeps : {s t : Node} → Reach s t → Keeps s t
Reach-Keeps here = (omega arith, λ e v. refl)
Reach-Keeps {s} (next {t} {u} r st) = Keeps-trans s t u (Reach-Keeps r) (Step-Keeps st)

-- Whatever a node does or receives, its term never falls.
pub term-Reach : {s t : Node} → Reach s t → s.term ≤ t.term
term-Reach r = (Reach-Keeps r).0

-- What requestVote answers on every branch: the term is the later one of the two, and the vote is
-- given exactly when the candidate's term is later, or is the node's own and the node has voted for
-- nobody else in it.
pub request_vote_lem :
    (s : Node) (args : RequestVoteArgs) (now : ℕ)
    → ((request_vote s args now).1.term ≡ (if ltb s.term args.term then args.term else s.term))
      × ((request_vote s args now).0.term ≡ (request_vote s args now).1.term)
      × ((request_vote s args now).1.vote_granted ≡ (
          ltb s.term args.term
          || (args.term == s.term && (s.voted_for =? "" || s.voted_for =? args.candidate_id))))
unfolding request_vote
request_vote_lem s args now = (ground arith, ground arith, granted)
  where
    granted : (request_vote s args now).1.vote_granted ≡ (
        ltb s.term args.term
        || (args.term == s.term && (s.voted_for =? "" || s.voted_for =? args.candidate_id)))
    granted = elim (Bool-cases (ltb s.term args.term)) [
      | inl later ↦ rw later (ground arith)
      | inr not_later ↦ rw not_later (ground arith)
    ]

granted_records :
    (s : Node) (args : RequestVoteArgs) (now : ℕ)
    → (request_vote s args now).1.vote_granted ≡ true
    → (request_vote s args now).0.voted_for ≡ args.candidate_id
unfolding request_vote
granted_records s args now h = ground arith

granted_needs :
    (s : Node) (args : RequestVoteArgs) (now : ℕ)
    → (request_vote s args now).1.vote_granted ≡ true
    → (request_vote s args now).0.term ≡ s.term
    → s.voted_for ≢ ""
    → s.voted_for ≡ args.candidate_id
unfolding request_vote
granted_needs s args now g e v =
    ground (arith, eq_iff s.voted_for "", eq_iff s.voted_for args.candidate_id)

-- A node that has granted a vote to a candidate with a non-empty id, and after any steps grants one in
-- the same term, grants it to the same candidate.
pub one_vote_per_term :
    (s t : Node) (a b : RequestVoteArgs) (now later : ℕ)
    → a.candidate_id ≢ ""
    → (request_vote s a now).1.vote_granted ≡ true
    → Reach (request_vote s a now).0 t
    → (request_vote t b later).1.vote_granted ≡ true
    → (request_vote t b later).1.term ≡ (request_vote s a now).1.term
    → b.candidate_id ≡ a.candidate_id
one_vote_per_term s t a b now later named g r g' e =
    let (up, keep) = Reach-Keeps r in
    let step : Step t (request_vote t b later).0 = vote b later in
    let (up', _) = Step-Keeps step in
    let first = granted_records s a now g in
    let (_, own, _) = request_vote_lem s a now in
    let (_, own', _) = request_vote_lem t b later in
    let kept = keep (omega arith) (λ w. named (sym first ∙ w)) in
    sym (granted_needs t b later g' (omega arith) (λ w. named (sym first ∙ sym kept ∙ w)))
    ∙ kept
    ∙ first

-- A node with a non-empty host that stood for election in a term, and after any steps grants a vote in
-- that term, grants it to itself.
pub candidate_keeps_its_vote :
    (s t : Node) (b : RequestVoteArgs) (later : ℕ)
    → s.host ≢ ""
    → Reach (start_election s).0 t
    → (request_vote t b later).1.vote_granted ≡ true
    → (request_vote t b later).1.term ≡ s.term + 1
    → b.candidate_id ≡ s.host
unfolding start_election
candidate_keeps_its_vote s t b later named r g e =
    let (up, keep) = Reach-Keeps r in
    let step : Step t (request_vote t b later).0 = vote b later in
    let (up', _) = Step-Keeps step in
    let (_, own, _) = request_vote_lem t b later in
    let kept = keep (omega arith) named in
    sym (granted_needs t b later g (omega arith) (λ w. named (sym kept ∙ w))) ∙ kept
