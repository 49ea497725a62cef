-- ===== src/Raft/Examples.antt =====
-- The theorems on elections at clusters of three and five nodes.
use josefina.Prelude.{some, none, true, String, [], length, ◌≤◌, ◌⊎◌, ◌∷◌, ◌≡◌, refl, arith}
use josefina.Prelude.Eq.{string_eq}
use josefina.Raft.{
  Node, follower, leader, candidate, RequestVoteArgs, request_vote, start_election, vote_args,
  on_vote_reply, majority, here,
}
use josefina.Raft.Votes.{one_vote_per_term}
use josefina.Raft.Wins.{on_replies, on_replies-leader}
use josefina.Raft.Isolated.{isolated_leader, failed_calls}

abbrev first_node : Node
first_node = record {
  host = "a";
  peers = "a" ∷ "b" ∷ "c" ∷ [];
  state = follower;
  term = 3;
  voted_for = "";
  leader_id = "";
  last_heartbeat = 0;
}

abbrev name_a : String
name_a = "a"

abbrev name_b : String
name_b = "b"

abbrev request : RequestVoteArgs
request = record { term = 4; candidate_id = "b" }

abbrev voted : Node
voted = (request_vote first_node request 10).0

abbrev standing : Node
standing = (start_election voted).0

one_vote_per_term_example : name_b ≡ name_b
unfolding request_vote
one_vote_per_term_example =
    one_vote_per_term first_node voted request request 10 20 (cc) refl here refl refl

abbrev large_node : Node
large_node = record first_node { peers = "a" ∷ "b" ∷ "c" ∷ "d" ∷ "e" ∷ [] }

isolated_leader_example :
    let (t, el) = start_election large_node in
    let (u, el') = failed_calls 2 t el 30 in
    let (v, reply) = request_vote u (vote_args t el) 30 in
    let w = (on_vote_reply v el' (some reply) 30).0 in
    let (v', reply') = request_vote t (vote_args t el) 30 in
    let (x, el_x) = on_vote_reply v' el (some reply') 30 in
    ((w.state ≡ leader) × (w.leader_id ≡ "a") × (w.term ≡ 4))
    × ((length large_node.peers ≤ 3) ⊎ ((failed_calls 2 x el_x 30).0.state ≡ candidate))
isolated_leader_example = isolated_leader large_node 2 30 (omega arith)

-- One peer cannot be called, and the other two grant their votes.
on_replies-leader_example :
    (on_replies
      ((none, 20)
        ∷ (some (record { term = 4; vote_granted = true }), 21)
        ∷ (some (record { term = 4; vote_granted = true }), 22)
        ∷ [])
      (start_election first_node)).0.state
    ≡ leader
unfolding start_election majority
on_replies-leader_example =
    on_replies-leader
      ((none, 20)
        ∷ (some (record { term = 4; vote_granted = true }), 21)
        ∷ (some (record { term = 4; vote_granted = true }), 22)
        ∷ [])
      (start_election first_node).0 (start_election first_node).1 refl refl
      (tt, (omega arith, (omega arith, tt))) (omega arith) (omega arith)
