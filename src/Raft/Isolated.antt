-- ===== src/Raft/Isolated.antt =====
-- pkg/jdb/raft.go: startElection sends its request to every entry of `peers`, the node's own among them, and takes an
-- unreachable peer off the total: what that does to the count.
use josefina.Prelude.{ℕ, zero, suc, ◌+◌, ◌-◌, ◌≤◌, ◌≡◌, ◌∙◌, true, none, some, length, arith, ◌⊎◌}
use text.Mathlib.TextEquality.{eq_iff}
use josefina.Raft.{
  Node, leader, candidate, count_vote, Election, start_election, on_vote_reply, request_vote,
  vote_args, majority,
}

-- `n` calls of peers come back with an error.
unfoldable pub failed_calls : ℕ → Node → Election → ℕ → Node × Election
failed_calls zero s el now = (s, el)
failed_calls (suc n) s el now =
    let (t, el') = on_vote_reply s el none now in failed_calls n t el' now

failed_calls_lem :
    (n : ℕ) (s : Node) (el : Election) (now : ℕ)
    → failed_calls n s el now ≡ (s, record el { total = el.total - n })
unfolding failed_calls on_vote_reply
failed_calls_lem zero s el now = λ i. (s, record el { total = less i })
  where
    less : el.total ≡ el.total - 0
    less = omega arith
failed_calls_lem (suc n) s el now =
    failed_calls_lem n s (record el { total = el.total - 1 }) now
    ∙ (λ i. (s, record el { total = less i }))
  where
    less : el.total - 1 - n ≡ el.total - suc n
    less = omega arith

-- A candidate grants itself the vote that it asks for.
own_vote :
    (s : Node) (now : ℕ)
    → (request_vote (start_election s).0 (vote_args (start_election s).0 (start_election s).1) now)
      ≡ (
        record (start_election s).0 { last_heartbeat = now },
        record { term = s.term + 1; vote_granted = true },
      )
unfolding request_vote start_election vote_args
own_vote s now = ground (arith, eq_iff s.host s.host)

-- The other order: the own reply is counted while no call has failed yet.
own_first :
    (s : Node) (now : ℕ)
    → let (t, el) = start_election s in
      let (v, reply) = request_vote t (vote_args t el) now in
      (length s.peers ≤ 3) ⊎ ((on_vote_reply v el (some reply) now).0.state ≡ candidate)
own_first s now =
    rw (own_vote s now) (unfold on_vote_reply start_election majority count_vote in ground arith)

-- A node among whose peers it is itself, and whose calls of all but at most three of its peers fail,
-- when it starts an election: if the calls have failed before its own reply comes in, it is the leader
-- of the next term with that reply, and nobody else has voted. If its own reply comes in first, the
-- calls that fail afterwards do not make it the leader, unless it has three peers or fewer.
pub isolated_leader :
    (s : Node) (failed now : ℕ)
    → length s.peers ≤ failed + 3
    → let (t, el) = start_election s in
      let (u, el') = failed_calls failed t el now in
      let (v, reply) = request_vote u (vote_args t el) now in
      let w = (on_vote_reply v el' (some reply) now).0 in
      let (v', reply') = request_vote t (vote_args t el) now in
      let (x, el_x) = on_vote_reply v' el (some reply') now in
      ((w.state ≡ leader) × (w.leader_id ≡ s.host) × (w.term ≡ s.term + 1))
      × ((length s.peers ≤ 3) ⊎ ((failed_calls failed x el_x now).0.state ≡ candidate))
isolated_leader s failed now h =
    let (t, el) = start_election s in
    let (v, reply) = request_vote t (vote_args t el) now in
    let (x, el_x) = on_vote_reply v el (some reply) now in
    (
      rw (failed_calls_lem failed (start_election s).0 (start_election s).1 now, own_vote s now)
          (unfold on_vote_reply start_election majority in
            (ground arith, ground arith, ground arith)),
      rw (failed_calls_lem failed x el_x now) (own_first s now),
    )
