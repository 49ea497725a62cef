-- ===== src/Raft.antt =====
-- pkg/jdb/raft.go: the election of a leader among the nodes.
--
-- A method that holds `s.mu` is one step; the variables `votes` and `total` that the goroutines of
-- startElection share are the record Election. Times are numbers of milliseconds; the clock and the
-- random numbers are arguments. The calls of other nodes are the arguments and the replies below.
pub mod Votes
pub mod Quorum
pub mod Isolated
pub mod Wins
mod Examples
use josefina.Prelude.{
  ℕ, ◌+◌, ◌-◌, ◌/◌, ◌%◌, Bool, true, false, not, Option, none, some, String, List, [], ◌∷◌, ◌&&◌,
  ◌||◌, length, ltb, leb, ◌==◌, if◌then◌else◌,
}
use josefina.Prelude.Eq.{◌=?◌, string_eq}

abbrev pub heartbeat_interval : ℕ
heartbeat_interval = 500

-- `random` stands for the number that `rng` gives; rng.Intn(n) is below n.
unfoldable pub random_between : ℕ → ℕ → ℕ → ℕ
random_between random min_ms max_ms =
    if leb max_ms min_ms then min_ms else random % (max_ms - min_ms + 1) + min_ms

unfoldable pub majority : ℕ → ℕ
majority n = n / 2 + 1

pub data NodeState : Type 0 where
  follower candidate leader : NodeState

abbrev pub is_leader : NodeState → Bool
is_leader leader = true
is_leader _ = false

abbrev pub is_candidate : NodeState → Bool
is_candidate candidate = true
is_candidate _ = false

-- The fields of Node that an election reads or writes.
pub record Node : Type 0 where
  pub host : String
  pub peers : List String
  pub state : NodeState
  pub term : ℕ
  pub voted_for : String
  pub leader_id : String
  pub last_heartbeat : ℕ

pub record RequestVoteArgs : Type 0 where
  pub term : ℕ
  pub candidate_id : String

pub record RequestVoteReply : Type 0 where
  pub term : ℕ
  pub vote_granted : Bool

pub record HeartbeatArgs : Type 0 where
  pub term : ℕ
  pub leader_id : String

pub record HeartbeatReply : Type 0 where
  pub term : ℕ
  pub ok : Bool

-- The variables that one call of startElection shares with its goroutines.
pub record Election : Type 0 where
  pub term : ℕ
  pub votes : ℕ
  pub total : ℕ

-- One round of electionLoop, at the time `now`: whether it starts an election.
unfoldable pub election_due : Node → ℕ → Bool
election_due s now = ltb heartbeat_interval (now - s.last_heartbeat) && not (is_leader s.state)

unfoldable pub start_election : Node → Node × Election
start_election s = (
  record s { state = candidate; term = s.term + 1; voted_for = s.host },
  record { term = s.term + 1; votes = 1; total = length s.peers },
)

-- The arguments that startElection sends to every peer.
unfoldable pub vote_args : Node → Election → RequestVoteArgs
vote_args s el = record { term = el.term; candidate_id = s.host }

unfoldable pub become_leader : Node → ℕ → Node
become_leader s now = record s { state = leader; leader_id = s.host; last_heartbeat = now }

-- A reply with a later term makes the node a follower of that term.
unfoldable pub step_down : Node → ℕ → Node
step_down s term = record s { term = term; state = follower; voted_for = "" }

unfoldable pub count_vote : Node → Election → ℕ → Node × Election
count_vote s el now =
    let votes = el.votes + 1 in
    (if leb (majority el.total) votes then become_leader s now else s, record el { votes = votes })

-- A goroutine of startElection when its call has come back; none is an error of the call.
unfoldable pub on_vote_reply : Node → Election → Option RequestVoteReply → ℕ → Node × Election
unfolding step_down count_vote become_leader
on_vote_reply s el none now = (s, record el { total = el.total - 1 })
on_vote_reply s el (some reply) now =
    if ltb s.term reply.term
    then (step_down s reply.term, el)
    else if is_candidate s.state && reply.vote_granted && el.term == s.term
    then count_vote s el now
    else (s, el)

-- One tick of heartbeatLoop: the arguments for every other peer, or none where the loop ends.
unfoldable pub heartbeat_tick : Node → Option HeartbeatArgs
heartbeat_tick s =
    if is_leader s.state then some (record { term = s.term; leader_id = s.host }) else none

unfoldable pub on_heartbeat_reply : Node → Option HeartbeatReply → Node
unfolding step_down
on_heartbeat_reply s none = s
on_heartbeat_reply s (some reply) = if ltb s.term reply.term then step_down s reply.term else s

abbrev raise_term : Node → ℕ → Node
raise_term s term =
    if ltb s.term term then record s { term = term; state = follower; voted_for = "" } else s

unfoldable pub request_vote : Node → RequestVoteArgs → ℕ → Node × RequestVoteReply
request_vote s args now =
    if ltb args.term s.term
    then (s, record { term = s.term; vote_granted = false })
    else let t = raise_term s args.term in
      if t.voted_for =? "" || t.voted_for =? args.candidate_id
      then (
        record t { voted_for = args.candidate_id; last_heartbeat = now },
        record { term = t.term; vote_granted = true },
      )
      else (t, record { term = t.term; vote_granted = false })

-- The last part tells whether onChangeLeader is called.
unfoldable pub heartbeat : Node → HeartbeatArgs → ℕ → Node × HeartbeatReply × Bool
heartbeat s args now =
    if ltb args.term s.term
    then (s, record { term = s.term; ok = false }, false)
    else let raised : Node =
        if ltb s.term args.term then record s { term = args.term; voted_for = "" } else s in
      (
        record raised { state = follower; leader_id = args.leader_id; last_heartbeat = now },
        record { term = raised.term; ok = true },
        not (s.leader_id =? args.leader_id),
      )

-- One step of a node: what the loops, the handlers and the replies do to it.
pub data Step (s : Node) : Node → Type 0 where
  elect : (now : ℕ) → Step s (start_election s).0
  vote_reply :
      (el : Election) (reply : Option RequestVoteReply) (now : ℕ)
      → Step s (on_vote_reply s el reply now).0
  vote : (args : RequestVoteArgs) (now : ℕ) → Step s (request_vote s args now).0
  beat : (args : HeartbeatArgs) (now : ℕ) → Step s (heartbeat s args now).0
  beat_reply : (reply : Option HeartbeatReply) → Step s (on_heartbeat_reply s reply)

pub data Reach (s : Node) : Node → Type 0 where
  here : Reach s s
  next : {t u : Node} → Reach s t → Step t u → Reach s u
