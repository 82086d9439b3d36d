-- ===== src/Tests/Server.antt =====
-- Runs of the relay.
use mathlib.Core.Path.{subst}
use p2pft.Prelude.{
  ℕ, ◌+◌, ◌++◌, ◌≡◌, ◌≢◌, refl, sym, pos, [], ◌∷◌, none, some, inl, inr, Text, codes,
}
use p2pft.Signaling.Messages.{SenderHello, PeerAddrs}
use p2pft.Relay.Server.{Object, Relay, Reach, panicked, handing, new_object}
use p2pft.Relay.Server.Moves.{takes}
use p2pft.Relay.Server.Invariant.{pc_of}
use p2pft.Relay.Server.Meeting.{Met}
use p2pft.Relay.Server.Silence.{Tells}
use p2pft.Relay.Server.Safety.{told-Met, hand_over-IsFree}
use p2pft.Relay.Server.Progress.{Meets, meeting_possible, Loses, other_session_lost}

abbrev quote : Text → Text
quote t = codes "'" ++ (t ++ codes "'")

abbrev seen_at : ℕ → Text
seen_at i = (48 + i) ∷ []

abbrev hello : SenderHello
hello = record { filename = codes "f"; size = pos 1; sha256 = [] }

abbrev empty_heap : ℕ → Object
empty_heap i = new_object (record { id = i; code = []; sender_hello = hello; created_at = 0 })

abbrev from : Text → PeerAddrs
from t = record { local_candidates = t ∷ []; public = []; cert_fingerprint = codes "ab" }

abbrev Meeting : Type 0
Meeting =
    (s : Relay) × Reach quote seen_at empty_heap s
    × Meets quote seen_at empty_heap hello (from (codes "s")) (from (codes "r")) s

meeting_possible_example : Meeting
meeting_possible_example =
    meeting_possible quote seen_at empty_heap hello (from (codes "s")) (from (codes "r"))

meeting : Meeting
meeting = meeting_possible quote seen_at empty_heap hello (from (codes "s")) (from (codes "r"))

abbrev joined : PeerAddrs
joined = record (from (codes "r")) { public = seen_at 1 }

told-Met_example : Met seen_at meeting.0 0 joined
told-Met_example =
    told-Met quote seen_at 0 joined meeting.1
      (subst (λ l. Tells joined l) (sym meeting.2.sender_told) (inr (inl refl)))

hand_over-IsFree_example :
    ((i : ℕ) → pc_of meeting.0 i ≢ panicked)
    × ((i j id : ℕ)
        → takes (pc_of meeting.0 i) ≡ some id
        → takes (pc_of meeting.0 j) ≡ some id
        → i ≡ j)
    × ((i id : ℕ) (a : PeerAddrs)
        → pc_of meeting.0 i ≡ handing id a
        → (meeting.0.shared.heap id).receiver_joined ≡ none)
hand_over-IsFree_example = hand_over-IsFree quote seen_at meeting.1

other_session_lost_example :
    (s : Relay) × (t : Relay) × (u : Relay) × Reach quote seen_at empty_heap s
    × Loses quote seen_at s t u
other_session_lost_example =
    other_session_lost quote seen_at empty_heap hello hello (from []) (from [])
