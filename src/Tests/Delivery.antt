-- ===== src/Tests/Delivery.antt =====
-- A file that is sent from one machine to another, of which the receiver has a part.
use p2pft.Prelude.{ℕ, ◌+◌, refl, Bool, [], ◌∷◌, none, some, pos, Option, Bytes, Text, codes, arith}
use p2pft.Io.Result.{ok, err, failed}
use p2pft.Io.Disk.{update}
use p2pft.Io.Conn.{read_full}
use p2pft.Nat.Punch.{race_connect, race_loop, drain}
use p2pft.Pairing.{read_preamble}
use p2pft.Pairing.Preamble.{preamble}
use p2pft.Transfer.Hex.{hex_encode}
use p2pft.Transfer.Peer.{Peer}
use p2pft.Transfer.Resume.{partial_path, meta_path}
use p2pft.Cmd.World.{Flags, prompt_yn}
use p2pft.Cmd.Delivery.{Plan, Agrees, stream}
use p2pft.Cmd.Delivery.Both.{Starts, Delivers, run_send-delivers}
use p2pft.Cmd.Delivery.System.{Works, system-Works}
use p2pft.Relay.Session.{session_ttl}
use p2pft.Relay.Server.{Object, new_object}
use p2pft.Relay.Server.Progress.{first_code}
use p2pft.Tests.Stubs.{stub_formats, stub_names, all_up}

abbrev flags : Flags
flags = record { output_dir = codes "d"; auto_accept = Bool.false; advertise = [] }

abbrev quote : Text → Text
quote t = t

abbrev seen : ℕ → Text
seen i = (48 + i) ∷ []

abbrev heap : ℕ → Object
heap i = new_object (record {
  id = i;
  code = [];
  sender_hello = record { filename = []; size = pos 0; sha256 = [] };
  created_at = 0;
})

abbrev content : Bytes
content = 10 ∷ 20 ∷ 30 ∷ 40 ∷ 50 ∷ []

-- One connection closes before it has named the code.
abbrev plan : Plan
plan = record {
  path = codes "f";
  code = first_code;
  expires_in = pos session_ttl;
  content = content;
  sender_leaf = 8 ∷ [];
  sender_rest = [];
  sender_seen = seen 0;
  receiver_leaf = 7 ∷ [];
  receiver_rest = [];
  receiver_seen = seen 1;
  dials = all_up;
  net = λ id. stream [];
  winner = 1;
  port = codes "9";
  lan = err failed;
  line = ok (codes "y");
  losers = record { conn = stream (0 ∷ []); deadline = ok tt } ∷ [];
  arrived = stream (preamble first_code);
  more = [];
  later = [];
}

abbrev sender_peer : Peer
sender_peer = record {
  conn = stream [];
  disk = record { files = update (λ _. none) (codes "f") (some content); events = [] };
  absorbed = [];
  progress = [];
}

abbrev receiver_files : Text → Option Bytes
receiver_files =
    update (update (λ _. none) (partial_path (codes "d/f")) (some (10 ∷ 20 ∷ [])))
      (meta_path (codes "d/f"))
      (some (
        stub_formats.partial_meta.marshal
          (record { size = pos 5; sha256 = hex_encode (stub_formats.digest.sum content) })))

abbrev receiver_peer : Peer
receiver_peer = record {
  conn = stream [];
  disk = record { files = receiver_files; events = [] };
  absorbed = [];
  progress = [];
}

agrees : Agrees stub_formats stub_names flags plan
unfolding race_connect race_loop drain read_preamble read_full prompt_yn
agrees = record {
  addr = codes "127.0.0.1:9";
  wins = refl;
  sound = refl;
  short = omega arith;
  consent = refl;
  few = omega arith;
  lose = ((λ e. cc e), tt);
  arrives = refl;
}

starts : Starts stub_formats stub_names flags plan sender_peer receiver_peer (30 ∷ 40 ∷ 50 ∷ [])
unfolding hex_encode
starts = record {
  agrees = agrees;
  sender_quiet = tt;
  receiver_quiet = tt;
  source = refl;
  int64 = omega arith;
  resumes = refl;
}

run_send-delivers_example : Delivers stub_formats stub_names flags plan sender_peer receiver_peer
run_send-delivers_example =
    run_send-delivers stub_formats stub_names flags plan sender_peer receiver_peer
      (30 ∷ 40 ∷ 50 ∷ []) starts

system-Works_example :
    Works stub_formats stub_names flags quote seen heap plan sender_peer receiver_peer
system-Works_example =
    system-Works stub_formats stub_names flags quote seen heap plan sender_peer receiver_peer
      (30 ∷ 40 ∷ 50 ∷ []) starts
