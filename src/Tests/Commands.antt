-- ===== src/Tests/Commands.antt =====
-- Runs of the commands.
use p2pft.Prelude.{◌≡◌, refl, ◌⊎◌, Bool, [], ◌∷◌, ◌++◌, none, some, Bytes, codes, pos}
use p2pft.Io.Result.{ok, err, failed}
use p2pft.Io.Conn.{Conn, Ending}
use p2pft.Signaling.Messages.{SessionFound, session_found_env}
use p2pft.Pairing.{put_uint16}
use p2pft.Tlsx.{fingerprint}
use p2pft.Cmd.World.{Flags, Machine, World}
use p2pft.Cmd.Receive.{run_receive}
use p2pft.Cmd.Receive.States.{Untouched, Agreed}
use p2pft.Cmd.Receive.Consent.{run_receive-Agreed}
use p2pft.Nat.Punch.{race_connect, race_loop, drain}
use p2pft.Signaling.Client
use p2pft.Signaling.Messages.{
  SessionCreated, ReceiverJoined, session_created_env, receiver_joined_env,
}
use p2pft.Pairing.{write_preamble}
use p2pft.Io.Conn.{write}
use p2pft.Io.Disk.{update, read_file}
use p2pft.Transfer.Hex.{hex_encode}
use p2pft.Transfer.Checksum.{file_sha256}
use p2pft.Transfer.Sender
use p2pft.Tlsx.{verify_peer_fingerprint}
use p2pft.Cmd.Relayed.{read_session_created, read_receiver_joined}
use p2pft.Cmd.Send.{
  SendMachine, SendWorld, run_send, send_stated, send_dialled, send_joined, send_raced,
  send_connected, send_secured,
}
use p2pft.Cmd.Send.States.{Silent, Pinned}
use p2pft.Cmd.Send.Pinned.{run_send-Pinned}
use p2pft.Cmd.Send.Closes.{Ended, Drained, run_send-closes}
use p2pft.Tests.Stubs.{stub_formats, stub_names, all_up, length-all_up}

abbrev flags : Flags
flags = record { output_dir = codes "d"; auto_accept = Bool.false; advertise = [] }

-- The user says yes, and the peer presents the certificate of which the relay told.
abbrev machine : Machine
machine = record {
  port = ok (codes "9");
  lan = err failed;
  cert = ok ((7 ∷ []) ∷ []);
  dial = ok tt;
  mkdir = ok tt;
  line = ok (codes "y");
  tls = record { presented = ok ((8 ∷ []) ∷ []); secure = λ c. c };
}

abbrev announced : SessionFound
announced = record {
  filename = codes "f";
  size = pos 0;
  sha256 = [];
  peer = record {
    local_candidates = [];
    public = [];
    cert_fingerprint = fingerprint stub_formats.digest (8 ∷ []);
  };
}

abbrev stream : Bytes → Conn
stream b = record { incoming = b; ending = Ending.closed; outgoing = []; room = none }

abbrev knock : Bytes
knock = put_uint16 1 ++ codes "c"

abbrev world : World
world = record {
  socket = record {
    reads = ok (ok (session_found_env announced)) ∷ [];
    writes = [];
    sent = [];
    closed = Bool.false;
  };
  listener = record {
    arrivals = ok (record { conn = stream knock; deadline = ok tt }) ∷ [];
    closed = [];
  };
  peer = record {
    conn = stream [];
    disk = record { files = λ _. none; events = [] };
    absorbed = [];
    progress = [];
  };
}

run_receive-Agreed_example :
    Untouched stub_formats stub_names flags machine world
      (run_receive stub_formats stub_names flags machine (codes "c") world).1
    ⊎ Agreed stub_formats stub_names flags machine world
        (codes "c")
        (run_receive stub_formats stub_names flags machine (codes "c") world).1
run_receive-Agreed_example =
    run_receive-Agreed stub_formats stub_names flags machine (codes "c") world

abbrev send_machine : SendMachine
send_machine = record {
  stat = ok (record { is_dir = Bool.false; size = pos 0 });
  own_cert = ok ((8 ∷ []) ∷ []);
  dial_relay = ok tt;
  dials = all_up;
  net = λ id. stream [];
  deadline = ok tt;
  remote = record { presented = ok ((7 ∷ []) ∷ []); secure = λ c. c };
}

abbrev code_given : SessionCreated
code_given = record { code = codes "c"; expires_in = pos 600 }

abbrev receiver_told : ReceiverJoined
receiver_told = record {
  peer = record {
    local_candidates = codes "a" ∷ codes "b" ∷ [];
    public = [];
    cert_fingerprint = fingerprint stub_formats.digest (7 ∷ []);
  };
}

abbrev send_world : SendWorld
send_world = record {
  relay = record world.socket {
    reads =
        ok (ok (session_created_env code_given)) ∷ ok (ok (receiver_joined_env receiver_told)) ∷ [];
  };
  side = record world.peer {
    disk = record { files = update (λ _. none) (codes "f") (some []); events = [] };
  };
  raw = stream [];
  ended = [];
  dialled = [];
}

abbrev after_send : SendWorld
after_send = (run_send stub_formats stub_names send_machine (codes "f") send_world).1

run_send-Pinned_example :
    Silent stub_formats stub_names send_machine send_world after_send
    ⊎ Pinned stub_formats stub_names send_machine send_world after_send
run_send-Pinned_example =
    run_send-Pinned stub_formats stub_names send_machine (codes "f") send_world

run_send-closes_example :
    Ended stub_formats stub_names send_machine [] [] after_send
    ⊎ Drained stub_formats stub_names send_machine [] [] after_send
run_send-closes_example =
    run_send-closes stub_formats stub_names send_machine length-all_up (codes "f") send_world

-- The command has come as far as the transfer, and two connections have been closed.
two_closed : after_send.ended ≡ 1 ∷ 0 ∷ []
unfolding run_send send_stated send_dialled send_joined send_raced send_connected send_secured
    file_sha256 read_file hex_encode read_session_created read_receiver_joined Client.read
    Client.send race_connect race_loop drain write_preamble write verify_peer_fingerprint
    fingerprint Sender.run
two_closed = refl
