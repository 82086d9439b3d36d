-- ===== src/Tests/Retry.antt =====
-- A transfer of five bytes that breaks off within a frame.
use p2pft.Prelude.{◌≡◌, refl, none, ◌⊎◌, some, [], ◌∷◌, take, drop, Bytes, codes, arith}
use p2pft.Io.Result.{Error, ok, err}
use p2pft.Io.Conn.{broken, read_full, write}
use p2pft.Io.Disk.{update, read_file, tick}
use p2pft.Transfer.Framing.{write_frame, read_frame}
use p2pft.Transfer.Hex.{hex_encode, hex_decode, hex_decode_fixed}
use p2pft.Transfer.Peer.{Peer}
use p2pft.Transfer.Protocol.{read_json_frame, write_json_frame}
use p2pft.Transfer.Resume.{partial_path, meta_path}
use p2pft.Transfer.Sender
use p2pft.Transfer.Receiver
use p2pft.Transfer.EndToEnd.{asks, linked, Exchange}
use p2pft.Transfer.Retry.{retry-delivers}
use p2pft.Tests.Stubs.{stub_formats}
use p2pft.Tests.Transfer.{
  content, sender, receiver, sender_peer, receiver_peer, receiver_files, ready,
}

abbrev asked : Bytes
asked = asks stub_formats sender receiver receiver_peer

abbrev served : Peer
served = (Sender.run stub_formats sender (linked sender_peer asked)).1

serves : Sender.run stub_formats sender (linked sender_peer asked) ≡ (ok tt, served)
unfolding Sender.run Sender.read_chunk Sender.send_loop Sender.send_file Sender.answer hex_encode
    hex_decode hex_decode_fixed write_json_frame read_json_frame write_frame read_frame read_full
    write tick read_file
serves = refl

-- One chunk arrives, and the connection breaks within the second.
abbrev got : Bytes
got = take 17 served.conn.outgoing

abbrev lost : Bytes
lost = drop 17 served.conn.outgoing

abbrev Has : Peer → Type 0
Has t =
    t.disk.files
    ≡ update
        (update (update receiver_files (partial_path (codes "out")) none) (codes "out")
          (some content))
        (meta_path (codes "out")) none

abbrev cut_off : Peer
cut_off = record receiver_peer {
  conn = record { incoming = got; ending = broken; outgoing = []; room = none };
}

retry-delivers_example :
    ((t : Peer) × (Receiver.run stub_formats receiver cut_off ≡ (ok tt, t)) × Has t)
    ⊎ ((e : Error) × (t : Peer) × (Receiver.run stub_formats receiver cut_off ≡ (err e, t))
        × ((ts' : Peer) × (tr' : Peer) × Exchange stub_formats sender receiver sender_peer t ts' tr'
            × Has tr'))
unfolding Sender.run Sender.read_chunk Sender.send_loop Sender.send_file Sender.answer hex_encode
    hex_decode hex_decode_fixed write_json_frame read_json_frame write_frame read_frame read_full
    write tick read_file
retry-delivers_example =
    retry-delivers stub_formats sender receiver content (30 ∷ 40 ∷ 50 ∷ []) sender_peer
      receiver_peer served got lost broken sender_peer ready (omega arith) serves refl (omega arith)
      refl
