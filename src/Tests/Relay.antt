-- ===== src/Tests/Relay.antt =====
-- Pairing, the race of dials, the relay's store, codes, fingerprints and sizes.
use p2pft.Prelude.{
  ℕ, ◌≤◌, ◌≡◌, ◌≢◌, ◌↔◌, refl, pos, none, some, List, [], ◌∷◌, length, Bytes, Text, codes, arith,
}
use p2pft.Io.Result.{ok, err, failed}
use p2pft.Io.Conn.{Conn, closed, read_full, write}
use p2pft.Pairing.{
  Arrival, Listener, write_preamble, read_preamble, accept_with_code, max_accept_tries,
}
use p2pft.Pairing.Preamble.{read_preamble-write_preamble}
use p2pft.Pairing.Accept.{
  Loses, after, verdict, Found, accept_with_code-finds, accept_with_code-Found,
}
use p2pft.Nat.Punch.{Attempt, race_connect}
use p2pft.Nat.Punch.Winner.{Settled, race_connect-Settled}
use p2pft.Signaling.Messages.{SenderHello}
use p2pft.Signaling.Codes.{generate_code}
use p2pft.Signaling.Codes.Distinct.{generate_code-short, generate_code-injective}
use p2pft.Relay.Session.{Session, SessionStore, new_session_store, create, claim}
use p2pft.Relay.Session.Once.{creates, run, run-IsValid, IsValid-new, claim-once}
use p2pft.Tlsx.{Chain, fingerprint_cert, verify_peer_fingerprint}
use p2pft.Tlsx.Pinning.{verify-pins}
use p2pft.Progress.Format.{format_bytes}
use p2pft.Progress.Format.Units.{Fits, format_bytes-Fits}
use p2pft.Tests.Stubs.{stub_digest}

abbrev sound : Bytes → Conn
sound x = record { incoming = x; ending = closed; outgoing = []; room = none }

read_preamble-write_preamble_example :
    read_preamble (ok tt) (sound (0 ∷ 2 ∷ 97 ∷ 98 ∷ 5 ∷ [])) ≡ (ok (97 ∷ 98 ∷ []), sound (5 ∷ []))
unfolding write_preamble write
read_preamble-write_preamble_example =
    read_preamble-write_preamble (sound []) (sound (0 ∷ 2 ∷ 97 ∷ 98 ∷ 5 ∷ [])) (97 ∷ 98 ∷ [])
      (5 ∷ []) refl refl (omega arith) refl

-- A connection that is closed without a word, then the right one.
abbrev silent : Arrival
silent = record { conn = sound []; deadline = ok tt }

abbrev right : Arrival
right = record { conn = sound (0 ∷ 2 ∷ 97 ∷ 98 ∷ []); deadline = ok tt }

abbrev two_arrivals : Listener
two_arrivals = record { arrivals = ok silent ∷ ok right ∷ []; closed = [] }

abbrev one_closed : Listener
one_closed = record { arrivals = []; closed = sound [] ∷ [] }

silent-Loses : Loses (97 ∷ 98 ∷ []) silent
unfolding read_preamble read_full
silent-Loses h = cc h

right_wins : verdict right ≡ (ok (97 ∷ 98 ∷ []), sound [])
unfolding read_preamble read_full
right_wins = refl

accept_with_code-finds_example :
    accept_with_code (97 ∷ 98 ∷ []) two_arrivals
    ≡ (ok (sound []), record { arrivals = []; closed = after silent ∷ [] })
accept_with_code-finds_example =
    accept_with_code-finds (97 ∷ 98 ∷ []) (silent ∷ []) right (sound []) [] [] (omega arith)
      (silent-Loses, tt) right_wins

pair_run : accept_with_code (97 ∷ 98 ∷ []) two_arrivals ≡ (ok (sound []), one_closed)
unfolding accept_with_code read_preamble read_full
pair_run = refl

accept_with_code-Found_example :
    Found (97 ∷ 98 ∷ []) max_accept_tries (sound []) two_arrivals one_closed
accept_with_code-Found_example =
    accept_with_code-Found (97 ∷ 98 ∷ []) two_arrivals (sound []) one_closed pair_run

abbrev answers : List Attempt
answers =
    record { addr = codes "a"; answer = err failed }
    ∷ record { addr = codes "b"; answer = ok 7 }
    ∷ record { addr = codes "c"; answer = ok 8 }
    ∷ []

race_connect-Settled_example :
    Settled answers (race_connect (codes "c" ∷ codes "b" ∷ codes "a" ∷ []) answers)
race_connect-Settled_example =
    race_connect-Settled (codes "c" ∷ codes "b" ∷ codes "a" ∷ []) answers refl

abbrev hello : SenderHello
hello = record { filename = codes "f"; size = pos 1; sha256 = [] }

abbrev one_session : SessionStore
one_session = run (creates 5 (codes "k") hello ∷ []) new_session_store

abbrev session : ℕ → Session
session n = record { id = n; code = codes "k"; sender_hello = hello; created_at = 5 }

abbrev emptied : SessionStore
emptied = (claim (codes "k") one_session).1

first_claim : claim (codes "k") one_session ≡ (some (session 0), emptied)
unfolding run create claim
first_claim = refl

second_claim :
    claim (codes "k") (run (creates 5 (codes "k") hello ∷ []) emptied)
    ≡ (some (session 1), (claim (codes "k") (run (creates 5 (codes "k") hello ∷ []) emptied)).1)
unfolding run create claim
second_claim = refl

claim-once_example : (session 1).id ≢ (session 0).id
claim-once_example =
    claim-once one_session emptied
      (claim (codes "k") (run (creates 5 (codes "k") hello ∷ []) emptied)).1 (codes "k") (codes "k")
      (session 0) (session 1) (creates 5 (codes "k") hello ∷ [])
      (run-IsValid (creates 5 (codes "k") hello ∷ []) new_session_store IsValid-new) first_claim
      second_claim

generate_code-short_example :
    (c : Text) × (generate_code (ok 0) (ok 12) (ok 23) ≡ ok c) × (length c ≤ 26)
generate_code-short_example = generate_code-short 0 12 23 (omega arith) (omega arith) (omega arith)

generate_code-injective_example : (◌≡◌ {A = ℕ} 3 3) × (◌≡◌ {A = ℕ} 4 4) × (◌≡◌ {A = ℕ} 5 5)
generate_code-injective_example =
    generate_code-injective 3 4 5 3 4 5 (omega arith) (omega arith) refl

verify-pins_example :
    (verify_peer_fingerprint stub_digest
        (fingerprint_cert stub_digest ((1 ∷ 2 ∷ []) ∷ []))
        ((3 ∷ []) ∷ [])
      ≡ ok tt)
    ↔ ((leaf : Bytes) × (rest : Chain) × ((3 ∷ []) ∷ [] ≡ leaf ∷ rest)
        × (stub_digest.sum leaf ≡ stub_digest.sum (1 ∷ 2 ∷ [])))
verify-pins_example = verify-pins stub_digest (1 ∷ 2 ∷ []) ((3 ∷ []) ∷ [])

format_bytes-Fits_example : Fits 5000000 (format_bytes (pos 5000000))
format_bytes-Fits_example = format_bytes-Fits 5000000 (omega arith) (omega arith)
