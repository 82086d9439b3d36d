-- ===== src/Relay/Session/Table.antt =====
-- internal/relay/session.go: the store with its map as entries, the loop of the reaper over them in
-- any order, and `Shutdown`.
pub mod Refines
use p2pft.Prelude.{
  ℕ, ◌+◌, Option, none, some, Bool, true, false, if◌then◌else◌, List, [], ◌∷◌, Text, eqb_text,
}
use p2pft.Signaling.Messages.{SenderHello}
use p2pft.Relay.Session.{Session, expired}

abbrev pub Entries : Type 0
Entries = List (Text × Session)

-- `cancelled` is the state of `ctx`, and `alive` says that the reaper has not returned.
pub record Table : Type 0 where
  pub entries : Entries
  pub next_id : ℕ
  pub cancelled : Bool
  pub alive : Bool

-- `NewSessionStore`
abbrev pub new_table : Table
new_table = record { entries = []; next_id = 0; cancelled = false; alive = true }

-- `s.sessions[code]`
abbrev pub fetch : Text → Entries → Option Session
fetch code [] = none
fetch code ((k, x) ∷ es) = let rest = fetch code es in if eqb_text k code then some x else rest

-- `delete(s.sessions, code)`
abbrev pub erase : Text → Entries → Entries
erase code [] = []
erase code ((k, x) ∷ es) =
    let rest = erase code es in if eqb_text k code then rest else (k, x) ∷ rest

abbrev pub create_in : Option Session → ℕ → Text → SenderHello → Table → Option Session × Table
create_in (some _) now code hello t = (none, t)
create_in none now code hello t =
    let sess : Session = record {
      id = t.next_id;
      code = code;
      sender_hello = hello;
      created_at = now;
    } in
    (some sess, record t { entries = (code, sess) ∷ t.entries; next_id = t.next_id + 1 })

-- `Create`
unfoldable pub table_create : ℕ → Text → SenderHello → Table → Option Session × Table
table_create now code hello t = create_in (fetch code t.entries) now code hello t

abbrev pub claim_in : Option Session → Text → Table → Option Session × Table
claim_in none code t = (none, t)
claim_in (some sess) code t = (some sess, record t { entries = erase code t.entries })

-- `Claim`
unfoldable pub table_claim : Text → Table → Option Session × Table
table_claim code t = claim_in (fetch code t.entries) code t

-- The body of the loop of the reaper at `code`; an entry that is gone is not visited.
abbrev pub visit_found : ℕ → Text → Option Session → Entries → Entries
visit_found now code none es = es
visit_found now code (some sess) es = if expired now sess then erase code es else es

-- The loop, with the codes in the order in which `range` comes to them.
unfoldable pub sweep : ℕ → List Text → Entries → Entries
sweep now [] es = es
sweep now (code ∷ codes) es = sweep now codes (visit_found now code (fetch code es) es)

-- One round of the reaper that takes the tick, or the end of the context.
abbrev pub tick_reaper : ℕ → List Text → Table → Table
tick_reaper now order t = record t {
  entries = if t.alive then sweep now order t.entries else t.entries;
}

abbrev pub stop_reaper : Table → Table
stop_reaper t = if t.cancelled then record t { alive = false } else t

-- `Shutdown`
abbrev pub shutdown : Table → Table
shutdown t = record t { cancelled = true }

-- What happens to the store: a call of a handler, `Shutdown`, or a round of the reaper.
pub data Request : Type 0 where
  creates : ℕ → Text → SenderHello → Request
  claims : Text → Request
  shuts stops : Request
  ticks : ℕ → List Text → Request

abbrev pub serve_one : Request → Table → Option Session × Table
serve_one (creates now code hello) t = table_create now code hello t
serve_one (claims code) t = table_claim code t
serve_one shuts t = (none, shutdown t)
serve_one stops t = (none, stop_reaper t)
serve_one (ticks now order) t = (none, tick_reaper now order t)
