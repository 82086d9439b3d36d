-- ===== src/Tests/Store.antt =====
-- A run of the session store.
use p2pft.Prelude.{◌≡◌, refl, Option, none, some, List, [], ◌∷◌, pos, codes, arith}
use p2pft.Signaling.Messages.{SenderHello}
use p2pft.Relay.Session.{Session}
use p2pft.Relay.Session.Table.{
  new_table, Request, creates, claims, shuts, stops, ticks, table_create, table_claim, sweep,
}
use p2pft.Relay.Session.Table.Refines.{Fair, Spec, answers, spec_answers, view, answers-view}

abbrev hello : SenderHello
hello = record { filename = codes "f"; size = pos 1; sha256 = [] }

-- Two senders draw one code; a sweep comes to it and to a code that is gone; a second sweep comes
-- too late for the claim, and a third behind the end of the reaper.
abbrev requests : List Request
requests =
    creates 0 (codes "c") hello
    ∷ creates 1 (codes "c") hello
    ∷ ticks 600 (codes "x" ∷ codes "c" ∷ [])
    ∷ claims (codes "c")
    ∷ creates 602 (codes "d") hello
    ∷ ticks 2000 (codes "d" ∷ [])
    ∷ claims (codes "d")
    ∷ shuts
    ∷ stops
    ∷ ticks 3000 []
    ∷ []

fair : Fair requests new_table
unfolding table_create table_claim sweep
fair = (
  tt,
  (
    tt,
    (
      (λ c x h. ground (arith, h)),
      (tt, (tt, ((λ c x h. ground (arith, h)), (tt, (tt, (tt, ((λ c x h. cc h), tt))))))),
    ),
  ),
)

answers-view_example :
    ◌≡◌ {A = List (Option Session) × Spec}
      ((answers requests new_table).0, view (answers requests new_table).1)
      (spec_answers requests (view new_table))
answers-view_example = answers-view requests new_table fair

abbrev first : Session
first = record { id = 0; code = codes "c"; sender_hello = hello; created_at = 0 }

answered :
    (answers requests new_table).0
    ≡ some first
      ∷ none
      ∷ none
      ∷ some first
      ∷ some (record { id = 1; code = codes "d"; sender_hello = hello; created_at = 602 })
      ∷ none
      ∷ none
      ∷ none
      ∷ none
      ∷ none
      ∷ []
unfolding table_create table_claim sweep
answered = refl
