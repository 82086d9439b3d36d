-- ===== src/Relay/Session/Table/Refines.antt =====
-- The store does what the abstract store of Relay/Session does.
use p2pft.Prelude.{
  ℕ, ◌≡◌, ◌⊎◌, refl, ap, ◌∙◌, fun_ext, Option, none, some, Option-cases, Bool, true, false,
  Bool-cases, inl, inr, if◌then◌else◌, List, [], ◌∷◌, ◌||◌, Text, eqb_text, eqb_text→eq,
  eqb_text_refl, arith,
}
use p2pft.Signaling.Messages.{SenderHello}
use p2pft.Relay.Session.{Session, SessionStore, expired, keep_fresh, create, claim, reap}
use p2pft.Relay.Session.Table.{
  Entries, Table, fetch, erase, table_create, table_claim, visit_found, sweep, tick_reaper, Request,
  creates, claims, shuts, stops, ticks, serve_one,
}

-- The codes of a list, as a test.
abbrev pub lists : Text → List Text → Bool
lists code [] = false
lists code (c ∷ cs) = eqb_text c code || lists code cs

fetch-erase :
    (c d : Text) (es : Entries) → fetch d (erase c es) ≡ (if eqb_text c d then none else fetch d es)
fetch-erase c d [] = ground arith
fetch-erase c d ((k, x) ∷ es) = ground (
  arith,
  fetch-erase c d es,
  eqb_text→eq k c,
  eqb_text→eq c d,
  eqb_text→eq k d,
  eqb_text_refl c,
  eqb_text_refl d,
)

fetch-visit :
    (now : ℕ) (c d : Text) (es : Entries)
    → fetch d (visit_found now c (fetch c es) es)
      ≡ (if eqb_text c d then keep_fresh now (fetch d es) else fetch d es)
fetch-visit now c d es = ground (arith, fetch-erase c d es, eqb_text→eq c d)

keep_fresh_again :
    (now : ℕ) (o : Option Session) → keep_fresh now (keep_fresh now o) ≡ keep_fresh now o
keep_fresh_again now none = refl
keep_fresh_again now (some x) = elim (Bool-cases (expired now x)) [
  | inl e ↦ rw e refl
  | inr e ↦ rw e (rw e refl)
]

-- A visited code is kept if it is fresh, and any other code as it is.
fetch-sweep :
    (now : ℕ) (d : Text) (order : List Text) (es : Entries)
    → fetch d (sweep now order es)
      ≡ (if lists d order then keep_fresh now (fetch d es) else fetch d es)
unfolding sweep
fetch-sweep now d [] es = refl
fetch-sweep now d (c ∷ cs) es = ground (
  arith,
  fetch-sweep now d cs (visit_found now c (fetch c es) es),
  fetch-visit now c d es,
  keep_fresh_again now (fetch d es),
)

-- The abstract store, with the state of the context and of the reaper.
pub record Spec : Type 0 where
  pub store : SessionStore
  pub cancelled : Bool
  pub alive : Bool

abbrev pub on_store : Option Session × SessionStore → Spec → Option Session × Spec
on_store r s = (r.0, record s { store = r.1 })

-- A sweep removes every expired session at once.
abbrev pub spec_one : Request → Spec → Option Session × Spec
spec_one (creates now code hello) s = on_store (create now code hello s.store) s
spec_one (claims code) s = on_store (claim code s.store) s
spec_one shuts s = (none, record s { cancelled = true })
spec_one stops s = (none, if s.cancelled then record s { alive = false } else s)
spec_one (ticks now order) s =
    (none, record s { store = if s.alive then reap now s.store else s.store })

-- What a table stands for: neither the order of its entries nor their number shows.
abbrev pub view : Table → Spec
view t = record {
  store = record { sessions = λ code. fetch code t.entries; next_id = t.next_id };
  cancelled = t.cancelled;
  alive = t.alive;
}

-- The loop over a map comes to every entry, in some order.
abbrev pub Covers : Request → Table → Type 0
Covers (ticks now order) t =
    (code : Text) (x : Session) → fetch code t.entries ≡ some x → lists code order ≡ true
Covers _ t = Unit

abbrev pub Fair : List Request → Table → Type 0
Fair [] t = Unit
Fair (r ∷ rs) t = Covers r t × Fair rs (serve_one r t).1

abbrev pub answers : List Request → Table → List (Option Session) × Table
answers [] t = ([], t)
answers (r ∷ rs) t = let rest = answers rs (serve_one r t).1 in ((serve_one r t).0 ∷ rest.0, rest.1)

abbrev pub spec_answers : List Request → Spec → List (Option Session) × Spec
spec_answers [] s = ([], s)
spec_answers (r ∷ rs) s =
    let rest = spec_answers rs (spec_one r s).1 in ((spec_one r s).0 ∷ rest.0, rest.1)

abbrev as_store : ℕ → (Text → Option Session) → SessionStore
as_store n g = record { sessions = g; next_id = n }

view_sessions :
    (t : Table) {f : Text → Option Session} (es : Entries)
    → ((code : Text) → fetch code es ≡ f code)
    → view (record t { entries = es })
      ≡ record (view t) { store = record { sessions = f; next_id = t.next_id } }
view_sessions t {f} es h =
    ap
      (λ (g : Text → Option Session). record (view t) {
        store = record { sessions = g; next_id = t.next_id };
      })
      (fun_ext h)

claim-view :
    (code : Text) (t : Table)
    → ((table_claim code t).0, view (table_claim code t).1)
      ≡ on_store (claim code (view t).store) (view t)
unfolding table_claim claim
claim-view code t = elim (Option-cases (fetch code t.entries)) [
  | inl free ↦ rw free refl
  | inr (x, there) ↦ rw there (
      ap (λ (s : Spec). (some x, s))
        (view_sessions t (erase code t.entries) (λ c. fetch-erase code c t.entries)))
]

create-view :
    (now : ℕ) (code : Text) (hello : SenderHello) (t : Table)
    → ((table_create now code hello t).0, view (table_create now code hello t).1)
      ≡ on_store (create now code hello (view t).store) (view t)
unfolding table_create create
create-view now code hello t = elim (Option-cases (fetch code t.entries)) [
  | inl free ↦ rw free refl
  | inr (x, there) ↦ rw there refl
]

tick-view :
    (now : ℕ) (order : List Text) (t : Table)
    → Covers (ticks now order) t
    → view (tick_reaper now order t) ≡ (spec_one (ticks now order) (view t)).1
unfolding reap
tick-view now order t h =
    ap (λ (st : SessionStore). record (view t) { store = st }) (swept_if t.alive)
  where
    swept :
        (c : Text)
        → (fetch c t.entries ≡ none) ⊎ ((x : Session) × (fetch c t.entries ≡ some x))
        → fetch c (sweep now order t.entries) ≡ keep_fresh now (fetch c t.entries)
    swept c (inl free) = fetch-sweep now c order t.entries ∙ rw free (ground arith)
    swept c (inr (x, there)) = fetch-sweep now c order t.entries ∙ rw (h c x there) refl

    swept_if :
        (b : Bool)
        → ◌≡◌ {A = SessionStore}
            (record {
              sessions = λ code. fetch code (if b then sweep now order t.entries else t.entries);
              next_id = t.next_id;
            })
            (if b then reap now (view t).store else (view t).store)
    swept_if true =
        ap (as_store t.next_id) (fun_ext (λ c. swept c (Option-cases (fetch c t.entries))))
    swept_if false = refl

one-view :
    (r : Request) (t : Table)
    → Covers r t
    → ((serve_one r t).0, view (serve_one r t).1) ≡ spec_one r (view t)
one-view (creates now code hello) t h = create-view now code hello t
one-view (claims code) t h = claim-view code t
one-view shuts t h = refl
one-view stops t h = elim (Bool-cases t.cancelled) [ inl e ↦ rw e refl | inr e ↦ rw e refl ]
one-view (ticks now order) t h = ap (λ (s : Spec). (none, s)) (tick-view now order t h)

-- For any sequence of `Create`, `Claim`, `Shutdown` and rounds of the reaper, where each sweep comes
-- to the entries of the map in any order that leaves none out, the store with its entries gives
-- the answers of the abstract store, in which a sweep removes all that has expired at once, and
-- ends in a table that stands for the abstract store's end.
pub answers-view :
    (rs : List Request) (t : Table)
    → Fair rs t
    → ((answers rs t).0, view (answers rs t).1) ≡ spec_answers rs (view t)
answers-view [] t h = refl
answers-view (r ∷ rs) t (covers, fair) =
    let one = one-view r t covers in
    let later = answers-view rs (serve_one r t).1 fair in
    ap (λ (q : List (Option Session) × Spec). ((serve_one r t).0 ∷ q.0, q.1)) later
    ∙ ap (λ (q : Option Session × Spec). (q.0 ∷ (spec_answers rs q.1).0, (spec_answers rs q.1).1))
        one
