-- ===== src/AsyncCib/Fetch.antt =====
-- AsyncCib.Start: the loop of cibFetcher and pacemaker.Mainloop, the goroutine that runs the
-- callbacks of the subscriptions. An event is what one of the two does between two calls that can
-- block; what go-pacemaker answers is part of the event.
pub mod Stuck
use hawk_apiserver.Prelude.{
  ℕ, suc, ◌≡◌, Bool, true, false, ◌||◌, List, [], ◌∷◌, Option, none, some, ◌==◌, nat_eq,
  if◌then◌else◌,
}
use hawk_apiserver.AsyncCib.{AsyncCib, CibDocument, empty_cib, store}

-- At `pacemaker.OpenCib()`, at `cib.Query()`, at `cib.Subscribe(...)`, and at `<-waiter` with the
-- number of the round that made the waiter.
pub data Fetcher : Type 0 where
  opening querying subscribing : Fetcher
  waiting : ℕ → Fetcher

-- Free to run a callback, or in `waiter <- 1` of the callback of a round.
pub data Mainloop : Type 0 where
  free : Mainloop
  sending : ℕ → Mainloop

-- `rounds` counts the waiters made; `subscribed` are the rounds whose Subscribe
-- succeeded: their callbacks may run, then and later, as the program removes none.
pub record Loops : Type 0 where
  pub cib : AsyncCib
  pub fetcher : Fetcher
  pub mainloop : Mainloop
  pub rounds : ℕ
  pub subscribed : List ℕ

abbrev pub init : Loops
init = record { cib = empty_cib; fetcher = opening; mainloop = free; rounds = 0; subscribed = [] }

pub data Event : Type 0 where
  -- OpenCib connects, or fails and the fetcher sleeps
  open_cib : Bool → Event
  -- Query gives a document, or an error
  query : Option CibDocument → Event
  -- Subscribe succeeds, or fails and the fetcher sleeps
  subscribe : Bool → Event
  -- a callback with an UpdateEvent
  updated : ℕ → CibDocument → Event
  -- a callback with another event
  lost : ℕ → Event
  -- the value 1 goes over a waiter
  hand_over : Event

unfoldable pub among : ℕ → List ℕ → Bool
among k [] = false
among k (j ∷ js) = j == k || among k js

abbrev opened : Bool → Loops → Loops
opened false s = s
opened true s = record s { fetcher = querying }

abbrev queried : Option CibDocument → Loops → Loops
queried none s = record s { fetcher = subscribing }
queried (some doc) s = record s { cib = store doc s.cib; fetcher = subscribing }

abbrev subscribed_to : Bool → Loops → Loops
subscribed_to false s = record s { fetcher = querying; rounds = suc s.rounds }
subscribed_to true s = record s {
  fetcher = waiting s.rounds;
  rounds = suc s.rounds;
  subscribed = s.rounds ∷ s.subscribed;
}

-- The events of the fetcher at its calls, of the callbacks, and of both; `none` where they cannot
-- happen.
abbrev pub open_at : Fetcher → Bool → Loops → Option Loops
open_at opening ok s = some (opened ok s)
open_at _ ok s = none

abbrev pub query_at : Fetcher → Option CibDocument → Loops → Option Loops
query_at querying doc s = some (queried doc s)
query_at _ doc s = none

abbrev pub subscribe_at : Fetcher → Bool → Loops → Option Loops
subscribe_at subscribing ok s = some (subscribed_to ok s)
subscribe_at _ ok s = none

abbrev pub callback_at : Mainloop → ℕ → Loops → Loops → Option Loops
callback_at free k s t = if among k s.subscribed then some t else none
callback_at (sending _) k s t = none

abbrev pub hand_at : Fetcher → Mainloop → Loops → Option Loops
hand_at (waiting j) (sending k) s =
    if j == k then some (record s { fetcher = querying; mainloop = free }) else none
hand_at _ _ s = none

unfoldable pub step : Event → Loops → Option Loops
unfolding among
step (open_cib ok) s = open_at s.fetcher ok s
step (query doc) s = query_at s.fetcher doc s
step (subscribe ok) s = subscribe_at s.fetcher ok s
step (updated k doc) s = callback_at s.mainloop k s (record s { cib = store doc s.cib })
step (lost k) s = callback_at s.mainloop k s (record s { mainloop = sending k })
step hand_over s = hand_at s.fetcher s.mainloop s

pub data Reach (s : Loops) : Loops → Type 0 where
  here : Reach s s
  next : {t u : Loops} (e : Event) → Reach s t → step e t ≡ some u → Reach s u
