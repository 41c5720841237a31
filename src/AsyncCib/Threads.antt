-- ===== src/AsyncCib/Threads.antt =====
-- The threads around AsyncCib: the two goroutines of Start, each of which runs notifyNewCib for the
-- documents that it gets (cibFetcher after a Query, Mainloop in a callback) and may do so while the
-- other does, and the clients of serveMonitor, which read the version and then Wait. A step is what
-- one thread does between two points at which the others can run; the meeting of a Wait and a
-- notifyNewCib over the channel `notifier`, and the answer over the client's own channel, is one step.
pub mod Answers
pub mod Tracing
pub mod Stale
pub mod Counting
pub mod Leaving
use hawk_apiserver.Prelude.{
  ℕ, ◌≡◌, ◌≢◌, Bool, true, false, ◌||◌, List, [], ◌∷◌, Option, none, some, ◌==◌, nat_eq, text_eq,
  if◌then◌else◌,
}
use hawk_apiserver.Text.{Text}
use hawk_apiserver.AsyncCib.{AsyncCib, CibDocument, empty_cib, store, version}
use hawk_apiserver.Server.Monitor.{version_text}

-- A client outside of serveMonitor, before its Wait with the version that it read, in the select of
-- Wait with its default, and with the epoch that it answers.
pub data Client : Type 0 where
  idle : Client
  read : (now epoch : Text) → Client
  waiting : (defval : Text) → Client
  answered : Text → Client

pub data Goroutine : Type 0 where
  cib_fetcher mainloop : Goroutine

-- Outside of notifyNewCib, or in its loop over the waiting clients with a version.
pub data Notifier : Type 0 where
  watching : Notifier
  notifying : Text → Notifier

-- `published` holds the documents so far, the last first.
pub record System : Type 0 where
  pub cib : AsyncCib
  pub notifiers : Goroutine → Notifier
  pub clients : ℕ → Client
  pub published : List CibDocument

abbrev pub with_notifier : Goroutine → Notifier → (Goroutine → Notifier) → Goroutine → Notifier
with_notifier cib_fetcher x f cib_fetcher = x
with_notifier cib_fetcher x f mainloop = f mainloop
with_notifier mainloop x f cib_fetcher = f cib_fetcher
with_notifier mainloop x f mainloop = x

unfoldable pub update : (ℕ → Client) → ℕ → Client → ℕ → Client
update f i c j = if i == j then c else f j

abbrev pub init : System
init = record { cib = empty_cib; notifiers = λ _. watching; clients = λ _. idle; published = [] }

abbrev pub IsWaiting : Client → Type 0
IsWaiting (waiting d) = Unit
IsWaiting _ = ⊥

-- Wait, or answer at once with the version that was read.
unfoldable pub decide : Text → Text → Client
decide now epoch = if now == [] || now == epoch then waiting now else answered now

pub data Step (s : System) : System → Type 0 where
  -- notifyNewCib up to its loop
  publish :
      (g : Goroutine) (doc : CibDocument)
      → s.notifiers g ≡ watching
      → Step s (record s {
        cib = store doc s.cib;
        notifiers = with_notifier g (notifying doc.version) s.notifiers;
        published = doc ∷ s.published;
      })
  -- a round of the loop with a client
  notify :
      (g : Goroutine) (v d : Text) (i : ℕ)
      → s.notifiers g ≡ notifying v
      → s.clients i ≡ waiting d
      → Step s (record s { clients = update s.clients i (answered v) })
  -- the default of the select, taken only if no client is at the channel
  finish :
      (g : Goroutine) (v : Text)
      → s.notifiers g ≡ notifying v
      → ((i : ℕ) → ¬ IsWaiting (s.clients i))
      → Step s (record s { notifiers = with_notifier g watching s.notifiers })
  -- serveMonitor up to `handler.cib.Version()`
  begin :
      (epoch : Text) (i : ℕ)
      → s.clients i ≡ idle
      → Step s
          (record s { clients = update s.clients i (read (version_text (version s.cib)) epoch) })
  -- the test on the epochs
  test :
      (now epoch : Text) (i : ℕ)
      → s.clients i ≡ read now epoch
      → Step s (record s { clients = update s.clients i (decide now epoch) })
  -- `time.After`
  timeout :
      (d : Text) (i : ℕ)
      → s.clients i ≡ waiting d
      → Step s (record s { clients = update s.clients i (answered d) })

pub data Reach : System → Type 0 where
  start : Reach init
  next : {s t : System} → Reach s → Step s t → Reach t
