-- ===== src/AsyncCib/Threads/Answers.antt =====
-- What a client can be answered.
use hawk_apiserver.Prelude.{
  ℕ, ◌≡◌, refl, ◌⊎◌, inl, inr, List, [], ◌∷◌, some, ◌==◌, nat_eq, text_eq, Bool-cases, nat_beq,
  ◌||◌,
}
use hawk_apiserver.Text.{Text}
use hawk_apiserver.AsyncCib.{AsyncCib, CibDocument, empty_cib, store, version}
use hawk_apiserver.Server.Monitor.{version_text}
use hawk_apiserver.AsyncCib.Threads.{
  Client, idle, read, waiting, answered, Goroutine, cib_fetcher, mainloop, Notifier, with_notifier,
  watching, notifying, System, update, decide, Step, publish, notify, finish, begin, test, timeout,
  Reach, start, next,
}

-- A version that was published.
abbrev pub Published : Text → List CibDocument → Type 0
Published v [] = ⊥
Published v (d ∷ ds) = (d.version ≡ v) ⊎ Published v ds

-- Nothing yet, or a version that was published.
abbrev pub IsEpoch : List CibDocument → Text → Type 0
IsEpoch ds v = (v ≡ []) ⊎ Published v ds

abbrev pub ClientInv : List CibDocument → Client → Type 0
ClientInv ds idle = Unit
ClientInv ds (read now epoch) = IsEpoch ds now
ClientInv ds (waiting d) = IsEpoch ds d
ClientInv ds (answered v) = IsEpoch ds v

abbrev pub NotifierInv : List CibDocument → Notifier → Type 0
NotifierInv ds watching = Unit
NotifierInv ds (notifying v) = Published v ds

-- The stored text and version are those of one document, the last that was published.
abbrev pub CibInv : List CibDocument → AsyncCib → Type 0
CibInv [] c = c ≡ empty_cib
CibInv (d ∷ ds) c = (c.xmldoc ≡ d.text) × (c.version ≡ some d.version)

pub record Inv (s : System) : Type 0 where
  pub cib : CibInv s.published s.cib
  pub notifiers : (g : Goroutine) → NotifierInv s.published (s.notifiers g)
  pub clients : (i : ℕ) → ClientInv s.published (s.clients i)

IsEpoch-cons :
    (ds : List CibDocument) (d : CibDocument) (v : Text) → IsEpoch ds v → IsEpoch (d ∷ ds) v
IsEpoch-cons ds d v (inl e) = inl e
IsEpoch-cons ds d v (inr p) = inr (inr p)

ClientInv-cons :
    (ds : List CibDocument) (d : CibDocument) (c : Client) → ClientInv ds c → ClientInv (d ∷ ds) c
ClientInv-cons ds d idle h = tt
ClientInv-cons ds d (read now epoch) h = IsEpoch-cons ds d now h
ClientInv-cons ds d (waiting v) h = IsEpoch-cons ds d v h
ClientInv-cons ds d (answered v) h = IsEpoch-cons ds d v h

version-IsEpoch :
    (ds : List CibDocument) (c : AsyncCib) → CibInv ds c → IsEpoch ds (version_text (version c))
unfolding version
version-IsEpoch [] c e = inl (rw e)
version-IsEpoch (d ∷ ds) c (e, f) = inr (inl (rw f))

decide-Inv :
    (ds : List CibDocument) (now epoch : Text) → IsEpoch ds now → ClientInv ds (decide now epoch)
unfolding decide
decide-Inv ds now epoch h = elim (Bool-cases (now == [] || now == epoch)) [
  | inl e ↦ rw e h
  | inr e ↦ rw e h
]

update-Inv :
    (ds : List CibDocument) (f : ℕ → Client) (i : ℕ) (c : Client)
    → ((j : ℕ) → ClientInv ds (f j))
    → ClientInv ds c
    → (j : ℕ) → ClientInv ds (update f i c j)
unfolding update
update-Inv ds f i c all h j = elim (Bool-cases (nat_beq i j)) [
  | inl e ↦ rw e h
  | inr e ↦ rw e (all j)
]

-- What a client holds of a known state.
client_at : (s : System) (i : ℕ) (c : Client) → Inv s → s.clients i ≡ c → ClientInv s.published c
client_at s i c v e = rw e at (v.clients i)

NotifierInv-cons :
    (ds : List CibDocument) (d : CibDocument) (n : Notifier)
    → NotifierInv ds n
    → NotifierInv (d ∷ ds) n
NotifierInv-cons ds d watching h = tt
NotifierInv-cons ds d (notifying v) h = inr h

with_notifier-Inv :
    (ds : List CibDocument) (g : Goroutine) (n : Notifier) (f : Goroutine → Notifier)
    → NotifierInv ds n
    → ((h : Goroutine) → NotifierInv ds (f h))
    → (h : Goroutine) → NotifierInv ds (with_notifier g n f h)
with_notifier-Inv ds cib_fetcher n f p all cib_fetcher = p
with_notifier-Inv ds cib_fetcher n f p all mainloop = all mainloop
with_notifier-Inv ds mainloop n f p all cib_fetcher = all cib_fetcher
with_notifier-Inv ds mainloop n f p all mainloop = p

notifier_at :
    (s : System) (g : Goroutine) (n : Notifier)
    → Inv s
    → s.notifiers g ≡ n
    → NotifierInv s.published n
notifier_at s g n v e = rw e at (v.notifiers g)

-- Every step keeps the invariant.
pub Step-Inv : {s t : System} → Step s t → Inv s → Inv t
unfolding store
Step-Inv {s} (publish g doc e) v = record {
  cib = (refl, refl);
  notifiers =
      with_notifier-Inv (doc ∷ s.published) g (notifying doc.version) s.notifiers (inl refl)
        (λ h. NotifierInv-cons s.published doc (s.notifiers h) (v.notifiers h));
  clients = λ j. ClientInv-cons s.published doc (s.clients j) (v.clients j);
}
Step-Inv {s} (notify g w d i e f) v = record {
  cib = v.cib;
  notifiers = v.notifiers;
  clients =
      update-Inv s.published s.clients i (answered w) v.clients
        (inr (notifier_at s g (notifying w) v e));
}
Step-Inv {s} (finish g w e h) v = record {
  cib = v.cib;
  notifiers = with_notifier-Inv s.published g watching s.notifiers tt v.notifiers;
  clients = v.clients;
}
Step-Inv {s} (begin epoch i e) v = record {
  cib = v.cib;
  notifiers = v.notifiers;
  clients =
      update-Inv s.published s.clients i (read (version_text (version s.cib)) epoch) v.clients
        (version-IsEpoch s.published s.cib v.cib);
}
Step-Inv {s} (test now epoch i e) v = record {
  cib = v.cib;
  notifiers = v.notifiers;
  clients =
      update-Inv s.published s.clients i (decide now epoch) v.clients
        (decide-Inv s.published now epoch (client_at s i (read now epoch) v e));
}
Step-Inv {s} (timeout d i e) v = record {
  cib = v.cib;
  notifiers = v.notifiers;
  clients =
      update-Inv s.published s.clients i (answered d) v.clients (client_at s i (waiting d) v e);
}

-- In every reachable state the stored text and version are those of the document published last,
-- and each epoch that a client was answered is empty or the version of a published document.
pub Reach-Inv : {s : System} → Reach s → Inv s
Reach-Inv start = record { cib = refl; notifiers = λ _. tt; clients = λ _. tt }
Reach-Inv (next r st) = Step-Inv st (Reach-Inv r)
