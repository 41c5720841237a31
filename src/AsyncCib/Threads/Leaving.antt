-- ===== src/AsyncCib/Threads/Leaving.antt =====
-- What has happened when notifyNewCib leaves its loop, with all threads at work.
use hawk_apiserver.Prelude.{ℕ, ◌+◌, ◌≢◌, ◌≡◌, ◌<◌, inl, inr, arith, text_eq}
use hawk_apiserver.Text.{Text}
use hawk_apiserver.AsyncCib.{version}
use hawk_apiserver.Server.Monitor.{version_text}
use hawk_apiserver.AsyncCib.Threads.{
  idle, read, waiting, answered, Goroutine, cib_fetcher, mainloop, Notifier, watching, notifying,
  with_notifier, System, decide, Step, publish, notify, finish, begin, test, timeout, IsWaiting,
}
use hawk_apiserver.AsyncCib.Threads.Counting.{
  one_if_waiting, count_waiting, QuietFrom, count_waiting-update, waiting-below, count_waiting_none,
}
use hawk_apiserver.AsyncCib.Threads.Tracing.{Later, here, later}

-- The rounds of the loops, the time-outs, and the clients that begin to wait.
abbrev pub round_of : {s t : System} → Step s t → ℕ
round_of (notify g v d i e f) = 1
round_of _ = 0

abbrev pub expiry_of : {s t : System} → Step s t → ℕ
expiry_of (timeout d i e) = 1
expiry_of _ = 0

abbrev pub joining_of : {s t : System} → Step s t → ℕ
joining_of (test now epoch i e) = one_if_waiting (decide now epoch)
joining_of _ = 0

abbrev pub rounds : {s t : System} → Later s t → ℕ
rounds here = 0
rounds (later l st) = round_of st + rounds l

abbrev pub expiries : {s t : System} → Later s t → ℕ
expiries here = 0
expiries (later l st) = expiry_of st + expiries l

abbrev pub joinings : {s t : System} → Later s t → ℕ
joinings here = 0
joinings (later l st) = joining_of st + joinings l

-- The clients that may begin to wait are among the first n.
abbrev pub WithinStep : {s t : System} → ℕ → Step s t → Type 0
WithinStep n (test now epoch i e) = i < n
WithinStep n _ = Unit

abbrev pub Within : {s t : System} → ℕ → Later s t → Type 0
Within n here = Unit
Within n (later l st) = WithinStep n st × Within n l

record Counts (n given expired joined : ℕ) (s t : System) : Type 0 where
  quiet : QuietFrom n t.clients
  count : given + expired + count_waiting n t.clients ≡ joined + count_waiting n s.clients

not_idle : ¬ IsWaiting idle
not_idle h = h

Step-Counts :
    (n : ℕ) {s t : System} (st : Step s t)
    → QuietFrom n s.clients
    → WithinStep n st
    → Counts n (round_of st) (expiry_of st) (joining_of st) s t
Step-Counts n (publish g doc e) q w = record { quiet = q; count = omega arith }
Step-Counts n (finish g v e h) q w = record { quiet = q; count = omega arith }
Step-Counts n {s} (notify g v d i e f) q w =
    let (q', c) =
      count_waiting-update n i s.clients (waiting d) (answered v) f
        (inl (waiting-below n i s.clients d q f)) q in
    record { quiet = q'; count = omega (arith, c) }
Step-Counts n {s} (timeout d i f) q w =
    let (q', c) =
      count_waiting-update n i s.clients (waiting d) (answered d) f
        (inl (waiting-below n i s.clients d q f)) q in
    record { quiet = q'; count = omega (arith, c) }
Step-Counts n {s} (begin epoch i f) q w =
    let (q', c) =
      count_waiting-update n i s.clients idle (read (version_text (version s.cib)) epoch) f
        (inr (λ h. h, λ h. h)) q in
    record { quiet = q'; count = omega (arith, c) }
Step-Counts n {s} (test now epoch i f) q w =
    let (q', c) =
      count_waiting-update n i s.clients (read now epoch) (decide now epoch) f (inl w) q in
    record { quiet = q'; count = omega (arith, c) }

Later-Counts :
    (n : ℕ) {s t : System} (l : Later s t)
    → QuietFrom n s.clients
    → Within n l
    → Counts n (rounds l) (expiries l) (joinings l) s t
Later-Counts n here q w = record { quiet = q; count = omega arith }
Later-Counts n (later l st) q (w, ws) =
    let o = Later-Counts n l q ws in
    let p = Step-Counts n st o.quiet w in
    record { quiet = p.quiet; count = added _ _ _ _ _ _ _ _ _ o.count p.count }
  where
    added :
        (g g' x x' j j' a b c : ℕ)
        → g + x + b ≡ j + a
        → g' + x' + c ≡ j' + b
        → g' + g + (x' + x) + c ≡ j' + j + a
    added g g' x x' j j' a b c p q = omega arith

with_notifier-leaves :
    (g h : Goroutine) (f : Goroutine → Notifier) (v w : Text)
    → f g ≡ notifying v
    → with_notifier h (notifying w) f g ≢ watching
with_notifier-leaves cib_fetcher cib_fetcher f v w p q = cc
with_notifier-leaves cib_fetcher mainloop f v w p q = cc
with_notifier-leaves mainloop cib_fetcher f v w p q = cc
with_notifier-leaves mainloop mainloop f v w p q = cc

-- Only the default of the select leaves a loop.
leaves-quiet :
    (g : Goroutine) (v : Text) {t u : System}
    → Step t u
    → t.notifiers g ≡ notifying v
    → u.notifiers g ≡ watching
    → (i : ℕ) → ¬ IsWaiting (t.clients i)
leaves-quiet g v {t} (publish h doc e) p q =
    absurd (with_notifier-leaves g h t.notifiers v doc.version p q)
leaves-quiet g v (notify h w d i e f) p q = cc
leaves-quiet g v (finish h w e quiet) p q = quiet
leaves-quiet g v (begin epoch i e) p q = cc
leaves-quiet g v (test now epoch i e) p q = cc
leaves-quiet g v (timeout d i e) p q = cc

-- Whatever all the threads do, when a goroutine leaves its loop no client waits; and since any
-- earlier state, if the clients that wait then or begin to wait later are among the first n, the
-- rounds of the two loops and the time-outs are together as many as the clients that waited then and
-- those that began to wait since.
pub leaves-Drained :
    (n : ℕ) (g : Goroutine) (v : Text) (s t u : System) (l : Later s t)
    → QuietFrom n s.clients
    → Within n l
    → Step t u
    → t.notifiers g ≡ notifying v
    → u.notifiers g ≡ watching
    → ((i : ℕ) → ¬ IsWaiting (t.clients i))
      × (rounds l + expiries l ≡ count_waiting n s.clients + joinings l)
leaves-Drained n g v s t u l q w st p e =
    let quiet = leaves-quiet g v st p e in
    let o = Later-Counts n l q w in
    (quiet, drained _ _ _ _ _ (count_waiting_none n t.clients quiet) o.count)
  where
    drained : (k x c j a : ℕ) → c ≡ 0 → k + x + c ≡ j + a → k + x ≡ a + j
    drained k x c j a z p = omega arith
