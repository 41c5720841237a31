-- ===== src/Proxy/Latency.antt =====
-- maxLatencyWriter: the goroutine that copies a body through its Write, and flushLoop beside it,
-- which flushes at each tick of its timer. Neither a Write nor a Flush of the writer below is done at
-- once: it reads the writer when it begins and stores it when it ends, so that two at a time would
-- lose one of them. Both go on only with the mutex `lk`. A send on `done` is a step of both.
pub mod Performing
pub mod Ordered
use hawk_apiserver.Prelude.{◌≡◌, ◌≢◌, Bool, true, false, List, [], ◌∷◌, ◌++◌, Option, none, some}
use hawk_apiserver.Text.{Text}
use hawk_apiserver.Http.{ResponseWriter}
use hawk_apiserver.Proxy.Serve.{BodyEvent, chunk, tick}

-- The copying goroutine, with the chunks that are left: before a Write, in one under the mutex, in
-- stop() (after an error or not), and after it.
pub data Copier : Type 0 where
  copying : List Text → Copier
  writing : Text → List Text → Copier
  stopping : (failed : Bool) → List Text → Copier
  stopped : (failed : Bool) → List Text → Copier

-- flushLoop at its select, in a Flush under the mutex, and at its end.
pub data Flusher : Type 0 where
  selecting : Flusher
  flushing : Flusher
  exited : Flusher

-- `performed` holds the writes and flushes that ended, `write_view` and `flush_view` the writer as a
-- Write and a Flush under way have read it, and `locked` is the state of `lk`.
pub record System (W : Type 0) : Type 0 where
  pub dst : W
  pub locked : Bool
  pub copier : Copier
  pub write_view : W
  pub flusher : Flusher
  pub flush_view : W
  pub performed : List BodyEvent

abbrev pub after_write : Option Text → List Text → Copier
after_write none left = copying left
after_write (some e) left = stopping true left

module _ {W : Type 0} ⦃i : ResponseWriter W⦄ where
  abbrev pub init : W → List Text → System W
  init w body = record {
    dst = w;
    locked = false;
    copier = copying body;
    write_view = w;
    flusher = selecting;
    flush_view = w;
    performed = [];
  }

  pub data Step (s : System W) : System W → Type 0 where
    -- `m.lk.Lock()` in Write, and the start of `m.dst.Write(p)`
    lock_write :
        (t : Text) (left : List Text)
        → s.copier ≡ copying (t ∷ left)
        → s.locked ≡ false
        → Step s (record s { copier = writing t left; write_view = s.dst; locked = true })
    -- the end of `m.dst.Write(p)`, and `m.lk.Unlock()`
    write :
        (t : Text) (left : List Text)
        → s.copier ≡ writing t left
        → Step s (record s {
          dst = (i.write t s.write_view).0;
          copier = after_write ((i.write t s.write_view).1.error) left;
          locked = false;
          performed = s.performed ++ chunk t ∷ [];
        })
    finish : s.copier ≡ copying [] → Step s (record s { copier = stopping false [] })
    -- a tick, `m.lk.Lock()` in flushLoop, and the start of `m.dst.Flush()`
    lock_flush :
        s.flusher ≡ selecting
        → s.locked ≡ false
        → Step s (record s { flusher = flushing; flush_view = s.dst; locked = true })
    -- the end of `m.dst.Flush()`, and `m.lk.Unlock()`
    flush :
        s.flusher ≡ flushing
        → Step s (record s {
          dst = i.flush s.flush_view;
          flusher = selecting;
          locked = false;
          performed = s.performed ++ tick ∷ [];
        })
    stop :
        (failed : Bool) (left : List Text)
        → s.copier ≡ stopping failed left
        → s.flusher ≡ selecting
        → Step s (record s { copier = stopped failed left; flusher = exited })

  pub data Reach (w : W) (body : List Text) : System W → Type 0 where
    start : Reach w body (init w body)
    next : {s t : System W} → Reach w body s → Step s t → Reach w body t
