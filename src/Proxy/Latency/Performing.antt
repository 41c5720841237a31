-- ===== src/Proxy/Latency/Performing.antt =====
-- Chunks and flushes performed in one order, as the sequential copy does it.
use hawk_apiserver.Prelude.{◌≡◌, refl, true, List, [], ◌∷◌, ◌++◌, none}
use hawk_apiserver.Text.{Text}
use hawk_apiserver.Http.{ResponseWriter}
use hawk_apiserver.Proxy.Serve.{BodyEvent, chunk, tick, copy_events}

abbrev pub chunks : List BodyEvent → List Text
chunks [] = []
chunks (tick ∷ es) = chunks es
chunks (chunk t ∷ es) = t ∷ chunks es

pub chunks-append : (es fs : List BodyEvent) → chunks (es ++ fs) ≡ chunks es ++ chunks fs
chunks-append [] fs = refl
chunks-append (tick ∷ es) fs = chunks-append es fs
chunks-append (chunk t ∷ es) fs = rw (chunks-append es fs)

module _ {W : Type 0} ⦃i : ResponseWriter W⦄ where
  abbrev pub perform : List BodyEvent → W → W
  perform [] w = w
  perform (tick ∷ es) w = perform es (i.flush w)
  perform (chunk t ∷ es) w = perform es (i.write t w).0

  pub perform-append :
      (es fs : List BodyEvent) (w : W) → perform (es ++ fs) w ≡ perform fs (perform es w)
  perform-append [] fs w = refl
  perform-append (tick ∷ es) fs w = perform-append es fs (i.flush w)
  perform-append (chunk t ∷ es) fs w = perform-append es fs (i.write t w).0

  abbrev pub Clean : List BodyEvent → W → Type 0
  Clean [] w = Unit
  Clean (tick ∷ es) w = Clean es (i.flush w)
  Clean (chunk t ∷ es) w = ((i.write t w).1.error ≡ none) × Clean es (i.write t w).0

  pub Clean-append :
      (es fs : List BodyEvent) (w : W) → Clean es w → Clean fs (perform es w) → Clean (es ++ fs) w
  Clean-append [] fs w c d = d
  Clean-append (tick ∷ es) fs w c d = Clean-append es fs (i.flush w) c d
  Clean-append (chunk t ∷ es) fs w (ok, c) d = (ok, Clean-append es fs (i.write t w).0 c d)

  pub copy_events-Clean :
      (es : List BodyEvent) (w : W) → Clean es w → copy_events true es w ≡ perform es w
  unfolding copy_events
  copy_events-Clean [] w c = refl
  copy_events-Clean (tick ∷ es) w c = copy_events-Clean es (i.flush w) c
  copy_events-Clean (chunk t ∷ es) w (ok, c) =
      rw (copy_events, ok) (copy_events-Clean es (i.write t w).0 c)
