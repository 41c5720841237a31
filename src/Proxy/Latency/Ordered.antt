-- ===== src/Proxy/Latency/Ordered.antt =====
-- The two goroutines together do what copy_events does for one order of chunks and ticks.
use hawk_apiserver.Prelude.{◌≡◌, ◌≢◌, Bool, true, false, List, [], ◌∷◌, ◌++◌}
use hawk_apiserver.Text.{Text}
use hawk_apiserver.Http.{ResponseWriter}
use hawk_apiserver.Proxy.Serve.{BodyEvent, copy_events}
use hawk_apiserver.Proxy.Latency.{Copier, copying, writing, stopping, stopped, flushing, System}
use hawk_apiserver.Proxy.Latency.Performing.{chunks, perform, Clean}

-- The chunks that are not written yet, and those that never are.
abbrev pub rest : Copier → List Text
rest (copying left) = left
rest (writing t left) = t ∷ left
rest (stopping failed left) = left
rest (stopped failed left) = left

-- No write has failed.
abbrev pub IsSound : Copier → Type 0
IsSound (stopping true left) = ⊥
IsSound (stopped true left) = ⊥
IsSound _ = Unit

abbrev pub IsWriting : Copier → Type 0
IsWriting (writing t left) = Unit
IsWriting _ = ⊥

-- A copy that ends without an error has no chunk left.
abbrev pub AllTaken : Copier → Type 0
AllTaken (stopping false left) = left ≡ []
AllTaken (stopped false left) = left ≡ []
AllTaken _ = Unit

module _ {W : Type 0} ⦃i : ResponseWriter W⦄ where
  -- A Write under way holds the mutex, nothing has been stored since it read the writer, and no
  -- Flush is under way; and so for a Flush.
  pub record WritingAlone (s : System W) : Type 0 where
    pub held : s.locked ≡ true
    pub view : s.write_view ≡ s.dst
    pub no_flush : s.flusher ≢ flushing

  pub record FlushingAlone (s : System W) : Type 0 where
    pub held : s.locked ≡ true
    pub view : s.flush_view ≡ s.dst

  module _ (w : W) (body : List Text) where
    pub record Inv (s : System W) : Type 0 where
      pub dst : s.dst ≡ perform s.performed w
      pub order : chunks s.performed ++ rest s.copier ≡ body
      pub clean : IsSound s.copier → Clean s.performed w
      pub taken : AllTaken s.copier
      pub writing_alone : IsWriting s.copier → WritingAlone s
      pub flushing_alone : s.flusher ≡ flushing → FlushingAlone s

    -- After a copy without an error nothing is left over, and the writer is as copy_events leaves it.
    abbrev pub Complete : Bool → List Text → List BodyEvent → W → Type 0
    Complete true left es dst = Unit
    Complete false left es dst = (left ≡ []) × (dst ≡ copy_events true es w)
