-- ===== src/Tests/Fetching.antt =====
-- The two goroutines of Start, up to where they stand still: the connection is lost, the fetcher
-- subscribes again, and the first callback reports a loss a second time.
use hawk_apiserver.Prelude.{refl, ◌↔◌, true, [], ◌∷◌, none, some}
use hawk_apiserver.Text.{codes}
use hawk_apiserver.AsyncCib.{CibDocument, store}
use hawk_apiserver.AsyncCib.Fetch.{
  Loops, waiting, sending, init, open_cib, query, subscribe, lost, hand_over, among, step, Reach,
  here, next,
}
use hawk_apiserver.AsyncCib.Fetch.Stuck.{Stuck, Crossed, Stuck-iff-Crossed}

abbrev first_doc : CibDocument
first_doc = record { text = codes "<cib/>"; version = codes "0:1:2" }

abbrev after_loss : Loops
after_loss = record {
  cib = record { xmldoc = codes "<cib/>"; version = some (codes "0:1:2") };
  fetcher = waiting 1;
  mainloop = sending 0;
  rounds = 2;
  subscribed = 1 ∷ 0 ∷ [];
}

a_run : Reach init after_loss
unfolding step among store
a_run =
    next (lost 0)
      (next (subscribe true)
        (next (query none)
          (next hand_over
            (next (lost 0)
              (next (subscribe true)
                (next (query (some first_doc)) (next (open_cib true) here refl) refl) refl)
              refl)
            refl)
          refl)
        refl)
      refl

Stuck-iff-Crossed_example : Stuck after_loss ↔ Crossed after_loss.fetcher after_loss.mainloop
Stuck-iff-Crossed_example = Stuck-iff-Crossed a_run
