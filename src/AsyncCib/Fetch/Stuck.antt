-- ===== src/AsyncCib/Fetch/Stuck.antt =====
-- When the two goroutines of Start stand still for good.
use hawk_apiserver.Prelude.{
  ℕ, suc, ◌≡◌, ◌≢◌, ◌<◌, ◌↔◌, refl, sym, inl, inr, Bool, true, false, List, [], ◌∷◌, Option, none,
  some, ◌==◌, nat_eq, arith, Bool-cases,
}
use hawk_apiserver.AsyncCib.{CibDocument}
use hawk_apiserver.AsyncCib.Fetch.{
  Fetcher, opening, querying, subscribing, waiting, Mainloop, free, sending, Loops, init, Event,
  open_cib, query, subscribe, updated, lost, hand_over, among, open_at, query_at, subscribe_at,
  callback_at, hand_at, step, Reach, here, next,
}

-- The waiter in use is the last one made, and its callback is registered.
abbrev pub Current : Fetcher → ℕ → List ℕ → Type 0
Current (waiting j) rounds subscribed = (suc j ≡ rounds) × (among j subscribed ≡ true)
Current _ rounds subscribed = Unit

-- The callbacks belong to waiters that were made.
abbrev Older : ℕ → List ℕ → Type 0
Older rounds [] = Unit
Older rounds (k ∷ ks) = (k < rounds) × Older rounds ks

abbrev Sends : Mainloop → List ℕ → Type 0
Sends free ks = Unit
Sends (sending k) ks = among k ks ≡ true

pub record Inv (s : Loops) : Type 0 where
  pub current : Current s.fetcher s.rounds s.subscribed
  pub older : Older s.rounds s.subscribed
  pub sends : Sends s.mainloop s.subscribed

Older-suc : (n : ℕ) (ks : List ℕ) → Older n ks → Older (suc n) ks
Older-suc n [] o = o
Older-suc n (k ∷ ks) o = (omega arith, Older-suc n ks o.1)

among-Older : (n k : ℕ) (ks : List ℕ) → Older n ks → among k ks ≡ true → k < n
unfolding among
among-Older n k [] o e = cc
among-Older n k (j ∷ js) o e = elim (Bool-cases (j == k)) [
  | inl p ↦ ground arith
  | inr p ↦ among-Older n k js o.1 (rw p at e)
]

among-here : (k : ℕ) (ks : List ℕ) → among k (k ∷ ks) ≡ true
unfolding among
among-here k ks = ground arith

among-later : (k j : ℕ) (ks : List ℕ) → among k ks ≡ true → among k (j ∷ ks) ≡ true
unfolding among
among-later k j ks e = rw e (ground arith)

Sends-later : (m : Mainloop) (j : ℕ) (ks : List ℕ) → Sends m ks → Sends m (j ∷ ks)
Sends-later free j ks u = tt
Sends-later (sending k) j ks u = among-later k j ks u

some-ne {ℓ} : {A : Type ℓ} {a b : A} → some a ≡ some b → a ≡ b
some-ne e = cc

open_at-Inv :
    (f : Fetcher) (ok : Bool) (s t : Loops)
    → Inv s
    → s.fetcher ≡ f
    → open_at f ok s ≡ some t
    → Inv t
open_at-Inv opening true s t v w e =
    rw (sym (some-ne e)) (record { current = tt; older = v.older; sends = v.sends })
open_at-Inv opening false s t v w e = rw (sym (some-ne e)) v
open_at-Inv querying ok s t v w e = cc
open_at-Inv subscribing ok s t v w e = cc
open_at-Inv (waiting j) ok s t v w e = cc

query_at-Inv :
    (f : Fetcher) (o : Option CibDocument) (s t : Loops) → Inv s → query_at f o s ≡ some t → Inv t
query_at-Inv querying none s t v e =
    rw (sym (some-ne e)) (record { current = tt; older = v.older; sends = v.sends })
query_at-Inv querying (some doc) s t v e =
    rw (sym (some-ne e)) (record { current = tt; older = v.older; sends = v.sends })
query_at-Inv opening o s t v e = cc
query_at-Inv subscribing o s t v e = cc
query_at-Inv (waiting j) o s t v e = cc

subscribe_at-Inv :
    (f : Fetcher) (ok : Bool) (s t : Loops) → Inv s → subscribe_at f ok s ≡ some t → Inv t
subscribe_at-Inv subscribing false s t v e =
    rw (sym (some-ne e))
      (record { current = tt; older = Older-suc s.rounds s.subscribed v.older; sends = v.sends })
subscribe_at-Inv subscribing true s t v e = rw (sym (some-ne e)) (record {
  current = (refl, among-here s.rounds s.subscribed);
  older = (omega arith, Older-suc s.rounds s.subscribed v.older);
  sends = Sends-later s.mainloop s.rounds s.subscribed v.sends;
})
subscribe_at-Inv opening ok s t v e = cc
subscribe_at-Inv querying ok s t v e = cc
subscribe_at-Inv (waiting j) ok s t v e = cc

callback_at-some :
    (m : Mainloop) (k : ℕ) (s u t : Loops)
    → callback_at m k s u ≡ some t
    → (u ≡ t) × (among k s.subscribed ≡ true)
callback_at-some free k s u t e = elim (Bool-cases (among k s.subscribed)) [
  | inl p ↦ (some-ne (rw p at e), p)
  | inr p ↦ absurd (none-ne (rw p at e))
]
  where
    none-ne : none ≢ some t
    none-ne e = cc
callback_at-some (sending j) k s u t e = cc

hand_at-Inv : (f : Fetcher) (m : Mainloop) (s t : Loops) → Inv s → hand_at f m s ≡ some t → Inv t
hand_at-Inv (waiting j) (sending k) s t v e = elim (Bool-cases (j == k)) [
  | inl p ↦ rw (sym (some-ne (rw p at e))) (record { current = tt; older = v.older; sends = tt })
  | inr p ↦ absurd (none-ne (rw p at e))
]
  where
    none-ne : none ≢ some t
    none-ne e = cc
hand_at-Inv (waiting j) free s t v e = cc
hand_at-Inv opening m s t v e = cc
hand_at-Inv querying m s t v e = cc
hand_at-Inv subscribing m s t v e = cc

step-Inv : (e : Event) (s t : Loops) → Inv s → step e s ≡ some t → Inv t
unfolding step
step-Inv (open_cib ok) s t v e = open_at-Inv s.fetcher ok s t v refl e
step-Inv (query o) s t v e = query_at-Inv s.fetcher o s t v e
step-Inv (subscribe ok) s t v e = subscribe_at-Inv s.fetcher ok s t v e
step-Inv (updated k doc) s t v e =
    rw (sym (callback_at-some s.mainloop k s _ t e).0)
      (record { current = v.current; older = v.older; sends = v.sends })
step-Inv (lost k) s t v e =
    let (p, q) = callback_at-some s.mainloop k s _ t e in
    rw (sym p) (record { current = v.current; older = v.older; sends = q })
step-Inv hand_over s t v e = hand_at-Inv s.fetcher s.mainloop s t v e

Reach-Inv : {s : Loops} → Reach init s → Inv s
Reach-Inv here = record { current = tt; older = tt; sends = tt }
Reach-Inv (next e r p) = step-Inv e _ _ (Reach-Inv r) p

-- Nothing can happen.
abbrev pub Stuck : Loops → Type 0
Stuck s = (e : Event) → step e s ≡ none

-- The fetcher receives from one waiter, and an earlier one is sent to.
abbrev pub Crossed : Fetcher → Mainloop → Type 0
Crossed (waiting j) (sending k) = k < j
Crossed _ _ = ⊥

some-ne-none {ℓ} : {A : Type ℓ} {a : A} → some a ≢ none
some-ne-none e = cc

below : (j k n : ℕ) → suc j ≡ n → k < n → (j == k) ≡ false → k < j
below j k n p h e = ground arith

Stuck-Crossed :
    (f : Fetcher) (m : Mainloop) (s : Loops)
    → s.fetcher ≡ f
    → s.mainloop ≡ m
    → Current f s.rounds s.subscribed
    → Sends m s.subscribed
    → Older s.rounds s.subscribed
    → Stuck s
    → Crossed f m
unfolding step
Stuck-Crossed opening m s p q c d o h = absurd (some-ne-none (rw p at h (open_cib true)))
Stuck-Crossed querying m s p q c d o h = absurd (some-ne-none (rw p at h (query none)))
Stuck-Crossed subscribing m s p q c d o h = absurd (some-ne-none (rw p at h (subscribe true)))
Stuck-Crossed (waiting j) free s p q c d o h =
    let g = h (lost j) in absurd (some-ne-none (rw (q, c.1) at g))
Stuck-Crossed (waiting j) (sending k) s p q c d o h = elim (Bool-cases (j == k)) [
  | inl e ↦ let g = h hand_over in absurd (some-ne-none (rw (p, q, e) at g))
  | inr e ↦ let lower = among-Older s.rounds k s.subscribed o d in below j k s.rounds c.0 lower e
]

Crossed-Stuck :
    (f : Fetcher) (m : Mainloop) (s : Loops)
    → s.fetcher ≡ f
    → s.mainloop ≡ m
    → Crossed f m
    → Stuck s
unfolding step
Crossed-Stuck opening m s p q c e = absurd c
Crossed-Stuck querying m s p q c e = absurd c
Crossed-Stuck subscribing m s p q c e = absurd c
Crossed-Stuck (waiting j) free s p q c e = absurd c
Crossed-Stuck (waiting j) (sending k) s p q c (open_cib ok) = rw p
Crossed-Stuck (waiting j) (sending k) s p q c (query o) = rw p
Crossed-Stuck (waiting j) (sending k) s p q c (subscribe ok) = rw p
Crossed-Stuck (waiting j) (sending k) s p q c (updated i doc) = rw q
Crossed-Stuck (waiting j) (sending k) s p q c (lost i) = rw q
Crossed-Stuck (waiting j) (sending k) s p q c hand_over = rw (p, q) (ground arith)

-- In every state that the two goroutines reach, nothing can happen any more exactly when the
-- fetcher waits for the callback of its last round while the main loop hands a lost connection to
-- the waiter of an earlier round.
pub Stuck-iff-Crossed : {s : Loops} → Reach init s → Stuck s ↔ Crossed s.fetcher s.mainloop
Stuck-iff-Crossed {s} r =
    let v = Reach-Inv r in
    (
      Stuck-Crossed s.fetcher s.mainloop s refl refl v.current v.sends v.older,
      Crossed-Stuck s.fetcher s.mainloop s refl refl,
    )
