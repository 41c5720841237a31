-- ===== src/AsyncCib/Threads/Stale.antt =====
-- Which updates a waiting client sees, and one that it misses.
use hawk_apiserver.Prelude.{
  ℕ, ◌≡◌, refl, ◌∙◌, inl, inr, List, [], ◌∷◌, ◌++◌, some, arith, Bool-cases, nat_beq, text_beq_refl,
  text_eq,
}
use hawk_apiserver.Text.{Text}
use hawk_apiserver.AsyncCib.{CibDocument, store, version}
use hawk_apiserver.AsyncCib.Threads.{
  Client, idle, read, waiting, answered, Goroutine, cib_fetcher, mainloop, with_notifier, watching,
  notifying, System, update, decide, publish, finish, begin, test, timeout, Reach, start, next,
  IsWaiting,
}
use hawk_apiserver.AsyncCib.Threads.Tracing.{Later, Served, Later-Traced}

update_self : (f : ℕ → Client) (i : ℕ) (c : Client) → update f i c i ≡ c
unfolding update
update_self f i c = ground arith

-- A client that waits while a goroutine announces a version is, in every later state, still waiting
-- under that announcement or answered: it does not wait on once the announcement is over. Its answer
-- is its own default, a version that was announced at that time by one of the goroutines, or the
-- version of a document published since.
pub waiting-Served :
    (s t : System) (i : ℕ) (g : Goroutine) (v d : Text)
    → s.notifiers g ≡ notifying v
    → s.clients i ≡ waiting d
    → Later s t
    → (since : List CibDocument) × (t.published ≡ since ++ s.published) × Served g v d i s since t
waiting-Served s t i g v d a w l =
    let (since, n, o) = Later-Traced g v d i s t a w l in (since, n.grown, o)

decide_same : (v : Text) → decide v v ≡ waiting v
unfolding decide
decide_same v = ground (arith, text_beq_refl v)

no_one_waits :
    (i : ℕ) (c : Client) → ¬ IsWaiting c → (j : ℕ) → ¬ IsWaiting (update (λ _. idle) i c j)
unfolding update
no_one_waits i c h j = elim (Bool-cases (nat_beq i j)) [ inl e ↦ rw e h | inr e ↦ rw e (λ w. w) ]

-- An update between a client's reading of the version and its Wait goes unnoticed: for any two
-- documents there is a run in which the client, which knows the first version, is answered by it
-- after the second was published and announced.
pub stale_answer :
    (one two : CibDocument) (i : ℕ)
    → (s : System) × Reach s
      × (s.published ≡ two ∷ one ∷ [])
      × ((g : Goroutine) → s.notifiers g ≡ watching)
      × (s.cib.version ≡ some two.version)
      × (s.clients i ≡ answered one.version)
unfolding store version
stale_answer one two i =
    let v = one.version in
    let none_wait = no_one_waits i (read v v) (λ w. w) in
    let r₁ = next start (publish cib_fetcher one refl) in
    let r₂ = next r₁ (finish cib_fetcher v refl (λ j w. w)) in
    let r₃ = next r₂ (begin v i refl) in
    let r₄ = next r₃ (publish mainloop two refl) in
    let r₅ = next r₄ (finish mainloop two.version refl none_wait) in
    let r₆ = next r₅ (test v v i (update_self _ i (read v v))) in
    let r₇ = next r₆ (timeout v i (update_self _ i (decide v v) ∙ decide_same v)) in
    (_, r₇, refl, both_watching, refl, update_self _ i (answered v))
  where
    both_watching :
        (g : Goroutine)
        → with_notifier mainloop watching
            (with_notifier mainloop (notifying two.version) (
              with_notifier cib_fetcher watching
                (with_notifier cib_fetcher (notifying one.version) (λ _. watching))))
            g
          ≡ watching
    both_watching cib_fetcher = refl
    both_watching mainloop = refl
