-- ===== src/AsyncCib/Threads/Tracing.antt =====
-- What becomes of a waiting client, step by step, and where its answer comes from.
use hawk_apiserver.Prelude.{
  ℕ, ◌≡◌, refl, ◌⊎◌, inl, inr, List, [], ◌∷◌, ◌++◌, arith, Bool-cases, nat_beq, text_eq,
}
use hawk_apiserver.Text.{Text}
use hawk_apiserver.AsyncCib.{CibDocument}
use hawk_apiserver.AsyncCib.Threads.Answers.{Published}
use hawk_apiserver.AsyncCib.Threads.{
  Client, waiting, answered, Goroutine, cib_fetcher, mainloop, Notifier, with_notifier, watching,
  notifying, System, update, Step, publish, notify, finish, begin, test, timeout,
}

-- The states that follow a state.
pub data Later (s : System) : System → Type 0 where
  here : Later s s
  later : {t u : System} → Later s t → Step t u → Later s u

-- A version that may answer a client that waits at `s`: its default, one announced then, or one of
-- the documents published since, the last first.
abbrev pub Answers : System → Text → List CibDocument → Text → Type 0
Answers s d since e =
    (e ≡ d) ⊎ (((g : Goroutine) × (s.notifiers g ≡ notifying e)) ⊎ Published e since)

-- The client still waits while `g` announces `v`, or has been answered.
abbrev pub Served : Goroutine → Text → Text → ℕ → System → List CibDocument → System → Type 0
Served g v d i s since t =
    ((t.notifiers g ≡ notifying v) × (t.clients i ≡ waiting d))
    ⊎ ((e : Text) × (t.clients i ≡ answered e) × Answers s d since e)

-- An answered client is left alone.
answered_stays :
    (s t : System) (i : ℕ) (v : Text)
    → s.clients i ≡ answered v
    → Step s t
    → t.clients i ≡ answered v
unfolding update
answered_stays s t i v a (publish g doc e) = a
answered_stays s t i v a (notify g w d j e f) = ground arith
answered_stays s t i v a (finish g w e h) = a
answered_stays s t i v a (begin epoch j e) = ground arith
answered_stays s t i v a (test now epoch j e) = ground arith
answered_stays s t i v a (timeout d j e) = ground arith

-- Where what is announced at `t` comes from.
pub record Since (s : System) (since : List CibDocument) (t : System) : Type 0 where
  pub grown : t.published ≡ since ++ s.published
  pub announced :
      (g : Goroutine) (e : Text)
      → t.notifiers g ≡ notifying e
      → ((h : Goroutine) × (s.notifiers h ≡ notifying e)) ⊎ Published e since

notifying-inj : {v w : Text} → notifying v ≡ notifying w → v ≡ w
notifying-inj e = cc

with_notifier-notifying :
    (g h : Goroutine) (n : Notifier) (f : Goroutine → Notifier) (e : Text)
    → with_notifier g n f h ≡ notifying e
    → (n ≡ notifying e) ⊎ (f h ≡ notifying e)
with_notifier-notifying cib_fetcher cib_fetcher n f e p = inl p
with_notifier-notifying cib_fetcher mainloop n f e p = inr p
with_notifier-notifying mainloop cib_fetcher n f e p = inr p
with_notifier-notifying mainloop mainloop n f e p = inl p

Answers-cons :
    (s : System) (d e : Text) (since : List CibDocument) (doc : CibDocument)
    → Answers s d since e
    → Answers s d (doc ∷ since) e
Answers-cons s d e since doc (inl p) = inl p
Answers-cons s d e since doc (inr (inl p)) = inr (inl p)
Answers-cons s d e since doc (inr (inr p)) = inr (inr (inr p))

with_notifier-busy :
    (g h : Goroutine) (n : Notifier) (f : Goroutine → Notifier) (v : Text)
    → f h ≡ watching
    → f g ≡ notifying v
    → with_notifier h n f g ≡ notifying v
with_notifier-busy cib_fetcher cib_fetcher n f v p q = cc
with_notifier-busy cib_fetcher mainloop n f v p q = q
with_notifier-busy mainloop cib_fetcher n f v p q = q
with_notifier-busy mainloop mainloop n f v p q = cc

-- A loop is not left while a client waits.
announcing_stays :
    (s t : System) (g : Goroutine) (i : ℕ) (v d : Text)
    → s.notifiers g ≡ notifying v
    → s.clients i ≡ waiting d
    → Step s t
    → t.notifiers g ≡ notifying v
announcing_stays s t g i v d a w (publish h doc e) =
    with_notifier-busy g h (notifying doc.version) s.notifiers v e a
announcing_stays s t g i v d a w (notify h v' d' j e f) = a
announcing_stays s t g i v d a w (finish h v' e quiet) = absurd (quiet i (rw w tt))
announcing_stays s t g i v d a w (begin epoch j e) = a
announcing_stays s t g i v d a w (test now epoch j e) = a
announcing_stays s t g i v d a w (timeout d' j e) = a

-- What a waiting client comes to in a step.
abbrev Moves : System → Text → Client → Type 0
Moves s d c =
    (c ≡ waiting d)
    ⊎ ((e : Text) × (c ≡ answered e)
        × ((e ≡ d) ⊎ ((g : Goroutine) × (s.notifiers g ≡ notifying e))))

waiting-Moves :
    (s t : System) (i : ℕ) (d : Text) → s.clients i ≡ waiting d → Step s t → Moves s d (t.clients i)
unfolding update
waiting-Moves s t i d w (publish g doc e) = inl w
waiting-Moves s t i d w (finish g v e quiet) = inl w
waiting-Moves s t i d w (begin epoch j e) = elim (Bool-cases (nat_beq j i)) [
  | inl p ↦ absurd (ground arith)
  | inr p ↦ rw p (inl w)
]
waiting-Moves s t i d w (test now epoch j e) = elim (Bool-cases (nat_beq j i)) [
  | inl p ↦ absurd (ground arith)
  | inr p ↦ rw p (inl w)
]
waiting-Moves s t i d w (notify g v d' j e f) = elim (Bool-cases (nat_beq j i)) [
  | inl p ↦ rw p (inr (v, refl, inr (g, e)))
  | inr p ↦ rw p (inl w)
]
waiting-Moves s t i d w (timeout d' j e) = elim (Bool-cases (nat_beq j i)) [
  | inl p ↦ rw p (inr (d', refl, inl (ground arith)))
  | inr p ↦ rw p (inl w)
]

-- A step, with the documents published up to it.
abbrev Goes : System → List CibDocument → System → Type 0
Goes s since t =
    (new : List CibDocument) × Since s new t
    × ((d e : Text) → Answers s d since e → Answers s d new e)

Since-Goes :
    (s u t : System) (since : List CibDocument) → Since s since u → Step u t → Goes s since t
Since-Goes s u t since n (publish g doc e) = (
  doc ∷ since,
  record {
    grown = rw n.grown refl;
    announced = λ h v p.
        elim (with_notifier-notifying g h (notifying doc.version) u.notifiers v p) [
          | inl q ↦ inr (inl (notifying-inj q))
          | inr q ↦ elim (n.announced h v q) [ inl o ↦ inl o | inr o ↦ inr (inr o) ]
        ];
  },
  λ d v a. Answers-cons s d v since doc a,
)
Since-Goes s u t since n (notify g v d i e f) =
    (since, record { grown = n.grown; announced = n.announced }, λ _ _ a. a)
Since-Goes s u t since n (finish g v e quiet) = (
  since,
  record {
    grown = n.grown;
    announced = λ h w p. elim (with_notifier-notifying g h watching u.notifiers w p) [
      | inl q ↦ cc
      | inr q ↦ n.announced h w q
    ];
  },
  λ _ _ a. a,
)
Since-Goes s u t since n (begin epoch i e) =
    (since, record { grown = n.grown; announced = n.announced }, λ _ _ a. a)
Since-Goes s u t since n (test now epoch i e) =
    (since, record { grown = n.grown; announced = n.announced }, λ _ _ a. a)
Since-Goes s u t since n (timeout d i e) =
    (since, record { grown = n.grown; announced = n.announced }, λ _ _ a. a)

abbrev pub Traced : Goroutine → Text → Text → ℕ → System → System → Type 0
Traced g v d i s t = (since : List CibDocument) × Since s since t × Served g v d i s since t

Step-Traced :
    (g : Goroutine) (v d : Text) (i : ℕ) (s u t : System)
    → Step u t
    → Traced g v d i s u
    → Traced g v d i s t
Step-Traced g v d i s u t st (since, n, inr (e, a, o)) =
    let (new, n', more) = Since-Goes s u t since n st in
    (new, n', inr (e, answered_stays u t i e a st, more d e o))
Step-Traced g v d i s u t st (since, n, inl (a, w)) =
    let (new, n', more) = Since-Goes s u t since n st in
    elim (waiting-Moves u t i d w st) [
      | inl w' ↦ (new, n', inl (announcing_stays u t g i v d a w st, w'))
      | inr (e, p, inl q) ↦ (new, n', inr (e, p, inl q))
      | inr (e, p, inr (h, q)) ↦ (new, n', inr (e, p, more d e (inr (n.announced h e q))))
    ]

pub Later-Traced :
    (g : Goroutine) (v d : Text) (i : ℕ) (s t : System)
    → s.notifiers g ≡ notifying v
    → s.clients i ≡ waiting d
    → Later s t
    → Traced g v d i s t
Later-Traced g v d i s t a w here =
    ([], record { grown = refl; announced = λ h e p. inl (h, p) }, inl (a, w))
Later-Traced g v d i s t a w (later {t = u} l st) =
    Step-Traced g v d i s u t st (Later-Traced g v d i s u a w l)
