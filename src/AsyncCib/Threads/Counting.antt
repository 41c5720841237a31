-- ===== src/AsyncCib/Threads/Counting.antt =====
-- How many clients wait, and how the change of a client changes the count.
use hawk_apiserver.Prelude.{
  ltb, ℕ, zero, suc, ◌+◌, ◌≤◌, ◌<◌, ◌≡◌, ◌⊎◌, refl, sym, inl, inr, true, false, arith, Bool-cases,
  ◌==◌, nat_eq, nat_beq_iff,
}
use hawk_apiserver.Text.{Text}
use hawk_apiserver.AsyncCib.Threads.{Client, idle, read, waiting, answered, update, IsWaiting}

abbrev pub one_if_waiting : Client → ℕ
one_if_waiting (waiting d) = 1
one_if_waiting _ = 0

-- How many of the first clients wait.
abbrev pub count_waiting : ℕ → (ℕ → Client) → ℕ
count_waiting zero f = 0
count_waiting (suc n) f = one_if_waiting (f n) + count_waiting n f

-- No client from a number on waits.
abbrev pub QuietFrom : ℕ → (ℕ → Client) → Type 0
QuietFrom n f = (i : ℕ) → n ≤ i → ¬ IsWaiting (f i)

update_other : (f : ℕ → Client) (i j : ℕ) (c : Client) → (i == j) ≡ false → update f i c j ≡ f j
unfolding update
update_other f i j c e = rw e refl

update_same : (f : ℕ → Client) (i j : ℕ) (c : Client) → (i == j) ≡ true → update f i c j ≡ c
unfolding update
update_same f i j c e = rw e refl

count_waiting-above :
    (n i : ℕ) (f : ℕ → Client) (c : Client)
    → n ≤ i
    → count_waiting n (update f i c) ≡ count_waiting n f
count_waiting-above zero i f c h = refl
count_waiting-above (suc n) i f c h =
    rw (update_other f i n c (ground arith), count_waiting-above n i f c (omega arith)) refl

apart : (k a b x y : ℕ) → a + x ≡ b + y → a + (k + x) ≡ b + (k + y)
apart k a b x y p = omega arith

count_waiting-below :
    (n i : ℕ) (f : ℕ → Client) (c : Client)
    → i < n
    → one_if_waiting (f i) + count_waiting n (update f i c) ≡ one_if_waiting c + count_waiting n f
count_waiting-below zero i f c h = absurd (omega arith)
count_waiting-below (suc n) i f c h = elim (Bool-cases (i == n)) [
  | inl e ↦
      rw
        (
          update_same f i n c e,
          count_waiting-above n i f c (ground arith),
          sym ((nat_beq_iff i n).0 e),
        )
        (omega arith)
  | inr e ↦
      rw (update_other f i n c e)
        (apart (one_if_waiting (f n)) _ _ _ _ (count_waiting-below n i f c (ground arith)))
]

-- A client among the first ones changes, or one that waits neither before nor after.
abbrev pub Local : ℕ → ℕ → Client → Client → Type 0
Local n i before after = (i < n) ⊎ ((¬ IsWaiting before) × (¬ IsWaiting after))

one_if_waiting_none : (c : Client) → ¬ IsWaiting c → one_if_waiting c ≡ 0
one_if_waiting_none idle h = refl
one_if_waiting_none (read now epoch) h = refl
one_if_waiting_none (waiting d) h = absurd (h tt)
one_if_waiting_none (answered v) h = refl

QuietFrom-update :
    (n i : ℕ) (f : ℕ → Client) (b c : Client)
    → Local n i b c
    → QuietFrom n f
    → QuietFrom n (update f i c)
QuietFrom-update n i f b c l q j h = elim (Bool-cases (i == j)) [
  | inr e ↦ rw (update_other f i j c e) (q j h)
  | inl e ↦
      rw (update_same f i j c e)
        (elim l [ inl below ↦ absurd (ground arith) | inr (_, quiet) ↦ quiet ])
]

pub count_waiting-update :
    (n i : ℕ) (f : ℕ → Client) (b c : Client)
    → f i ≡ b
    → Local n i b c
    → QuietFrom n f
    → QuietFrom n (update f i c)
      × (one_if_waiting b + count_waiting n (update f i c) ≡ one_if_waiting c + count_waiting n f)
count_waiting-update n i f b c e l q = (
  QuietFrom-update n i f b c l q,
  elim (Bool-cases (ltb i n)) [
    | inl p ↦ rw e at (count_waiting-below n i f c (ground arith))
    | inr p ↦ elim l [
      | inl below ↦ absurd (ground arith)
      | inr (quiet, quiet') ↦
          rw
            (
              one_if_waiting_none b quiet,
              one_if_waiting_none c quiet',
              count_waiting-above n i f c (ground arith),
            )
            refl
    ]
  ],
)

-- A waiting client is among those that are counted.
pub waiting-below : (n i : ℕ) (f : ℕ → Client) (d : Text) → QuietFrom n f → f i ≡ waiting d → i < n
waiting-below n i f d q w = elim (Bool-cases (ltb i n)) [
  | inl e ↦ ground arith
  | inr e ↦ absurd (q i (ground arith) (rw w tt))
]

pub count_waiting_none :
    (n : ℕ) (f : ℕ → Client) → ((i : ℕ) → ¬ IsWaiting (f i)) → count_waiting n f ≡ 0
count_waiting_none zero f h = refl
count_waiting_none (suc n) f h = rw (one_if_waiting_none (f n) (h n), count_waiting_none n f h) refl
