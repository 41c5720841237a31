-- ===== src/Tests/Announcing.antt =====
-- Two clients wait; one is handed the version announced, the other times out, and the loop is left.
use hawk_apiserver.Prelude.{ℕ, zero, suc, ◌+◌, ◌≡◌, refl, [], arith, nat_beq, false}
use hawk_apiserver.Text.{codes}
use hawk_apiserver.AsyncCib.{empty_cib}
use hawk_apiserver.AsyncCib.Threads.{
  Client, idle, waiting, answered, mainloop, with_notifier, watching, notifying, System, notify,
  timeout, finish, update, IsWaiting,
}
use hawk_apiserver.AsyncCib.Threads.Counting.{QuietFrom, count_waiting}
use hawk_apiserver.AsyncCib.Threads.Tracing.{Later, here, later}
use hawk_apiserver.AsyncCib.Threads.Leaving.{rounds, expiries, joinings, leaves-Drained}

abbrev both_waiting : ℕ → Client
both_waiting zero = waiting (codes "1")
both_waiting (suc zero) = waiting (codes "1")
both_waiting (suc (suc _)) = idle

abbrev announcing : System
announcing = record {
  cib = empty_cib;
  notifiers = λ _. notifying (codes "2");
  clients = both_waiting;
  published = [];
}

abbrev first_answered : System
first_answered = record announcing { clients = update both_waiting 0 (answered (codes "2")) }

abbrev both_answered : System
both_answered = record announcing {
  clients = update first_answered.clients 1 (answered (codes "1"));
}

abbrev left : System
left = record both_answered { notifiers = with_notifier mainloop watching both_answered.notifiers }

both_QuietFrom : QuietFrom 2 both_waiting
both_QuietFrom zero le = absurd (omega arith)
both_QuietFrom (suc zero) le = absurd (omega arith)
both_QuietFrom (suc (suc i)) le = λ h. h

abbrev two_steps : Later announcing both_answered
unfolding update
two_steps =
    later (later here (notify mainloop (codes "2") (codes "1") 0 refl refl))
      (timeout (codes "1") 1 refl)

zero_apart : (i : ℕ) → nat_beq 0 (suc (suc i)) ≡ false
zero_apart i = ground arith

one_apart : (i : ℕ) → nat_beq 1 (suc (suc i)) ≡ false
one_apart i = ground arith

no_one_waits : (i : ℕ) → ¬ IsWaiting (both_answered.clients i)
unfolding update
no_one_waits zero = λ h. h
no_one_waits (suc zero) = λ h. h
no_one_waits (suc (suc i)) = rw (zero_apart i, one_apart i) (λ h. h)

leaves-Drained_example :
    ((i : ℕ) → ¬ IsWaiting (both_answered.clients i))
    × (rounds two_steps + expiries two_steps
        ≡ count_waiting 2 announcing.clients + joinings two_steps)
unfolding two_steps
leaves-Drained_example =
    leaves-Drained 2 mainloop (codes "2") announcing both_answered left two_steps both_QuietFrom
      (tt, (tt, tt)) (finish mainloop (codes "2") refl no_one_waits) refl refl
