-- ===== src/Http/Laws.antt =====
-- What the writes of net/http's response keep and change.
use hawk_apiserver.Prelude.{ℕ, ◌≡◌, refl, ◌++◌, Option, none, some}
use hawk_apiserver.Text.{Text}
use hawk_apiserver.Http.Fields.{Header}
use hawk_apiserver.Http.Writer.{Response, send, send_header, send_body_on}

pub send-some :
    {x : ℕ × Header} (c : ℕ) (o : Option (ℕ × Header)) (h : Header)
    → o ≡ some x
    → send c o h ≡ some x
send-some c o h e = rw e

-- A header that went out stays, on a write with an error too.
pub send_body_on-sent :
    {x : ℕ × Header} (o : Option Text) (t : Text) (r : Response)
    → r.sent ≡ some x
    → (send_body_on o t r).0.sent ≡ some x
unfolding send_body_on send_header
send_body_on-sent none t r e = send-some 200 r.sent r.header e
send_body_on-sent (some _) t r e = send-some 200 r.sent r.header e

pub send_body_on-body :
    (o : Option Text) (t : Text) (r : Response)
    → o ≡ none
    → ((send_body_on o t r).0.body ≡ r.body ++ t) × ((send_body_on o t r).0.header ≡ r.header)
unfolding send_body_on send_header
send_body_on-body none t r e = (refl, refl)
send_body_on-body (some _) t r e = cc

pub send_body_on-alive :
    (o : Option Text) (t : Text) (r : Response)
    → o ≡ none
    → ((send_body_on o t r).1.error ≡ none) × ((send_body_on o t r).0.broken ≡ r.broken)
unfolding send_body_on send_header
send_body_on-alive none t r e = (refl, refl)
send_body_on-alive (some _) t r e = cc
