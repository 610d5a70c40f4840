-- ===== src/Client/Log.antt =====
-- A broadcast channel that keeps everything, as a concrete value of the interface: what was sent, and
-- how much of it a receiver has seen.
use mcp_server_allenheath_dl.Prelude.{
  ℕ, zero, suc, ◌≡◌, ◌≤◌, refl, ap, length-append, List, [], ◌∷◌, ◌++◌, All, All-append, length,
  arith,
}
use mcp_server_allenheath_dl.Messages.{Message}
use mcp_server_allenheath_dl.Client.{Received, empty, message, Broadcast, IsBroadcast}

abbrev drop : ℕ → List Message → List Message
drop zero ms = ms
drop (suc n) [] = []
drop (suc n) (m ∷ ms) = drop n ms

abbrev next : List Message → ℕ → Received × ℕ
next [] n = (empty, n)
next (m ∷ ms) n = (message m, suc n)

abbrev pub log : Broadcast
log = record {
  Sender = List Message;
  Receiver = ℕ;
  send = λ m sent. sent ++ m ∷ [];
  resubscribe = λ sent. length sent;
  recv = λ sent n. next (drop n sent) n;
}

drop-all : (sent : List Message) → drop (length sent) sent ≡ []
drop-all [] = refl
drop-all (m ∷ sent) = drop-all sent

drop-append :
    (n : ℕ) (sent : List Message) (m : Message)
    → n ≤ length sent
    → drop n (sent ++ m ∷ []) ≡ drop n sent ++ m ∷ []
drop-append zero sent m h = refl
drop-append (suc n) [] m h = absurd (omega arith)
drop-append (suc n) (x ∷ sent) m h = drop-append n sent m (omega arith)

drop-suc :
    (n : ℕ) (sent : List Message) (m : Message) (ms : List Message)
    → drop n sent ≡ m ∷ ms
    → (drop (suc n) sent ≡ ms) × (suc n ≤ length sent)
drop-suc zero [] m ms e = cc
drop-suc zero (x ∷ sent) m ms e = (let same : sent ≡ ms = cc in same, omega arith)
drop-suc (suc n) [] m ms e = cc
drop-suc (suc n) (x ∷ sent) m ms e = let (rest, h) = drop-suc n sent m ms e in (rest, omega arith)

All-drop :
    (P : Message → Type 0) (n : ℕ) (sent : List Message) (m : Message)
    → P m
    → All P (drop n sent)
    → All P (drop n (sent ++ m ∷ []))
All-drop P zero sent m hm h = All-append P sent (m ∷ []) h (hm, tt)
All-drop P (suc zero) [] m hm h = tt
All-drop P (suc (suc n)) [] m hm h = tt
All-drop P (suc n) (x ∷ sent) m hm h = All-drop P n sent m hm h

All-next :
    (P : Message → Type 0) (n : ℕ) (sent left : List Message)
    → drop n sent ≡ left
    → All P left
    → All P (drop (next left n).1 sent)
All-next P n sent [] e h = rw e tt
All-next P n sent (m ∷ ms) e (hm, h) = rw ((drop-suc n sent m ms e).0) h

next_sound :
    (P : Message → Type 0) (n : ℕ) (left : List Message) (m : Message)
    → All P left
    → (next left n).0 ≡ message m
    → P m
next_sound P n [] m h e = cc
next_sound P n (x ∷ left) m (hx, h) e = let same : x ≡ m = cc in rw same at hx

pub log-IsBroadcast : IsBroadcast log
log-IsBroadcast = record {
  unread = λ sent n. drop n sent;
  KeptUp = λ sent n. n ≤ length sent;
  new_unread = drop-all;
  new_kept = λ sent. omega arith;
  send_kept =
      λ m sent n kept room. (omega (arith, length-append sent (m ∷ [])), drop-append n sent m kept);
  recv_empty = λ sent n kept e. ap (λ left. next left n) e;
  recv_next = λ sent n m ms kept e.
      (suc n, ap (λ left. next left n) e, (drop-suc n sent m ms e).0, (drop-suc n sent m ms e).1);
  send_all = λ P m sent n hm h. All-drop P n sent m hm h;
  recv_all = λ P sent n h. All-next P n sent (drop n sent) refl h;
  recv_message = λ P sent n m h e. next_sound P n (drop n sent) m h e;
}

pub from_start-KeptUp : (sent : List Message) → log-IsBroadcast.KeptUp sent 0
unfolding log-IsBroadcast
from_start-KeptUp sent = omega arith

pub from_start_unread : (sent : List Message) → log-IsBroadcast.unread sent 0 ≡ sent
unfolding log-IsBroadcast
from_start_unread sent = refl
