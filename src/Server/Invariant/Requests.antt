-- ===== src/Server/Invariant/Requests.antt =====
-- `handleLogin`, `handleRegister`, `handleMatchJoin` and `handleMatchCancel` of
-- server/game/GameServer.cc keep the services in order.
use arena_game.Prelude.{
  ℕ, Bool, true, false, not, Option, none, some, if◌then◌else◌, inl, inr, Option-cases, ◌==◌,
  nat_eq,
}
use arena_game.Wire.Stream.{Reader}
use arena_game.Wire.Messages.{LoginRequest, MatchJoinRequest, MatchCancelRequest}
use arena_game.Game.Account.{Account, AccountResult, AccountRepository, verify}
use arena_game.Game.Session.{SessionService, bind, find_by_connection}
use arena_game.Game.Session.Invariant as Sessions
use arena_game.Game.MatchQueue as Q
use arena_game.Game.MatchQueue.{MatchQueue, MatchTicket, contains}
use arena_game.Game.MatchQueue.Invariant as Queue
use arena_game.Game.Matchmaking.{join, cancel}
use arena_game.Server.State.{GameServer, World}
use arena_game.Server.Login.{
  login, answer_bind, new_session, answer_verify, handle_login, handle_register,
}
use arena_game.Server.Queueing.{
  answer_join, join_session, match_join, handle_match_join, answer_cancel, cancel_session,
  match_cancel, handle_match_cancel, ticket_of,
}
use arena_game.Server.Invariant.{IsValid}
use arena_game.Server.Invariant.Parts.{
  with_sessions, with_accounts, with_queue, send_encoded-IsValid, send_or_shutdown-IsValid,
}

answer_bind-IsValid :
    (a : Account) (r : SessionService × Bool)
    → Sessions.IsValid r.0
    → Sessions.IsValid (answer_bind a r).0
unfolding answer_bind
answer_bind-IsValid a (t, true) v = v
answer_bind-IsValid a (t, false) v = v

answer_verify-IsValid :
    (c : ℕ) (t : SessionService) (r : AccountResult × Option Account)
    → Sessions.IsValid t
    → Sessions.IsValid (answer_verify c t r).0
unfolding answer_verify
answer_verify-IsValid c t (AccountResult.ok, some account) v =
    answer_bind-IsValid account (bind c (new_session account) t)
      (Sessions.bind-IsValid c (new_session account) t v)
answer_verify-IsValid c t (AccountResult.ok, none) v = v
answer_verify-IsValid c t (AccountResult.duplicate_user, account) v = v
answer_verify-IsValid c t (AccountResult.wrong_credentials, account) v = v
answer_verify-IsValid c t (AccountResult.invalid_input, account) v = v
answer_verify-IsValid c t (AccountResult.storage_error, account) v = v

login-IsValid :
    (c : ℕ) (request : Option LoginRequest) (accounts : AccountRepository) (t : SessionService)
    → Sessions.IsValid t
    → Sessions.IsValid (login c request accounts t).0
unfolding login
login-IsValid c none accounts t v = v
login-IsValid c (some request) accounts t v = elim (Option-cases (find_by_connection c t)) [
  | inl e ↦
      rw (e, login)
        (answer_verify-IsValid c t (verify request.user_name request.password accounts) v)
  | inr (p, e) ↦ rw (e, login) v
]

pub handle_login-IsValid :
    (c : ℕ) (r : Reader) (s : GameServer) → IsValid s → IsValid (handle_login c r s)
unfolding handle_login
handle_login-IsValid c r s v =
    send_or_shutdown-IsValid _ _ _ _
      (with_sessions _ s (login-IsValid c _ s.accounts s.sessions v.sessions_valid) v)

pub handle_register-IsValid :
    (c : ℕ) (r : Reader) (w : World) (s : GameServer)
    → IsValid s
    → IsValid (handle_register c r w s)
unfolding handle_register
handle_register-IsValid c r w s v = send_or_shutdown-IsValid _ _ _ _ (with_accounts _ s v)

answer_join-IsValid : (r : MatchQueue × Bool) → Queue.IsValid r.0 → Queue.IsValid (answer_join r).0
unfolding answer_join
answer_join-IsValid (q, true) v = v
answer_join-IsValid (q, false) v = v

queue-if :
    {A : Type 0} (b : Bool) (x y : MatchQueue × A)
    → Queue.IsValid x.0
    → Queue.IsValid y.0
    → Queue.IsValid (if b then x else y).0
queue-if true x y v w = v
queue-if false x y v w = w

match_join-IsValid :
    (c : ℕ) (r : Option MatchJoinRequest) (now : ℕ) (t : SessionService) (q : MatchQueue)
    → Queue.IsValid q
    → Queue.IsValid (match_join c r now t q).0
unfolding match_join join_session join
match_join-IsValid c none now t q v = v
match_join-IsValid c (some r) now t q v = elim (Option-cases (find_by_connection c t)) [
  | inl e ↦ rw (e, match_join) v
  | inr (p, e) ↦
      rw (e, match_join)
        (queue-if (not (p.room_id == 0)) _ _ v (
          answer_join-IsValid (Q.join (ticket_of p now) q)
            (Queue.join-IsValid (ticket_of p now) q v)))
]

pub handle_match_join-IsValid :
    (c : ℕ) (r : Reader) (w : World) (s : GameServer)
    → IsValid s
    → IsValid (handle_match_join c r w s)
unfolding handle_match_join
handle_match_join-IsValid c r w s v =
    send_encoded-IsValid _ _ _ _
      (with_queue _ s (match_join-IsValid c _ w.now s.sessions s.match_queue v.queue_valid) v)

answer_cancel-IsValid :
    (r : MatchQueue × Bool) → Queue.IsValid r.0 → Queue.IsValid (answer_cancel r).0
unfolding answer_cancel
answer_cancel-IsValid (q, true) v = v
answer_cancel-IsValid (q, false) v = v

pub cancel-IsValid : (u : ℕ) (q : MatchQueue) → Queue.IsValid q → Queue.IsValid (cancel u q).0
unfolding cancel Q.cancel
cancel-IsValid u q v = queue-if (not (contains u q)) _ _ v (Queue.remove_ticket-IsValid u q v)

match_cancel-IsValid :
    (c : ℕ) (r : Option MatchCancelRequest) (t : SessionService) (q : MatchQueue)
    → Queue.IsValid q
    → Queue.IsValid (match_cancel c r t q).0
unfolding match_cancel cancel_session
match_cancel-IsValid c none t q v = v
match_cancel-IsValid c (some r) t q v = elim (Option-cases (find_by_connection c t)) [
  | inl e ↦ rw (e, match_cancel) v
  | inr (p, e) ↦
      rw (e, match_cancel)
        (queue-if (not (p.room_id == 0)) _ _ v
          (answer_cancel-IsValid (cancel p.user_id q) (cancel-IsValid p.user_id q v)))
]

pub handle_match_cancel-IsValid :
    (c : ℕ) (r : Reader) (s : GameServer) → IsValid s → IsValid (handle_match_cancel c r s)
unfolding handle_match_cancel
handle_match_cancel-IsValid c r s v =
    send_encoded-IsValid _ _ _ _
      (with_queue _ s (match_cancel-IsValid c _ s.sessions s.match_queue v.queue_valid) v)
