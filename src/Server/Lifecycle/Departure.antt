-- ===== src/Server/Lifecycle/Departure.antt =====
-- A player who leaves, `onConnection` of server/game/GameServer.cc for a connection that closes.
use arena_game.Prelude.{ℕ, ◌≡◌, ap, ◌∙◌, false, none, some, nat_eq, arith}
use arena_game.Prelude.Map.{lookup, lookup-erase}
use arena_game.Game.Session.{PlayerSession, find_connection_by_user_id, find_by_connection}
use arena_game.Game.Session.Lookups.{
  find_by_connection-remove, find_connection_by_user_id-remove, find_connection_by_user_id-eq,
}
use arena_game.Game.MatchQueue as Queue
use arena_game.Game.MatchQueue.{contains, MatchQueue}
use arena_game.Game.MatchQueue.Invariant.{lookup-remove_ticket}
use arena_game.Game.Matchmaking.{cancel}
use arena_game.Server.State.{GameServer, World}
use arena_game.Server.Lifecycle.{leave_room, leave, forget, disconnect}
use arena_game.Server.Lifecycle.Keeping.{leave_room-Keeps}
use arena_game.Server.Invariant.{IsValid}
use arena_game.Server.Invariant.Events.{leave-IsValid}

contains-cancel : (u : ℕ) (q : MatchQueue) → contains u (cancel u q).0 ≡ false
unfolding cancel Queue.cancel contains
contains-cancel u q = ground (arith, lookup-remove_ticket u u q)

-- Where the services are valid and a connection with a session closes, the connection has no
-- session, its user no connection and no ticket in the queue, and the connection is known no
-- longer.
pub disconnect_lem :
    (c : ℕ) (w : World) (s : GameServer) (p : PlayerSession)
    → IsValid s
    → find_by_connection c s.sessions ≡ some p
    → let t : GameServer = disconnect c w s in
      (find_by_connection c t.sessions ≡ none)
      × (find_connection_by_user_id p.user_id t.sessions ≡ 0)
      × (lookup c t.connections ≡ none)
      × (contains p.user_id t.match_queue ≡ false)
unfolding disconnect forget leave
disconnect_lem c w s p v e =
    let waiting : GameServer = record s { match_queue = (cancel p.user_id s.match_queue).0 } in
    let gone : GameServer = leave_room p.room_id p.user_id w waiting in
    let k = leave_room-Keeps p.room_id p.user_id w waiting in
    let valid : IsValid gone = unfold leave in leave-IsValid (some p) w s v in
    let same : find_connection_by_user_id p.user_id gone.sessions ≡ c =
      unfold find_connection_by_user_id in
      (ground
        (arith, k.same_users, find_connection_by_user_id-eq s.sessions v.sessions_valid c p e)) in
    rw e (
      find_by_connection-remove gone.sessions valid.sessions_valid c c ∙ ground arith,
      find_connection_by_user_id-remove gone.sessions valid.sessions_valid c p.user_id
          ∙ rw same (ground arith),
      ground (arith, lookup-erase c c gone.connections),
      ap (contains p.user_id) k.same_queue ∙ contains-cancel p.user_id s.match_queue,
    )
