-- ===== src/Tests/Data.antt =====
-- The players and the states that the tests share.
use arena_game.Prelude.{◌^◌, ◌≡◌, refl, none, true, false, [], ◌∷◌, arith}
use arena_game.Prelude.Map.{lookup}
use arena_game.Prelude.Text.{text}
use arena_game.Wire.Messages.{warrior, archer}
use arena_game.Game.Account.{AccountRepository, SaveOutcome}
use arena_game.Game.Session.{PlayerSession, SessionService, empty_session_service, bind}
use arena_game.Game.Session.Invariant as Sessions
use arena_game.Game.Room.{Room, empty_room_service}
use arena_game.Game.Room.Invariant as Rooms
use arena_game.Game.MatchQueue.{MatchTicket, MatchQueue, empty_match_queue, join}
use arena_game.Game.MatchQueue.Invariant as Queue
use arena_game.Game.Battle.{BattleService, start}
use arena_game.Game.Battle.Invariant as Battles
use arena_game.Server.State.{GameServer, World}
use arena_game.Server.Invariant.{IsValid}

abbrev pub lucky : SaveOutcome
lucky = record { opens = true; writes = true; renames = true }

-- The new file cannot be moved over the old one.
abbrev pub unlucky : SaveOutcome
unlucky = record { opens = true; writes = true; renames = false }

abbrev pub no_accounts : AccountRepository
no_accounts = record {
  next_user_id = 1;
  accounts = [];
  disk = record { accounts_file = none; temp_file = none };
}

abbrev pub alice : PlayerSession
alice = record { user_id = 1; user_name = text "alice"; elo = 1000; room_id = 0 }

abbrev pub bob : PlayerSession
bob = record { user_id = 2; user_name = text "bob"; elo = 1050; room_id = 0 }

-- Alice on connection 7, and Bob on connection 9.
abbrev pub logins : SessionService
logins = (bind 9 bob (bind 7 alice empty_session_service).0).0

pub logins-IsValid : Sessions.IsValid logins
logins-IsValid =
    Sessions.bind-IsValid 9 bob _
      (Sessions.bind-IsValid 7 alice empty_session_service Sessions.empty-IsValid)

abbrev pub alice_ticket : MatchTicket
alice_ticket = record { user_id = 1; elo = 1000; joined_at = 5 }

abbrev pub bob_ticket : MatchTicket
bob_ticket = record { user_id = 2; elo = 1050; joined_at = 6 }

abbrev pub queue : MatchQueue
queue = (join bob_ticket (join alice_ticket empty_match_queue).0).0

pub queue-IsValid : Queue.IsValid queue
queue-IsValid =
    Queue.join-IsValid bob_ticket _
      (Queue.join-IsValid alice_ticket empty_match_queue Queue.empty-IsValid)

pub empty_room_service-IsValid : Rooms.IsValid empty_room_service
unfolding lookup
empty_room_service-IsValid = record { started = omega arith; proper = λ i room e. cc }

abbrev pub duel : Room
duel = record {
  room_id = 1;
  first_user_id = 1;
  second_user_id = 2;
  first_hero = warrior;
  second_hero = archer;
}

pub no_battles-IsValid : Battles.IsValid []
unfolding lookup
no_battles-IsValid i b e = cc

-- The duel has begun.
abbrev pub battles : BattleService
battles = (start duel []).0

pub battles-IsValid : Battles.IsValid battles
battles-IsValid = Battles.start-IsValid duel [] no_battles-IsValid

pub duel_starts : (start duel []).1 ≡ true
unfolding start lookup
duel_starts = refl

-- Both are logged in and wait for a match.
abbrev pub server : GameServer
server = record {
  connections = (9, 9) ∷ ((7, 7) ∷ []);
  accounts = no_accounts;
  sessions = logins;
  rooms = empty_room_service;
  match_queue = queue;
  battles = battles;
  effects = [];
}

pub server-IsValid : IsValid server
server-IsValid = record {
  sessions_valid = logins-IsValid;
  rooms_valid = empty_room_service-IsValid;
  queue_valid = queue-IsValid;
  battles_valid = battles-IsValid;
}

abbrev pub world : World
world = record { now = 10 ^ 10; save_outcome = lucky }
