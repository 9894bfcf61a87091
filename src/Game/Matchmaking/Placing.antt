-- ===== src/Game/Matchmaking/Placing.antt =====
-- What a tick of server/game/MatchmakingService.cc leaves: the rooms of the pairs that it announces.
use arena_game.Prelude.{
  ℕ, zero, suc, ◌+◌, ◌<◌, ◌≤◌, ◌^◌, ◌≡◌, ◌≢◌, Option, some, arith, inl, inr, Option-cases,
  Bool-cases, subst, ◌==◌, nat_eq, ap, List, [], ◌∷◌, ◌++◌, All, not, ◌||◌,
}
use arena_game.Prelude.Map.{lookup-emplace}
use arena_game.Game.Room.{RoomService, Room, create, find, new_room}
use arena_game.Game.Room.Invariant as Rooms
use arena_game.Game.Session.Invariant as Sessions
use arena_game.Game.MatchQueue.{MatchQueue, MatchPair, try_match, size}
use arena_game.Game.MatchQueue.Invariant as Queue
use arena_game.Game.MatchQueue.Matching.{try_match-IsMatch, size-try_match, try_match-none}
use arena_game.Game.Matchmaking.{
  Matchmaking, MatchFoundEvent, place_pair, enter_room, tick_loop, tick, session_of, is_free,
}
use arena_game.Game.Matchmaking.Ticks.{place_pair-queue}

-- The queue, the rooms and the sessions are in order.
pub record IsValid (m : Matchmaking) : Type 0 where
  pub queue_valid : Queue.IsValid m.match_queue
  pub rooms_valid : Rooms.IsValid m.rooms
  pub sessions_valid : Sessions.IsValid m.sessions

-- The pair of an event has its room, and no hero yet.
abbrev pub IsPlaced : RoomService → MatchFoundEvent → Type 0
IsPlaced rooms e =
    find e.room_id rooms ≡ some (new_room e.room_id e.pair.first.user_id e.pair.second.user_id)

create-places :
    (a b : ℕ) (s : RoomService)
    → Rooms.IsValid s
    → (create a b s).1 ≢ 0
    → find (create a b s).1 (create a b s).0 ≡ some (new_room (create a b s).1 a b)
unfolding create find
create-places a b s v h = ground (
  arith,
  h,
  lookup-emplace s.next_room_id s.next_room_id (new_room s.next_room_id a b) s.rooms
      (Rooms.next-free s v),
)

create-keeps :
    (a b i : ℕ) (s : RoomService) (room : Room)
    → Rooms.IsValid s
    → find i s ≡ some room
    → find i (create a b s).0 ≡ some room
unfolding create find
create-keeps a b i s room v e = ground (
  arith,
  e,
  v.proper i room e,
  lookup-emplace s.next_room_id i (new_room s.next_room_id a b) s.rooms (Rooms.next-free s v),
)

create-next :
    (a b : ℕ) (s : RoomService)
    → s.next_room_id + 1 < 2 ^ 64
    → (create a b s).0.next_room_id ≤ s.next_room_id + 1
unfolding create
create-next a b s h = ground arith

module _ {ℓ κ} {A : Type ℓ} (P : A → Type κ) where
  All-append : (xs ys : List A) → All P xs → All P ys → All P (xs ++ ys)
  All-append [] ys p q = q
  All-append (x ∷ xs) ys (p, ps) q = (p, All-append xs ys ps q)

  All-mono {κ'} : (Q : A → Type κ') → ((x : A) → P x → Q x) → (xs : List A) → All P xs → All Q xs
  All-mono Q f [] p = tt
  All-mono Q f (x ∷ xs) (p, ps) = (f x p, All-mono Q f xs ps)

-- A pair's step of `tick`: what it keeps, and where it puts the pair.
record Step (m : Matchmaking) (r : Matchmaking × List MatchFoundEvent) : Type 0 where
  valid : IsValid r.0
  counted : r.0.rooms.next_room_id ≤ m.rooms.next_room_id + 1
  kept : (i : ℕ) (room : Room) → find i m.rooms ≡ some room → find i r.0.rooms ≡ some room
  placed : All (IsPlaced r.0.rooms) r.1

refused-Step : (m : Matchmaking) → IsValid m → Step m (m, [])
refused-Step m v = record { valid = v; counted = omega arith; kept = λ i room e. e; placed = tt }

enter_room-Step :
    (pair : MatchPair) (m : Matchmaking)
    → IsValid m
    → m.rooms.next_room_id + 1 < 2 ^ 64
    → Step m (
        enter_room pair m.match_queue m.sessions
          (create pair.first.user_id pair.second.user_id m.rooms))
unfolding enter_room
enter_room-Step pair m v small =
    let (a, b) : ℕ × ℕ = (pair.first.user_id, pair.second.user_id) in
    let rooms_valid = Rooms.create-IsValid a b m.rooms small v.rooms_valid in
    elim (Bool-cases ((create a b m.rooms).1 == 0)) [
      | inl t ↦ rw t (record {
        valid = record {
          queue_valid = v.queue_valid;
          rooms_valid = rooms_valid;
          sessions_valid = v.sessions_valid;
        };
        counted = create-next a b m.rooms small;
        kept = λ i room e. create-keeps a b i m.rooms room v.rooms_valid e;
        placed = tt;
      })
      | inr t ↦ rw t (record {
        valid = record {
          queue_valid = v.queue_valid;
          rooms_valid = rooms_valid;
          sessions_valid =
              Sessions.mark_in_room-IsValid b _ _
                (Sessions.mark_in_room-IsValid a _ _ v.sessions_valid);
        };
        counted = create-next a b m.rooms small;
        kept = λ i room e. create-keeps a b i m.rooms room v.rooms_valid e;
        placed = (create-places a b m.rooms v.rooms_valid (ground (arith, t)), tt);
      })
    ]

place_pair-Step :
    (pair : MatchPair) (m : Matchmaking)
    → IsValid m
    → m.rooms.next_room_id + 1 < 2 ^ 64
    → Step m (place_pair pair m)
unfolding place_pair
place_pair-Step pair m v small =
    elim (Bool-cases (
      not (is_free (session_of pair.first.user_id m.sessions))
      || not (is_free (session_of pair.second.user_id m.sessions)))) [
        | inl t ↦ rw t (refused-Step m v)
        | inr t ↦ rw t (enter_room-Step pair m v small)
      ]

-- What holds of the result of the rounds.
abbrev IsDone : Matchmaking × List MatchFoundEvent → Type 0
IsDone (m, events) = IsValid m × All (IsPlaced m.rooms) events

done :
    (x r : Matchmaking × List MatchFoundEvent)
    → IsDone x
    → Path (Option (Matchmaking × List MatchFoundEvent)) (some x) (some r)
    → IsDone r
done x r d e = let same : x ≡ r = cc in subst IsDone same d

tick_loop-IsDone :
    (fuel now : ℕ) (m : Matchmaking) (events : List MatchFoundEvent)
    (r : Matchmaking × List MatchFoundEvent)
    → IsValid m
    → m.rooms.next_room_id + size m.match_queue < 2 ^ 64
    → All (IsPlaced m.rooms) events
    → tick_loop fuel now m events ≡ some r
    → IsDone r
unfolding tick_loop
tick_loop-IsDone zero now m events r v small p e = cc
tick_loop-IsDone (suc fuel) now m events r v small p e =
    elim (Option-cases (try_match now m.match_queue).1) [
      | inl g ↦
          let left : (try_match now m.match_queue).0 ≡ m.match_queue =
            try_match-none m.match_queue now v.queue_valid g in
          done (m, events) r (v, p) (rw (g, tick_loop, left) at e)
      | inr (pair, g) ↦
          let q : MatchQueue = (try_match now m.match_queue).0 in
          let m' : Matchmaking = record m { match_queue = q } in
          let shrunk = size-try_match m.match_queue now pair v.queue_valid g in
          let v' : IsValid m' = record {
            queue_valid = (try_match-IsMatch m.match_queue now v.queue_valid pair g).1;
            rooms_valid = v.rooms_valid;
            sessions_valid = v.sessions_valid;
          } in
          let s = place_pair-Step pair m' v' (omega (arith, shrunk, small)) in
          let same = place_pair-queue pair m' in
          tick_loop-IsDone fuel now (place_pair pair m').0 (events ++ (place_pair pair m').1) r
            s.valid (omega (arith, ap size same, shrunk, s.counted, small))
            (All-append _ events _ (All-mono _ _ (λ x h. s.kept x.room_id _ h) events p) s.placed)
            (rw (g, tick_loop) at e)
    ]

-- Where the queue, the rooms and the sessions are valid and the room numbers fit 64 bits even with
-- a room for every waiting ticket, they still are valid after a tick, and every pair that it
-- announces has a room, without heroes, under the number of the event.
pub tick-IsPlaced :
    (now : ℕ) (m : Matchmaking) (r : Matchmaking × List MatchFoundEvent)
    → IsValid m
    → m.rooms.next_room_id + size m.match_queue < 2 ^ 64
    → tick now m ≡ some r
    → IsValid r.0 × All (IsPlaced r.0.rooms) r.1
unfolding tick
tick-IsPlaced now m r v small e = tick_loop-IsDone (size m.match_queue + 1) now m [] r v small tt e
