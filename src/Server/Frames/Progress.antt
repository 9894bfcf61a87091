-- ===== src/Server/Frames/Progress.antt =====
-- `onMessage` of server/game/GameServer.cc ends on any input.
use arena_game.Prelude.{
  ℕ, zero, suc, ◌+◌, ◌-◌, ◌<◌, ◌≡◌, refl, some, arith, inl, inr, Bool-cases, ltb, ◌||◌,
}
use arena_game.Wire.Protocol.{header_size, max_frame_size}
use arena_game.Net.Buffer.{Buffer, readable_bytes, retrieve}
use arena_game.Server.State.{GameServer, World, emit, shutdown}
use arena_game.Server.Frames.{header_of, on_message_loop, on_message}

-- A frame that is there whole takes its bytes off the input.
readable_bytes-retrieve :
    (n : ℕ) (b : Buffer) → readable_bytes (retrieve n b) ≡ readable_bytes b - n
unfolding readable_bytes retrieve
readable_bytes-retrieve n b = ground arith

on_message_loop_total :
    (fuel : ℕ) (worlds : ℕ → World) (conn_id : ℕ) (buf : Buffer) (s : GameServer)
    → readable_bytes buf < fuel
    → (r : Buffer × GameServer) × (on_message_loop fuel worlds conn_id buf s ≡ some r)
unfolding on_message_loop
on_message_loop_total zero worlds conn_id buf s h = absurd (omega arith)
on_message_loop_total (suc fuel) worlds conn_id buf s h =
    let (total_len, msg_type) = header_of buf in
    let rest = retrieve (total_len - header_size) (retrieve header_size buf) in
    elim (Bool-cases (ltb (readable_bytes buf) header_size)) [
      | inl e ↦ ((buf, s), rw e refl)
      | inr e ↦ elim (Bool-cases (ltb total_len header_size || ltb max_frame_size total_len)) [
        | inl f ↦ ((buf, emit (shutdown conn_id) s), rw (e, f) refl)
        | inr f ↦ elim (Bool-cases (ltb (readable_bytes buf) total_len)) [
          | inl g ↦ ((buf, s), rw (e, f, g) refl)
          | inr g ↦
              rw (e, f, g)
                (on_message_loop_total fuel (λ n. worlds (suc n)) conn_id rest _
                  (ground (
                    arith,
                    e,
                    h,
                    readable_bytes-retrieve (total_len - header_size) (retrieve header_size buf),
                    readable_bytes-retrieve header_size buf,
                  )))
        ]
      ]
    ]

-- `onMessage` ends on any input: with one round more than the input has bytes, the fuel is enough.
pub on_message_total :
    (worlds : ℕ → World) (conn_id : ℕ) (buf : Buffer) (s : GameServer)
    → (r : Buffer × GameServer) × (on_message worlds conn_id buf s ≡ some r)
unfolding on_message
on_message_total worlds conn_id buf s =
    on_message_loop_total (readable_bytes buf + 1) worlds conn_id buf s (omega arith)
