-- ===== src/Client/Network/Progress.antt =====
-- `processBuffer` of client/ArenaClient/network/GameClinet.cc on any input.
use arena_game.Prelude.{
  ℕ, zero, suc, ◌+◌, ◌-◌, ◌<◌, ◌≤◌, ◌≡◌, refl, ap, ◌∙◌, Bool, true, false, ◌||◌, Option, some, none,
  ◌++◌, arith, inl, inr, Bool-cases, ltb, length, take, drop, length-append, length-drop,
}
use arena_game.Wire.Protocol.{header_size, max_frame_size}
use arena_game.Wire.Stream.{Bytes, reader_of}
use arena_game.Net.Buffer.Contents.{take_append}
use arena_game.Client.Network.{
  GameClient, closing, connected, connect, read_header, header_of, call_handler,
  process_buffer_loop, process_buffer, on_ready_read,
}

-- The length in a header is one that no frame has.
abbrev pub is_bad_header : ℕ × ℕ → Bool
is_bad_header (total_len, msg_type) = ltb total_len header_size || ltb max_frame_size total_len

module _ {S : Type 0} where
  process_buffer_loop_total :
      (fuel : ℕ) (c : GameClient S)
      → length c.recv_buf < fuel
      → (d : GameClient S) × (process_buffer_loop fuel c ≡ some d)
  unfolding process_buffer_loop
  process_buffer_loop_total zero c h = absurd (omega arith)
  process_buffer_loop_total (suc fuel) c h =
      let (total_len, msg_type) = header_of c.recv_buf in
      let body = drop header_size c.recv_buf in
      let (socket, outside) =
        call_handler c.handlers msg_type (reader_of (take (total_len - header_size) body))
          (c.socket, c.outside) in
      elim (Bool-cases (ltb (length c.recv_buf) header_size)) [
        | inl e ↦ (c, rw e refl)
        | inr e ↦ elim (Bool-cases (ltb total_len header_size || ltb max_frame_size total_len)) [
          | inl f ↦ (record c { socket = record c.socket { state = closing } }, rw (e, f) refl)
          | inr f ↦ elim (Bool-cases (ltb (length c.recv_buf) total_len)) [
            | inl g ↦ (c, rw (e, f, g) refl)
            | inr g ↦
                rw (e, f, g)
                  (process_buffer_loop_total fuel
                    (record c {
                      socket = socket;
                      outside = outside;
                      recv_buf = drop (total_len - header_size) body;
                    })
                    (ground (
                      arith,
                      e,
                      h,
                      length-drop header_size c.recv_buf,
                      length-drop (total_len - header_size) body,
                    )))
          ]
        ]
      ]

  stuck_loop :
      (fuel : ℕ) (c : GameClient S)
      → 0 < fuel
      → header_size ≤ length c.recv_buf
      → is_bad_header (header_of c.recv_buf) ≡ true
      → process_buffer_loop fuel c
        ≡ some (record c { socket = record c.socket { state = closing } })
  unfolding process_buffer_loop
  stuck_loop zero c h there bad = absurd (omega arith)
  stuck_loop (suc fuel) c h there bad =
      let t : ltb (length c.recv_buf) header_size ≡ false = ground (arith, there) in
      rw t (rw bad refl)

  -- What `connect` and then the socket, once it is connected, make of a client.
  abbrev pub reconnected : Bytes → ℕ → GameClient S → GameClient S
  reconnected host port c =
      let d : GameClient S = connect host port c in
      record d { socket = record d.socket { state = connected } }

  -- A client that was sent something, and closes, with the bad header in front still.
  pub record IsStuck (c : GameClient S) (after : Option (GameClient S)) : Type 0 where
    pub end : GameClient S
    pub ends : after ≡ some end
    pub closes : end.socket.state ≡ closing
    pub untouched : end.outside ≡ c.outside
    pub long : header_size ≤ length end.recv_buf
    pub same_header : header_of end.recv_buf ≡ header_of c.recv_buf

  -- Where the buffer starts with a header whose length no frame has, whatever arrives then closes
  -- the socket, reaches no handler, and leaves that header in the buffer.
  on_ready_read-IsStuck_once :
      (arrived : Bytes) (c : GameClient S)
      → header_size ≤ length c.recv_buf
      → is_bad_header (header_of c.recv_buf) ≡ true
      → IsStuck c (on_ready_read arrived c)
  unfolding on_ready_read process_buffer header_of
  on_ready_read-IsStuck_once arrived c there bad =
      let seen : take header_size (c.recv_buf ++ arrived) ≡ take header_size c.recv_buf =
        take_append header_size c.recv_buf arrived there in
      let same : header_of (c.recv_buf ++ arrived) ≡ header_of c.recv_buf =
        ap
          (λ (z : Bytes). elim (read_header (reader_of z)) [
            | none ↦ (0, 0)
            | some (header, _) ↦ header
          ])
          seen in
      let long : header_size ≤ length (c.recv_buf ++ arrived) =
        omega (arith, length-append c.recv_buf arrived, there) in
      record {
        end = record c {
          recv_buf = c.recv_buf ++ arrived;
          socket = record c.socket { state = closing };
        };
        ends =
            stuck_loop (length (c.recv_buf ++ arrived) + 1)
              (record c { recv_buf = c.recv_buf ++ arrived }) (omega arith) long
              (ap is_bad_header same ∙ bad);
        closes = refl;
        untouched = refl;
        long = long;
        same_header = same;
      }

  -- Where the buffer starts with a header whose length no frame has, whatever arrives then closes
  -- the socket, reaches no handler, and leaves that header in the buffer; and after a new
  -- connection whatever arrives does the same.
  pub on_ready_read-IsStuck :
      (arrived more host : Bytes) (port : ℕ) (c : GameClient S)
      → header_size ≤ length c.recv_buf
      → is_bad_header (header_of c.recv_buf) ≡ true
      → (d : GameClient S) × (on_ready_read arrived c ≡ some d)
        × IsStuck c (some d)
        × IsStuck d (on_ready_read more (reconnected host port d))
  unfolding connect
  on_ready_read-IsStuck arrived more host port c there bad =
      let once : IsStuck c (on_ready_read arrived c) =
        on_ready_read-IsStuck_once arrived c there bad in
      let d : GameClient S = once.end in
      let again : IsStuck (reconnected host port d) (on_ready_read more (reconnected host port d)) =
        on_ready_read-IsStuck_once more (reconnected host port d) once.long
          (ap is_bad_header once.same_header ∙ bad) in
      (
        d,
        once.ends,
        record {
          end = d;
          ends = refl;
          closes = once.closes;
          untouched = once.untouched;
          long = once.long;
          same_header = once.same_header;
        },
        record {
          end = again.end;
          ends = again.ends;
          closes = again.closes;
          untouched = again.untouched;
          long = again.long;
          same_header = again.same_header;
        },
      )

  -- `processBuffer` ends on any input: one round more than the buffer has bytes is enough.
  pub process_buffer_total : (c : GameClient S) → (d : GameClient S) × (process_buffer c ≡ some d)
  unfolding process_buffer
  process_buffer_total c = process_buffer_loop_total (length c.recv_buf + 1) c (omega arith)
