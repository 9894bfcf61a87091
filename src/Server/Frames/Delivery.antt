-- ===== src/Server/Frames/Delivery.antt =====
-- `onMessage` of server/game/GameServer.cc against the frames that a sender makes.
use arena_game.Prelude.{
  ℕ, zero, suc, ◌+◌, ◌-◌, ◌<◌, ◌≤◌, ◌≡◌, refl, sym, ap, ◌∙◌, some, List, [], ◌∷◌, ◌++◌, append-nil,
  append_assoc, true, false, arith, subst, inl, inr, Bool-cases, ltb, length, take, length-append,
  All, lt→ltb,
}
use arena_game.Wire.Protocol.{header_size, max_frame_size}
use arena_game.Wire.Stream.{Bytes, reader_of}
use arena_game.Net.Buffer.{Buffer, readable_bytes, peek, retrieve}
use arena_game.Net.Buffer.Contents.{
  Holds, readable_bytes-Holds, peek-Holds, retrieve-Holds, take_append,
}
use arena_game.Server.State.{GameServer, World}
use arena_game.Server.Frames.{dispatch, on_message_loop, on_message}
use arena_game.Server.Frames.Messages.{
  Message, Fits, frame_of, header_bytes, header_of-Holds, IsPartial, length-frame, take-frame,
  drop-frame, take_front, drop_front,
}

-- The clocks and saves of the rounds after the first.
abbrev pub later : (ℕ → World) → ℕ → World
later worlds n = worlds (suc n)

module _ (fuel : ℕ) (worlds : ℕ → World) (conn_id : ℕ) (m : Message) (f : Fits m) (buf : Buffer)
    (s : GameServer) where
  -- Nothing happens before the frame is whole.
  wait :
      (cs : Bytes)
      → Holds buf cs
      → IsPartial m cs
      → on_message_loop (suc fuel) worlds conn_id buf s ≡ some (buf, s)
  unfolding on_message_loop
  wait cs h part = elim (Bool-cases (ltb (readable_bytes buf) header_size)) [
    | inl t ↦ rw t refl
    | inr t ↦
        let le : header_size ≤ length cs = ground (arith, t, readable_bytes-Holds buf cs h) in
        let start : take header_size cs ≡ header_bytes m =
          sym (take_append header_size cs part.rest le)
          ∙ ap (take header_size) (sym part.shape)
          ∙ ap (take header_size) (sym (append-nil (frame_of m)))
          ∙ take-frame m [] in
        let header = header_of-Holds m buf cs f h le start in
        let a : ltb (header_size + length m.payload) header_size ≡ false = ground arith in
        let b : ltb max_frame_size (header_size + length m.payload) ≡ false =
          ground (arith, f.payload_fits) in
        let short : ltb (readable_bytes buf) (header_size + length m.payload) ≡ true = lt→ltb _ _ (
          omega (
            arith,
            readable_bytes-Holds buf cs h,
            length-frame m,
            ap length part.shape,
            length-append cs part.rest,
            part.missing,
          )) in
        rw t (rw header (rw (a, b, short) refl))
  ]

  -- The buffer after the header, and what is left after the frame.
  abbrev body_of : Buffer
  body_of = retrieve header_size buf

  abbrev rest_of : Buffer
  rest_of = retrieve (header_size + length m.payload - header_size) body_of

  body_of-Holds : (cs : Bytes) → Holds buf (frame_of m ++ cs) → Holds body_of (m.payload ++ cs)
  body_of-Holds cs h = subst (Holds body_of) (drop-frame m cs) (retrieve-Holds header_size buf _ h)

  payload_length : header_size + length m.payload - header_size ≡ length m.payload
  payload_length = omega arith

  rest_of-Holds : (cs : Bytes) → Holds buf (frame_of m ++ cs) → Holds rest_of cs
  rest_of-Holds cs h =
      subst (Holds rest_of) (drop_front _ m.payload cs (sym payload_length)) (
        retrieve-Holds (header_size + length m.payload - header_size) body_of _
          (body_of-Holds cs h))

  payload_there :
      (cs : Bytes)
      → Holds buf (frame_of m ++ cs)
      → peek (header_size + length m.payload - header_size) body_of ≡ m.payload
  payload_there cs h =
      peek-Holds _ body_of _ (body_of-Holds cs h) (omega (arith, length-append m.payload cs))
      ∙ take_front _ m.payload cs (sym payload_length)

  -- A frame that is there whole is handled with its type and its payload.
  deliver :
      (cs : Bytes)
      → Holds buf (frame_of m ++ cs)
      → on_message_loop (suc fuel) worlds conn_id buf s
        ≡ on_message_loop fuel
            (later worlds)
            conn_id
            rest_of
            (dispatch m.msg_type conn_id (reader_of m.payload) (worlds 0) s)
  unfolding on_message_loop
  deliver cs h =
      let whole : readable_bytes buf ≡ header_size + length m.payload + length cs =
        omega
          (arith, readable_bytes-Holds buf _ h, length-append (frame_of m) cs, length-frame m) in
      let header =
        header_of-Holds m buf _ f h (omega (arith, length-append (frame_of m) cs, length-frame m))
          (take-frame m cs) in
      let t : ltb (readable_bytes buf) header_size ≡ false = ground (arith, whole) in
      let a : ltb (header_size + length m.payload) header_size ≡ false = ground arith in
      let b : ltb max_frame_size (header_size + length m.payload) ≡ false =
        ground (arith, f.payload_fits) in
      let c : ltb (readable_bytes buf) (header_size + length m.payload) ≡ false =
        ground (arith, whole) in
      rw t (rw header (rw (a, b, c) (rw (payload_there cs h) refl)))

-- The bytes of some messages, one after the other.
abbrev pub stream : List Message → Bytes
stream [] = []
stream (m ∷ ms) = frame_of m ++ stream ms

-- The server after it has handled some messages of a connection in their order.
abbrev pub handle_all : (ℕ → World) → ℕ → List Message → GameServer → GameServer
handle_all worlds conn_id [] s = s
handle_all worlds conn_id (m ∷ ms) s =
    handle_all (later worlds) conn_id ms
      (dispatch m.msg_type conn_id (reader_of m.payload) (worlds 0) s)

loop-stream :
    (fuel : ℕ) (worlds : ℕ → World) (conn_id : ℕ) (ms : List Message) (last : Message) (cs : Bytes)
    (buf : Buffer) (s : GameServer)
    → length ms < fuel
    → All Fits ms
    → Fits last
    → IsPartial last cs
    → Holds buf (stream ms ++ cs)
    → (left : Buffer) × (on_message_loop fuel worlds conn_id buf s
        ≡ some (left, handle_all worlds conn_id ms s))
      × Holds left cs
loop-stream zero worlds conn_id ms last cs buf s enough fs f part h = absurd (omega arith)
loop-stream (suc fuel) worlds conn_id [] last cs buf s enough fs f part h =
    (buf, wait fuel worlds conn_id last f buf s cs h part, h)
loop-stream (suc fuel) worlds conn_id (m ∷ ms) last cs buf s enough (g, gs) f part h =
    let h' : Holds buf (frame_of m ++ (stream ms ++ cs)) =
      subst (Holds buf) (append_assoc (frame_of m) (stream ms) cs) h in
    let (left, e, held) =
      loop-stream fuel (later worlds) conn_id ms last cs (rest_of fuel worlds conn_id m g buf s)
        (dispatch m.msg_type conn_id (reader_of m.payload) (worlds 0) s) (omega arith) gs f part
        (rest_of-Holds fuel worlds conn_id m g buf s (stream ms ++ cs) h') in
    (left, deliver fuel worlds conn_id m g buf s (stream ms ++ cs) h' ∙ e, held)

pub length-stream : (ms : List Message) → length ms ≤ length (stream ms)
length-stream [] = omega arith
length-stream (m ∷ ms) =
    omega (arith, length-stream ms, length-append (frame_of m) (stream ms), length-frame m)

-- Where the input holds the frames of some messages and then the start of one more, each of a size
-- that a frame may have and with a 16-bit type, `onMessage` handles exactly these messages, in
-- their order and with their payloads, and leaves the start for the next input.
pub on_message-stream :
    (worlds : ℕ → World) (conn_id : ℕ) (ms : List Message) (last : Message) (cs : Bytes)
    (buf : Buffer) (s : GameServer)
    → All Fits ms
    → Fits last
    → IsPartial last cs
    → Holds buf (stream ms ++ cs)
    → (left : Buffer) × (on_message worlds conn_id buf s
        ≡ some (left, handle_all worlds conn_id ms s))
      × Holds left cs
unfolding on_message
on_message-stream worlds conn_id ms last cs buf s fs f part h =
    loop-stream (readable_bytes buf + 1) worlds conn_id ms last cs buf s
      (omega (arith, readable_bytes-Holds buf _ h, length-append (stream ms) cs, length-stream ms))
      fs f part h
