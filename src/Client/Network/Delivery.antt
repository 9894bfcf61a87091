-- ===== src/Client/Network/Delivery.antt =====
-- `processBuffer` of client/ArenaClient/network/GameClinet.cc against the frames that
-- `sendToConnection` of server/game/GameServer.cc makes.
use arena_game.Prelude.{
  ℕ, zero, suc, ◌+◌, ◌-◌, ◌<◌, ◌≡◌, refl, sym, ap, ◌∙◌, true, false, some, List, [], ◌∷◌, ◌++◌,
  append-nil, append_assoc, arith, subst, inl, inr, Bool-cases, ltb, length, take, drop,
  length-append, All, lt→ltb,
}
use arena_game.Wire.Protocol.{header_size, max_frame_size}
use arena_game.Wire.Stream.{Bytes, reader_of}
use arena_game.Net.Buffer.Contents.{take_append}
use arena_game.Server.Frames.Messages.{
  Message, Fits, frame_of, header_bytes, read_header-header_bytes, IsPartial, length-frame,
  take-frame, drop-frame, take_front, drop_front,
}
use arena_game.Server.Frames.Delivery.{stream, length-stream}
use arena_game.Client.Network.{
  GameClient, read_header, header_of, call_handler, process_buffer_loop, process_buffer,
}

-- The same reads as on the server.
same_header : read_header ≡ arena_game.Server.Frames.read_header
unfolding read_header arena_game.Server.Frames.read_header
same_header = refl

header_of-frame :
    (m : Message) (cs : Bytes)
    → Fits m
    → take header_size cs ≡ header_bytes m
    → header_of cs ≡ (header_size + length m.payload, m.msg_type)
unfolding header_of
header_of-frame m cs f e =
    let read : read_header (reader_of (take header_size cs))
        ≡ some ((header_size + length m.payload, m.msg_type), _) =
      ap (λ (z : Bytes). read_header (reader_of z)) e
      ∙ ap (λ f. f (reader_of (header_bytes m))) same_header
      ∙ read_header-header_bytes m f in
    rw (read, header_of) refl

-- What is there of some messages, before the first of them is whole.
abbrev pub IsPending : List Message → Bytes → Type 0
IsPending [] cs = cs ≡ []
IsPending (m ∷ ms) cs = IsPartial m cs

module _ {S : Type 0} where
  wait :
      (fuel : ℕ) (m : Message) (c : GameClient S)
      → Fits m
      → IsPartial m c.recv_buf
      → process_buffer_loop (suc fuel) c ≡ some c
  unfolding process_buffer_loop
  wait fuel m c f part = elim (Bool-cases (ltb (length c.recv_buf) header_size)) [
    | inl t ↦ rw t refl
    | inr t ↦
        let start : take header_size c.recv_buf ≡ header_bytes m =
          sym (take_append header_size c.recv_buf part.rest (ground (arith, t)))
          ∙ ap (take header_size) (sym part.shape)
          ∙ ap (take header_size) (sym (append-nil (frame_of m)))
          ∙ take-frame m [] in
        let header = header_of-frame m c.recv_buf f start in
        let a : ltb (header_size + length m.payload) header_size ≡ false = ground arith in
        let b : ltb max_frame_size (header_size + length m.payload) ≡ false =
          ground (arith, f.payload_fits) in
        let short : ltb (length c.recv_buf) (header_size + length m.payload) ≡ true = lt→ltb _ _ (
          omega (
            arith,
            length-frame m,
            ap length part.shape,
            length-append c.recv_buf part.rest,
            part.missing,
          )) in
        rw t (rw header (rw (a, b, short) refl))
  ]

  -- The client after it has handled a message, with `rest` in its buffer.
  abbrev pub handle : Message → Bytes → GameClient S → GameClient S
  handle m rest c =
      let (socket, outside) =
        call_handler c.handlers m.msg_type (reader_of m.payload) (c.socket, c.outside) in
      record c { socket = socket; outside = outside; recv_buf = rest }

  deliver :
      (fuel : ℕ) (m : Message) (c : GameClient S) (rest : Bytes)
      → Fits m
      → c.recv_buf ≡ frame_of m ++ rest
      → process_buffer_loop (suc fuel) c ≡ process_buffer_loop fuel (handle m rest c)
  unfolding process_buffer_loop
  deliver fuel m c rest f e =
      let whole : length c.recv_buf ≡ header_size + length m.payload + length rest =
        omega (arith, ap length e, length-append (frame_of m) rest, length-frame m) in
      let header = header_of-frame m c.recv_buf f (ap (take header_size) e ∙ take-frame m rest) in
      let body : drop header_size c.recv_buf ≡ m.payload ++ rest =
        ap (drop header_size) e ∙ drop-frame m rest in
      let size : header_size + length m.payload - header_size ≡ length m.payload = omega arith in
      let payload : take (header_size + length m.payload - header_size)
            (drop header_size c.recv_buf)
          ≡ m.payload =
        ap (take _) body ∙ take_front _ m.payload rest (sym size) in
      let left : drop (header_size + length m.payload - header_size) (drop header_size c.recv_buf)
          ≡ rest =
        ap (drop _) body ∙ drop_front _ m.payload rest (sym size) in
      let t : ltb (length c.recv_buf) header_size ≡ false = ground (arith, whole) in
      let a : ltb (header_size + length m.payload) header_size ≡ false = ground arith in
      let b : ltb max_frame_size (header_size + length m.payload) ≡ false =
        ground (arith, f.payload_fits) in
      let d : ltb (length c.recv_buf) (header_size + length m.payload) ≡ false =
        ground (arith, whole) in
      rw t (rw header (rw (a, b, d) (rw (payload, left) refl)))

  -- The client after it has handled some messages in their order, with `rest` in its buffer.
  abbrev pub after : List Message → Bytes → GameClient S → GameClient S
  after [] rest c = record c { recv_buf = rest }
  after (m ∷ ms) rest c = after ms rest (handle m rest c)

  -- What is in the buffer before does not matter.
  pub after-recv_buf :
      (ms : List Message) (rest old : Bytes) (c : GameClient S)
      → after ms rest (record c { recv_buf = old }) ≡ after ms rest c
  after-recv_buf [] rest old c = refl
  after-recv_buf (m ∷ ms) rest old c = refl

  wait_pending :
      (fuel : ℕ) (ms : List Message) (c : GameClient S)
      → All Fits ms
      → IsPending ms c.recv_buf
      → process_buffer_loop (suc fuel) c ≡ some c
  unfolding process_buffer_loop
  wait_pending fuel [] c f e =
      let t : ltb (length c.recv_buf) header_size ≡ true = ground (arith, ap length e) in rw t refl
  wait_pending fuel (m ∷ ms) c (f, fs) part = wait fuel m c f part

  loop-stream :
      (fuel : ℕ) (ms more : List Message) (cs : Bytes) (c : GameClient S)
      → length ms < fuel
      → All Fits ms
      → All Fits more
      → IsPending more cs
      → c.recv_buf ≡ stream ms ++ cs
      → process_buffer_loop fuel c ≡ some (after ms cs c)
  loop-stream zero ms more cs c enough f g p e = absurd (omega arith)
  loop-stream (suc fuel) [] more cs c enough f g p e =
      wait_pending fuel more c g (subst (IsPending more) (sym e) p)
      ∙ ap (λ z. some (record c { recv_buf = z })) e
  loop-stream (suc fuel) (m ∷ ms) more cs c enough (f, fs) g p e =
      let rest : Bytes = stream ms ++ cs in
      deliver fuel m c rest f (e ∙ append_assoc (frame_of m) (stream ms) cs)
      ∙ loop-stream fuel ms more cs (handle m rest c) (omega arith) fs g p refl
      ∙ ap some (after-recv_buf ms cs rest (handle m cs c))

  pub process_buffer-stream :
      (ms more : List Message) (cs : Bytes) (c : GameClient S)
      → All Fits ms
      → All Fits more
      → IsPending more cs
      → c.recv_buf ≡ stream ms ++ cs
      → process_buffer c ≡ some (after ms cs c)
  unfolding process_buffer
  process_buffer-stream ms more cs c f g p e =
      loop-stream (length c.recv_buf + 1) ms more cs c
        (omega (arith, ap length e, length-append (stream ms) cs, length-stream ms)) f g p e
