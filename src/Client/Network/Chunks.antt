-- ===== src/Client/Network/Chunks.antt =====
-- The input of client/ArenaClient/network/GameClinet.cc in arbitrary pieces.
use arena_game.Prelude.{
  ℕ, zero, suc, ◌≤◌, ◌≡◌, refl, sym, ap, ◌∙◌, some, List, [], ◌∷◌, ◌++◌, append-nil, append_assoc,
  arith, subst, inl, inr, Bool-cases, ltb, length, take, drop, length-append, length-drop,
  take-append_length, drop-append_length, All,
}
use arena_game.Wire.Stream.{Bytes}
use arena_game.Net.Buffer.Contents.{take_append, take_append-drop}
use arena_game.Server.Frames.Messages.{Message, Fits, frame_of}
use arena_game.Server.Frames.Delivery.{stream}
use arena_game.Client.Network.{GameClient, process_buffer, on_ready_read, receive_all}
use arena_game.Client.Network.Delivery.{
  IsPending, handle, after, after-recv_buf, process_buffer-stream,
}

-- Where two lists are equal, so are their starts and their ends.
drop_append : (n : ℕ) (xs ys : Bytes) → n ≤ length xs → drop n (xs ++ ys) ≡ drop n xs ++ ys
drop_append zero xs ys h = refl
drop_append (suc n) [] ys h = absurd (omega (arith, h))
drop_append (suc n) (x ∷ xs) ys h = drop_append n xs ys (omega (arith, h))

start_lem :
    (xs ys fs gs : Bytes)
    → xs ++ ys ≡ fs ++ gs
    → length xs ≤ length fs
    → (fs ≡ xs ++ drop (length xs) fs) × (ys ≡ drop (length xs) fs ++ gs)
start_lem xs ys fs gs e h =
    let front : xs ≡ take (length xs) fs =
      sym (take-append_length xs ys) ∙ ap (take (length xs)) e ∙ take_append (length xs) fs gs h in
    (
      sym (take_append-drop (length xs) fs) ∙ ap (λ z. z ++ drop (length xs) fs) (sym front),
      sym (drop-append_length xs ys) ∙ ap (drop (length xs)) e ∙ drop_append (length xs) fs gs h,
    )

-- How some bytes of a stream stand in it: whole messages, and the start of the next.
record Cut (ms : List Message) (xs ys : Bytes) : Type 0 where
  whole : List Message
  others : List Message
  start : Bytes
  parts : ms ≡ whole ++ others
  before : xs ≡ stream whole ++ start
  behind : start ++ ys ≡ stream others
  pending : IsPending others start

stream-Cut : (ms : List Message) (xs ys : Bytes) → xs ++ ys ≡ stream ms → Cut ms xs ys
stream-Cut [] [] ys e = record {
  whole = [];
  others = [];
  start = [];
  parts = refl;
  before = refl;
  behind = e;
  pending = refl;
}
stream-Cut [] (x ∷ xs) ys e = absurd cc
stream-Cut (m ∷ ms) xs ys e = elim (Bool-cases (ltb (length xs) (length (frame_of m)))) [
  | inl h ↦
      let (shape, rest) = start_lem xs ys (frame_of m) (stream ms) e (ground (arith, h)) in
      record {
        whole = [];
        others = m ∷ ms;
        start = xs;
        parts = refl;
        before = refl;
        behind = e;
        pending = record {
          rest = drop (length xs) (frame_of m);
          shape = shape;
          missing = ground (arith, h, length-drop (length xs) (frame_of m));
        };
      }
  | inr h ↦
      let (shape, rest) = start_lem (frame_of m) (stream ms) xs ys (sym e) (ground (arith, h)) in
      let c = stream-Cut ms (drop (length (frame_of m)) xs) ys (sym rest) in
      record {
        whole = m ∷ c.whole;
        others = c.others;
        start = c.start;
        parts = ap (◌∷◌ m) c.parts;
        before =
            shape
            ∙ ap (λ z. frame_of m ++ z) c.before
            ∙ sym (append_assoc (frame_of m) (stream c.whole) c.start);
        behind = c.behind;
        pending = c.pending;
      }
]

-- The arrivals put together.
abbrev pub concat : List Bytes → Bytes
concat [] = []
concat (b ∷ bs) = b ++ concat bs

All-append : (ms ns : List Message) → All Fits (ms ++ ns) → All Fits ms × All Fits ns
All-append [] ns f = (tt, f)
All-append (m ∷ ms) ns (f, fs) = let (g, h) = All-append ms ns fs in ((f, g), h)

module _ {S : Type 0} where
  after-append :
      (ms ns : List Message) (cs rest : Bytes) (c : GameClient S)
      → after ns rest (after ms cs c) ≡ after (ms ++ ns) rest c
  after-append [] ns cs rest c = after-recv_buf ns rest cs c
  after-append (m ∷ ms) ns cs rest c =
      after-append ms ns cs rest (handle m cs c)
      ∙ after-recv_buf (ms ++ ns) rest cs (handle m rest c)

  recv_buf-after :
      (ms : List Message) (rest : Bytes) (c : GameClient S) → (after ms rest c).recv_buf ≡ rest
  recv_buf-after [] rest c = refl
  recv_buf-after (m ∷ ms) rest c = recv_buf-after ms rest (handle m rest c)

  all_there :
      (ms : List Message) (c : GameClient S)
      → IsPending ms c.recv_buf
      → c.recv_buf ≡ stream ms
      → c ≡ after ms [] c
  all_there [] c p e = ap (λ z. record c { recv_buf = z }) p
  all_there (m ∷ ms) c p e = absurd (
      omega (
        arith,
        ap length e,
        ap length p.shape,
        length-append c.recv_buf p.rest,
        p.missing,
        length-append (frame_of m) (stream ms),
      ))

  -- Where frames arrive that `sendToConnection` has made, each of a size that a frame may have and
  -- with a 16-bit type, in whatever pieces, the client calls the handlers of exactly these
  -- messages, in their order and with their payloads, and its buffer is empty at the end.
  pub receive_all-stream :
      (chunks : List Bytes) (ms : List Message) (c : GameClient S)
      → All Fits ms
      → IsPending ms c.recv_buf
      → c.recv_buf ++ concat chunks ≡ stream ms
      → receive_all chunks c ≡ some (after ms [] c)
  unfolding on_ready_read
  receive_all-stream [] ms c f p e = ap some (all_there ms c p (sym (append-nil c.recv_buf) ∙ e))
  receive_all-stream (b ∷ bs) ms c f p e =
      let k =
        stream-Cut ms (c.recv_buf ++ b) (concat bs) (append_assoc c.recv_buf b (concat bs) ∙ e) in
      let (g, h) = All-append k.whole k.others (subst (All Fits) k.parts f) in
      let c' : GameClient S = record c { recv_buf = c.recv_buf ++ b } in
      let d : GameClient S = after k.whole k.start c' in
      let now : process_buffer c' ≡ some d =
        process_buffer-stream k.whole k.others k.start c' g h k.pending k.before in
      let at : d.recv_buf ≡ k.start = recv_buf-after k.whole k.start c' in
      rw (now, receive_all)
        (receive_all-stream bs k.others d h (subst (IsPending k.others) (sym at) k.pending)
            (ap (λ z. z ++ concat bs) at ∙ k.behind)
          ∙ ap some (
              after-append k.whole k.others k.start [] c'
              ∙ ap (λ z. after z [] c') (sym k.parts)
              ∙ after-recv_buf ms [] (c.recv_buf ++ b) c))
