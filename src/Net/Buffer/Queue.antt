-- ===== src/Net/Buffer/Queue.antt =====
-- The buffer of server/muduo/Buffer.h as a queue of bytes.
use arena_game.Prelude.{ℕ, ◌≤◌, ◌≡◌, List, [], ◌∷◌, ◌++◌, length, take, drop}
use arena_game.Wire.Stream.{Bytes}
use arena_game.Net.Buffer.{Buffer, make_buffer, readable_bytes, peek, retrieve, append}
use arena_game.Net.Buffer.Contents.{
  Holds, readable_bytes-Holds, peek-Holds, retrieve-Holds, append-Holds, make_buffer-Holds,
}

-- The operations that change a buffer.
pub data Operation : Type 0 where
  appending : Bytes → Operation
  retrieving : ℕ → Operation

-- A run of operations on a buffer, and on the queue of bytes that it stands for.
abbrev pub run_buffer : List Operation → Buffer → Buffer
run_buffer [] b = b
run_buffer (appending bs ∷ ops) b = run_buffer ops (append bs b)
run_buffer (retrieving n ∷ ops) b = run_buffer ops (retrieve n b)

abbrev pub run_queue : List Operation → Bytes → Bytes
run_queue [] cs = cs
run_queue (appending bs ∷ ops) cs = run_queue ops (cs ++ bs)
run_queue (retrieving n ∷ ops) cs = run_queue ops (drop n cs)

run_buffer-Holds :
    (ops : List Operation) (b : Buffer) (cs : Bytes)
    → Holds b cs
    → Holds (run_buffer ops b) (run_queue ops cs)
run_buffer-Holds [] b cs h = h
run_buffer-Holds (appending bs ∷ ops) b cs h = run_buffer-Holds ops _ _ (append-Holds bs b cs h)
run_buffer-Holds (retrieving n ∷ ops) b cs h = run_buffer-Holds ops _ _ (retrieve-Holds n b cs h)

-- After any run of appends and retrieves a new buffer of any size has as many readable bytes as a
-- plain queue of bytes holds after the same run, and `peek` shows the oldest of them, any number
-- that is there.
pub run_buffer-run_queue :
    (size n : ℕ) (ops : List Operation)
    → n ≤ length (run_queue ops [])
    → (readable_bytes (run_buffer ops (make_buffer size)) ≡ length (run_queue ops []))
      × (peek n (run_buffer ops (make_buffer size)) ≡ take n (run_queue ops []))
run_buffer-run_queue size n ops le =
    let h = run_buffer-Holds ops _ _ (make_buffer-Holds size) in
    (readable_bytes-Holds _ _ h, peek-Holds n _ _ h le)
