-- ===== src/Net/Buffer.antt =====
-- server/muduo/Buffer.h: the input buffer of a connection, a vector with a free part in front, a
-- readable part and a writable part.
pub mod Contents
pub mod Queue
pub mod Io
use arena_game.Prelude.{
  ℕ, zero, suc, ◌+◌, ◌-◌, Bool, List, [], ◌∷◌, ◌++◌, ltb, length, take, drop, if◌then◌else◌,
}
use arena_game.Wire.Stream.{Bytes}

pub record Buffer : Type 0 where
  pub buffer : Bytes
  pub reader_index : ℕ
  pub writer_index : ℕ

abbrev pub cheap_prepend : ℕ
cheap_prepend = 8

abbrev pub initial_size : ℕ
initial_size = 1024

abbrev pub zeros : ℕ → Bytes
zeros zero = []
zeros (suc n) = 0 ∷ zeros n

-- The constructor.
unfoldable pub make_buffer : ℕ → Buffer
make_buffer size = record {
  buffer = zeros (cheap_prepend + size);
  reader_index = cheap_prepend;
  writer_index = cheap_prepend;
}

unfoldable pub readable_bytes : Buffer → ℕ
readable_bytes b = b.writer_index - b.reader_index

unfoldable pub writable_bytes : Buffer → ℕ
writable_bytes b = length b.buffer - b.writer_index

unfoldable pub prependable_bytes : Buffer → ℕ
prependable_bytes b = b.reader_index

-- The `len` bytes from `peek()` on.
unfoldable pub peek : ℕ → Buffer → Bytes
peek len b = take len (drop b.reader_index b.buffer)

unfoldable pub retrieve_all : Buffer → Buffer
retrieve_all b = record b { reader_index = cheap_prepend; writer_index = cheap_prepend }

unfoldable pub retrieve : ℕ → Buffer → Buffer
unfolding readable_bytes retrieve_all
retrieve len b =
    if ltb len (readable_bytes b)
    then record b { reader_index = b.reader_index + len }
    else retrieve_all b

unfoldable pub retrieve_as_string : ℕ → Buffer → Buffer × Bytes
unfolding peek retrieve
retrieve_as_string len b = (retrieve len b, peek len b)

unfoldable pub retrieve_all_as_string : Buffer → Buffer × Bytes
unfolding retrieve_as_string readable_bytes
retrieve_all_as_string b = retrieve_as_string (readable_bytes b) b

-- `std::copy(begin, end, buffer + at)`
unfoldable pub copy_to : ℕ → Bytes → Bytes → Bytes
copy_to zero [] buffer = buffer
copy_to zero (x ∷ xs) [] = []
copy_to zero (x ∷ xs) (y ∷ ys) = x ∷ copy_to zero xs ys
copy_to (suc at) source [] = []
copy_to (suc at) source (y ∷ ys) = y ∷ copy_to at source ys

-- `buffer_.resize(size)`, to a size that is not below the old one.
abbrev pub resize : ℕ → Bytes → Bytes
resize size buffer = buffer ++ zeros (size - length buffer)

unfoldable pub make_space : ℕ → Buffer → Buffer
unfolding writable_bytes prependable_bytes readable_bytes copy_to
make_space len b =
    if ltb (writable_bytes b + prependable_bytes b) (len + cheap_prepend)
    then record b { buffer = resize (b.writer_index + len) b.buffer }
    else (record {
      buffer =
          copy_to cheap_prepend (take (readable_bytes b) (drop b.reader_index b.buffer)) b.buffer;
      reader_index = cheap_prepend;
      writer_index = cheap_prepend + readable_bytes b;
    })

unfoldable pub ensure_writable_bytes : ℕ → Buffer → Buffer
unfolding writable_bytes make_space
ensure_writable_bytes len b = if ltb (writable_bytes b) len then make_space len b else b

-- `append`, after `ensureWritableBytes`.
unfoldable pub write_at_end : Bytes → Buffer → Buffer
unfolding copy_to
write_at_end bytes b = record b {
  buffer = copy_to b.writer_index bytes b.buffer;
  writer_index = b.writer_index + length bytes;
}

unfoldable pub append : Bytes → Buffer → Buffer
unfolding ensure_writable_bytes write_at_end
append bytes b = write_at_end bytes (ensure_writable_bytes (length bytes) b)
