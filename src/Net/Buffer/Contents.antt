-- ===== src/Net/Buffer/Contents.antt =====
-- The bytes that a buffer of server/muduo/Buffer.h holds, and what each operation does to them.
use arena_game.Prelude.{
  ℕ, zero, suc, ◌+◌, ◌-◌, ◌≤◌, ◌≡◌, refl, sym, ap, ◌∙◌, List, [], ◌∷◌, ◌++◌, append_assoc, ltb,
  length, take, drop, arith, inl, inr, Bool-cases, length-append, length-take, length-drop,
  take-append_length, drop-append_length,
}
use arena_game.Wire.Stream.{Bytes}
use arena_game.Net.Buffer.{
  Buffer, cheap_prepend, zeros, make_buffer, readable_bytes, writable_bytes, prependable_bytes,
  peek, retrieve, retrieve_all, copy_to, resize, make_space, ensure_writable_bytes, write_at_end,
  append,
}

-- The vector is a part that was read or is kept free, at least `cheap_prepend` bytes, then the
-- bytes that wait, oldest first, then room for more.
pub record Holds (b : Buffer) (content : Bytes) : Type 0 where
  pub front : Bytes
  pub back : Bytes
  pub shape : b.buffer ≡ front ++ (content ++ back)
  pub reader : b.reader_index ≡ length front
  pub writer : b.writer_index ≡ length front + length content
  pub prepends : cheap_prepend ≤ length front

module _ {A : Type 0} where
  pub take_append-drop : (n : ℕ) (xs : List A) → take n xs ++ drop n xs ≡ xs
  take_append-drop zero xs = refl
  take_append-drop (suc n) [] = refl
  take_append-drop (suc n) (x ∷ xs) = ap (◌∷◌ x) (take_append-drop n xs)

  drop_all : (n : ℕ) (xs : List A) → length xs ≤ n → drop n xs ≡ []
  drop_all zero [] h = refl
  drop_all zero (x ∷ xs) h = absurd (omega arith)
  drop_all (suc n) [] h = refl
  drop_all (suc n) (x ∷ xs) h = drop_all n xs (omega arith)

  pub take_append : (n : ℕ) (xs ys : List A) → n ≤ length xs → take n (xs ++ ys) ≡ take n xs
  take_append zero xs ys h = refl
  take_append (suc n) [] ys h = absurd (omega arith)
  take_append (suc n) (x ∷ xs) ys h = ap (◌∷◌ x) (take_append n xs ys (omega arith))

copy_to_lem :
    (at bs back : Bytes)
    → length bs ≤ length back
    → copy_to (length at) bs (at ++ back) ≡ at ++ (bs ++ drop (length bs) back)
unfolding copy_to
copy_to_lem [] [] back h = refl
copy_to_lem [] (x ∷ xs) [] h = absurd (omega arith)
copy_to_lem [] (x ∷ xs) (y ∷ ys) h = ap (◌∷◌ x) (copy_to_lem [] xs ys (omega arith))
copy_to_lem (y ∷ ys) bs back h = ap (◌∷◌ y) (copy_to_lem ys bs back h)

length-zeros : (n : ℕ) → length (zeros n) ≡ n
length-zeros zero = refl
length-zeros (suc n) = ap suc (length-zeros n)

pub readable_bytes-Holds : (b : Buffer) (cs : Bytes) → Holds b cs → readable_bytes b ≡ length cs
unfolding readable_bytes
readable_bytes-Holds b cs h = omega (arith, h.reader, h.writer)

pub length-buffer :
    (b : Buffer) (cs : Bytes) (h : Holds b cs)
    → length b.buffer ≡ length h.front + (length cs + length h.back)
length-buffer b cs h =
    ap length h.shape ∙ omega (arith, length-append h.front (cs ++ h.back), length-append cs h.back)

-- `peek` shows the oldest bytes.
pub peek-Holds :
    (n : ℕ) (b : Buffer) (cs : Bytes) → Holds b cs → n ≤ length cs → peek n b ≡ take n cs
unfolding peek
peek-Holds n b cs h le = rw (h.reader, h.shape, drop-append_length) (take_append n cs h.back le)

retrieve_all-Holds : (b : Buffer) (cs : Bytes) → Holds b cs → Holds (retrieve_all b) []
unfolding retrieve_all
retrieve_all-Holds b cs h =
    let long : cheap_prepend ≤ length b.buffer = omega (arith, length-buffer b cs h, h.prepends) in
    record {
      front = take cheap_prepend b.buffer;
      back = drop cheap_prepend b.buffer;
      shape = sym (take_append-drop cheap_prepend b.buffer);
      reader = sym (length-take cheap_prepend b.buffer long);
      writer = omega (arith, length-take cheap_prepend b.buffer long);
      prepends = omega (arith, length-take cheap_prepend b.buffer long);
    }

retrieve_some-Holds :
    (n : ℕ) (b : Buffer) (cs : Bytes)
    → Holds b cs
    → n ≤ length cs
    → Holds (record b { reader_index = b.reader_index + n }) (drop n cs)
retrieve_some-Holds n b cs h le = record {
  front = h.front ++ take n cs;
  back = h.back;
  shape = h.shape ∙ rw (append_assoc, ← append_assoc (take n cs), take_append-drop) refl;
  reader = omega (arith, h.reader, length-append h.front (take n cs), length-take n cs le);
  writer =
      omega
        (arith, h.writer, length-append h.front (take n cs), length-take n cs le, length-drop n cs);
  prepends = omega (arith, h.prepends, length-append h.front (take n cs));
}

pub retrieve-Holds :
    (n : ℕ) (b : Buffer) (cs : Bytes) → Holds b cs → Holds (retrieve n b) (drop n cs)
unfolding retrieve
retrieve-Holds n b cs h = elim (Bool-cases (ltb n (readable_bytes b))) [
  | inl t ↦ rw t (retrieve_some-Holds n b cs h (ground (arith, t, readable_bytes-Holds b cs h)))
  | inr t ↦
      rw (t, drop_all n cs (ground (arith, t, readable_bytes-Holds b cs h)))
        (retrieve_all-Holds b cs h)
]

pub write_at_end-Holds :
    (bs : Bytes) (b : Buffer) (cs : Bytes)
    → Holds b cs
    → length bs ≤ writable_bytes b
    → Holds (write_at_end bs b) (cs ++ bs)
unfolding write_at_end writable_bytes
write_at_end-Holds bs b cs h le =
    let at : b.writer_index ≡ length (h.front ++ cs) =
      omega (arith, h.writer, length-append h.front cs) in
    let whole : b.buffer ≡ (h.front ++ cs) ++ h.back =
      h.shape ∙ sym (append_assoc h.front cs h.back) in
    record {
      front = h.front;
      back = drop (length bs) h.back;
      shape =
          rw (at, whole)
            (copy_to_lem (h.front ++ cs) bs h.back
                (omega (arith, le, at, length-buffer b cs h, length-append h.front cs))
              ∙ rw (append_assoc, append_assoc) refl);
      reader = h.reader;
      writer = omega (arith, h.writer, length-append cs bs);
      prepends = h.prepends;
    }

-- Room at the back: by a longer vector, or by moving the bytes to the front.
abbrev Fits : ℕ → Bytes → Buffer → Type 0
Fits n cs b = Holds b cs × (n ≤ writable_bytes b)

grown-Fits :
    (n : ℕ) (b : Buffer) (cs : Bytes)
    → Holds b cs
    → Fits n cs (record b { buffer = resize (b.writer_index + n) b.buffer })
unfolding writable_bytes
grown-Fits n b cs h =
    let extra : ℕ = b.writer_index + n - length b.buffer in
    (
      record {
        front = h.front;
        back = h.back ++ zeros extra;
        shape = rw h.shape (rw (append_assoc, append_assoc) refl);
        reader = h.reader;
        writer = h.writer;
        prepends = h.prepends;
      },
      omega (arith, length-append b.buffer (zeros extra), length-zeros extra),
    )

moved-Fits :
    (n : ℕ) (b : Buffer) (cs : Bytes)
    → Holds b cs
    → n + cheap_prepend + length cs ≤ length b.buffer
    → Fits n cs (record {
      buffer =
          copy_to cheap_prepend (take (readable_bytes b) (drop b.reader_index b.buffer)) b.buffer;
      reader_index = cheap_prepend;
      writer_index = cheap_prepend + readable_bytes b;
    })
unfolding writable_bytes
moved-Fits n b cs h room =
    let kept : take (readable_bytes b) (drop b.reader_index b.buffer) ≡ cs =
      rw (readable_bytes-Holds b cs h, h.reader, h.shape, drop-append_length)
        (take-append_length cs h.back) in
    let front : Bytes = take cheap_prepend b.buffer in
    let rest : Bytes = drop cheap_prepend b.buffer in
    let long : length front ≡ cheap_prepend = length-take cheap_prepend b.buffer (omega arith) in
    let moved : copy_to cheap_prepend cs b.buffer ≡ front ++ (cs ++ drop (length cs) rest) =
      ap (λ (z : Bytes). copy_to cheap_prepend cs z) (sym (take_append-drop cheap_prepend b.buffer))
      ∙ ap (λ (k : ℕ). copy_to k cs (front ++ rest)) (sym long)
      ∙ copy_to_lem front cs rest (omega (arith, length-drop cheap_prepend b.buffer)) in
    rw (kept, moved)
      (
        record {
          front = front;
          back = drop (length cs) rest;
          shape = refl;
          reader = sym long;
          writer = omega (arith, long, readable_bytes-Holds b cs h);
          prepends = omega (arith, long);
        },
        omega (
          arith,
          readable_bytes-Holds b cs h,
          length-append front (cs ++ drop (length cs) rest),
          length-append cs (drop (length cs) rest),
          length-drop (length cs) rest,
          length-drop cheap_prepend b.buffer,
          long,
        ),
      )

make_space-Fits : (n : ℕ) (b : Buffer) (cs : Bytes) → Holds b cs → Fits n cs (make_space n b)
unfolding make_space
make_space-Fits n b cs h =
    elim (Bool-cases (ltb (writable_bytes b + prependable_bytes b) (n + cheap_prepend))) [
      | inl t ↦ rw t (grown-Fits n b cs h)
      | inr t ↦ rw t (
          moved-Fits n b cs h (
            unfold writable_bytes prependable_bytes in
            ground (arith, t, h.reader, h.writer, length-buffer b cs h)))
    ]

ensure-Fits : (n : ℕ) (b : Buffer) (cs : Bytes) → Holds b cs → Fits n cs (ensure_writable_bytes n b)
unfolding ensure_writable_bytes
ensure-Fits n b cs h = elim (Bool-cases (ltb (writable_bytes b) n)) [
  | inl t ↦ rw t (make_space-Fits n b cs h)
  | inr t ↦ rw t (h, ground (arith, t))
]

pub append-Holds :
    (bs : Bytes) (b : Buffer) (cs : Bytes) → Holds b cs → Holds (append bs b) (cs ++ bs)
unfolding append
append-Holds bs b cs h =
    let (held, room) = ensure-Fits (length bs) b cs h in
    write_at_end-Holds bs (ensure_writable_bytes (length bs) b) cs held room

zeros_add : (m n : ℕ) → zeros (m + n) ≡ zeros m ++ zeros n
zeros_add zero n = ap zeros (omega arith)
zeros_add (suc m) n =
    let next : suc m + n ≡ suc (m + n) = omega arith in ap zeros next ∙ ap (◌∷◌ 0) (zeros_add m n)

pub make_buffer-Holds : (n : ℕ) → Holds (make_buffer n) []
unfolding make_buffer
make_buffer-Holds n = record {
  front = zeros cheap_prepend;
  back = zeros n;
  shape = zeros_add cheap_prepend n;
  reader = refl;
  writer = refl;
  prepends = omega arith;
}
