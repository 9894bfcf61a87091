-- ===== src/Net/Buffer/Io.antt =====
-- server/muduo/Buffer.cc: `readFd` and `writeFd`, with the results of the system calls as arguments.
use arena_game.Prelude.{
  ℕ, zero, suc, ◌+◌, ◌-◌, ◌≤◌, ◌≡◌, refl, ap, ◌∙◌, Option, none, some, [], ◌∷◌, ◌++◌, append_assoc,
  leb, length, take, drop, arith, inl, inr, Bool-cases, length-take, if◌then◌else◌, subst,
}
use arena_game.Wire.Stream.{Bytes}
use arena_game.Net.Buffer.{Buffer, writable_bytes, peek, copy_to, write_at_end, append}
use arena_game.Net.Buffer.Contents.{Holds, write_at_end-Holds, append-Holds, length-buffer}

-- `::readv` of bytes that have arrived, into the writable part and the rest into `extrabuf`; `none`
-- where it fails. The result is `n`, the number of bytes, or `none` for -1.
unfoldable pub read_fd : Option Bytes → Buffer → Buffer × Option ℕ
unfolding writable_bytes copy_to append
read_fd none b = (b, none)
read_fd (some arrived) b =
    let filled = copy_to b.writer_index (take (writable_bytes b) arrived) b.buffer in
    if leb (length arrived) (writable_bytes b)
    then (
      record b { buffer = filled; writer_index = b.writer_index + length arrived },
      some (length arrived),
    )
    else (
      append (drop (writable_bytes b) arrived)
          (record b { buffer = filled; writer_index = length filled }),
      some (length arrived),
    )

-- `::write` of the readable bytes, of which the system takes the first `n`: what goes out, and `n`.
unfoldable pub write_fd : Option ℕ → Buffer → Bytes × Option ℕ
unfolding peek
write_fd none b = ([], none)
write_fd (some n) b = (peek n b, some n)

length-copy_to : (at : ℕ) (bs buffer : Bytes) → length (copy_to at bs buffer) ≡ length buffer
unfolding copy_to
length-copy_to zero [] buffer = refl
length-copy_to zero (x ∷ xs) [] = refl
length-copy_to zero (x ∷ xs) (y ∷ ys) = ap suc (length-copy_to zero xs ys)
length-copy_to (suc at) bs [] = refl
length-copy_to (suc at) bs (y ∷ ys) = ap suc (length-copy_to at bs ys)

take_all : (n : ℕ) (xs : Bytes) → length xs ≤ n → take n xs ≡ xs
take_all zero [] h = refl
take_all zero (x ∷ xs) h = absurd (omega arith)
take_all (suc n) [] h = refl
take_all (suc n) (x ∷ xs) h = ap (◌∷◌ x) (take_all n xs (omega arith))

pub take-drop : (n : ℕ) (xs : Bytes) → take n xs ++ drop n xs ≡ xs
take-drop zero xs = refl
take-drop (suc n) [] = refl
take-drop (suc n) (x ∷ xs) = ap (◌∷◌ x) (take-drop n xs)

filled-Holds :
    (first : Bytes) (at : ℕ) (b : Buffer) (cs : Bytes)
    → Holds b cs
    → length first ≤ writable_bytes b
    → b.writer_index + length first ≡ at
    → Holds
        (record b { buffer = copy_to b.writer_index first b.buffer; writer_index = at })
        (cs ++ first)
unfolding write_at_end
filled-Holds first at b cs h room e =
    subst
      (λ z.
        Holds (record b { buffer = copy_to b.writer_index first b.buffer; writer_index = z })
          (cs ++ first))
      e (write_at_end-Holds first b cs h room)

-- What is read stands behind what the buffer holds, however much of it went to the extra buffer.
pub read_fd-Holds :
    (arrived : Bytes) (b : Buffer) (cs : Bytes)
    → Holds b cs
    → Holds (read_fd (some arrived) b).0 (cs ++ arrived)
unfolding read_fd
read_fd-Holds arrived b cs h = elim (Bool-cases (leb (length arrived) (writable_bytes b))) [
  | inl e ↦
      let all : take (writable_bytes b) arrived ≡ arrived =
        take_all (writable_bytes b) arrived (ground (arith, e)) in
      rw (e, all)
        (filled-Holds arrived (b.writer_index + length arrived) b cs h (ground (arith, e)) refl)
  | inr e ↦
      let first : Bytes = take (writable_bytes b) arrived in
      let long : length first ≡ writable_bytes b =
        length-take (writable_bytes b) arrived (ground (arith, e)) in
      let room : writable_bytes b ≡ length b.buffer - b.writer_index =
        unfold writable_bytes in refl in
      let at : b.writer_index + length first ≡ length (copy_to b.writer_index first b.buffer) =
        omega (
          arith,
          long,
          room,
          h.writer,
          length-buffer b cs h,
          length-copy_to b.writer_index first b.buffer,
        ) in
      let held = filled-Holds first _ b cs h (omega (arith, long)) at in
      let all : (cs ++ first) ++ drop (writable_bytes b) arrived ≡ cs ++ arrived =
        append_assoc cs first _ ∙ ap (λ z. cs ++ z) (take-drop (writable_bytes b) arrived) in
      rw e (subst (Holds _) all (append-Holds (drop (writable_bytes b) arrived) _ _ held))
]
