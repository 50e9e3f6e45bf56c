-- ===== src/Socket/Stream.antt =====
-- What a sender writes, and what WriteTCPMsg makes of any part of it.
use sg_core.Prelude.{
  ℕ, zero, suc, ◌+◌, ◌*◌, ◌/◌, ◌%◌, ◌^◌, ◌≤◌, ◌<◌, ◌≡◌, refl, sym, ap, ◌∙◌, some, List, [], ◌∷◌,
  ◌++◌, append_assoc, length, take, drop, arith, lt→ltb, le→leb, pos, length-append, length-drop,
  drop-drop, take-append_left, take-append_length, drop-append_length, drop-append_left,
}
use sg_core.Socket.Frame.{Bytes, msg_length_size, le_value, read_int64, slice}

-- `k` little-endian bytes of a number.
unfoldable pub le_bytes : ℕ → ℕ → Bytes
le_bytes zero n = []
le_bytes (suc k) n = (n % 256) ∷ le_bytes k (n / 256)

length-le_bytes : (k n : ℕ) → length (le_bytes k n) ≡ k
unfolding le_bytes
length-le_bytes zero n = refl
length-le_bytes (suc k) n = ap suc (length-le_bytes k (n / 256))

-- How many numbers `k` bytes hold.
abbrev capacity : ℕ → ℕ
capacity zero = 1
capacity (suc k) = 256 * capacity k

le_value-le_bytes : (k n : ℕ) → n < capacity k → le_value (le_bytes k n) ≡ n
unfolding le_bytes le_value
le_value-le_bytes zero n h = omega arith
le_value-le_bytes (suc k) n h = omega (arith, le_value-le_bytes k (n / 256) (omega arith))

-- A message behind its length.
unfoldable pub frame : Bytes → Bytes
frame m = le_bytes msg_length_size (length m) ++ m

-- The stream of a list of messages.
unfoldable pub encode : List Bytes → Bytes
encode [] = []
encode (m ∷ ms) = frame m ++ encode ms

length-frame : (m : Bytes) → length (frame m) ≡ msg_length_size + length m
unfolding frame
length-frame m =
    length-append (le_bytes msg_length_size (length m)) m
    ∙ ap (λ k. k + length m) (length-le_bytes msg_length_size (length m))

pub length-encode_cons :
    (m : Bytes) (ms : List Bytes)
    → length (encode (m ∷ ms)) ≡ msg_length_size + length m + length (encode ms)
unfolding encode
length-encode_cons m ms = omega (arith, length-append (frame m) (encode ms), length-frame m)

frame-append : (m r : Bytes) → frame m ++ r ≡ le_bytes msg_length_size (length m) ++ (m ++ r)
unfolding frame
frame-append m r = append_assoc (le_bytes msg_length_size (length m)) m r

-- The two parts of a list that begins with eight known bytes.
module _ (head t : Bytes) (size : length head ≡ msg_length_size) where
  take_head : take msg_length_size (head ++ t) ≡ head
  take_head = ap (λ k. take k (head ++ t)) (sym size) ∙ take-append_length head t

  drop_head : drop msg_length_size (head ++ t) ≡ t
  drop_head = ap (λ k. drop k (head ++ t)) (sym size) ∙ drop-append_length head t

take-frame :
    (m r : Bytes) → take msg_length_size (frame m ++ r) ≡ le_bytes msg_length_size (length m)
take-frame m r =
    ap (take msg_length_size) (frame-append m r)
    ∙ take_head _ (m ++ r) (length-le_bytes msg_length_size (length m))

drop_header : (m r : Bytes) → drop msg_length_size (frame m ++ r) ≡ m ++ r
drop_header m r =
    ap (drop msg_length_size) (frame-append m r)
    ∙ drop_head _ (m ++ r) (length-le_bytes msg_length_size (length m))

drop-frame : (m r : Bytes) → drop (msg_length_size + length m) (frame m ++ r) ≡ r
drop-frame m r =
    ap (λ k. drop k (frame m ++ r)) (sym (length-frame m)) ∙ drop-append_length (frame m) r

-- The bytes at a position, with those still to come, begin with the frame of `m`.
module _ (buf e m r : Bytes) (position : ℕ) (stream : drop position buf ++ e ≡ frame m ++ r)
    (room : position + msg_length_size ≤ length buf) where
  header : take msg_length_size (drop position buf) ≡ le_bytes msg_length_size (length m)
  header =
      sym (
        take-append_left msg_length_size (drop position buf) e
          (omega (arith, length-drop position buf)))
      ∙ ap (take msg_length_size) stream
      ∙ take-frame m r

  pub read_int64-frame : length m < 2 ^ 63 → read_int64 buf position ≡ some (pos (length m))
  unfolding read_int64
  read_int64-frame small =
      rw
        (le→leb msg_length_size (length (drop position buf))
          (omega (arith, length-drop position buf)))
        (rw header (
          rw (le_value-le_bytes msg_length_size (length m) (omega arith))
            (rw (lt→ltb (length m) (2 ^ 63) small))))

  body : drop (position + msg_length_size) buf ++ e ≡ m ++ r
  body =
      ap (λ b. b ++ e) (sym (drop-drop msg_length_size position buf))
      ∙ sym (
          drop-append_left msg_length_size (drop position buf) e
            (omega (arith, length-drop position buf)))
      ∙ ap (drop msg_length_size) stream
      ∙ drop_header m r

  module _ (whole : position + msg_length_size + length m ≤ length buf) where
    pub slice-frame :
        slice buf (position + msg_length_size) (position + msg_length_size + length m) ≡ m
    slice-frame =
        ap (λ k. take k (drop (position + msg_length_size) buf)) {y = length m} (omega arith)
        ∙ sym (
            take-append_left (length m) (drop (position + msg_length_size) buf) e
              (omega (arith, length-drop (position + msg_length_size) buf)))
        ∙ ap (take (length m)) body
        ∙ take-append_length m r

    pub rest-frame : drop (position + msg_length_size + length m) buf ++ e ≡ r
    rest-frame =
        ap (λ b. b ++ e) (sym (drop-drop (length m) (position + msg_length_size) buf))
        ∙ sym (
            drop-append_left (length m) (drop (position + msg_length_size) buf) e
              (omega (arith, length-drop (position + msg_length_size) buf)))
        ∙ ap (drop (length m)) body
        ∙ drop-append_length m r
