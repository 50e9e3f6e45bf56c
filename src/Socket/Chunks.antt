-- ===== src/Socket/Chunks.antt =====
-- The receive loop on a TCP stream that comes in chunks.
use sg_core.Prelude.{
  ℕ, suc, ◌^◌, ◌<◌, ◌≡◌, refl, sym, ap, ◌∙◌, true, str_eq, List, [], ◌∷◌, ◌++◌, append-nil,
  append_assoc, length, arith, length-append, All, map, subst,
}
use sg_core.Socket.Frame.{Bytes, write_tcp_msg}
use sg_core.Socket.Stream.{frame, encode, length-encode_cons}
use sg_core.Socket.Deliver.{Progress, write_loop-Progress}
use sg_core.Socket.Receive.{
  Config, Read, received, Receiver, Status, running, tcp, combine, on_chunk, on_read, receive_data,
}

-- The bytes of all chunks.
abbrev pub concat : List Bytes → Bytes
concat [] = []
concat (c ∷ cs) = c ++ concat cs

abbrev pub chunks : List Bytes → List Read
chunks = map received

abbrev pub Full : Bytes → Type 0
Full m = 0 < length m

-- What a run has made of a stream `ms`, of which the bytes `e` have not come yet. Under `Q`, once
-- all bytes have come, nothing is left.
pub record Delivered (Q : Type 0) (st : Receiver) (e : Bytes) (ms : List Bytes)
    (r : Receiver × Status) : Type 0 where
  pub now : List Bytes
  pub later : List Bytes
  pub split : ms ≡ now ++ later
  pub written : r.0.written ≡ st.written ++ now
  pub left : r.0.remaining_msg ++ e ≡ encode later
  pub status : r.1 ≡ running
  pub complete : e ≡ [] → Q → later ≡ []

combine_lem : (rest chunk : Bytes) → combine rest chunk ≡ rest ++ chunk
unfolding combine
combine_lem [] chunk = refl
combine_lem (b ∷ rest) chunk = refl

write_tcp_msg-Progress :
    (buf e : Bytes) (ms : List Bytes)
    → length (encode ms) < 2 ^ 63
    → buf ++ e ≡ encode ms
    → Progress buf e [] ms (write_tcp_msg buf (length buf))
unfolding write_tcp_msg
write_tcp_msg-Progress buf e ms small stream =
    write_loop-Progress buf e ms [] 0 (suc (length buf)) (omega arith) (omega arith) (omega arith)
      stream

-- One chunk.
on_chunk-Delivered :
    {Q : Type 0} (conf : Config) (chunk e : Bytes) (st : Receiver) (ms : List Bytes)
    → (Q → All Full ms)
    → str_eq conf.type tcp ≡ true
    → length (encode ms) < 2 ^ 63
    → st.remaining_msg ++ chunk ++ e ≡ encode ms
    → Delivered Q st e ms (on_chunk conf chunk st)
unfolding on_chunk
on_chunk-Delivered conf chunk e st ms full is_tcp small stream = rw is_tcp (
    rw (combine_lem st.remaining_msg chunk) (
      rw p.result (record {
        now = p.now;
        later = p.later;
        split = p.split;
        written = refl;
        left = p.left;
        status = refl;
        complete = λ ended q. p.complete ended (full q);
      })))
  where
    p :
        Progress
          (st.remaining_msg ++ chunk)
          e
          []
          ms
          (write_tcp_msg (st.remaining_msg ++ chunk) (length (st.remaining_msg ++ chunk)))
    p = write_tcp_msg-Progress (st.remaining_msg ++ chunk) e ms small stream

encode-append : (xs ys : List Bytes) → encode (xs ++ ys) ≡ encode xs ++ encode ys
unfolding encode
encode-append [] ys = refl
encode-append (x ∷ xs) ys =
    ap (◌++◌ (frame x)) (encode-append xs ys) ∙ sym (append_assoc (frame x) (encode xs) (encode ys))

later_small :
    (now later ms : List Bytes) (n : ℕ)
    → ms ≡ now ++ later
    → length (encode ms) < n
    → length (encode later) < n
later_small now later ms n split small = omega (
  arith,
  ap (λ xs. length (encode xs)) split,
  ap length (encode-append now later),
  length-append (encode now) (encode later),
)

later-Full : (now later : List Bytes) → All Full (now ++ later) → All Full later
later-Full [] later h = h
later-Full (m ∷ now) later h = later-Full now later h.1

-- Two runs, one after the other.
Delivered-trans :
    {Q : Type 0} {e e' : Bytes} {ms : List Bytes} {st : Receiver} {q r : Receiver × Status}
    → (d : Delivered Q st e' ms q) → Delivered Q q.0 e d.later r
    → Delivered Q st e ms r
Delivered-trans {st = st} d d' = record {
  now = d.now ++ d'.now;
  later = d'.later;
  split = d.split ∙ ap (◌++◌ d.now) d'.split ∙ sym (append_assoc d.now d'.now d'.later);
  written = d'.written ∙ ap (λ w. w ++ d'.now) d.written ∙ append_assoc st.written d.now d'.now;
  left = d'.left;
  status = d'.status;
  complete = d'.complete;
}

module _ (conf : Config) (is_tcp : str_eq conf.type tcp ≡ true) {Q : Type 0} (e : Bytes) where
  pub receive_data-Delivered :
      (cs : List Bytes) (st : Receiver) (ms : List Bytes)
      → All Full cs
      → (Q → All Full ms)
      → length (encode ms) < 2 ^ 63
      → st.remaining_msg ++ (concat cs ++ e) ≡ encode ms
      → (cs ≡ [] → e ≡ [] → Q → ms ≡ [])
      → Delivered Q st e ms (receive_data conf (chunks cs) st)
  unfolding receive_data on_read
  receive_data-Delivered [] st ms full solid small stream complete = record {
    now = [];
    later = ms;
    split = refl;
    written = sym (append-nil st.written);
    left = stream;
    status = refl;
    complete = complete refl;
  }
  receive_data-Delivered ([] ∷ cs) st ms full solid small stream complete = absurd (omega arith)
  receive_data-Delivered ((b ∷ bs) ∷ cs) st ms full solid small stream complete =
      rw (d.status, receive_data)
        (Delivered-trans d (
          receive_data-Delivered cs _ d.later full.1
            (λ q. later-Full d.now d.later (subst (All Full) d.split (solid q)))
            (later_small d.now d.later ms _ d.split small) d.left
            (λ none_left ended. d.complete (rw (none_left, ended)))))
    where
      d : Delivered Q st (concat cs ++ e) ms (on_chunk conf (b ∷ bs) st)
      d = on_chunk-Delivered conf (b ∷ bs) (concat cs ++ e) st ms solid is_tcp small (
          append_assoc st.remaining_msg (b ∷ bs) (concat cs ++ e)
          ∙ ap (◌++◌ st.remaining_msg) (sym (append_assoc (b ∷ bs) (concat cs) e))
          ∙ stream)

-- A stream of messages that starts with an empty buffer, in chunks of any sizes: whatever is still
-- to come, what has been handed over is a prefix of the messages in their order, and the bytes kept
-- are those of the rest that have come; once the whole stream has come, and no message is empty,
-- every message has been handed over and nothing is kept.
pub receive_data-stream :
    (conf : Config) (cs : List Bytes) (e : Bytes) (st : Receiver) (m : Bytes) (ms : List Bytes)
    → str_eq conf.type tcp ≡ true
    → All Full cs
    → length (encode (m ∷ ms)) < 2 ^ 63
    → st.remaining_msg ≡ []
    → concat cs ++ e ≡ encode (m ∷ ms)
    → Delivered (All Full (m ∷ ms)) st e (m ∷ ms) (receive_data conf (chunks cs) st)
receive_data-stream conf cs e st m ms is_tcp full small empty stream =
    receive_data-Delivered conf is_tcp e cs st (m ∷ ms) full (λ solid. solid) small
      (rw empty stream)
      (λ no_chunk ended _. absurd (
        omega (
          arith,
          ap length stream,
          ap (λ l. length (concat l)) no_chunk,
          length-append (concat cs) e,
          ap length ended,
          length-encode_cons m ms,
        )))
