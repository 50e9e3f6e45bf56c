-- ===== src/Socket/Buffer.antt =====
-- The receive buffer, and the loop on datagrams.
use sg_core.Prelude.{
  ℕ, zero, suc, ◌-◌, ◌≤◌, ◌≡◌, refl, ap, ◌∙◌, sym, Bool, false, String, str_eq, List, [], ◌∷◌, ◌++◌,
  append_assoc, append-nil, length, arith, All,
}
use sg_core.Socket.Frame.{Bytes}
use sg_core.Socket.Chunks.{Full, chunks}
use sg_core.Socket.Receive.{
  Config, Receiver, running, tcp, udp, unix, get_max_buffer_size, next_buff_size, on_chunk, on_read,
  receive_data, max_buffer_size, max_buffer_size_unix,
}

-- The sizes of the buffer over reads that fill it.
unfoldable pub grow : Config → ℕ → ℕ → ℕ
grow conf zero size = size
grow conf (suc k) size = grow conf k (next_buff_size conf size size)

next_buff_size-bounds :
    (conf : Config) (size n : ℕ)
    → size ≤ get_max_buffer_size conf
    → (size ≤ next_buff_size conf size n) × (next_buff_size conf size n ≤ get_max_buffer_size conf)
unfolding next_buff_size
next_buff_size-bounds conf size n h = ground arith

-- Another datagram.
on_chunk-datagram :
    (conf : Config) (chunk : Bytes) (st : Receiver)
    → str_eq conf.type tcp ≡ false
    → st.remaining_msg ≡ []
    → ((on_chunk conf chunk st).1 ≡ running)
      × ((on_chunk conf chunk st).0.written ≡ st.written ++ chunk ∷ [])
      × ((on_chunk conf chunk st).0.remaining_msg ≡ [])
      × ((on_chunk conf chunk st).0.current_buff_size
          ≡ next_buff_size conf st.current_buff_size (length chunk))
unfolding on_chunk
on_chunk-datagram conf chunk st h e = rw h (rw e (refl, refl, refl, refl))

module _ (conf : Config) (not_tcp : str_eq conf.type tcp ≡ false) where
  -- On a datagram socket each read that is not empty is one message: the loop hands over exactly the
  -- datagrams, in order, keeps no bytes back, never shrinks its buffer and keeps it within the
  -- maximum of its socket type.
  pub receive_data-datagrams :
      (cs : List Bytes) (st : Receiver)
      → All Full cs
      → st.remaining_msg ≡ []
      → st.current_buff_size ≤ get_max_buffer_size conf
      → ((receive_data conf (chunks cs) st).1 ≡ running)
        × ((receive_data conf (chunks cs) st).0.written ≡ st.written ++ cs)
        × ((receive_data conf (chunks cs) st).0.remaining_msg ≡ [])
        × (st.current_buff_size ≤ (receive_data conf (chunks cs) st).0.current_buff_size)
        × ((receive_data conf (chunks cs) st).0.current_buff_size ≤ get_max_buffer_size conf)
  unfolding receive_data on_read
  receive_data-datagrams [] st full empty fits =
      (refl, sym (append-nil st.written), empty, omega arith, fits)
  receive_data-datagrams ([] ∷ cs) st full empty fits = absurd (omega arith)
  receive_data-datagrams ((b ∷ bs) ∷ cs) st full empty fits =
      let d = on_chunk-datagram conf (b ∷ bs) st not_tcp empty in
      let g = next_buff_size-bounds conf st.current_buff_size (length (b ∷ bs)) fits in
      let r =
        receive_data-datagrams cs (on_chunk conf (b ∷ bs) st).0 full.1 d.2
          (omega (arith, g.1, d.3)) in
      rw (d.0, receive_data)
        (
          r.0,
          r.1 ∙ ap (λ w. w ++ cs) d.1 ∙ append_assoc st.written ((b ∷ bs) ∷ []) cs,
          r.2,
          omega (arith, r.3, g.0, d.3),
          r.4,
        )

abbrev pub of_type : String → Bool → Config
of_type type dump_messages = record { type = type; dump_messages = dump_messages }

grow_stays :
    (d : Bool) (k : ℕ) → grow (of_type unix d) k max_buffer_size_unix ≡ max_buffer_size_unix
unfolding grow next_buff_size
grow_stays d zero = refl
grow_stays d (suc k) = grow_stays d k

grow-udp : (d : Bool) (k : ℕ) → grow (of_type udp d) k max_buffer_size ≡ max_buffer_size
unfolding grow next_buff_size
grow-udp d zero = refl
grow-udp d (suc k) = grow-udp d k

grow_eight :
    (d : Bool) (k : ℕ)
    → grow (of_type unix d) (suc (suc (suc (suc (suc (suc (suc (suc k)))))))) max_buffer_size
      ≡ max_buffer_size_unix
unfolding grow next_buff_size
grow_eight d k = grow_stays d k

-- Eight or more reads in a row that fill the buffer bring a Unix socket from the initial size to its
-- maximum exactly; a UDP socket stays at the initial size.
pub grow_max :
    (d : Bool) (k : ℕ)
    → 8 ≤ k
    → (grow (of_type unix d) k max_buffer_size ≡ max_buffer_size_unix)
      × (grow (of_type udp d) k max_buffer_size ≡ max_buffer_size)
grow_max d k h =
    (ap (λ j. grow (of_type unix d) j max_buffer_size) eight ∙ grow_eight d (k - 8), grow-udp d k)
  where
    eight : k ≡ suc (suc (suc (suc (suc (suc (suc (suc (k - 8))))))))
    eight = omega arith
