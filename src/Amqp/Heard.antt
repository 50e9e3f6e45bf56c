-- ===== src/Amqp/Heard.antt =====
-- What Run of plugins/transport/amqp1/main.go hands on of the messages that it receives, and the connection
-- that it makes first.

use sg_core.Prelude.{
  ℕ, ◌≡◌, refl, sym, ap, ◌∙◌, arith, Bool, true, false, String, List, [], ◌∷◌, ◌++◌ as ◌+++◌,
  append-nil, append_assoc, Option, none, some, inl, inr, contains_text, if◌then◌else◌, Bool-cases,
  Option-cases, ◌&&◌,
}
use sg_core.Data.{Value, Values, null, bool, num, str, arr, obj, nil, cons}
use sg_core.Amqp.Receiver.{
  Amqp, Message, Received, message, receive_error, run, rate, handle_message, dump_message,
  dump_text, send_value, send_items, send_message,
}

-- The library's client: dialing, a session and a receiver of a channel with its credit.
pub record Client : Type 0 where
  pub dial : String → Option String
  pub new_session : Option String
  pub new_receiver : String → ℕ → Option String

abbrev is_fine : Option String → Bool
is_fine none = true
is_fine (some err) = false

abbrev pub is_connected : Client → Amqp → Bool
is_connected client at =
    is_fine (client.dial at.conf.uri)
    && is_fine client.new_session
    && is_fine (client.new_receiver at.conf.channel at.conf.link_credit)

dump_message-written :
    (write : String → Option String) (writes : (text : String) → write text ≡ none) (text : String)
    (at : Amqp)
    → ((dump_message write text at).1 ≡ none)
      × ((dump_message write text at).0.written ≡ at.written)
unfolding dump_message dump_text
dump_message-written write writes text at = ground (arith, writes text, writes "\n")

module _ {F : Type 0} where
  -- Run, with the error that it logs if there is no connection.
  unfoldable pub connect_and_run :
      Client → (String → Option String) → List (Received F) → Amqp → (Amqp × Bool) × Option String
  unfolding run
  connect_and_run client write rs at = elim (client.dial at.conf.uri) [
    | some err ↦ ((at, true), some "failed to connect")
    | none ↦ elim (client.new_session) [
      | some err ↦ ((at, true), some "failed to create session")
      | none ↦ elim (client.new_receiver at.conf.channel at.conf.link_credit) [
        | some err ↦ ((at, true), some "failed to create receiver")
        | none ↦ (run write rs at, none)
      ]
    ]
  ]

  -- The texts of a value: a text, or those of a list.
  abbrev pub item_texts : Value F → List String
  item_texts (str s) = s ∷ []
  item_texts v = []

  abbrev pub items_texts : Values F → List String
  items_texts nil = []
  items_texts (cons item items) = item_texts item +++ items_texts items

  abbrev pub texts : Value F → List String
  texts (arr items) = items_texts items
  texts v = item_texts v

  -- The texts of the messages before the first error that is not that of a cancelled context.
  abbrev pub heard : List (Received F) → List String
  heard [] = []
  heard (message msg ∷ rs) = texts msg.value +++ heard rs
  heard (receive_error err ∷ rs) = if contains_text "context canceled" err then heard rs else []

  -- Whether there is such an error.
  abbrev pub has_failed : List (Received F) → Bool
  has_failed [] = false
  has_failed (message msg ∷ rs) = has_failed rs
  has_failed (receive_error err ∷ rs) =
      if contains_text "context canceled" err then has_failed rs else true

  send_message-texts :
      (v : Value F) (at : Amqp) → (send_message v at).written ≡ at.written +++ item_texts v
  unfolding send_message
  send_message-texts (str s) at = refl
  send_message-texts null at = sym (append-nil at.written)
  send_message-texts (bool b) at = sym (append-nil at.written)
  send_message-texts (num n) at = sym (append-nil at.written)
  send_message-texts (arr vs) at = sym (append-nil at.written)
  send_message-texts (obj vs) at = sym (append-nil at.written)

  send_items-texts :
      (vs : Values F) (at : Amqp) → (send_items vs at).written ≡ at.written +++ items_texts vs
  unfolding send_items
  send_items-texts nil at = sym (append-nil at.written)
  send_items-texts (cons v vs) at =
      send_items-texts vs (send_message v at)
      ∙ ap (λ l. l +++ items_texts vs) (send_message-texts v at)
      ∙ append_assoc at.written (item_texts v) (items_texts vs)

  send_value-texts : (v : Value F) (at : Amqp) → (send_value v at).written ≡ at.written +++ texts v
  unfolding send_value
  send_value-texts (arr vs) at = send_items-texts vs at
  send_value-texts null at = sym (append-nil at.written)
  send_value-texts (bool b) at = send_message-texts (bool b) at
  send_value-texts (num n) at = send_message-texts (num n) at
  send_value-texts (str s) at = send_message-texts (str s) at
  send_value-texts (obj vs) at = send_message-texts (obj vs) at

  module _ (write : String → Option String) (writes : (text : String) → write text ≡ none) where
    handle_message-texts :
        (msg : Message F) (at : Amqp)
        → ((handle_message write msg at).1 ≡ none)
          × ((handle_message write msg at).0.written ≡ at.written +++ texts msg.value)
    unfolding handle_message
    handle_message-texts msg at =
        let d = dump_message-written write writes msg.text at in
        rw (d.0, handle_message)
          (
            refl,
            send_value-texts msg.value (dump_message write msg.text at).0
                ∙ ap (λ l. l +++ texts msg.value) d.1,
          )

    run-heard :
        (rs : List (Received F)) (at : Amqp)
        → ((run write rs at).0.written ≡ at.written +++ heard rs)
          × ((run write rs at).1 ≡ has_failed rs)
    unfolding run rate
    run-heard [] at = (sym (append-nil at.written), refl)
    run-heard (message msg ∷ rs) at =
        let h = handle_message-texts msg (rate at).1 in
        let next = run-heard rs (handle_message write msg (rate at).1).0 in
        rw (h.0, run)
          (
            next.0
                ∙ ap (λ l. l +++ heard rs) h.1
                ∙ append_assoc at.written (texts msg.value) (heard rs),
            next.1,
          )
    run-heard (receive_error err ∷ rs) at =
        elim (Bool-cases (contains_text "context canceled" err)) [
          | inl e ↦ rw e (run-heard rs (rate at).1)
          | inr e ↦ rw e (sym (append-nil at.written), refl)
        ]

    -- If the dump file can be written, Run hands on nothing and returns where there is no connection. Else it
    -- hands on the texts of the messages, and those in their lists, each once and in order, up to the
    -- first error that is not that of a cancelled context, and ends exactly with such an error.
    pub connect_and_run-heard :
        (client : Client) (rs : List (Received F)) (at : Amqp)
        → let ran = (connect_and_run client write rs at).0 in
          (ran.0.written ≡ at.written +++ (if is_connected client at then heard rs else []))
          × (ran.1 ≡ (if is_connected client at then has_failed rs else true))
    unfolding connect_and_run
    connect_and_run-heard client rs at = elim (Option-cases (client.dial at.conf.uri)) [
      | inr (err, e) ↦ rw (e, connect_and_run) (sym (append-nil at.written), refl)
      | inl e ↦ elim (Option-cases client.new_session) [
        | inr (err, k) ↦ rw (e, connect_and_run) (rw k (sym (append-nil at.written), refl))
        | inl k ↦ elim (Option-cases (client.new_receiver at.conf.channel at.conf.link_credit)) [
          | inr (err, l) ↦ rw (e, connect_and_run) (rw k (rw l (sym (append-nil at.written), refl)))
          | inl l ↦ rw (e, connect_and_run) (rw k (rw l (run-heard rs at)))
        ]
      ]
    ]
