-- ===== src/Amqp/Tests.antt =====
-- Runs of the AMQP transport. A float64 is a number here.
use sg_core.Prelude.{
  ℕ, ◌≡◌, refl, true, false, List, String, [], ◌∷◌, Option, none, pos, contains_text,
}
use sg_core.Data.{str, num, arr, nil, cons}
use sg_core.Amqp.Receiver.{Amqp, default_config, Received, message, receive_error, run}
use sg_core.Amqp.Heard.{Client, connect_and_run, connect_and_run-heard}

abbrev listening : Amqp
unfolding default_config
listening = record {
  conf = default_config;
  dump_open = false;
  written = [];
  msg_count = pos 0;
  last_val = pos 0;
  dumped = "";
}

abbrev accepts : String → Option String
accepts text = none

abbrev two_texts : Received ℕ
two_texts =
    message record { value = arr (cons (str "a") (cons (num 1) (cons (str "b") nil))); text = "" }

-- The texts of an array are written one by one, and what is no text is not.
array_written : (run accepts (two_texts ∷ []) listening).0.written ≡ "a" ∷ "b" ∷ []
unfolding run default_config
array_written = refl

abbrev client : Client
client = record { dial = λ uri. none; new_session = none; new_receiver = λ channel credit. none }

abbrev heard_texts : List (Received ℕ)
heard_texts =
    two_texts ∷ receive_error "context canceled" ∷ two_texts ∷ receive_error "link detached" ∷ []

connect_and_run-heard_example :
    let ran = (connect_and_run client accepts heard_texts listening).0 in
    (ran.0.written ≡ "a" ∷ "b" ∷ "a" ∷ "b" ∷ []) × (ran.1 ≡ true)
unfolding contains_text listening
connect_and_run-heard_example =
    connect_and_run-heard accepts (λ text. refl) client heard_texts listening
