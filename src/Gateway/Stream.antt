-- ===== src/Gateway/Stream.antt =====
-- From the bytes of a TCP stream to what Prometheus serves: plugins/transport/socket, whose write function
-- calls the handler of plugins/handler/collectd-metrics (RunTransports of cmd/manager/manager.go), the metric
-- bus and plugins/application/prometheus.
use sg_core.Prelude.{
  ℕ, ◌<◌, ◌^◌, ◌≡◌, refl, sym, ap, ◌∙◌, Bool, true, String, str_eq, List, [], ◌∷◌, ◌++◌, append-nil,
  append_assoc, length, ℤ, ◌⊎◌, Option, inl, inr, Outcome, returns, panics, ◌>>=◌, inc64, All,
}
use sg_core.Data.{Metric, MetricType}
use sg_core.Collectd.Metrics.{CollectdMetric, Handler, handle}
use sg_core.Collectd.Messages.{Matched, all_metrics, handle-Wrote, decode_error-counts}
use sg_core.Bus.Deliveries.{EventBus}
use sg_core.Prometheus.Application.{Prometheus}
use sg_core.Socket.Frame.{Bytes}
use sg_core.Socket.Stream.{encode}
use sg_core.Socket.Receive.{Config, Receiver, tcp, receive_data}
use sg_core.Socket.Chunks.{chunks, concat, Full, receive_data-stream}
use sg_core.Gateway.Receiver.{
  Act, act_all, published, is_subscribed, calls, published-Held, published-called,
}
use sg_core.Prometheus.Collector.{Desc}
use sg_core.Gateway.Scraped.{is_served-Scraped}
use sg_core.Gateway.Latest.{ScrapedLast, calls-Shown, Shown-ScrapedLast}
use sg_core.Gateway.Prometheus.{BuildersEmpty, prometheus_receiver}

-- The metrics that a handler has published when it returns.
abbrev pub metrics_of : {F : Type 0} → Outcome (Handler F) → List (Metric F)
metrics_of (returns c) = c.out.metrics
metrics_of panics = []

-- On a fresh connection exactly the messages of the stream are handed over.
stream-written :
    (conf : Config) (cs : List Bytes) (st : Receiver) (b : Bytes) (bs : List Bytes)
    → str_eq conf.type tcp ≡ true
    → All Full cs
    → All Full (b ∷ bs)
    → length (encode (b ∷ bs)) < 2 ^ 63
    → st.remaining_msg ≡ []
    → st.written ≡ []
    → concat cs ≡ encode (b ∷ bs)
    → (receive_data conf (chunks cs) st).0.written ≡ b ∷ bs
stream-written conf cs st b bs is_tcp full solid small empty unwritten stream =
    let d =
      receive_data-stream conf cs [] st b bs is_tcp full small empty
        (append-nil (concat cs) ∙ stream) in
    d.written
    ∙ ap (λ w. w ++ d.now) unwritten
    ∙ sym (append-nil d.now)
    ∙ ap (λ l. d.now ++ l) (sym (d.complete refl solid))
    ∙ sym d.split

module _ {F T : Type 0} (float64 : ℕ → F) (to_float : T → F) (to_duration : F → ℤ)
    (parse_input : Bytes → String ⊎ List (CollectdMetric F T)) (report : Bool) where
  -- The handler is called for each message that the transport hands over.
  unfoldable pub handle_blobs : List Bytes → Handler F → Outcome (Handler F)
  unfolding handle
  handle_blobs [] c = returns c
  handle_blobs (blob ∷ blobs) c =
      handle float64 to_float to_duration (parse_input blob) report c >>= handle_blobs blobs

  abbrev pub entries : String ⊎ List (CollectdMetric F T) → List (CollectdMetric F T)
  entries (inl err) = []
  entries (inr ms) = ms

  -- The metrics of the valid entries of messages.
  abbrev pub message_metrics : List Bytes → List (Metric F)
  message_metrics [] = []
  message_metrics (b ∷ bs) =
      all_metrics float64 to_float to_duration (entries (parse_input b)) ++ message_metrics bs

  -- No metric of a message has more names than types.
  abbrev pub IsMatched : Bytes → Type 0
  IsMatched b = All (Matched float64 to_float to_duration) (entries (parse_input b))

  record Handled (ms : List (Metric F)) (c : Handler F) (r : Outcome (Handler F)) : Type 0 where
    next : Handler F
    result : r ≡ returns next
    metrics : next.out.metrics ≡ c.out.metrics ++ ms

  handle-Handled :
      (parsed : String ⊎ List (CollectdMetric F T)) (c : Handler F)
      → All (Matched float64 to_float to_duration) (entries parsed)
      → Handled
          (all_metrics float64 to_float to_duration (entries parsed))
          c
          (handle float64 to_float to_duration parsed report c)
  unfolding handle
  handle-Handled (inl err) c h =
      let counted : Handler F = record c {
        total_messages_received = inc64 c.total_messages_received;
      } in
      record {
        next = _;
        result = refl;
        metrics =
            (decode_error-counts float64 report err counted).0 ∙ sym (append-nil c.out.metrics);
      }
  handle-Handled (inr ms) c h =
      let w = handle-Wrote float64 to_float to_duration report ms c h in
      record { next = w.next; result = w.result; metrics = w.metrics }

  handle_blobs-Handled :
      (bs : List Bytes) (c : Handler F)
      → All IsMatched bs
      → Handled (message_metrics bs) c (handle_blobs bs c)
  unfolding handle_blobs
  handle_blobs-Handled [] c h = record {
    next = c;
    result = refl;
    metrics = sym (append-nil c.out.metrics);
  }
  handle_blobs-Handled (b ∷ bs) c h =
      let first = handle-Handled (parse_input b) c h.0 in
      let rest = handle_blobs-Handled bs first.next h.1 in
      record {
        next = rest.next;
        result = rw (first.result) rest.result;
        metrics =
            rest.metrics
            ∙ ap (λ l. l ++ message_metrics bs) first.metrics
            ∙ append_assoc c.out.metrics _ (message_metrics bs);
      }

  -- If collectd's messages come over TCP in chunks of any sizes and less than 2 ^ 63 bytes, with no empty
  -- message and no metric that has more names than types, each metric of a valid entry of a message that
  -- decodes has an entry under its key in the collector of its number of labels once the bus has made its
  -- calls. But for the interval the entry has the values of the metric of that number of labels and that
  -- key that was delivered last, which is another one where two metrics share a key, and a scrape has a
  -- sample of it, under the description that the entry was made with, if the library makes one. So it is
  -- in whatever order the handler published and the goroutines ran, if the connection is fresh, Prometheus
  -- is subscribed, its key builders are empty and no check comes between.
  pub receive_data-Scraped :
      {Sample : Type 0} (conf : Config) (cs : List Bytes) (st : Receiver) (b : Bytes)
      (bs : List Bytes) (c : Handler F) (acts : List (Act (Metric F))) (eb : EventBus (Metric F))
      (n : ℕ) (clock : ℕ → ℕ) (p : Prometheus F) (before : List (Metric F)) (m : Metric F)
      (after : List (Metric F))
      (new_const_metric : Desc → MetricType → F → List String → Option Sample)
      (new_metric_with_timestamp : F → Sample → Sample) (is_zero : F → Bool)
      → str_eq conf.type tcp ≡ true
      → All Full cs
      → All Full (b ∷ bs)
      → length (encode (b ∷ bs)) < 2 ^ 63
      → st.remaining_msg ≡ []
      → st.written ≡ []
      → concat cs ≡ encode (b ∷ bs)
      → All IsMatched (b ∷ bs)
      → message_metrics (b ∷ bs) ≡ before ++ m ∷ after
      → published acts ≡ metrics_of (handle_blobs (receive_data conf (chunks cs) st).0.written c)
      → is_subscribed n eb.subscribers ≡ true
      → (act_all acts eb).pending ≡ []
      → BuildersEmpty p
      → ScrapedLast new_const_metric new_metric_with_timestamp is_zero n m
          (act_all acts eb).delivered
          (calls prometheus_receiver n clock 0 (act_all acts eb).delivered p)
  receive_data-Scraped {Sample} conf cs st b bs c acts eb n clock p before m after new_const_metric
        new_metric_with_timestamp is_zero is_tcp full solid small empty unwritten stream matched
        made sent subscribed done builders =
      let h = handle_blobs-Handled (b ∷ bs) c matched in
      let parts =
        sent
        ∙ ap (λ w. metrics_of (handle_blobs w c))
            (stream-written conf cs st b bs is_tcp full solid small empty unwritten stream)
        ∙ ap metrics_of h.result
        ∙ h.metrics
        ∙ ap (λ l. c.out.metrics ++ l) made
        ∙ sym (append_assoc c.out.metrics before (m ∷ after)) in
      let earlier = c.out.metrics ++ before in
      Shown-ScrapedLast new_const_metric new_metric_with_timestamp is_zero n m _ _
        (is_served-Scraped new_const_metric new_metric_with_timestamp is_zero m _
          (published-Held prometheus_receiver n clock acts eb p earlier m after parts subscribed
            done builders).held)
        (calls-Shown n clock 0 (act_all acts eb).delivered m p
          (published-called prometheus_receiver n acts eb earlier m after parts subscribed done)
          builders)
