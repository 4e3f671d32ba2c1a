-- ===== src/Live.antt =====
-- internal/live/hub.go: the hub that fans committed changes out to connected dashboards. A
-- subscriber is the buffered channel that `Subscribe` returns; `key` stands for its address.
pub mod Steps
pub mod Concurrent
use traceboard.Prelude.{
  ℕ, ◌+◌, String, Bool, true, false, not, Option, none, some, List, [], ◌∷◌, ◌++◌, map, ◌==◌, ◌&&◌,
  ◌||◌, ltb, eqb, length, if◌then◌else◌, delete_rows, update_rows,
}
use traceboard.Event.{Value, null, Fields}

pub record Message : Type 0 where
  pub stream_id : ℕ
  pub kind : String
  pub run_id : String
  pub sequence : ℕ
  pub run_sequence : ℕ
  pub server_time : String
  pub run : Value
  pub alert : Value
  pub source : String
  pub payload : Option Fields

abbrev pub kind_hello : String
kind_hello = "hello"

abbrev pub kind_ping : String
kind_ping = "ping"

-- SubscriberBuffer
abbrev pub subscriber_buffer : ℕ
subscriber_buffer = 256

-- A message of a kind with every other field empty.
abbrev pub message_of : String → Message
message_of kind = record {
  stream_id = 0;
  kind = kind;
  run_id = "";
  sequence = 0;
  run_sequence = 0;
  server_time = "";
  run = null;
  alert = null;
  source = "";
  payload = none;
}

pub record Subscriber (Frame : Type 0) : Type 0 where
  pub key : ℕ
  pub channel : List Frame

pub record Hub (Frame : Type 0) : Type 0 where
  pub subscribers : List (Subscriber Frame)
  pub stream_id : ℕ
  pub next_key : ℕ

-- Publish stamps the stream id, and the time on a greeting or a probe that has none.
unfoldable pub stamped : String → ℕ → Message → Message
stamped now id message =
    if (message.kind == kind_hello || message.kind == kind_ping) && message.server_time == ""
    then record message { stream_id = id; server_time = now }
    else record message { stream_id = id }

module _ {Frame : Type 0} where
  -- NewHub
  abbrev pub new_hub : Hub Frame
  new_hub = record { subscribers = []; stream_id = 0; next_key = 0 }

  -- The non-blocking send: a channel that is full is skipped.
  unfoldable pub send : Frame → Subscriber Frame → Subscriber Frame
  send frame subscriber =
      if ltb (length subscriber.channel) subscriber_buffer
      then record subscriber { channel = subscriber.channel ++ (frame ∷ []) }
      else subscriber

  -- What follows the encoding in `Publish`; `none` is an encoding error.
  unfoldable pub deliver : Option Frame → Hub Frame → Hub Frame
  deliver none hub = hub
  deliver (some frame) hub = record hub { subscribers = map (send frame) hub.subscribers }

  -- SubscriberCount
  abbrev pub subscriber_count : Hub Frame → ℕ
  subscriber_count hub = length hub.subscribers

  -- Subscribe
  unfoldable pub subscribe : Hub Frame → Hub Frame
  subscribe hub = record hub {
    subscribers = record { key = hub.next_key; channel = [] } ∷ hub.subscribers;
    next_key = hub.next_key + 1;
  }

  -- The cancel function that `Subscribe` returns.
  unfoldable pub cancel : ℕ → Hub Frame → Hub Frame
  cancel key hub = record hub {
    subscribers = delete_rows (λ s. eqb (Subscriber.key s) key) hub.subscribers;
  }

  unfoldable pub received : Subscriber Frame → List Frame → Subscriber Frame
  received subscriber [] = subscriber
  received subscriber (frame ∷ rest) = record subscriber { channel = rest }

  -- The subscriber takes the oldest frame from its channel.
  unfoldable pub receive : ℕ → Hub Frame → Hub Frame
  unfolding received
  receive key hub = record hub {
    subscribers =
        update_rows (λ s. eqb (Subscriber.key s) key) (λ s. received s (Subscriber.channel s))
          hub.subscribers;
  }

module _ {Frame : Type 0} (encode : Message → Option Frame) where
  -- The first half of `Publish`, before it takes the lock: the next stream id, and the frame.
  abbrev pub stamp : String → Message → Hub Frame → Option Frame × Hub Frame
  stamp now message hub = (
    encode (stamped now (hub.stream_id + 1) message),
    record hub { stream_id = hub.stream_id + 1 },
  )

  -- Publish, by the clock's reading `now`: the frame that it returns, and the hub after it.
  unfoldable pub publish : String → Message → Hub Frame → Option Frame × Hub Frame
  publish now message hub =
      let (frame, counted) = stamp now message hub in (frame, deliver frame counted)

  -- PublishRunChanged
  unfoldable pub publish_run_changed : String → Value → Hub Frame → Option Frame × Hub Frame
  publish_run_changed now run = publish now (record (message_of "run.updated") { run = run })

  -- PublishEventAppended
  unfoldable pub publish_event_appended :
      String → String → ℕ → ℕ → Hub Frame → Option Frame × Hub Frame
  publish_event_appended now run_id sequence run_sequence =
      publish now (record (message_of "event.appended") {
        run_id = run_id;
        sequence = sequence;
        run_sequence = run_sequence;
      })

  -- PublishRunDeleted
  unfoldable pub publish_run_deleted : String → String → Hub Frame → Option Frame × Hub Frame
  publish_run_deleted now run_id =
      publish now (record (message_of "run.deleted") { run_id = run_id })

  -- PublishAlert
  unfoldable pub publish_alert : String → Value → String → Hub Frame → Option Frame × Hub Frame
  publish_alert now alert run_id =
      publish now (record (message_of "alert.updated") { run_id = run_id; alert = alert })

  -- PublishSourceUpdated
  unfoldable pub publish_source_updated : String → String → Hub Frame → Option Frame × Hub Frame
  publish_source_updated now source =
      publish now (record (message_of "source.updated") { source = source })

  -- Hello
  unfoldable pub hello : String → Hub Frame → Option Frame
  hello now hub =
      encode (record (message_of kind_hello) { stream_id = hub.stream_id; server_time = now })
