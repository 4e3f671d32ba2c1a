-- ===== src/Examples/LiveRuns.antt =====
-- A run of the hub: a dashboard subscribes, and two messages are published. A frame is the message
-- itself here, and its stream id is the message's.
use traceboard.Prelude.{ℕ, Option, some, List, [], ◌∷◌, ◌≡◌, refl, map}
use traceboard.Live.{
  Message, Hub, new_hub, Subscriber, message_of, subscribe, publish, stamped, send, deliver,
}
use traceboard.Live.Steps.{
  IsOrdered, Reachable, start, next, subscribed, published, Reachable-IsOrdered,
}
use traceboard.Live.Concurrent
use traceboard.Live.Concurrent.{Running, idle, IsDistinct, Reachable-IsDistinct}

abbrev encode : Message → Option Message
encode m = some m

encode-stream_id : (m f : Message) → encode m ≡ some f → Message.stream_id f ≡ m.stream_id
encode-stream_id m f e = cc

abbrev joined : Hub Message
joined = subscribe new_hub

abbrev told : Hub Message
told = (publish encode "12:00" (message_of "run.updated") joined).1

abbrev told_twice : Hub Message
told_twice = (publish encode "12:01" (message_of "ping") told).1

told_twice-Reachable : Reachable encode Message.stream_id told_twice
told_twice-Reachable =
    next told told_twice
      (next joined told (next new_hub joined start (subscribed new_hub))
        (published "12:00" (message_of "run.updated") joined))
      (published "12:01" (message_of "ping") told)

Reachable-IsOrdered_example : IsOrdered encode Message.stream_id told_twice
Reachable-IsOrdered_example =
    Reachable-IsOrdered encode Message.stream_id encode-stream_id told_twice told_twice-Reachable

-- Two publishers that stamp their frames one after the other and send them the other way round.
abbrev frame : ℕ → Message
frame n = record (message_of "run.updated") { stream_id = n }

abbrev both_stamped : Running Message
both_stamped = record { hub = record joined { stream_id = 2 }; pending = frame 2 ∷ frame 1 ∷ [] }

abbrev crossed : Hub Message
crossed = deliver (some (frame 1)) (deliver (some (frame 2)) both_stamped.hub)

abbrev all_sent : Running Message
all_sent = record { hub = crossed; pending = [] }

all_sent-Reachable : Concurrent.Reachable encode Message.stream_id all_sent
unfolding stamped subscribe
all_sent-Reachable =
    Concurrent.next _ all_sent
      (Concurrent.next _ _
        (Concurrent.next _ both_stamped
          (Concurrent.next _ _
            (Concurrent.next _ _ Concurrent.start (Concurrent.subscribed new_hub []))
            (Concurrent.begun "12:00" (message_of "run.updated") joined []))
          (Concurrent.begun "12:01" (message_of "run.updated") (record joined { stream_id = 1 })
            (frame 1 ∷ [])))
        (Concurrent.sent both_stamped.hub [] (frame 2) (frame 1 ∷ [])))
      (Concurrent.sent (deliver (some (frame 2)) both_stamped.hub) [] (frame 1) [])

Reachable-IsDistinct_example : IsDistinct encode Message.stream_id all_sent
Reachable-IsDistinct_example =
    Reachable-IsDistinct encode Message.stream_id encode-stream_id all_sent all_sent-Reachable

ids_of : List (Subscriber Message) → List (List ℕ)
ids_of subscribers = map (λ s. map Message.stream_id (Subscriber.channel s)) subscribers

-- The frame with the higher stream id waits in front.
crossed_ids : ids_of crossed.subscribers ≡ (2 ∷ 1 ∷ []) ∷ []
unfolding ids_of deliver send subscribe
crossed_ids = refl
