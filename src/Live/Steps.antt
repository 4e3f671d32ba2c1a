-- ===== src/Live/Steps.antt =====
-- The steps of the hub of internal/live/hub.go, and the frames in the channels that they leave. One
-- publisher runs at a time here.
use traceboard.Prelude.{
  ℕ, ◌+◌, ◌≤◌, ◌<◌, String, Option, none, some, List, [], ◌∷◌, ◌++◌, map, ◌≡◌, refl, subst, ◌∙◌,
  arith, ltb, eqb, length, if◌then◌else◌, All, All-imp, All-update, All-delete, Bool-cases, inl,
  inr, length-append,
}
use traceboard.Live.{
  Message, Subscriber, Hub, subscriber_buffer, new_hub, stamped, send, deliver, subscribe, cancel,
  receive, received, publish,
}

module _ {Frame : Type 0} (encode : Message → Option Frame) (stream_id_of : Frame → ℕ) where
  -- The stream ids of the frames rise, each above `low`, up to at most `high`.
  Ascends : ℕ → ℕ → List Frame → Type 0
  Ascends low high [] = low ≤ high
  Ascends low high (frame ∷ rest) =
      (low < stream_id_of frame) × Ascends (stream_id_of frame) high rest

  -- A channel holds rising stream ids that the hub has given out, and no more than its buffer.
  InOrder : ℕ → Subscriber Frame → Type 0
  unfolding Ascends
  InOrder last subscriber =
      Ascends 0 last subscriber.channel × (length subscriber.channel ≤ subscriber_buffer)

  pub IsOrdered : Hub Frame → Type 0
  unfolding InOrder
  IsOrdered hub = All (InOrder hub.stream_id) hub.subscribers

  -- What happens to a hub: a publication, a dashboard that comes, goes, or reads a frame.
  pub data Step : Hub Frame → Hub Frame → Type 0 where
    published :
        (now : String) (m : Message) (hub : Hub Frame) → Step hub (publish encode now m hub).1
    subscribed : (hub : Hub Frame) → Step hub (subscribe hub)
    cancelled : (key : ℕ) (hub : Hub Frame) → Step hub (cancel key hub)
    taken : (key : ℕ) (hub : Hub Frame) → Step hub (receive key hub)

  pub data Reachable : Hub Frame → Type 0 where
    start : Reachable new_hub
    next : (hub after : Hub Frame) → Reachable hub → Step hub after → Reachable after

  Ascends-≤ : (low high : ℕ) (fs : List Frame) → Ascends low high fs → low ≤ high
  unfolding Ascends
  Ascends-≤ low high [] h = h
  Ascends-≤ low high (f ∷ fs) h = omega (arith, h.0, Ascends-≤ (stream_id_of f) high fs h.1)

  Ascends-lower :
      (low low' high : ℕ) (fs : List Frame)
      → low' ≤ low
      → Ascends low high fs
      → Ascends low' high fs
  unfolding Ascends
  Ascends-lower low low' high [] k h = omega (arith, k, h)
  Ascends-lower low low' high (f ∷ fs) k h = (omega (arith, k, h.0), h.1)

  Ascends-raise :
      (low high high' : ℕ) (fs : List Frame)
      → high ≤ high'
      → Ascends low high fs
      → Ascends low high' fs
  unfolding Ascends
  Ascends-raise low high high' [] k h = omega (arith, k, h)
  Ascends-raise low high high' (f ∷ fs) k h =
      (h.0, Ascends-raise (stream_id_of f) high high' fs k h.1)

  Ascends-append :
      (low high : ℕ) (fs : List Frame) (f : Frame)
      → Ascends low high fs
      → high < stream_id_of f
      → Ascends low (stream_id_of f) (fs ++ (f ∷ []))
  unfolding Ascends
  Ascends-append low high [] f h k = (omega (arith, h, k), omega arith)
  Ascends-append low high (g ∷ fs) f h k = (h.0, Ascends-append (stream_id_of g) high fs f h.1 k)

  send-InOrder :
      (last : ℕ) (f : Frame) (s : Subscriber Frame)
      → stream_id_of f ≡ last + 1
      → InOrder last s
      → InOrder (last + 1) (send f s)
  unfolding InOrder send
  send-InOrder last f s e h = elim (Bool-cases (ltb (length s.channel) subscriber_buffer)) [
    | inl room ↦ rw room (
      subst (λ n. Ascends 0 n (s.channel ++ (f ∷ []))) e
          (Ascends-append 0 last s.channel f h.0 (omega (arith, e))),
      ground (arith, length-append s.channel (f ∷ []), room),
    )
    | inr full ↦ rw full (Ascends-raise 0 last (last + 1) s.channel (omega arith) h.0, h.1)
  ]

  deliver-IsOrdered :
      (last : ℕ) (f : Frame) (subscribers : List (Subscriber Frame))
      → stream_id_of f ≡ last + 1
      → All (InOrder last) subscribers
      → All (InOrder (last + 1)) (map (send f) subscribers)
  deliver-IsOrdered last f [] e h = tt
  deliver-IsOrdered last f (s ∷ rest) e h =
      (send-InOrder last f s e h.0, deliver-IsOrdered last f rest e h.1)

  received-InOrder :
      (last : ℕ) (s : Subscriber Frame) (fs : List Frame)
      → Ascends 0 last fs
      → (length fs ≤ subscriber_buffer)
      → InOrder last s
      → InOrder last (received s fs)
  unfolding InOrder received Ascends
  received-InOrder last s [] a b h = h
  received-InOrder last s (f ∷ rest) a b h =
      (Ascends-lower (stream_id_of f) 0 last rest (omega arith) a.1, omega (arith, b))

  taken_one :
      (last key : ℕ) (s : Subscriber Frame)
      → InOrder last s
      → InOrder last (if eqb s.key key then received s s.channel else s)
  unfolding InOrder
  taken_one last key s h = elim (Bool-cases (eqb s.key key)) [
    | inl e ↦ rw e (received-InOrder last s s.channel h.0 h.1 h)
    | inr e ↦ rw e h
  ]

  InOrder-raise : (last : ℕ) (s : Subscriber Frame) → InOrder last s → InOrder (last + 1) s
  unfolding InOrder
  InOrder-raise last s h = (Ascends-raise 0 last (last + 1) s.channel (omega arith) h.0, h.1)

  pub stamped-stream_id : (now : String) (id : ℕ) (m : Message) → (stamped now id m).stream_id ≡ id
  unfolding stamped
  stamped-stream_id now id m = ground arith

  module _
      (encode-stream_id : (m : Message) (f : Frame)
        → encode m ≡ some f
        → stream_id_of f ≡ m.stream_id) where
    -- One publication, whatever the message: the channels that were in order stay in order, and
    -- the frame that is sent has the id after the last.
    publish-IsOrdered :
        (now : String) (m : Message) (hub : Hub Frame)
        → IsOrdered hub
        → IsOrdered (publish encode now m hub).1
    unfolding publish IsOrdered deliver
    publish-IsOrdered now m hub h = split (encode (stamped now (hub.stream_id + 1) m)) refl
      where
        split :
            (frame : Option Frame)
            → encode (stamped now (hub.stream_id + 1) m) ≡ frame
            → IsOrdered (deliver frame (record hub { stream_id = hub.stream_id + 1 }))
        split none e =
            All-imp (InOrder hub.stream_id) (InOrder (hub.stream_id + 1)) hub.subscribers
              (InOrder-raise hub.stream_id) h
        split (some f) e =
            deliver-IsOrdered hub.stream_id f hub.subscribers
              (encode-stream_id _ f e ∙ stamped-stream_id now _ m) h

    step-IsOrdered : (hub after : Hub Frame) → Step hub after → IsOrdered hub → IsOrdered after
    unfolding IsOrdered subscribe cancel receive
    step-IsOrdered _ _ (published now m hub) h = publish-IsOrdered now m hub h
    step-IsOrdered _ _ (subscribed hub) h = ((omega arith, omega arith), h)
    step-IsOrdered _ _ (cancelled key hub) h = All-delete _ _ hub.subscribers h
    step-IsOrdered _ _ (taken key hub) h =
        All-update (InOrder hub.stream_id) (InOrder hub.stream_id) _ _ hub.subscribers
          (taken_one hub.stream_id key) h

    -- In every state that a hub reaches from `NewHub`, by publications one at a time and by
    -- dashboards that come, go and read: the frames that wait in a dashboard's channel have
    -- stream ids that rise strictly and were given out, and there are at most 256 of them, where a
    -- frame carries the stream id of the message that it encodes.
    pub Reachable-IsOrdered : (hub : Hub Frame) → Reachable hub → IsOrdered hub
    unfolding IsOrdered
    Reachable-IsOrdered _ start = tt
    Reachable-IsOrdered _ (next hub after r s) =
        step-IsOrdered hub after s (Reachable-IsOrdered hub r)
