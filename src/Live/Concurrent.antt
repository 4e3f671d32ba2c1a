-- ===== src/Live/Concurrent.antt =====
-- Publications at once on the hub of internal/live/hub.go: `Publish` takes its stream id, and later, under
-- a lock that publishers share, sends its frame. Here the two halves are steps of their own.
use traceboard.Prelude.{
  ℕ, ◌+◌, ◌≤◌, String, Option, none, some, List, [], ◌∷◌, ◌++◌, map, ◌≡◌, refl, subst, ◌∙◌, arith,
  ltb, leb, eqb, length, if◌then◌else◌, All, All-imp, All-update, All-delete, Bool-cases, inl, inr,
  length-append, count_rows, count_rows-append,
}
use traceboard.Live.{
  Message, Subscriber, Hub, subscriber_buffer, new_hub, stamped, stamp, send, deliver, subscribe,
  cancel, receive, received,
}
use traceboard.Live.Steps.{stamped-stream_id}

-- A hub, and the frames that publishers have stamped and not sent yet.
pub record Running (Frame : Type 0) : Type 0 where
  pub hub : Hub Frame
  pub pending : List Frame

abbrev pub idle : {Frame : Type 0} → Running Frame
idle = record { hub = new_hub; pending = [] }

abbrev pub add_pending : {Frame : Type 0} → Option Frame → List Frame → List Frame
add_pending none pending = pending
add_pending (some frame) pending = frame ∷ pending

module _ {Frame : Type 0} (encode : Message → Option Frame) (stream_id_of : Frame → ℕ) where
  abbrev times : ℕ → List Frame → ℕ
  times n frames = count_rows (λ f. eqb (stream_id_of f) n) frames

  abbrev given : ℕ → ℕ → ℕ
  given n last = if leb n last then 1 else 0

  -- Each stream id is at most once in the channel and among the pending frames, and was given out.
  abbrev Once : ℕ → List Frame → Subscriber Frame → Type 0
  Once last pending s =
      ((n : ℕ) → times n s.channel + times n pending ≤ given n last)
      × (length s.channel ≤ subscriber_buffer)

  abbrev pub IsDistinct : Running Frame → Type 0
  IsDistinct r =
      All (Once r.hub.stream_id r.pending) r.hub.subscribers
      × ((n : ℕ) → times n r.pending ≤ given n r.hub.stream_id)

  pub data Step : Running Frame → Running Frame → Type 0 where
    begun :
        (now : String) (m : Message) (hub : Hub Frame) (pending : List Frame)
        → Step
            (record { hub = hub; pending = pending })
            (record {
              hub = (stamp encode now m hub).1;
              pending = add_pending (stamp encode now m hub).0 pending;
            })
    sent :
        (hub : Hub Frame) (before : List Frame) (frame : Frame) (behind : List Frame)
        → Step
            (record { hub = hub; pending = before ++ (frame ∷ behind) })
            (record { hub = deliver (some frame) hub; pending = before ++ behind })
    subscribed :
        (hub : Hub Frame) (pending : List Frame)
        → Step
            (record { hub = hub; pending = pending })
            (record { hub = subscribe hub; pending = pending })
    cancelled :
        (key : ℕ) (hub : Hub Frame) (pending : List Frame)
        → Step
            (record { hub = hub; pending = pending })
            (record { hub = cancel key hub; pending = pending })
    taken :
        (key : ℕ) (hub : Hub Frame) (pending : List Frame)
        → Step
            (record { hub = hub; pending = pending })
            (record { hub = receive key hub; pending = pending })

  pub data Reachable : Running Frame → Type 0 where
    start : Reachable idle
    next : (r after : Running Frame) → Reachable r → Step r after → Reachable after

  times-append : (n : ℕ) (xs ys : List Frame) → times n (xs ++ ys) ≡ times n xs + times n ys
  times-append n xs ys = count_rows-append (λ f. eqb (stream_id_of f) n) xs ys

  send-Once :
      (last : ℕ) (before : List Frame) (f : Frame) (behind : List Frame) (s : Subscriber Frame)
      → Once last (before ++ (f ∷ behind)) s
      → Once last (before ++ behind) (send f s)
  unfolding send count_rows
  send-Once last before f behind s h =
      elim (Bool-cases (ltb (length s.channel) subscriber_buffer)) [
        | inl room ↦ rw room (
          (λ n. ground (
            arith,
            h.0 n,
            times-append n before (f ∷ behind),
            times-append n before behind,
            times-append n s.channel (f ∷ []),
          )),
          ground (arith, length-append s.channel (f ∷ []), room),
        )
        | inr full ↦ rw full (
          (λ n.
              ground
                (arith, h.0 n, times-append n before (f ∷ behind), times-append n before behind)),
          h.1,
        )
      ]

  sent-Once :
      (last : ℕ) (before : List Frame) (f : Frame) (behind : List Frame)
      (subscribers : List (Subscriber Frame))
      → All (Once last (before ++ (f ∷ behind))) subscribers
      → All (Once last (before ++ behind)) (map (send f) subscribers)
  sent-Once last before f behind [] h = tt
  sent-Once last before f behind (s ∷ rest) h =
      (send-Once last before f behind s h.0, sent-Once last before f behind rest h.1)

  received-Once :
      (last : ℕ) (pending : List Frame) (s : Subscriber Frame) (frames : List Frame)
      → s.channel ≡ frames
      → Once last pending s
      → Once last pending (received s frames)
  unfolding received count_rows
  received-Once last pending s [] e h = h
  received-Once last pending s (f ∷ rest) e h =
      let whole : Once last pending (record s { channel = f ∷ rest }) =
        subst (λ c. Once last pending (record s { channel = c })) e h in
      ((λ n. ground (arith, whole.0 n)), omega (arith, whole.1))

  taken_one :
      (last key : ℕ) (pending : List Frame) (s : Subscriber Frame)
      → Once last pending s
      → Once last pending (if eqb s.key key then received s s.channel else s)
  taken_one last key pending s h = elim (Bool-cases (eqb s.key key)) [
    | inl e ↦ rw e (received-Once last pending s s.channel refl h)
    | inr e ↦ rw e h
  ]

  module _
      (encode-stream_id : (m : Message) (f : Frame)
        → encode m ≡ some f
        → stream_id_of f ≡ m.stream_id) where
    begun-IsDistinct :
        (hub : Hub Frame) (pending : List Frame) (o : Option Frame)
        → ((f : Frame) → o ≡ some f → stream_id_of f ≡ hub.stream_id + 1)
        → IsDistinct (record { hub = hub; pending = pending })
        → IsDistinct (record {
          hub = record hub { stream_id = hub.stream_id + 1 };
          pending = add_pending o pending;
        })
    unfolding count_rows
    begun-IsDistinct hub pending none id h = (
      All-imp _ _ hub.subscribers (λ s k. ((λ n. ground (arith, k.0 n)), k.1)) h.0,
      λ n. ground (arith, h.1 n),
    )
    begun-IsDistinct hub pending (some f) id h =
        let e = id f refl in
        (
          All-imp _ _ hub.subscribers (λ s k. ((λ n. ground (arith, k.0 n, e)), k.1)) h.0,
          λ n. ground (arith, h.1 n, e),
        )

    step-IsDistinct : (r after : Running Frame) → Step r after → IsDistinct r → IsDistinct after
    unfolding subscribe cancel receive deliver count_rows
    step-IsDistinct _ _ (begun now m hub pending) h =
        begun-IsDistinct hub pending (encode (stamped now (hub.stream_id + 1) m))
          (λ f e. encode-stream_id _ f e ∙ stamped-stream_id encode stream_id_of now _ m) h
    step-IsDistinct _ _ (sent hub before frame behind) h = (
      sent-Once hub.stream_id before frame behind hub.subscribers h.0,
      λ n.
          ground
            (arith, h.1 n, times-append n before (frame ∷ behind), times-append n before behind),
    )
    step-IsDistinct _ _ (subscribed hub pending) h =
        ((((λ n. omega (arith, h.1 n)), omega arith), h.0), h.1)
    step-IsDistinct _ _ (cancelled key hub pending) h = (All-delete _ _ hub.subscribers h.0, h.1)
    step-IsDistinct _ _ (taken key hub pending) h = (
      All-update (Once hub.stream_id pending) (Once hub.stream_id pending) _ _ hub.subscribers
          (taken_one hub.stream_id key pending) h.0,
      h.1,
    )

    -- However publications on a hub interleave, and whatever dashboards come, go and read: a stream id
    -- is at most once in a dashboard's channel and among the frames that are still to be sent, it was
    -- given out, and at most 256 frames wait in a channel, where a frame carries the stream id of the
    -- message that it encodes.
    pub Reachable-IsDistinct : (r : Running Frame) → Reachable r → IsDistinct r
    unfolding count_rows
    Reachable-IsDistinct _ start = (tt, λ n. omega arith)
    Reachable-IsDistinct _ (next r after reached s) =
        step-IsDistinct r after s (Reachable-IsDistinct r reached)
