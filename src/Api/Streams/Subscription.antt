-- ===== src/Api/Streams/Subscription.antt =====
-- The subscriptions and the frames of the event streams.
use tunnel_manager.Prelude.{
  ℕ, ◌⊎◌, ◌≡◌, refl, Bool, true, false, List, [], ◌∷◌, Option, none, some, Result, ok, err, inl,
  inr, some_eq,
}
use mathlib.Core.Path.{subst}
use tunnel_manager.Prelude.Text.{Bytes, text_eq_refl}
use tunnel_manager.Model.{Domain}
use tunnel_manager.Hub.{pending}
use tunnel_manager.Hub.Wakeups.{pending-cancel}
use tunnel_manager.LogBuf
use tunnel_manager.LogBuf.{Buffer}
use tunnel_manager.Pagination.{ListDomainRequest}
use tunnel_manager.Service.World.{Outside, World}
use tunnel_manager.Service.Reading.{Readers, list_domains, logs, metrics, subscribe_logs}
use tunnel_manager.Api.Streams.{
  Frame, domains_frame, error_frame, Ready, update, tick, heartbeat, Event, Streamed, took,
  relisted, turn, turn_detail, stream_domains, opened, serve_stream, on_buffer, if_taken,
  after_metrics, after_logs, took_log, stream_detail, frames_of, serve_detail, subscribe,
}

-- Nothing comes after an error.
pub ErrorLast : List Frame → Type 0
ErrorLast [] = Unit
ErrorLast (f ∷ fs) = (f ≡ error_frame → fs ≡ []) × ErrorLast fs

module _ (o : Outside) (r : Readers) (req : ListDomainRequest) (channel : ℕ) where
  relisted-ErrorLast :
      (z : World × Result (List Domain × Bytes)) (go : World → World × List Frame)
      → ((w : World) → ErrorLast (go w).1)
      → ErrorLast (relisted z go).1
  unfolding ErrorLast
  relisted-ErrorLast (w, err e) go h = (λ _. refl, tt)
  relisted-ErrorLast (w, ok (items, cursor)) go h = (λ e. cc, h w)

  turn-ErrorLast :
      (x : Ready) (w : World) (go : World → World × List Frame)
      → ((v : World) → ErrorLast (go v).1)
      → ErrorLast (turn o r req channel x w go).1
  unfolding ErrorLast
  turn-ErrorLast update w go h = relisted-ErrorLast (list_domains o r req (took channel w)) go h
  turn-ErrorLast heartbeat w go h = (λ e. cc, h w)
  turn-ErrorLast tick w go h = h w

  stream_domains-ErrorLast :
      (events : List Event) (w : World) → ErrorLast (stream_domains o r req channel events w).1
  unfolding stream_domains ErrorLast
  stream_domains-ErrorLast [] w = tt
  stream_domains-ErrorLast (e ∷ es) w =
      turn-ErrorLast e.ready (e.meanwhile w) (stream_domains o r req channel es)
        (stream_domains-ErrorLast es)

-- What a request for the stream of domains comes to: the subscription is over, and it was refused,
-- with nothing streamed, or began with the domains, and an error came last.
pub Streams : ℕ → World × Streamed → Type 0
Streams channel (w, (rep, frames)) =
    (pending w.hub channel ≡ none)
    × ErrorLast frames
    × ((rep.status ≡ 500) × (frames ≡ [])
        ⊎ (items : List Domain) × (cursor : Bytes) × (rest : List Frame) × (rep.status ≡ 200)
          × (frames ≡ domains_frame items cursor ∷ rest))

-- However the client and the others behave while it lasts, a stream of domains ends with its channel
-- unsubscribed; it was refused, with nothing streamed, or began with the domains; and an error ends
-- it.
pub serve_stream-Streams :
    (o : Outside) (r : Readers) (req : ListDomainRequest) (events : List Event) (w : World)
    → Streams (subscribe w).1 (serve_stream o r (ok req) events w)
unfolding serve_stream Streams ErrorLast
serve_stream-Streams o r req events w = by_listing (list_domains o r req (subscribe w).0)
  where
    by_listing :
        (z : World × Result (List Domain × Bytes))
        → Streams
            (subscribe w).1
            (opened (subscribe w).1 z (stream_domains o r req (subscribe w).1 events))
    by_listing (v, err e) = (pending-cancel v.hub _, tt, inl (refl, refl))
    by_listing (v, ok (items, cursor)) = (
      pending-cancel (stream_domains o r req (subscribe w).1 events v).0.hub _,
      (λ q. cc, stream_domains-ErrorLast o r req (subscribe w).1 events v),
      inr (items, cursor, (stream_domains o r req (subscribe w).1 events v).1, refl, refl),
    )

module _ (o : Outside) (r : Readers) (id : Bytes) (channel : ℕ) where
  if_taken-ErrorLast :
      (taken : Bool) (w : World) (go : World → World × List Frame)
      → ((v : World) → ErrorLast (go v).1)
      → ErrorLast (if_taken taken w go).1
  unfolding ErrorLast
  if_taken-ErrorLast true w go h = h w
  if_taken-ErrorLast false w go h = tt

  after_metrics-ErrorLast :
      (taken : Bool) (z : World × Result Bytes) (go : World → World × List Frame)
      → ((v : World) → ErrorLast (go v).1)
      → ErrorLast (after_metrics taken z go).1
  unfolding ErrorLast
  after_metrics-ErrorLast taken (w, ok text) go h = (λ e. cc, if_taken-ErrorLast taken w go h)
  after_metrics-ErrorLast taken (w, err f) go h = (λ e. cc, if_taken-ErrorLast taken w go h)

  after_logs-ErrorLast :
      (taken : Bool) (z : World × Result (List Bytes)) (go : World → World × List Frame)
      → ((v : World) → ErrorLast (go v).1)
      → ErrorLast (after_logs taken z go).1
  unfolding ErrorLast
  after_logs-ErrorLast taken (w, ok lines) go h = (λ e. cc, if_taken-ErrorLast taken w go h)
  after_logs-ErrorLast taken (w, err f) go h = (λ _. refl, tt)

  turn_detail-ErrorLast :
      (x : Ready) (taken : Bool) (w : World) (go : World → World × List Frame)
      → ((v : World) → ErrorLast (go v).1)
      → ErrorLast (turn_detail o r id channel x taken w go).1
  unfolding ErrorLast
  turn_detail-ErrorLast update taken w go h =
      after_logs-ErrorLast taken (logs o id (took_log id channel w)) go h
  turn_detail-ErrorLast tick taken w go h = after_metrics-ErrorLast taken (metrics o r id w) go h
  turn_detail-ErrorLast heartbeat taken w go h = (λ e. cc, if_taken-ErrorLast taken w go h)

  stream_detail-ErrorLast :
      (events : List Event) (w : World) → ErrorLast (stream_detail o r id channel events w).1
  unfolding stream_detail ErrorLast
  stream_detail-ErrorLast [] w = tt
  stream_detail-ErrorLast (e ∷ es) w =
      turn_detail-ErrorLast e.ready e.taken (e.meanwhile w) (stream_detail o r id channel es)
        (stream_detail-ErrorLast es)

cancelled_buffer :
    (id : Bytes) (channel : ℕ) (w : World) (b : Buffer)
    → (on_buffer id (λ b. LogBuf.cancel b channel) w).logs id ≡ some b
    → pending b.hub channel ≡ none
unfolding LogBuf.cancel
cancelled_buffer id channel w b e = by_buffer (w.logs id) (simp (text_eq_refl id) at e)
  where
    by_buffer :
        (z : Option Buffer)
        → elim z [ none ↦ none | some b ↦ some (LogBuf.cancel b channel) ] ≡ some b
        → pending b.hub channel ≡ none
    by_buffer none q = cc
    by_buffer (some a) q =
        subst (λ (c : Buffer). pending c.hub channel ≡ none) (some_eq q)
          (pending-cancel a.hub channel)

-- The same for the stream of one domain, which begins with the log: whatever it and the others do,
-- the buffer of the domain, if there still is one, has no such channel in the end.
pub serve_detail-Streams :
    (o : Outside) (r : Readers) (id : Bytes) (first second : Bool) (events : List Event)
    (w w₁ : World) (lines : List Bytes) (channel : ℕ)
    → subscribe_logs o id w ≡ (w₁, ok (lines, channel))
    → ((b : Buffer)
        → (serve_detail o r id first second events w).0.logs id ≡ some b
        → pending b.hub channel ≡ none)
      × ErrorLast (serve_detail o r id first second events w).1.1
unfolding serve_detail ErrorLast
serve_detail-Streams o r id first second events w w₁ lines channel e = rw e (
  (λ b q.
      cancelled_buffer id channel (frames_of o r id first second events lines channel w₁).0 b q),
  (
    (λ e. cc),
    if_taken-ErrorLast o r id channel first w₁ _ (λ v.
        after_metrics-ErrorLast o r id channel second (metrics o r id v) _
          (stream_detail-ErrorLast o r id channel events)),
  ),
)
