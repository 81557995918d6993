-- ===== src/Api/Streams.antt =====
-- internal/application/api/route/domain/stream.go and detail_stream.go: the event streams, from the
-- subscription to its end. What others do to the world while a stream waits is an argument.
pub mod Subscription
mod Tests
use tunnel_manager.Prelude.{
  ℕ, Bool, true, false, List, [], ◌∷◌, Option, none, some, Result, ok, err, Error, errors_is,
  error_text, not_found, if◌then◌else◌,
}
use tunnel_manager.Prelude.Text.{Bytes, codes, text_eq}
use tunnel_manager.Model.{Domain}
use tunnel_manager.Hub
use tunnel_manager.LogBuf
use tunnel_manager.LogBuf.{Buffer}
use tunnel_manager.Pagination.{ListDomainRequest}
use tunnel_manager.Service.World.{Outside, World, Run}
use tunnel_manager.Service.Reading.{Readers, list_domains, logs, metrics, subscribe_logs}
use tunnel_manager.Api.{Reply, reply, failure, nothing, write_get_err}

-- What is written to a stream: an event with its payload, or a comment.
pub data Frame : Type 0 where
  domains_frame : List Domain → Bytes → Frame
  logs_frame : List Bytes → Frame
  metrics_frame : Bytes → Frame
  metrics_error error_frame heartbeat_frame : Frame

-- What `select` finds ready. A list of these ends when the client has left.
pub data Ready : Type 0 where
  update tick heartbeat : Ready

-- Each comes after what the others have done meanwhile, and the Boolean is whether the client takes
-- what is then written.
pub record Event : Type 0 where
  pub meanwhile : World → World
  pub ready : Ready
  pub taken : Bool

-- The status and the body before the stream, and what was written to the stream.
abbrev pub Streamed : Type 0
Streamed = Reply × List Frame

-- `Subscribe` of internal/services/domain/notify.go, and the function that it returns.
abbrev pub subscribe : World → World × ℕ
subscribe w = (record w { hub = (Hub.subscribe w.hub).0 }, (Hub.subscribe w.hub).1)

abbrev pub unsubscribe : ℕ → World → World
unsubscribe channel w = record w { hub = Hub.cancel w.hub channel }

abbrev pub took : ℕ → World → World
took channel w = record w { hub = Hub.receive w.hub channel }

abbrev pub more : Frame → World × List Frame → World × List Frame
more f (w, fs) = (w, f ∷ fs)

-- A failed listing ends the stream; errors of writing are passed over, here and in gin's `SSEvent`.
abbrev pub relisted :
    World × Result (List Domain × Bytes) → (World → World × List Frame) → World × List Frame
relisted (w, err e) go = (w, error_frame ∷ [])
relisted (w, ok (items, cursor)) go = more (domains_frame items cursor) (go w)

-- One round of the loop, `go` being the next ones. A list stream has no metrics, so that a tick does
-- nothing to it.
abbrev pub turn :
    Outside
    → Readers
    → ListDomainRequest
    → ℕ
    → Ready
    → World
    → (World → World × List Frame)
    → World × List Frame
turn o r req channel update w go = relisted (list_domains o r req (took channel w)) go
turn o r req channel heartbeat w go = more heartbeat_frame (go w)
turn o r req channel tick w go = go w

pub stream_domains :
    Outside → Readers → ListDomainRequest → ℕ → List Event → World → World × List Frame
stream_domains o r req channel [] w = (w, [])
stream_domains o r req channel (e ∷ es) w =
    turn o r req channel e.ready (e.meanwhile w) (stream_domains o r req channel es)

abbrev pub started : Reply
started = reply 200 nothing

-- The first frame is written in any case: gin leaves it out for a client that has gone before, who
-- would not receive it.
abbrev pub opened :
    ℕ → World × Result (List Domain × Bytes) → (World → World × List Frame) → World × Streamed
opened channel (w, err e) go =
    (unsubscribe channel w, (reply 500 (failure (codes "internal server error")), []))
opened channel (w, ok (items, cursor)) go =
    (unsubscribe channel (go w).0, (started, domains_frame items cursor ∷ (go w).1))

unfoldable pub serve_stream :
    Outside → Readers → Result ListDomainRequest → List Event → World → World × Streamed
unfolding stream_domains
serve_stream o r (err e) events w = (w, (reply 400 (failure (error_text e)), []))
serve_stream o r (ok req) events w =
    let (w', channel) = subscribe w in
    opened channel (list_domains o r req w') (stream_domains o r req channel events)

-- The buffer of a domain, changed. It is the one that the handler has subscribed to: a buffer leaves
-- the map only when its domain is deleted, and no identifier is used again.
abbrev pub on_buffer : Bytes → (Buffer → Buffer) → World → World
on_buffer id f w = record w {
  logs =
      λ j. if text_eq id j then elim (w.logs j) [ none ↦ none | some b ↦ some (f b) ] else w.logs j;
}

abbrev pub metrics_or_error : Result Bytes → Frame
metrics_or_error (ok text) = metrics_frame text
metrics_or_error (err e) = metrics_error

-- The rest of the stream, if the client took what was written.
abbrev pub if_taken : Bool → World → (World → World × List Frame) → World × List Frame
if_taken true w go = go w
if_taken false w go = (w, [])

abbrev pub after_metrics :
    Bool → World × Result Bytes → (World → World × List Frame) → World × List Frame
after_metrics taken (w, m) go = more (metrics_or_error m) (if_taken taken w go)

abbrev pub after_logs :
    Bool → World × Result (List Bytes) → (World → World × List Frame) → World × List Frame
after_logs taken (w, err e) go = (w, error_frame ∷ [])
after_logs taken (w, ok lines) go = more (logs_frame lines) (if_taken taken w go)

abbrev pub took_log : Bytes → ℕ → World → World
took_log id channel = on_buffer id (λ b. record b { hub = Hub.receive b.hub channel })

abbrev pub turn_detail :
    Outside
    → Readers
    → Bytes
    → ℕ
    → Ready
    → Bool
    → World
    → (World → World × List Frame)
    → World × List Frame
turn_detail o r id channel update taken w go =
    after_logs taken (logs o id (took_log id channel w)) go
turn_detail o r id channel tick taken w go = after_metrics taken (metrics o r id w) go
turn_detail o r id channel heartbeat taken w go = more heartbeat_frame (if_taken taken w go)

pub stream_detail : Outside → Readers → Bytes → ℕ → List Event → World → World × List Frame
stream_detail o r id channel [] w = (w, [])
stream_detail o r id channel (e ∷ es) w =
    turn_detail o r id channel e.ready e.taken (e.meanwhile w) (stream_detail o r id channel es)

unfoldable pub detail_err : Error → Reply
detail_err e =
    if errors_is e not_found
    then write_get_err e
    else reply 500 (failure (codes "internal server error"))

-- The logs, then the metrics, then the loop; `first` and `second` are whether the client takes the
-- first two frames.
abbrev pub frames_of :
    Outside
    → Readers
    → Bytes
    → Bool
    → Bool
    → List Event
    → List Bytes
    → ℕ
    → World
    → World × List Frame
frames_of o r id first second events lines channel w = more (logs_frame lines) (
    if_taken first w
      (λ v. after_metrics second (metrics o r id v) (stream_detail o r id channel events)))

abbrev pub detailed :
    Outside
    → Readers
    → Bytes
    → Bool
    → Bool
    → List Event
    → World × Result (List Bytes × ℕ)
    → World × Streamed
detailed o r id first second events (w, err e) = (w, (detail_err e, []))
detailed o r id first second events (w, ok (lines, channel)) =
    let (w', frames) = frames_of o r id first second events lines channel w in
    (on_buffer id (λ b. LogBuf.cancel b channel) w', (started, frames))

unfoldable pub serve_detail :
    Outside → Readers → Bytes → Bool → Bool → List Event → World → World × Streamed
unfolding detail_err stream_detail
serve_detail o r id first second events w =
    detailed o r id first second events (subscribe_logs o id w)
