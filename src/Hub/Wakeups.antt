-- ===== src/Hub/Wakeups.antt =====
-- Which wake-ups a subscriber has, after any actions of the publisher and the subscribers.
use tunnel_manager.Prelude.{
  ℕ, ◌+◌, ◌<◌, ◌≢◌, ◌≡◌, ap, ◌∙◌, refl, Bool, true, false, List, [], ◌∷◌, Option, none, some, ◌==◌,
  if◌then◌else◌, arith, All,
}
use tunnel_manager.Hub.{
  Hub, remove, fill, drain, find, subscribe, cancel, publish, receive, pending,
}

pub data Action : Type 0 where
  subscribed published : Action
  cancelled received : ℕ → Action

unfoldable pub act : Hub → Action → Hub
unfolding subscribe publish cancel receive
act h subscribed = (subscribe h).0
act h published = publish h
act h (cancelled k) = cancel h k
act h (received k) = receive h k

unfoldable pub run : Hub → List Action → Hub
unfolding act
run h [] = h
run h (a ∷ as') = run (act h a) as'

-- The specification, for one channel: what an action does to its wake-up. `n` is the next number.
abbrev pub effect : ℕ → ℕ → Option Bool → Action → Option Bool
effect k n o subscribed = if n == k then some false else o
effect k n none published = none
effect k n (some full) published = some true
effect k n o (cancelled j) = if j == k then none else o
effect k n none (received j) = none
effect k n (some full) (received j) = if j == k then some false else some full

abbrev bump : ℕ → Action → ℕ
bump n subscribed = n + 1
bump n _ = n

abbrev pub history : ℕ → ℕ → Option Bool → List Action → Option Bool
history k n o [] = o
history k n o (a ∷ as') = history k (bump n a) (effect k n o a) as'

find-remove :
    (k j : ℕ) (l : List (ℕ × Bool)) → find k (remove j l) ≡ (if j == k then none else find k l)
unfolding find remove
find-remove k j [] = ground arith
find-remove k j ((i, full) ∷ l) = ground (arith, find-remove k j l)

-- A channel that is cancelled is no subscriber's.
pub pending-cancel : (h : Hub) (k : ℕ) → pending (cancel h k) k ≡ none
unfolding pending cancel
pending-cancel h k = find-remove k k h.subscribers ∙ ground arith

find-fill : (k : ℕ) (l : List (ℕ × Bool)) → find k (fill l) ≡ effect k 0 (find k l) published
unfolding find fill
find-fill k [] = refl
find-fill k ((i, full) ∷ l) = ground (arith, find-fill k l)

find-drain :
    (k j : ℕ) (l : List (ℕ × Bool)) → find k (drain j l) ≡ effect k 0 (find k l) (received j)
unfolding find drain
find-drain k j [] = refl
find-drain k j ((i, full) ∷ l) = ground (arith, find-drain k j l)

effect-published : (k n : ℕ) (o : Option Bool) → effect k 0 o published ≡ effect k n o published
effect-published k n none = refl
effect-published k n (some full) = refl

effect-received :
    (k n j : ℕ) (o : Option Bool) → effect k 0 o (received j) ≡ effect k n o (received j)
effect-received k n j none = refl
effect-received k n j (some full) = refl

pending-act : (h : Hub) (k : ℕ) (a : Action) → pending (act h a) k ≡ effect k h.next (pending h k) a
unfolding pending act
pending-act h k subscribed = ground arith
pending-act h k published =
    ground (arith, find-fill k h.subscribers, effect-published k h.next (find k h.subscribers))
pending-act h k (cancelled j) = find-remove k j h.subscribers
pending-act h k (received j) =
    ground (arith, find-drain k j h.subscribers, effect-received k h.next j (find k h.subscribers))

next-act : (h : Hub) (a : Action) → (act h a).next ≡ bump h.next a
unfolding act
next-act h subscribed = refl
next-act h published = refl
next-act h (cancelled j) = refl
next-act h (received j) = refl

-- After any actions, whether a channel is subscribed and has a wake-up to take is what its own
-- history says: subscribing makes it empty, a publish fills it, and its receive empties it.
pub pending-run :
    (h : Hub) (k : ℕ) (as' : List Action)
    → pending (run h as') k ≡ history k h.next (pending h k) as'
unfolding run
pending-run h k [] = refl
pending-run h k (a ∷ as') = rw (pending-run (act h a) k as') (rw (next-act h a, pending-act h k a))

-- Actions that leave the wake-up of channel `k` in place.
abbrev pub Leaves : ℕ → Action → Type 0
Leaves k subscribed = Unit
Leaves k published = Unit
Leaves k (cancelled j) = j ≢ k
Leaves k (received j) = j ≢ k

history_full :
    (k n : ℕ) (as' : List Action)
    → k < n
    → All (Leaves k) as'
    → history k n (some true) as' ≡ some true
history_full k n [] h l = refl
history_full k n (subscribed ∷ as') h (_, l) = ground (arith, history_full k (n + 1) as')
history_full k n (published ∷ as') h (_, l) = history_full k n as' h l
history_full k n (cancelled j ∷ as') h (d, l) = ground (arith, history_full k n as')
history_full k n (received j ∷ as') h (d, l) = ground (arith, history_full k n as')

-- A wake-up waits: once something is published, a subscribed client finds its channel full
-- whatever the other clients do, until it receives or cancels itself.
pub pending-published :
    (h : Hub) (k : ℕ) (full : Bool) (as' : List Action)
    → k < h.next
    → pending h k ≡ some full
    → All (Leaves k) as'
    → pending (run (act h published) as') k ≡ some true
pending-published h k full as' below member leaves =
    pending-run (act h published) k as'
    ∙ (ap (λ o. history k (act h published).next o as') (pending-act h k published ∙ filled)
        ∙ (rw (next-act h published) (history_full k h.next as' below leaves)))
  where
    filled : effect k h.next (pending h k) published ≡ some true
    filled = rw member refl
