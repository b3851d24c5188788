-- ===== src/Gateway/Forwarded.antt =====
-- api/gateway.py: the loop of `live_events` against a description of what it passes on and keeps.
use ecoroute_ht.Base.{
  String, ◌≡◌, refl, sym, ◌∙◌, Bool, true, false, List, ◌++◌, [], ◌∷◌, map, append_assoc,
  append-nil, Option, none, some, all,
}
use ecoroute_ht.Gateway.Live.{
  Usage, Chunks, Round, Heard, Ended, last_or, newer, hear, listen, live_events, nothing_heard,
}

-- the chunks that arrive before anything else happens
unfoldable pub received : {Chunk : Type 0} → List (Round Chunk) → List Chunk
received [] = []
received (Round.receives chunk ∷ rounds) = chunk ∷ received rounds
received (Round.hung_up ∷ rounds) = []
received (Round.cancelled ∷ rounds) = []
received (Round.broken ∷ rounds) = []
received (Round.closed ∷ rounds) = []

abbrev pub is_receipt : {Chunk : Type 0} → Round Chunk → Bool
is_receipt (Round.receives chunk) = true
is_receipt _ = false

abbrev pub is_finished : {Chunk : Type 0} → Ended Chunk → Bool
is_finished (Ended.finished h) = true
is_finished (Ended.stopped failure h) = false
is_finished (Ended.abandoned h) = false

abbrev pub heard_by : {Chunk : Type 0} → Ended Chunk → Heard Chunk
heard_by (Ended.finished h) = h
heard_by (Ended.stopped failure h) = h
heard_by (Ended.abandoned h) = h

unfoldable pub flat_map : {X Y : Type 0} → (X → List Y) → List X → List Y
flat_map f [] = []
flat_map f (x ∷ xs) = f x ++ flat_map f xs

unfoldable pub last_usage : {X : Type 0} → (X → Option Usage) → List X → Option Usage
last_usage f [] = none
last_usage f (x ∷ xs) = newer (f x) (last_usage f xs)

newer_assoc : {X : Type 0} (a b c : Option X) → newer (newer a b) c ≡ newer a (newer b c)
newer_assoc a b none = refl
newer_assoc a b (some x) = refl

last_or-append :
    (s : String) (xs ys : List String) → last_or s (xs ++ ys) ≡ last_or (last_or s xs) ys
unfolding last_or
last_or-append s [] ys = refl
last_or-append s (x ∷ xs) ys = last_or-append x xs ys

module _ {Chunk Completion : Type 0} (chunks : Chunks Chunk Completion) (model : String) where
  -- What is kept of chunks that were passed on, after what was kept before.
  unfoldable pub keeping : Heard Chunk → List Chunk → Heard Chunk
  unfolding last_or flat_map last_usage
  keeping h cs = record {
    content_parts = h.content_parts ++ flat_map chunks.contents cs;
    finish_reason = last_or h.finish_reason (flat_map chunks.finish_reasons cs);
    upstream_usage = newer h.upstream_usage (last_usage chunks.usage cs);
    sent = h.sent ++ cs;
  }

  keeping-nil : (h : Heard Chunk) → keeping h [] ≡ h
  unfolding keeping flat_map last_usage last_or
  keeping-nil h = simp (append-nil) refl

  keeping-hear :
      (c : Chunk) (h : Heard Chunk) (cs : List Chunk)
      → keeping (hear chunks model c h) cs ≡ keeping h (chunks.set_model model c ∷ cs)
  unfolding keeping hear flat_map last_usage
  keeping-hear c h cs = simp (append_assoc, last_or-append, newer_assoc) refl

  listen-heard :
      (h : Heard Chunk) (rounds : List (Round Chunk))
      → heard_by (listen chunks model h rounds)
        ≡ keeping h (map (chunks.set_model model) (received rounds))
  unfolding listen received
  listen-heard h [] = sym (keeping-nil h)
  listen-heard h (Round.hung_up ∷ rounds) = sym (keeping-nil h)
  listen-heard h (Round.cancelled ∷ rounds) = sym (keeping-nil h)
  listen-heard h (Round.broken ∷ rounds) = sym (keeping-nil h)
  listen-heard h (Round.closed ∷ rounds) = sym (keeping-nil h)
  listen-heard h (Round.receives c ∷ rounds) =
      listen-heard (hear chunks model c h) rounds ∙ keeping-hear c h _

  listen-finished :
      (h : Heard Chunk) (rounds : List (Round Chunk))
      → is_finished (listen chunks model h rounds) ≡ all is_receipt rounds
  unfolding listen all
  listen-finished h [] = refl
  listen-finished h (Round.hung_up ∷ rounds) = refl
  listen-finished h (Round.cancelled ∷ rounds) = refl
  listen-finished h (Round.broken ∷ rounds) = refl
  listen-finished h (Round.closed ∷ rounds) = refl
  listen-finished h (Round.receives c ∷ rounds) = listen-finished (hear chunks model c h) rounds

  -- A client that stays is sent the first chunk and those that arrive before a cancellation, a failure,
  -- the client's leaving or the closing of the generator, in their order, each under the requested model. The content is that of
  -- their deltas, and the finish reason and the usage are the last that they gave. The stream is
  -- finished exactly when nothing but chunks arrived.
  pub live_events-keeping :
      (first : Chunk) (rounds : List (Round Chunk))
      → (heard_by (live_events chunks model false first rounds)
          ≡ keeping nothing_heard (map (chunks.set_model model) (first ∷ received rounds)))
        × (is_finished (live_events chunks model false first rounds) ≡ all is_receipt rounds)
  unfolding live_events
  live_events-keeping first rounds = (
    listen-heard (hear chunks model first nothing_heard) rounds
        ∙ keeping-hear first nothing_heard _,
    listen-finished (hear chunks model first nothing_heard) rounds,
  )
