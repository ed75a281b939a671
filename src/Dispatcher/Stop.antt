-- ===== src/Dispatcher/Stop.antt =====
-- The end of the dispatcher's loop, which `Dispatcher::stop` asks for through the terminator.
use yeti_lnp_resolver.Base.{
  ◌≡◌, refl, sym, ap, ◌∙◌, ◌⊎◌, inl, inr, Bool, true, false, List, [], ◌∷◌, ◌++◌, ℤ, Bool-cases,
  All,
}
use yeti_lnp_resolver.EventHandler.{Events, is_can_handle}
use yeti_lnp_resolver.Dispatcher.{
  Event, Handler, Wait, failed, interrupted, ready, dispatch, handle_events, round, loop,
  LoopTerminator, terminate, all_beside,
}
use yeti_lnp_resolver.Dispatcher.Owner.{Declines}

module _ {S : Type 0} (hs : List (Handler S)) where
  handle_events-stopped : (es : List Event) (s : S) → handle_events hs es (s, true) ≡ (s, true)
  unfolding handle_events
  handle_events-stopped [] s = refl
  handle_events-stopped (e ∷ es) s = refl

  loop-stopped : (xs : List Wait) (s : S) → loop hs xs (s, true) ≡ (s, true)
  unfolding loop
  loop-stopped [] s = refl
  loop-stopped (x ∷ xs) s = refl

  handle_events-append :
      (es more : List Event) (w : S × Bool)
      → handle_events hs (es ++ more) w ≡ handle_events hs more (handle_events hs es w)
  unfolding handle_events
  handle_events-append [] more w = refl
  handle_events-append (e ∷ es) more (s, true) = sym (handle_events-stopped more s)
  handle_events-append (e ∷ es) more (s, false) = handle_events-append es more _

  loop-append :
      (xs more : List Wait) (w : S × Bool) → loop hs (xs ++ more) w ≡ loop hs more (loop hs xs w)
  unfolding loop
  loop-append [] more w = refl
  loop-append (x ∷ xs) more (s, true) = sym (loop-stopped more s)
  loop-append (x ∷ xs) more (s, false) = loop-append xs more _

-- What the handlers beside the terminator keep of their state.
abbrev pub Keeps : {S : Type 0} → (S → Type 0) → Handler S → Type 0
Keeps {S} I h = (fd : ℤ) (ev : Events) (s : S) → I s → I (h.handle_event fd ev (s, false)).0

module _ {S K : Type 0} (I : S → Type 0) (t : LoopTerminator K) where
  -- The loop is over, or the terminator is as it was and the others keep their invariant.
  abbrev Runs : (S × LoopTerminator K) × Bool → Type 0
  Runs w = (w.1 ≡ true) ⊎ ((w.1 ≡ false) × (w.0.1 ≡ t) × I w.0.0)

  running : (s : S) (b : Bool) → I s → Runs ((s, t), b)
  running s true i = inl refl
  running s false i = inr (refl, refl, i)

  dispatch-Runs :
      (e : Event) (hs : List (Handler S)) (s : S)
      → All (Keeps I) hs
      → I s
      → Runs (dispatch e (all_beside hs) ((s, t), false))
  unfolding dispatch terminate
  dispatch-Runs e [] s keeps i = elim (Bool-cases (is_can_handle e.fd e.events t.base.events_map)) [
    | inl able ↦ rw able (inl refl)
    | inr not_able ↦ rw not_able (running s false i)
  ]
  dispatch-Runs e (h ∷ hs) s keeps i =
      elim (Bool-cases (is_can_handle e.fd e.events (h.events_of s))) [
        | inl able ↦ rw able (running _ _ (keeps.0 e.fd e.events s i))
        | inr not_able ↦ rw not_able (dispatch-Runs e hs s keeps.1 i)
      ]

  -- The terminator gets its event, as no other handler can handle it.
  dispatch-terminator :
      (e : Event) (hs : List (Handler S)) (s : S)
      → is_can_handle e.fd e.events t.base.events_map ≡ true
      → All (Declines e s) hs
      → (dispatch e (all_beside hs) ((s, t), false)).1 ≡ true
  unfolding dispatch terminate
  dispatch-terminator e [] s able declined = rw able refl
  dispatch-terminator e (h ∷ hs) s able declined =
      rw declined.0 (dispatch-terminator e hs s able declined.1)

module _ {S K : Type 0} (I : S → Type 0) (hs : List (Handler S)) (t : LoopTerminator K)
    (keeps : All (Keeps I) hs) where
  handle_events-Runs :
      (es : List Event) (s : S) (u : LoopTerminator K) (b : Bool)
      → Runs I t ((s, u), b)
      → Runs I t (handle_events (all_beside hs) es ((s, u), b))
  unfolding handle_events
  handle_events-Runs [] s u b r = r
  handle_events-Runs (e ∷ es) s u true r = r
  handle_events-Runs (e ∷ es) s u false (inl over) = cc
  handle_events-Runs (e ∷ es) s u false (inr (_, same, i)) =
      let d = dispatch e (all_beside hs) ((s, u), false) in
      handle_events-Runs es d.0.0 d.0.1 d.1 (rw same (dispatch-Runs I t e hs s keeps i))

  round-Runs :
      (x : Wait) (s : S) (u : LoopTerminator K) (b : Bool)
      → Runs I t ((s, u), b)
      → Runs I t (round (all_beside hs) x ((s, u), b))
  unfolding round
  round-Runs failed s u b r = r
  round-Runs interrupted s u b r = r
  round-Runs (ready es) s u b r = handle_events-Runs es s u b r

  loop-Runs :
      (xs : List Wait) (s : S) (u : LoopTerminator K) (b : Bool)
      → Runs I t ((s, u), b)
      → Runs I t (loop (all_beside hs) xs ((s, u), b))
  unfolding loop
  loop-Runs [] s u b r = r
  loop-Runs (x ∷ xs) s u true r = r
  loop-Runs (x ∷ xs) s u false r =
      let d = round (all_beside hs) x ((s, u), false) in
      loop-Runs xs d.0.0 d.0.1 d.1 (round-Runs x s u false r)

  module _ (e : Event) (able : is_can_handle e.fd e.events t.base.events_map ≡ true)
      (excludes : (s : S) → I s → All (Declines e s) hs) where
    -- The events behind the terminator's are not handled.
    handle_events-terminator :
        (more : List Event) (s : S) (u : LoopTerminator K) (b : Bool)
        → Runs I t ((s, u), b)
        → (handle_events (all_beside hs) (e ∷ more) ((s, u), b)
            ≡ handle_events (all_beside hs) (e ∷ []) ((s, u), b))
          × ((handle_events (all_beside hs) (e ∷ []) ((s, u), b)).1 ≡ true)
    unfolding handle_events
    handle_events-terminator more s u true r = (refl, refl)
    handle_events-terminator more s u false (inl over) = cc
    handle_events-terminator more s u false (inr (_, same, i)) =
        let d = dispatch e (all_beside hs) ((s, u), false) in
        let over : d.1 ≡ true = rw same (dispatch-terminator I t e hs s able (excludes s i)) in
        (ended more d.0 d.1 over, over)
      where
        ended :
            (es : List Event) (w : S × LoopTerminator K) (b : Bool)
            → b ≡ true
            → handle_events (all_beside hs) es (w, b) ≡ (w, b)
        ended es w true h = handle_events-stopped (all_beside hs) es w
        ended es w false h = cc

    round-terminator :
        (es more : List Event) (rest : List Wait) (s : S) (u : LoopTerminator K) (b : Bool)
        → Runs I t ((s, u), b)
        → (loop (all_beside hs) (ready (es ++ (e ∷ more)) ∷ rest) ((s, u), b)
            ≡ loop (all_beside hs) (ready (es ++ (e ∷ [])) ∷ []) ((s, u), b))
          × ((loop (all_beside hs) (ready (es ++ (e ∷ [])) ∷ []) ((s, u), b)).1 ≡ true)
    unfolding loop round
    round-terminator es more rest s u true r = (refl, refl)
    round-terminator es more rest s u false r =
        let all = all_beside hs in
        let d = handle_events all es ((s, u), false) in
        let last =
          handle_events-terminator more d.0.0 d.0.1 d.1 (handle_events-Runs es s u false r) in
        let split_last = handle_events-append all es (e ∷ []) ((s, u), false) in
        let over : (handle_events all (es ++ (e ∷ [])) ((s, u), false)).1 ≡ true =
          ap (λ w. w.1) split_last ∙ last.1 in
        let same =
          handle_events-append all es (e ∷ more) ((s, u), false) ∙ last.0 ∙ sym split_last in
        (ap (λ w. loop all rest w) same ∙ returned rest _ _ over, over)
      where
        returned :
            (xs : List Wait) (w : S × LoopTerminator K) (b : Bool)
            → b ≡ true
            → loop (all_beside hs) xs (w, b) ≡ (w, b)
        returned xs w true h = loop-stopped (all_beside hs) xs w
        returned xs w false h = cc

    -- Once epoll reports the terminator's event, the dispatcher's loop returns, and the events
    -- behind it are not handled, neither in that round nor later: if the terminator is linked for
    -- the event, and the other handlers keep an invariant under which they cannot handle it.
    pub loop-terminates :
        (waits : List Wait) (es more : List Event) (rest : List Wait) (s : S)
        → I s
        → (loop (all_beside hs) (waits ++ (ready (es ++ (e ∷ more)) ∷ rest)) ((s, t), false)
            ≡ loop (all_beside hs) (waits ++ (ready (es ++ (e ∷ [])) ∷ [])) ((s, t), false))
          × ((loop (all_beside hs) (waits ++ (ready (es ++ (e ∷ [])) ∷ [])) ((s, t), false)).1
              ≡ true)
    loop-terminates waits es more rest s i =
        let all = all_beside hs in
        let w = loop all waits ((s, t), false) in
        let last =
          round-terminator es more rest w.0.0 w.0.1 w.1
            (loop-Runs waits s t false (running I t s false i)) in
        let cut = loop-append all waits (ready (es ++ (e ∷ [])) ∷ []) ((s, t), false) in
        (
          loop-append all waits (ready (es ++ (e ∷ more)) ∷ rest) ((s, t), false)
              ∙ last.0
              ∙ sym cut,
          ap (λ v. v.1) cut ∙ last.1,
        )
