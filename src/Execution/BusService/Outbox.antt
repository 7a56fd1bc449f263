-- ===== src/Execution/BusService/Outbox.antt =====
-- The outbox of packages/execution/src/autotrader/execution/bus_service.py, over any messages: what is
-- published against what happened.
use Prim.{Unit, tt}
use mathlib.Core.Path.{subst}
use kometa.Prelude.{
  ℕ, suc, ◌-◌, ◌≡◌, refl, sym, ◌∙◌, ap, String, List, [], ◌∷◌, ◌++◌, take, length, arith,
  length-append, Result, ok, err, Option, none, some,
}
use kometa.Execution.BusService.{
  BusService, Message, Stream, heartbeats, halts, control, intents, decisions, requests, handle,
  handle_all, note_message, work, flush, unsent, outbox, posted, on_om, then_flush, maybe_beat,
  maybe_remember, as_heartbeat, as_intent, remember,
}
use kometa.Execution.BusService.Covered.{work-Step, note-AllCame, handle-Step}
use kometa.Execution.BusService.Came.{Came, Inbound, AllCame, AllIn, AllIn-refl}
use kometa.Core.Models.{OrderIntent, Timeframe, Fill, Trade}
use kometa.Core.Time.{Datetime}
use kometa.Execution.Kept.{Keyed}
use kometa.Execution.World.{
  Effect, Env, World, Failure, traded, ordered, filled, saved, alerted, placing, modifying,
  cancelling, closing, rated, halting, clearing,
}
use kometa.Core.Events.{BusMessage, position_closed, order_filled}

append_assoc : {A : Type 0} (xs ys zs : List A) → (xs ++ ys) ++ zs ≡ xs ++ (ys ++ zs)
append_assoc [] ys zs = refl
append_assoc (x ∷ xs) ys zs = ap (λ r. x ∷ r) (append_assoc xs ys zs)

append_nil : {A : Type 0} (xs : List A) → xs ≡ xs ++ []
append_nil [] = refl
append_nil (x ∷ xs) = ap (λ r. x ∷ r) (append_nil xs)

outbox-append : (xs ys : List Effect) → outbox (xs ++ ys) ≡ outbox ys ++ outbox xs
unfolding outbox
outbox-append [] ys = append_nil (outbox ys)
outbox-append (x ∷ xs) ys =
    ap (λ r. r ++ posted x) (outbox-append xs ys) ∙ append_assoc (outbox ys) (outbox xs) (posted x)

take_first : {A : Type 0} (xs ys : List A) → take (length (xs ++ ys) - length ys) (xs ++ ys) ≡ xs
take_first [] ys = let e : length ys - length ys ≡ 0 = omega arith in ap (λ n. take n ys) e
take_first (x ∷ xs) ys =
    let e : suc (length (xs ++ ys)) - length ys ≡ suc (length (xs ++ ys) - length ys) =
      omega (arith, length-append xs ys) in
    ap (λ m. take m (x ∷ (xs ++ ys))) e ∙ ap (λ r. x ∷ r) (take_first xs ys)

-- What is not told on the bus.
abbrev pub IsQuiet : Effect → Type 0
IsQuiet (traded t) = ⊥
IsQuiet (ordered m) = ⊥
IsQuiet (filled f) = ⊥
IsQuiet _ = Unit

-- The messages that tell of effects, in the order in which these happened: one on its stream for each
-- trade that closed, each order event and each fill. Of the effects, the newest is first.
pub data Announces : List Effect → List (String × Message) → Type 0 where
  no_effect : Announces [] []
  a_trade :
      {es : List Effect} {out : List (String × Message)} (t : Trade)
      → Announces es out
      → Announces (traded t ∷ es) (out ++ ("trades", position_closed t.exit_time t) ∷ [])
  an_event :
      {es : List Effect} {out : List (String × Message)} (m : BusMessage String)
      → Announces es out
      → Announces (ordered m ∷ es) (out ++ ("orders", m) ∷ [])
  a_fill :
      {es : List Effect} {out : List (String × Message)} (f : Fill)
      → Announces es out
      → Announces (filled f ∷ es) (out ++ ("orders", order_filled f.filled_at f) ∷ [])
  another :
      {es : List Effect} {out : List (String × Message)} (e : Effect)
      → IsQuiet e
      → Announces es out
      → Announces (e ∷ es) out

quiet :
    (e : Effect)
    → IsQuiet e
    → (es : List Effect) {out : List (String × Message)} → Announces es out
    → Announces (e ∷ es) (out ++ [])
quiet e q es {out} h = subst (Announces (e ∷ es)) (append_nil out) (another e q h)

outbox_told : (es : List Effect) → Announces es (outbox es)
unfolding outbox posted
outbox_told [] = no_effect
outbox_told (traded t ∷ es) = a_trade t (outbox_told es)
outbox_told (ordered m ∷ es) = an_event m (outbox_told es)
outbox_told (filled f ∷ es) = a_fill f (outbox_told es)
outbox_told (saved a ∷ es) = quiet (saved a) tt es (outbox_told es)
outbox_told (alerted a b c ∷ es) = quiet (alerted a b c) tt es (outbox_told es)
outbox_told (placing a ∷ es) = quiet (placing a) tt es (outbox_told es)
outbox_told (modifying a ∷ es) = quiet (modifying a) tt es (outbox_told es)
outbox_told (cancelling a ∷ es) = quiet (cancelling a) tt es (outbox_told es)
outbox_told (closing a ∷ es) = quiet (closing a) tt es (outbox_told es)
outbox_told (rated a ∷ es) = quiet (rated a) tt es (outbox_told es)
outbox_told (halting a ∷ es) = quiet (halting a) tt es (outbox_told es)
outbox_told (clearing ∷ es) = quiet (clearing) tt es (outbox_told es)

-- All that was done is published or told nothing of: the outbox is empty.
abbrev pub IsFlushed : {B : Type 0} → BusService × World B → Type 0
IsFlushed (s, w) = s.flushed ≡ length w.effects

-- What was done since `from` is what is published, and then what still waits, each effect once.
pub record IsPublished {B : Type 0} (from to : BusService × World B) : Type 0 where
  pub done : List Effect
  pub waiting : List Effect
  pub sent : List (String × Message)
  pub grown : to.1.effects ≡ waiting ++ (done ++ from.1.effects)
  pub counted : to.0.flushed ≡ length (done ++ from.1.effects)
  pub announced : Announces done sent
  pub published : to.0.published ≡ from.0.published ++ sent

-- the same, with what the code's outbox makes of the effects
record IsPosted {B : Type 0} (p : List (String × Message)) (es : List Effect)
    (to : BusService × World B) : Type 0 where
  done : List Effect
  waiting : List Effect
  grown : to.1.effects ≡ waiting ++ (done ++ es)
  counted : to.0.flushed ≡ length (done ++ es)
  published : to.0.published ≡ p ++ outbox done

posted-IsPublished :
    {B : Type 0} (from to : BusService × World B)
    → IsPosted from.0.published from.1.effects to
    → IsPublished from to
posted-IsPublished from to h = record {
  done = h.done;
  waiting = h.waiting;
  sent = outbox h.done;
  grown = h.grown;
  counted = h.counted;
  announced = outbox_told h.done;
  published = h.published;
}

remember_same :
    (o : Option (OrderIntent × Timeframe)) (s : BusService)
    → ((maybe_remember o s).published ≡ s.published) × ((maybe_remember o s).flushed ≡ s.flushed)
unfolding remember
remember_same none s = (refl, refl)
remember_same (some (intent, tf)) s = (refl, refl)

module _ {B : Type 0} (k : Env B) (intent_id_for : String → String) where
  note_same :
      (stream : Stream) (m : Message) (s : BusService)
      → ((note_message stream m s).published ≡ s.published)
        × ((note_message stream m s).flushed ≡ s.flushed)
  unfolding note_message
  note_same heartbeats m s = beat_same (as_heartbeat m)
    where
      beat_same :
          (o : Option (String × Datetime))
          → ((maybe_beat o s).published ≡ s.published) × ((maybe_beat o s).flushed ≡ s.flushed)
      beat_same none = (refl, refl)
      beat_same (some (service, at)) = (refl, refl)
  note_same intents m s = remember_same (as_intent m) s
  note_same halts m s = (refl, refl)
  note_same control m s = (refl, refl)
  note_same decisions m s = (refl, refl)
  note_same requests m s = (refl, refl)

  -- a handler's work
  worked-IsPosted :
      (p : List (String × Message)) (es : List Effect) (s t : BusService) (new : List Effect)
      (w v : World B)
      → v.effects ≡ new ++ w.effects
      → t.published ≡ s.published
      → t.flushed ≡ s.flushed
      → IsPosted p es (s, w)
      → IsPosted p es (t, v)
  worked-IsPosted p es s t new w v grew pub_same flush_same h = record {
    done = h.done;
    waiting = new ++ h.waiting;
    grown = grew ∙ ap (λ r. new ++ r) h.grown ∙ sym (append_assoc new h.waiting (h.done ++ es));
    counted = flush_same ∙ h.counted;
    published = pub_same ∙ h.published;
  }

  -- and its end
  flushed-IsPosted :
      (p : List (String × Message)) (es : List Effect) (s : BusService) (w : World B)
      → IsPosted p es (s, w)
      → IsPosted p es (flush s w, w)
  unfolding flush
  flushed-IsPosted p es s w h = record {
    done = h.waiting ++ h.done;
    waiting = [];
    grown = all_done;
    counted = ap length all_done;
    published =
        ap (λ r. r ++ unsent w.effects s.flushed) h.published
        ∙ ap (λ r. (p ++ outbox h.done) ++ r) (unsent_waiting s.flushed w.effects h.grown h.counted)
        ∙ append_assoc p (outbox h.done) (outbox h.waiting)
        ∙ ap (λ r. p ++ r) (sym (outbox-append h.waiting h.done));
  }
    where
      all_done : w.effects ≡ (h.waiting ++ h.done) ++ es
      all_done = h.grown ∙ sym (append_assoc h.waiting h.done es)

      unsent_waiting :
          (n : ℕ) (xs : List Effect)
          → xs ≡ h.waiting ++ (h.done ++ es)
          → n ≡ length (h.done ++ es)
          → unsent xs n ≡ outbox h.waiting
      unsent_waiting n xs e c =
          ap (λ y. unsent y n) e
          ∙ ap (λ m. unsent (h.waiting ++ (h.done ++ es)) m) c
          ∙ ap outbox (take_first h.waiting (h.done ++ es))

  then_flush-IsPosted :
      {A : Type 0} (p : List (String × Message)) (es : List Effect) (s : BusService)
      (o : Result Failure A × World B)
      → IsPosted p es (s, o.1)
      → IsPosted p es (then_flush k intent_id_for (on_om s o)).1
  then_flush-IsPosted p es s (ok a, w) h = flushed-IsPosted p es s w h
  then_flush-IsPosted p es s (err e, w) h = h

  handle-IsPosted :
      (p : List (String × Message)) (es : List Effect) (ms : List Inbound) (stream : Stream)
      (m : Message) (x : BusService × World B)
      → Came (stream, m) ms
      → AllCame ms x.0.intents
      → Keyed x.1.state.orders
      → IsPosted p es x
      → IsPosted p es (handle k intent_id_for stream m x).1
  unfolding handle
  handle-IsPosted p es ms stream m (s, w) c h keyed posted_before =
      let t = note_message stream m s in
      let o = work k intent_id_for stream m t.intents w in
      let st =
        work-Step k intent_id_for ms stream m t.intents w c
          (note-AllCame k intent_id_for ms stream m s c h) keyed in
      let same = note_same stream m s in
      then_flush-IsPosted p es t o
        (worked-IsPosted p es s t st.log.0 w o.1 st.log.1.0 same.0 same.1 posted_before)

  all-IsPosted :
      (p : List (String × Message)) (es : List Effect) (ms ns : List Inbound)
      (x : BusService × World B)
      → AllIn ns ms
      → AllCame ms x.0.intents
      → Keyed x.1.state.orders
      → IsPosted p es x
      → IsPosted p es (handle_all k intent_id_for ns x)
  unfolding handle_all
  all-IsPosted p es ms [] x a h keyed i = i
  all-IsPosted p es ms ((stream, m) ∷ ns) x (c, a) h keyed i =
      let step = handle-Step k intent_id_for ms stream m x c h keyed in
      all-IsPosted p es ms ns (handle k intent_id_for stream m x).1 a step.1
        (step.0.orders.keyed keyed) (handle-IsPosted p es ms stream m x c h keyed i)

  then_flush-IsFlushed :
      {A : Type 0} (s : BusService) (o : Result Failure A × World B)
      → (then_flush k intent_id_for (on_om s o)).0 ≡ none
      → IsFlushed (then_flush k intent_id_for (on_om s o)).1
  unfolding flush
  then_flush-IsFlushed s (ok a, w) h = refl
  then_flush-IsFlushed s (err e, w) h = cc

  handle-IsFlushed :
      (stream : Stream) (m : Message) (x : BusService × World B)
      → (handle k intent_id_for stream m x).0 ≡ none
      → IsFlushed (handle k intent_id_for stream m x).1
  unfolding handle
  handle-IsFlushed stream m (s, w) h =
      then_flush-IsFlushed (note_message stream m s)
        (work k intent_id_for stream m (note_message stream m s).intents w) h

  -- Whatever messages come over the bus to a service with no cached intent and an empty outbox, with
  -- orders that stand under their own names once: of what was done since, the fills, trades and order
  -- events are published, each in one message on its stream, once and in the order in which they
  -- happened, up to a newest part that waits. And where the handler of a further message does not raise,
  -- nothing waits after it.
  pub handle_all-IsPublished :
      (ms : List Inbound) (x : BusService × World B)
      → x.0.intents ≡ []
      → Keyed x.1.state.orders
      → IsFlushed x
      → (stream : Stream) (m : Message)
      → let y = handle_all k intent_id_for ms x in
        let next = handle k intent_id_for stream m y in
        IsPublished x y × (next.0 ≡ none → IsFlushed next.1)
  unfolding outbox
  handle_all-IsPublished ms x e keyed flushed stream m = (
    posted-IsPublished x (handle_all k intent_id_for ms x) (
        all-IsPosted x.0.published x.1.effects ms ms x (AllIn-refl ms)
          (subst (AllCame ms) (sym e) tt) keyed
          (record {
            done = [];
            waiting = [];
            grown = refl;
            counted = flushed;
            published = append_nil x.0.published;
          })),
    handle-IsFlushed stream m (handle_all k intent_id_for ms x),
  )
