-- ===== src/Core/Bus/Groups.antt =====
-- What the groups of packages/core/src/autotrader/core/bus.py get, with others at the bus.
use Prim.{tt}
use mathlib.Core.Path.{subst}
use kometa.Prelude.{
  Option, none, some, ok, inr, inl, Bool-cases, ℕ, ◌≤◌, ◌≡◌, ◌∙◌, refl, sym, ap, String, List, [],
  ◌∷◌, ◌++◌, Result, length, take, drop, nat_eq, string_eq, pair_eq, if◌then◌else◌, ◌==◌,
}
use kometa.Core.Bus.{Bus, empty_bus, publish, read, ack}
use kometa.Core.Bus.Reading.{read-HasRead}
use kometa.Core.Bus.Holding.{
  handed, HasGot, HasGot-sent, sent_with, log_with, published-HasGot, given_now, read-HasGot,
  confirmed-HasGot,
}
use kometa.Core.Bus.Slices.{append_nil, append_assoc}
use kometa.Core.Bus.Decoding.{messages}

-- What services do with the bus.
pub data Use (Msg : Type 0) : Type 0 where
  send : (stream : String) → Msg → Use Msg
  get : (reader : String × String) (count : ℕ) → Use Msg
  confirm : (reader : String × String) (mids : List ℕ) → Use Msg

-- the messages that are sent to a stream
unfoldable pub sent_to : {Msg : Type 0} → String → List (Use Msg) → List Msg
sent_to s [] = []
sent_to s (send stream m ∷ us) = let rest = sent_to s us in if stream == s then m ∷ rest else rest
sent_to s (u ∷ us) = sent_to s us

module _ {Raw Msg : Type 0} (encode : Msg → Raw) (decode : Raw → Result String Msg) where
  unfoldable pub perform : Use Msg → Bus Raw Msg → Bus Raw Msg
  perform (send stream msg) b = (publish encode stream msg b).1
  perform (get reader count) b = (read decode reader count b).1
  perform (confirm reader mids) b = ack reader mids b

  -- what a use of the bus gives to a group of a stream
  unfoldable pub given : String × String → Use Msg → Bus Raw Msg → List Msg
  given k (get reader count) b = if reader == k then handed (read decode reader count b).0 else []
  given k _ b = []

  unfoldable pub perform_all : List (Use Msg) → Bus Raw Msg → Bus Raw Msg
  perform_all [] b = b
  perform_all (u ∷ us) b = perform_all us (perform u b)

  unfoldable pub all_given : String × String → List (Use Msg) → Bus Raw Msg → List Msg
  all_given k [] b = []
  all_given k (u ∷ us) b = given k u b ++ all_given k us (perform u b)

  -- some log goes with what was sent and got
  abbrev Got : String × String → (String → List Msg) → List Msg → Bus Raw Msg → Type 0
  Got k sent got b = (log : ℕ → Option Msg) × HasGot encode decode k log sent got b

  abbrev and_sent : (String → List Msg) → List (Use Msg) → String → List Msg
  and_sent sent us s = sent s ++ sent_to s us

  sent_first :
      (sent : String → List Msg) (stream : String) (msg : Msg) (us : List (Use Msg)) (s : String)
      → (if stream == s then sent s ++ msg ∷ [] else sent s) ++ sent_to s us
        ≡ and_sent sent (send stream msg ∷ us) s
  unfolding sent_to
  sent_first sent stream msg us s = elim (Bool-cases (stream == s)) [
    | inl e ↦
        ap (λ c. (if c then sent s ++ msg ∷ [] else sent s) ++ sent_to s us) e
        ∙ append_assoc (sent s) (msg ∷ []) (sent_to s us)
        ∙ sym (ap (λ c. sent s ++ (if c then msg ∷ sent_to s us else sent_to s us)) e)
    | inr e ↦
        ap (λ c. (if c then sent s ++ msg ∷ [] else sent s) ++ sent_to s us) e
        ∙ sym (ap (λ c. sent s ++ (if c then msg ∷ sent_to s us else sent_to s us)) e)
  ]

  module _ (back : (m : Msg) → decode (encode m) ≡ ok m) where
    perform_all-Got :
        (k : String × String) (us : List (Use Msg)) (sent : String → List Msg) (got : List Msg)
        (b : Bus Raw Msg)
        → Got k sent got b
        → Got k (and_sent sent us) (got ++ all_given k us b) (perform_all us b)
    unfolding perform_all all_given perform given sent_to
    perform_all-Got k [] sent got b (log, h) = (
      log,
      subst (λ g. HasGot encode decode k log (and_sent sent []) g b) (sym (append_nil got))
          (HasGot-sent encode decode k log sent (and_sent sent []) got b
            (λ s. sym (append_nil (sent s))) h),
    )
    perform_all-Got k (send stream msg ∷ us) sent got b (log, h) =
        let (later, end) =
          perform_all-Got k us (sent_with encode decode k log sent got b h stream msg) got
            (publish encode stream msg b).1
            (
              log_with encode decode k log sent got b h stream msg,
              published-HasGot encode decode k log sent got b h stream msg,
            ) in
        (
          later,
          HasGot-sent encode decode k later _ (and_sent sent (send stream msg ∷ us)) _ _
              (sent_first sent stream msg us) end,
        )
    perform_all-Got k (get reader count ∷ us) sent got b (log, h) =
        let now = given_now encode decode k log sent got b h back reader count in
        let (later, end) =
          perform_all-Got k us sent (got ++ now) (read decode reader count b).1
            (log, read-HasGot encode decode k log sent got b h back reader count) in
        (
          later,
          subst
              (λ g.
                HasGot encode decode k later (and_sent sent us) g
                  (perform_all us (read decode reader count b).1))
              (append_assoc got now (all_given k us (read decode reader count b).1)) end,
        )
    perform_all-Got k (confirm reader mids ∷ us) sent got b (log, h) =
        let (later, end) =
          perform_all-Got k us sent (got ++ []) (ack reader mids b)
            (log, confirmed-HasGot encode decode k log sent got b h reader mids) in
        (
          later,
          subst
              (λ g.
                HasGot encode decode k later (and_sent sent us) g
                  (perform_all us (ack reader mids b)))
              (append_assoc got [] (all_given k us (ack reader mids b))) end,
        )

    empty-Got : (k : String × String) → Got k (λ s. []) [] empty_bus
    empty-Got k = (
      λ mid. none,
      record {
        told = λ s. tt;
        known = λ mid m e. e;
        numbered = λ mid m e. none_logged m e;
        at = refl;
        first = refl;
      },
    )
      where
        none_logged : {n : ℕ} (m : Msg) → none ≡ some m → n ≤ 0
        none_logged m e = cc

    -- Whatever services have done with a new bus, this group and others: the messages that its reads
    -- have handed to a group are the first ones that were sent to its stream, in their order, each once;
    -- and a read that it does next succeeds and hands it the ones after these, as many as it asks for or
    -- as there are. JSON gives back the messages that were written.
    pub read_in_order :
        (k : String × String) (us : List (Use Msg)) (count : ℕ)
        → let b = perform_all us empty_bus in
          let got = all_given k us empty_bus in
          let sent = sent_to k.0 us in
          (got ≡ take (length got) sent)
          × ((out : List (ℕ × Msg)) × ((read decode k count b).0 ≡ ok out)
              × (messages out ≡ take count (drop (length got) sent)))
    read_in_order k us count =
        let (log, h) = perform_all-Got k us (λ s. []) [] empty_bus (empty-Got k) in
        let sent = sent_to k.0 us in
        let r =
          read-HasRead encode decode back log sent k count (perform_all us empty_bus) (h.told k.0)
            h.known in
        (h.first, (r.out, r.result, r.are ∙ ap (λ c. take count (drop c sent)) h.at))
