-- ===== src/Core/Bus/Holding.antt =====
-- How each use of packages/core/src/autotrader/core/bus.py keeps what a group has got.
use mathlib.Core.Path.{subst}
use kometa.Prelude.Dict.{get_or}
use kometa.Prelude.{
  Option, some, ok, err, length-append, inr, inl, Bool-cases, ℕ, ◌+◌, ◌≤◌, ◌≡◌, ◌∙◌, sym, ap, suc,
  String, List, [], ◌∷◌, ◌++◌, Result, arith, length, take, drop, nat_eq, string_eq, pair_eq,
  if◌then◌else◌, ◌==◌, beq_refl,
}
use kometa.Core.Bus.{Bus, rows, cursor_of, publish, read, ack}
use kometa.Core.Bus.Reading.{HasRead, read-HasRead}
use kometa.Core.Bus.Slices.{append_nil, take_append, take_more, length-take, get_or-insert}
use kometa.Core.Bus.Decoding.{messages, Told, Known, Told-snoc, Told-later}

-- what a read hands out
abbrev pub handed : {Msg : Type 0} → Result String (List (ℕ × Msg)) → List Msg
handed (ok out) = messages out
handed (err e) = []

module _ {Raw Msg : Type 0} (encode : Msg → Raw) (decode : Raw → Result String Msg) where
  -- The streams hold what was sent, `log` says which message has a number, and the group has got the
  -- first messages of its stream, up to its cursor.
  pub record HasGot (k : String × String) (log : ℕ → Option Msg) (sent : String → List Msg)
      (got : List Msg) (b : Bus Raw Msg) : Type 0 where
    pub told : (s : String) → Told encode log (rows s b) (sent s)
    pub known : Known encode log b.decoded
    pub numbered : (mid : ℕ) (m : Msg) → log mid ≡ some m → mid ≤ b.seq
    pub at : cursor_of k b ≡ length got
    pub first : got ≡ take (length got) (sent k.0)

  first-within : (got sent : List Msg) → got ≡ take (length got) sent → length got ≤ length sent
  first-within got sent e = omega (arith, ap length e, length-take (length got) sent)

  pub HasGot-sent :
      (k : String × String) (log : ℕ → Option Msg) (sent more : String → List Msg) (got : List Msg)
      (b : Bus Raw Msg)
      → ((s : String) → sent s ≡ more s)
      → HasGot k log sent got b
      → HasGot k log more got b
  HasGot-sent k log sent more got b e h = record {
    told = λ s. subst (Told encode log (rows s b)) (e s) (h.told s);
    known = h.known;
    numbered = h.numbered;
    at = h.at;
    first = h.first ∙ ap (take (length got)) (e k.0);
  }

  module _ (k : String × String) (log : ℕ → Option Msg) (sent : String → List Msg) (got : List Msg)
      (b : Bus Raw Msg) (h : HasGot k log sent got b) where
    module _ (stream : String) (msg : Msg) where
      abbrev pub log_with : ℕ → Option Msg
      log_with mid = if suc b.seq == mid then some msg else log mid

      abbrev pub sent_with : String → List Msg
      sent_with s = if stream == s then sent s ++ msg ∷ [] else sent s

      still_logged : (mid : ℕ) (m : Msg) → log mid ≡ some m → log_with mid ≡ some m
      still_logged mid m e = elim (Bool-cases (suc b.seq == mid)) [
        | inl same ↦
            elim (too_high (h.numbered mid m e) ((nat_eq.beq_iff (suc b.seq) mid).0 same)) [ ]
        | inr other ↦ ap (λ c. if c then some msg else log mid) other ∙ e
      ]
        where
          too_high : mid ≤ b.seq → suc b.seq ≡ mid → ⊥
          too_high p q = omega arith

      new_logged : log_with (suc b.seq) ≡ some msg
      new_logged = ap (λ c. if c then some msg else log (suc b.seq)) (beq_refl (suc b.seq))

      abbrev grown_rows : String → List (ℕ × Raw)
      grown_rows s = if stream == s then rows stream b ++ (suc b.seq, encode msg) ∷ [] else rows s b

      grown-Told : (s : String) → Told encode log_with (grown_rows s) (sent_with s)
      grown-Told s = elim (Bool-cases (stream == s)) [
        | inl same ↦
            subst
              (λ c.
                Told encode log_with
                  (if c then rows stream b ++ (suc b.seq, encode msg) ∷ [] else rows s b)
                  (if c then sent s ++ msg ∷ [] else sent s))
              (sym same)
              (Told-snoc encode log_with (rows stream b) (sent s) (suc b.seq) msg
                (Told-later encode log log_with still_logged (rows stream b) (sent s) (
                  subst (λ x. Told encode log (rows x b) (sent s))
                    (sym ((string_eq.beq_iff stream s).0 same)) (h.told s)))
                new_logged)
        | inr other ↦
            subst
              (λ c.
                Told encode log_with
                  (if c then rows stream b ++ (suc b.seq, encode msg) ∷ [] else rows s b)
                  (if c then sent s ++ msg ∷ [] else sent s))
              (sym other)
              (Told-later encode log log_with still_logged (rows s b) (sent s) (h.told s))
      ]

      numbered_with : (mid : ℕ) (m : Msg) → log_with mid ≡ some m → mid ≤ suc b.seq
      numbered_with mid m e = elim (Bool-cases (suc b.seq == mid)) [
        | inl same ↦ is_it ((nat_eq.beq_iff (suc b.seq) mid).0 same)
        | inr other ↦
            before_it (h.numbered mid m (sym (ap (λ c. if c then some msg else log mid) other) ∙ e))
      ]
        where
          is_it : suc b.seq ≡ mid → mid ≤ suc b.seq
          is_it p = omega arith

          before_it : mid ≤ b.seq → mid ≤ suc b.seq
          before_it p = omega arith

      first_with : got ≡ take (length got) (sent_with k.0)
      first_with = elim (Bool-cases (stream == k.0)) [
        | inl same ↦
            h.first
            ∙ sym (
                take_append (length got) (sent k.0) (msg ∷ [])
                  (first-within got (sent k.0) h.first))
            ∙ sym (ap (λ c. take (length got) (if c then sent k.0 ++ msg ∷ [] else sent k.0)) same)
        | inr other ↦
            h.first
            ∙ sym (ap (λ c. take (length got) (if c then sent k.0 ++ msg ∷ [] else sent k.0)) other)
      ]

      pub published-HasGot : HasGot k log_with sent_with got (publish encode stream msg b).1
      unfolding publish
      published-HasGot = record {
        told = λ s.
            subst (λ r. Told encode log_with r (sent_with s))
              (sym (
                get_or-insert s stream (rows stream b ++ (suc b.seq, encode msg) ∷ []) []
                  b.streams))
              (grown-Told s);
        known = λ mid m e. still_logged mid m (h.known mid m e);
        numbered = numbered_with;
        at = h.at;
        first = first_with;
      }

    module _ (back : (m : Msg) → decode (encode m) ≡ ok m) (reader : String × String)
        (count : ℕ) where
      abbrev the_next : List Msg
      the_next = take count (drop (cursor_of reader b) (sent reader.0))

      the_read : HasRead encode decode log the_next reader b (read decode reader count b)
      the_read =
          read-HasRead encode decode back log (sent reader.0) reader count b (h.told reader.0)
            h.known

      all_handed : handed (read decode reader count b).0 ≡ the_next
      all_handed = ap handed the_read.result ∙ the_read.are

      abbrev pub given_now : List Msg
      given_now = if reader == k then handed (read decode reader count b).0 else []

      after_read :
          cursor_of k (read decode reader count b).1 ≡ length (got ++ given_now)
          → got ++ given_now ≡ take (length (got ++ given_now)) (sent k.0)
          → HasGot k log sent (got ++ given_now) (read decode reader count b).1
      after_read at first = record {
        told = λ s.
            subst (λ x. Told encode log (get_or s [] x) (sent s)) (sym the_read.same_streams)
              (h.told s);
        known = the_read.keeps;
        numbered = λ mid m e. subst (λ n. mid ≤ n) (sym the_read.same_seq) (h.numbered mid m e);
        at = at;
        first = first;
      }

      own_at : reader ≡ k → cursor_of reader b + length the_next ≡ length (got ++ the_next)
      own_at same =
          let e : cursor_of reader b ≡ length got = ap (λ r. cursor_of r b) same ∙ h.at in
          omega (arith, e, length-append got the_next)

      own_first : reader ≡ k → got ++ the_next ≡ take (length (got ++ the_next)) (sent k.0)
      own_first same =
          subst (λ xs. got ++ xs ≡ take (length (got ++ xs)) (sent k.0)) (sym next_is)
            (ap (λ g. g ++ next_of (length got)) h.first
              ∙ sym (take_more (length got) count (sent k.0))
              ∙ ap (λ n. take n (sent k.0)) (sym (length-append got (next_of (length got)))))
        where
          next_of : ℕ → List Msg
          next_of c = take count (drop c (sent k.0))

          next_is : the_next ≡ next_of (length got)
          next_is = ap (λ r. take count (drop (cursor_of r b) (sent r.0))) same ∙ ap next_of h.at

      pub read-HasGot : HasGot k log sent (got ++ given_now) (read decode reader count b).1
      read-HasGot = elim (Bool-cases (reader == k)) [
        | inl same ↦
            let e : given_now ≡ the_next =
              ap (λ c. if c then handed (read decode reader count b).0 else []) same ∙ all_handed in
            let is_k = (pair_eq.beq_iff reader k).0 same in
            after_read
              (the_read.cursors k
                ∙ ap (λ c. if c then cursor_of reader b + length the_next else cursor_of k b) same
                ∙ own_at is_k
                ∙ ap (λ xs. length (got ++ xs)) (sym e))
              (subst (λ xs. got ++ xs ≡ take (length (got ++ xs)) (sent k.0)) (sym e)
                (own_first is_k))
        | inr other ↦
            let e : given_now ≡ [] =
              ap (λ c. if c then handed (read decode reader count b).0 else []) other in
            after_read
              (the_read.cursors k
                ∙ ap (λ c. if c then cursor_of reader b + length the_next else cursor_of k b) other
                ∙ h.at
                ∙ ap length (sym (append_nil got))
                ∙ ap (λ xs. length (got ++ xs)) (sym e))
              (subst (λ xs. got ++ xs ≡ take (length (got ++ xs)) (sent k.0)) (sym e)
                (subst (λ g. g ≡ take (length g) (sent k.0)) (sym (append_nil got)) h.first))
      ]

    pub confirmed-HasGot :
        (reader : String × String) (mids : List ℕ)
        → HasGot k log sent (got ++ []) (ack reader mids b)
    unfolding ack
    confirmed-HasGot reader mids = record {
      told = h.told;
      known = h.known;
      numbered = h.numbered;
      at = h.at ∙ ap length (sym (append_nil got));
      first = subst (λ g. g ≡ take (length g) (sent k.0)) (sym (append_nil got)) h.first;
    }
