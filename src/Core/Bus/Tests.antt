-- ===== src/Core/Bus/Tests.antt =====
-- Two services that read one stream while it is written.
use kometa.Prelude.{ℕ, List, [], ◌∷◌, refl, ok, ◌≡◌, length, take, drop}
use kometa.Core.Bus.{empty_bus, read, publish, ack}
use kometa.Core.Bus.Decoding.{messages}
use kometa.Core.Bus.Groups.{
  Use, send, get, confirm, perform, perform_all, given, all_given, sent_to, read_in_order,
}

abbrev day : List (Use ℕ)
day =
    send "halts" 5
    ∷ get ("halts", "execution") 100
    ∷ send "halts" 6
    ∷ send "quotes" 9
    ∷ get ("halts", "monitor") 1
    ∷ confirm ("halts", "execution") (1 ∷ [])
    ∷ get ("halts", "execution") 1
    ∷ get ("halts", "execution") 100
    ∷ []

read_in_order_example :
    let b = perform_all (λ m. m) (λ m. ok m) day empty_bus in
    let got = all_given (λ m. m) (λ m. ok m) ("halts", "execution") day empty_bus in
    let sent = sent_to "halts" day in
    (got ≡ take (length got) sent)
    × ((out : List (ℕ × ℕ)) × ((read (λ m. ok m) ("halts", "execution") 100 b).0 ≡ ok out)
        × (messages out ≡ take 100 (drop (length got) sent)))
read_in_order_example =
    read_in_order (λ m. m) (λ m. ok m) (λ m. refl) ("halts", "execution") day 100

-- what the group got that day
got_today : all_given (λ m. m) (λ m. ok m) ("halts", "execution") day empty_bus ≡ 5 ∷ 6 ∷ []
unfolding all_given given perform read publish ack
got_today = refl
