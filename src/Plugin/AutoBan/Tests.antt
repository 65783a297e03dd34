-- ===== src/Plugin/AutoBan/Tests.antt =====
-- A peer that sends three messages at a threshold of three.
use shark_socket.Base.{ℕ, ◌≡◌, refl, true, none, List, [], ◌∷◌, arith}
use shark_socket.Base.Maps.{lookup, insert, erase, nat_eq}
use shark_socket.Plugin.AutoBan.{
  AutoBan, new_auto_ban, on_message, on_accept, is_banned, record_message, count_of, ban_duration,
}
use shark_socket.Plugin.AutoBan.Bans.{
  BanCall, messages, accepts, asks, sweeps, after_calls, ban_holds,
}

abbrev two_messages : AutoBan ℕ
two_messages = after_calls (messages 1 7 (65 ∷ []) ∷ messages 2 7 (66 ∷ []) ∷ []) (new_auto_ban 0)

abbrev later_calls : List (BanCall ℕ)
later_calls = messages 4 8 [] ∷ sweeps 5 ∷ accepts 6 7 ∷ asks 7 7 ∷ []

third_dropped : (on_message 3 7 (67 ∷ []) two_messages).1 ≡ none
unfolding on_message record_message after_calls shark_socket.Plugin.AutoBan.Bans.after_call lookup
    insert erase new_auto_ban count_of
third_dropped = refl

ban_holds_example :
    ((on_accept 8 7 (after_calls later_calls (on_message 3 7 (67 ∷ []) two_messages).0)).1 ≡ true)
    × ((is_banned 8 7 (after_calls later_calls (on_message 3 7 (67 ∷ []) two_messages).0)).1 ≡ true)
ban_holds_example =
    ban_holds 7 3 (67 ∷ []) two_messages later_calls 8 third_dropped
      (
        (omega arith, omega arith),
        (
          (omega arith, omega arith),
          ((omega arith, omega arith), ((omega arith, omega arith), tt)),
        ),
      )
      (omega arith, omega arith)
