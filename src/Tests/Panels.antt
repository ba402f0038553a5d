-- ===== src/Tests/Panels.antt =====
-- The panels of a room, and the texts.
use youtube_rooms.Prelude.{
  ℕ, ◌+◌, ◌*◌, ◌≡◌, refl, true, not, ◌&&◌, none, some, List, [], ◌∷◌, All, arith,
}
use youtube_rooms.Prelude.Int.{pos}
use youtube_rooms.Prelude.Text.{codes}
use youtube_rooms.Number.{num}
use youtube_rooms.Protocol.Primitives.{ChatMessage}
use youtube_rooms.Panels.Chat.{blank, parent_of, run, types, submits, Event}
use youtube_rooms.Panels.Chat.Sending.{Inv, run-taken}
use youtube_rooms.Panels.Chat.Parents.{parent_of-search_parent}
use youtube_rooms.Panels.Participants.{Members, row, menu, is_host, is_user}
use youtube_rooms.Panels.Participants.Menu.{is_permitted, menu-permitted}
use youtube_rooms.Format.{
  digits, decimal, pad, clock_text, format_duration, format_relative, one_second,
}
use youtube_rooms.Format.Durations.{read_duration, read_duration-format_duration}
use youtube_rooms.Format.Ago.{is_ago, format_relative-is_ago}
use youtube_rooms.Tests.Fixtures.{any_url, everything, user, participant, chat, room}

abbrev writes : List Event
writes = types (codes "  hello ") ∷ submits true 4 ∷ submits true 5 ∷ []

blank-Inv : Inv any_url blank
blank-Inv = ground arith

run-taken_example : Inv any_url (run blank writes)
run-taken_example = run-taken any_url blank writes blank-Inv

abbrev answer : ChatMessage
answer = record (chat 3 2 none) { reply_to = some 1 }

abbrev talk : List ChatMessage
talk = chat 1 7 none ∷ chat 2 8 none ∷ answer ∷ []

parent_of-search_parent_example : parent_of talk answer ≡ some (chat 1 7 none)
parent_of-search_parent_example = parent_of-search_parent talk answer

abbrev members : Members
members = record {
  participants = participant 1 ∷ participant 2 ∷ [];
  permissions = some everything;
  self = some (user 1);
  room = some room;
}

menu-permitted_example :
    All
      (λ message.
        (not (is_host (participant 2).role)
          && not (is_user 2 (some (user 1)))
          && is_permitted members (participant 2) message)
        ≡ true)
      (menu (row members (participant 2)))
menu-permitted_example = menu-permitted members (participant 2)

-- An hour, two minutes and three seconds, and half a second.
abbrev film : ℕ
film = 3723 * one_second + 8000000

read_duration-format_duration_example :
    read_duration (format_duration (some (num (pos film)))) ≡ some 3723
read_duration-format_duration_example = read_duration-format_duration film

writes_the_hour : format_duration (some (num (pos film))) ≡ codes "1:02:03"
unfolding format_duration clock_text decimal digits pad
writes_the_hour = refl

format_relative-is_ago_example : is_ago (pos 4000000) (format_relative (num (pos 4000000))) ≡ true
format_relative-is_ago_example = format_relative-is_ago (pos 4000000)
