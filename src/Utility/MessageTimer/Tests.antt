-- ===== src/Utility/MessageTimer/Tests.antt =====
-- Runs of the message timer, and the theorems at concrete inputs.
use open_esl.Prelude.{◌<◌, ◌≡◌, refl, ◌⊎◌, true, false, none, some, List, [], ◌∷◌, arith, All}
use open_esl.Utility.MessageTimer.{MessageType, no_wait, Timer, take_elapsed, run_round}
use open_esl.Utility.MessageTimer.Urgency.{Chosen, take_elapsed_lem}
use open_esl.Utility.MessageTimer.Sleep.{Fits}
use open_esl.Utility.MessageTimer.Keys.{IsKeyed, run_round-IsKeyed}

-- An earlier one, and an urgent one that moves.
abbrev early : MessageType
early = record {
  key = 1;
  message = 10;
  movable = false;
  priority = 32768;
  time_point = 5;
  timer = 0;
}

abbrev urgent : MessageType
urgent = record {
  key = 2;
  message = 20;
  movable = true;
  priority = 32769;
  time_point = 9;
  timer = 4;
}

abbrev messages : List MessageType
messages = early ∷ urgent ∷ []

take_elapsed_runs : take_elapsed 9 messages ≡ (early ∷ [], some 20)
unfolding take_elapsed
take_elapsed_runs = refl

take_elapsed_moves : take_elapsed 6 messages ≡ ((record urgent { time_point = 10 }) ∷ [], some 10)
unfolding take_elapsed
take_elapsed_moves = refl

take_elapsed_lem_example :
    (All (λ m. 9 < m.time_point) messages × (take_elapsed 9 messages ≡ (messages, none)))
    ⊎ Chosen 9 messages (take_elapsed 9 messages)
take_elapsed_lem_example = take_elapsed_lem 9 messages

messages-IsKeyed : IsKeyed messages
messages-IsKeyed k = ground arith

abbrev timer : Timer
timer = record { running = true; message_types = messages; state = no_wait }

run_round-IsKeyed_example :
    ((timer.running ≡ false) × (run_round 9 11 (λ m q. q) timer ≡ none))
    ⊎ ((u : Timer) × (timer.running ≡ true)
        × (run_round 9 11 (λ m q. q) timer ≡ some u)
        × IsKeyed u.message_types
        × Fits 11 u.message_types u.state)
run_round-IsKeyed_example = run_round-IsKeyed 9 11 (λ m q. q) timer (λ m q h. h) messages-IsKeyed
