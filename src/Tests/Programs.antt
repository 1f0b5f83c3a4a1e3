-- ===== src/Tests/Programs.antt =====
-- fuzzer/main.c and the threads of fuzzer/AMQP.c at concrete inputs, and the rules replaced the old way.
use amqpgram.Base.{
  ℕ, ◌≡◌, ap, inr, refl, arith, Bool, true, false, List, [], ◌∷◌, ◌++◌, Option, none, some, ◌==◌,
  if◌then◌else◌, Bytes, not,
}
use amqpgram.Base.Outcome.{Outcome, ok, fault}
use amqpgram.Base.Text.{codes}
use amqpgram.CString.{strtol}
use amqpgram.Threads.{
  Sizes, Threads, Thread, listener, channel, create_channel_thread, close_threads, fuzz,
}
use amqpgram.Threads.Creation.{create_channel_thread_lem}
use amqpgram.Threads.Joining.{Joins, fuzz_joins_twice}
use amqpgram.Main.{Settings, initial_settings, set_options, parsed, random, refused, main}
use amqpgram.Main.Connecting.{
  ErrnoCodes, in_progress, exited, connect_to_server, connect_to_server_lem,
}
use amqpgram.Main.Options.{accepts, IsValid, Takes, set_options-accepts}
use amqpgram.Main.Refusals.{main_refuses, second_time}

abbrev three_options : List (ℕ × Option Bytes)
three_options =
    (b'P', some (codes "2")) ∷ (b'n', some (codes "100")) ∷ (b'P', some (codes "3")) ∷ []

three_accepted : accepts false three_options ≡ true
unfolding strtol
three_accepted = refl

set_options-accepts_example :
    (s : Settings) × (set_options three_options initial_settings ≡ ok (parsed s))
    × IsValid s
    × Takes three_options initial_settings s
set_options-accepts_example = set_options-accepts three_options three_accepted

abbrev limited : Settings
limited = record initial_settings { strat = b'n'; stratval = 100 }

one_criterion : set_options ((b'n', some (codes "100")) ∷ []) initial_settings ≡ ok (parsed limited)
unfolding set_options initial_settings strtol
one_criterion = refl

main_refuses_example :
    main
      (random [])
      (λ s i. (0, 0))
      0
      0
      6
      (((b'n', some (codes "100")) ∷ []) ++ (b't', some (codes "5")) ∷ (b'v', none) ∷ [])
    ≡ ok (refused 1)
main_refuses_example =
    main_refuses (random []) (λ s i. (0, 0)) 0 0 6 ((b'n', some (codes "100")) ∷ [])
      ((b'v', none) ∷ []) b't' (some (codes "5")) limited one_criterion
      (second_time (some (codes "5")) (λ e. omega arith))

abbrev sizes : Sizes
sizes = record { mutex = 40; cond = 48; pointer = 8; thread = 8 }

abbrev no_threads : Threads
no_threads = record {
  threads_array_size = 0;
  max_created_threads = 0;
  channel_mutexes = 0;
  channel_conds = 0;
  channel_packets = 0;
  channels = 0;
  started = [];
  heap = record { next = 1; size_of = λ p. none };
}

abbrev moves : ℕ → Bool
moves n = n == 6

create_channel_thread_example :
    (t' : Threads) × (create_channel_thread sizes moves 1 no_threads ≡ ok t')
    × (t'.max_created_threads ≡ 1)
    × (t'.started ≡ [] ++ 0 ∷ [])
    × (t'.heap.size_of t'.channel_mutexes ≡ some 40)
    × (t'.heap.size_of t'.channel_conds ≡ some 48)
    × (t'.heap.size_of t'.channel_packets ≡ some 8)
    × (t'.heap.size_of t'.channels ≡ some 8)
    × (create_channel_thread sizes moves 0 t' ≡ fault)
create_channel_thread_example =
    create_channel_thread_lem sizes moves no_threads refl (omega arith) (omega arith)

-- The world remembers whether the listener and the one channel were joined.
abbrev join_in : Thread → Bool × Bool → Outcome (Bool × Bool)
join_in listener w = if w.0 then fault else ok (true, w.1)
join_in (channel i) w = if w.1 then fault else ok (w.0, true)

abbrev was_joined : Thread → Bool × Bool → Bool
was_joined listener w = w.0
was_joined (channel i) w = w.1

join_in-was_joined :
    (t : Thread) (w w' : Bool × Bool) → join_in t w ≡ ok w' → was_joined t w' ≡ true
join_in-was_joined listener w w' e = ground arith
join_in-was_joined (channel i) w w' e = ground arith

join_in-keeps :
    (t t' : Thread) (w w' : Bool × Bool)
    → was_joined t w ≡ true
    → join_in t' w ≡ ok w'
    → was_joined t w' ≡ true
join_in-keeps listener listener w w' h e = ground arith
join_in-keeps listener (channel i) w w' h e = ground arith
join_in-keeps (channel i) listener w w' h e = ground arith
join_in-keeps (channel i) (channel j) w w' h e = ground arith

join_in_twice : (t : Thread) (w : Bool × Bool) → was_joined t w ≡ true → join_in t w ≡ fault
join_in_twice listener w h = ground arith
join_in_twice (channel i) w h = ground arith

listener_kept :
    (t : Thread) (w w' : Bool × Bool) → not w.0 ≡ false → join_in t w ≡ ok w' → not w'.0 ≡ false
listener_kept t w w' h e = ap not (join_in-keeps listener t w w' (ground (arith, h)) e)

abbrev joins : Joins (Bool × Bool)
joins = record {
  join = join_in;
  is_running = λ w. not w.0;
  WasJoined = λ t w. was_joined t w ≡ true;
  join-WasJoined = λ {t} {w} {w'} e. join_in-was_joined t w w' e;
  keeps_joined = λ {t} {t'} {w} {w'} h e. join_in-keeps t t' w w' h e;
  join_twice = λ {t} {w} h. join_in_twice t w h;
  join-listener = λ {w} {w'} e. ap not (join_in-was_joined listener w w' e);
  keeps_stopped = λ {t} {w} {w'} h e. listener_kept t w w' h e;
}

joined_once : close_threads join_in 1 (false, false) ≡ ok (true, true)
unfolding close_threads
joined_once = refl

fuzz_joins_twice_example :
    fuzz join_in (λ w. not w.0) sizes moves fault (ok 100) b'n' no_threads (false, false) ≡ fault
fuzz_joins_twice_example =
    fuzz_joins_twice joins sizes moves fault (ok 100) b'n' 100 no_threads (false, false)
      (true, true) (inr (refl, refl)) joined_once

-- The values of Linux; 2, ENOENT, is left of an earlier call.
abbrev linux : ErrnoCodes
linux = record { einprogress = 115; ealready = 114 }

connect_to_server_example :
    (connect_to_server linux (some 3) true (some 111 ∷ []) 2 ≡ ok (exited 3))
    × (connect_to_server linux (some 3) true (none ∷ []) 2 ≡ ok (exited 3))
unfolding in_progress
connect_to_server_example = connect_to_server_lem linux 3 2 111 [] [] tt refl (λ e. omega arith)
