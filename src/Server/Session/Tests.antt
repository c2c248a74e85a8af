-- ===== src/Server/Session/Tests.antt =====
-- Runs of a session, and its theorems at concrete sessions.
use aimeath.Common.{
  none, ℕ, ◌+◌, ◌≤◌, ◌≡◌, refl, true, false, ◌==◌, [], ◌∷◌, some, ok, undefined, arith,
}
use aimeath.Common.Int.{pos}
use aimeath.Game.Api.Tests.{sample_boost}
use aimeath.Server.Registry.{Life, keep_if, restore_app}
use aimeath.Server.Registry.Views.{listed, is_not}
use aimeath.Server.Session.{
  Session, World, Module, close_ws, enqueue, on_written, on_ping, stashable,
}
use aimeath.Server.Session.Writer.{IsSteady, start, next, post, Reach-IsSteady}
use aimeath.Server.Session.Closing.{close_ws-restore_app, close_ws-listed, on_ping_lost}
use aimeath.Server.Session.Input.{on_read, on_task_end, is_close_window_msg}
use aimeath.Server.Session.Routing.{resume}
use aimeath.Server.Session.Resume.{Runs, resume-close_ws}
use aimeath.Server.Session.Reads.{on_read_closed, on_read_total, on_task_end_closed}

abbrev life : Life
life = record { alive = λ s. true; is_open = λ s. true }

-- An asynchronous application that counts its inputs and is done after the third.
abbrev counter : Module ℕ
counter = record {
  is_async = true;
  is_done = some (λ n. n == 3);
  on_input = λ n msg. n + 1;
  process = λ n msg. (n, none);
}

abbrev idle : Session ℕ
idle = record {
  handle = 1;
  session_id = "sess_1";
  window_id = "w1";
  display_name = "";
  app_name = "count";
  app = some 0;
  mod_of = counter;
  write_queue = [];
  writing = false;
  closing = false;
  user_close = false;
  close_after_write = false;
  missed_pongs = 0;
  pinging = true;
  has_ws = true;
  ws_closed = false;
  sent = "a" ∷ [];
  writes = 0;
  reads = 1;
  pings = 0;
}

abbrev world : World ℕ
world = record {
  session = idle;
  registry = record {
    sessions = ("count", 1 ∷ 2 ∷ []) ∷ [];
    windows = [];
    stashed = [];
    stash_ttl = pos 30;
  };
  notices = [];
}

idle-IsSteady : IsSteady idle
idle-IsSteady = record {
  at_most_one = omega arith;
  held = λ e. absurd (omega (arith, e));
  busy = λ _. (refl, refl);
}

abbrev busy : World ℕ
busy = record world {
  session = record idle {
    write_queue = "b" ∷ "c" ∷ [];
    writing = true;
    sent = "a" ∷ "b" ∷ [];
    writes = 1;
  };
}

abbrev next_sent : World ℕ
next_sent = record world {
  session = record idle {
    write_queue = "c" ∷ [];
    writing = true;
    sent = "a" ∷ "b" ∷ "c" ∷ [];
    writes = 1;
  };
}

enqueued : enqueue sample_boost life 0 "c" (enqueue sample_boost life 0 "b" world) ≡ busy
unfolding enqueue
enqueued = refl

ended_write : on_written sample_boost life 0 busy ≡ ok next_sent
unfolding on_written
ended_write = refl

Reach-IsSteady_example : IsSteady (enqueue sample_boost life 0 "b" world).session
Reach-IsSteady_example =
    Reach-IsSteady sample_boost life 0 idle-IsSteady (next start (post "b" world))

stashes : stashable idle ≡ some 0
unfolding stashable
stashes = refl

close_ws-restore_app_example :
    (restore_app "w1" 9 (close_ws sample_boost life 5 world).registry).0
    ≡ some (record { app = 0; mod_of = counter }, "count")
close_ws-restore_app_example =
    close_ws-restore_app sample_boost life 5 world refl refl 0 9 stashes refl

close_ws-listed_example :
    listed life "count" (close_ws sample_boost life 5 world).registry
    ≡ keep_if (is_not 1) (listed life "count" world.registry)
close_ws-listed_example = close_ws-listed sample_boost life 5 world refl refl "count" refl

on_ping_lost_example :
    ((on_ping sample_boost life 5 (on_ping sample_boost life 5 world)).session.closing ≡ false)
    × ((on_ping sample_boost life 5
          (on_ping sample_boost life 5 (on_ping sample_boost life 5 world))).session.closing
        ≡ true)
on_ping_lost_example = on_ping_lost sample_boost life 5 world refl refl refl

not_close : is_close_window_msg sample_boost "hello" ≡ false
unfolding is_close_window_msg
not_close = refl

on_read_closed_example :
    on_read sample_boost life 5 true "hello" (close_ws sample_boost life 5 world) ≡ undefined
on_read_closed_example =
    on_read_closed sample_boost life 5 true "hello" world refl refl refl not_close

on_read_total_example :
    (w' : World ℕ) × (on_read sample_boost life 5 true "hello" world ≡ ok w')
    × IsSteady w'.session
    × (w'.session.reads ≤ 1)
on_read_total_example =
    on_read_total sample_boost life 5 true "hello" world 0 idle-IsSteady refl refl

on_task_end_closed_example :
    on_task_end sample_boost life 5 (close_ws sample_boost life 5 world) ≡ undefined
on_task_end_closed_example =
    on_task_end_closed sample_boost life 5 world (λ n. n == 3) refl refl refl

-- A new connection of the window, after the first one was closed.
abbrev again : World ℕ
again = record world {
  session = record idle {
    handle = 3;
    session_id = "sess_3";
    app = none;
    app_name = "";
    sent = [];
    reads = 0;
  };
  registry = (close_ws sample_boost life 5 world).registry;
}

resume-close_ws_example : Runs (resume sample_boost life 9 again) 0 counter "count"
resume-close_ws_example =
    resume-close_ws sample_boost life 5 9 world again 0 refl refl stashes refl refl refl refl
