-- ===== src/Server/Listener/Tests.antt =====
-- Runs of the listener, and its theorem at a concrete listener.
use aimeath.Common.{◌≡◌, refl, true, arith}
use aimeath.Common.Int.{pos}
use aimeath.Server.Listener.{Listener, connected, on_accept}
use aimeath.Server.Listener.Limit.{IsLimited, begin, more, accepts, Run-IsLimited}

abbrev listener : Listener
listener = record {
  max_connections = pos 1;
  connections = 0;
  accepting = true;
  started = 0;
  rejected = 0;
}

second_rejected :
    on_accept connected (on_accept connected listener)
    ≡ record listener { connections = 1; started = 1; rejected = 1 }
unfolding on_accept
second_rejected = refl

Run-IsLimited_example : IsLimited (on_accept connected listener)
Run-IsLimited_example =
    Run-IsLimited {l = listener} (omega arith) (more begin (accepts connected listener))
