-- ===== src/Server/Listener.antt =====
-- Listener (module/access/include/ws_server.hpp, module/access/src/ws_server.cpp): which connections
-- are accepted. `connections` is the counter that the sessions share, `started` and `rejected` count
-- the sockets, `accepting` says that an accept is outstanding. The sockets themselves are not
-- modelled.
pub mod Limit
mod Tests
use package.aimeath.Common.{ℕ, zero, suc, ◌+◌, ◌-◌, Bool, true, false, ◌&&◌, leb, if◌then◌else◌}
use package.aimeath.Common.Int.{ℤ, pos, negsuc}

pub record Listener : Type 0 where
  pub max_connections : ℤ
  pub connections : ℕ
  pub accepting : Bool
  pub started : ℕ
  pub rejected : ℕ

pub new_listener : Listener
new_listener = record {
  max_connections = pos 0;
  connections = 0;
  accepting = false;
  started = 0;
  rejected = 0;
}

pub set_max_connections : ℤ → Listener → Listener
set_max_connections max l = record l { max_connections = max }

-- How an accept ended.
pub data Accepted : Type 0 where
  aborted failed connected : Accepted

pub do_accept : Listener → Listener
do_accept l = record l { accepting = true }

pub run : Listener → Listener
unfolding do_accept
run l = do_accept l

-- `max_connections_ > 0 && connection_count_->load() >= max_connections_`.
abbrev pub is_full : ℤ → ℕ → Bool
is_full (pos zero) n = false
is_full (pos (suc max)) n = leb (suc max) n
is_full (negsuc max) n = false

pub on_accept : Accepted → Listener → Listener
unfolding do_accept
on_accept aborted l = record l { accepting = false }
on_accept failed l = do_accept l
on_accept connected l = do_accept (
    if is_full l.max_connections l.connections
    then record l { rejected = l.rejected + 1 }
    else record l { connections = l.connections + 1; started = l.started + 1 })

-- The end of a session (`Session::~Session`).
pub end_session : Listener → Listener
end_session l = record l { connections = l.connections - 1 }
