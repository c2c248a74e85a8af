-- ===== src/Server/Listener/Limit.antt =====
-- The limit on connections of Listener (module/access/src/ws_server.cpp).
use aimeath.Common.{ℕ, zero, suc, ◌+◌, ◌-◌, ◌≤◌, ◌<◌, ◌≡◌, true, false, arith, if_by}
use aimeath.Common.Int.{ℤ, pos, negsuc}
use aimeath.Server.Listener.{
  Listener, new_listener, set_max_connections, run, Accepted, aborted, failed, connected, on_accept,
  end_session, is_full,
}

-- A listener runs its accepts one by one, and a session ends only while it is counted.
pub data Step : Listener → Listener → Type 0 where
  accepts : (a : Accepted) (l : Listener) → Step l (on_accept a l)
  leaves : (l : Listener) → 0 < l.connections → Step l (end_session l)

pub data Run (l : Listener) : Listener → Type 0 where
  begin : Run l l
  more : {k m : Listener} → Run l k → Step k m → Run l m

-- The open connections are no more than a limit that is set.
abbrev pub Within : ℤ → ℕ → Type 0
Within (pos zero) n = Unit {0}
Within (pos (suc max)) n = n ≤ suc max
Within (negsuc max) n = Unit {0}

one_more : (max : ℤ) (n : ℕ) → is_full max n ≡ false → Within max (n + 1)
one_more (pos zero) n e = tt
one_more (pos (suc max)) n e = ground arith
one_more (negsuc max) n e = tt

one_less : (max : ℤ) (n : ℕ) → Within max n → Within max (n - 1)
one_less (pos zero) n w = tt
one_less (pos (suc max)) n w = omega (arith, w)
one_less (negsuc max) n w = tt

abbrev pub IsLimited : Listener → Type 0
IsLimited l = Within l.max_connections l.connections

Step-IsLimited : {l m : Listener} → Step l m → IsLimited l → IsLimited m
unfolding on_accept end_session
Step-IsLimited (accepts aborted l) w = w
Step-IsLimited (accepts failed l) w = w
Step-IsLimited (accepts connected l) w =
    if_by (λ (k : Listener). IsLimited (record k { accepting = true }))
      (is_full l.max_connections l.connections) _ _ (λ _. w)
      λ free. one_more l.max_connections l.connections free
Step-IsLimited (leaves l open_one) w = one_less l.max_connections l.connections w

-- A listener that was just made and runs has no connection.
run-IsLimited : (max : ℤ) → IsLimited (run (set_max_connections max new_listener))
unfolding run set_max_connections new_listener
run-IsLimited (pos zero) = tt
run-IsLimited (pos (suc max)) = omega arith
run-IsLimited (negsuc max) = tt

-- If the open connections are no more than the limit, they stay so, in whatever order accepts
-- end and sessions end; no limit is set by a number that is not positive.
pub Run-IsLimited : {l m : Listener} → IsLimited l → Run l m → IsLimited m
Run-IsLimited w begin = w
Run-IsLimited w (more r s) = Step-IsLimited s (Run-IsLimited w r)
