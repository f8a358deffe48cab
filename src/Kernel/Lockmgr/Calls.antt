-- ===== src/Kernel/Lockmgr/Calls.antt =====
-- The calls of a lock manager's methods, its timers and its consumer, in the order in which they
-- take the mutex.
use vcos.Base.{ℕ, Bool, List, [], ◌∷◌}
use vcos.Base.Text.{Text}
use vcos.Base.Int.{ℤ}
use vcos.Kernel.Lockmgr.{Manager, acquire, release, force_release, receive, close, expire, deliver}

pub data Call : Type 0 where
  acquires : (now : ℕ) (key owner : Text) (ttl : ℤ) → Call
  releases : (key owner : Text) → Call
  forces : (key : Text) → Call
  expires : (now : ℕ) (key owner : Text) → Call
  delivers : (stop_first : Bool) → Call
  receives : Call
  closes : Call

unfoldable pub step : Manager → Call → Manager
step m (acquires now key owner ttl) = (acquire now key owner ttl m).0
step m (releases key owner) = (release key owner m).0
step m (forces key) = force_release key m
step m (expires now key owner) = expire now key owner m
step m (delivers stop_first) = (deliver stop_first m).0
step m receives = (receive m).0
step m closes = close m

unfoldable pub run : Manager → List Call → Manager
run m [] = m
run m (c ∷ cs) = run (step m c) cs
