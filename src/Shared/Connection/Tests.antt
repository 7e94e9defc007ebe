-- ===== src/Shared/Connection/Tests.antt =====
-- A server that refuses its first connections: the world is how many it will still refuse.
use ordermesh.Prelude.{ℕ, zero, suc, ◌≡◌, refl, none}
use ordermesh.Shared.Outcome.{Result, ok, raise, external}
use ordermesh.Shared.Connection.{Amqp, Connecting, connect, connect_once, rounds}

abbrev refuse : ℕ → Result ℕ × ℕ
refuse zero = (ok 1, 0)
refuse (suc n) = (raise external, n)

abbrev server : Amqp ℕ ℕ ℕ ℕ
server = record {
  connect_robust = refuse;
  open_channel = λ connection n. (ok 1, n);
  set_qos = λ channel count n. (ok tt, n);
  declare_exchange = λ channel name n. (ok 1, n);
  sleep = λ n. n;
}

abbrev start : ℕ → Connecting server
start n = (record { connection = none; channel = none; exchange = none; dlx = none }, n)

third_round : (connect server 15 (start 2)).0 ≡ ok tt
unfolding connect rounds connect_once
third_round = refl
