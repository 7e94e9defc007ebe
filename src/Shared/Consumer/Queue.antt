-- ===== src/Shared/Consumer/Queue.antt =====
-- shared/shared/events/consumer.py: a queue with any number of messages.
use ordermesh.Prelude.{
  ℕ, zero, suc, ◌+◌, ◌-◌, ◌≤◌, ◌<◌, ◌≡◌, ap, refl, String, List, [], ◌∷◌, ◌++◌, arith, leb,
  if◌then◌else◌, All, All-append,
}
use ordermesh.Shared.Outcome.{Result, ok, raise}
use ordermesh.Shared.Event.{Event}
use ordermesh.Shared.Broker.{Message}
use ordermesh.Shared.Consumer.{Handlers, retry_header, int_of}
use ordermesh.Shared.Consumer.Link.{Link, deliver, drain}
use ordermesh.Shared.Consumer.Delivery.{
  retried, Delivery, done, buried, again, deliver-Delivery, retry_header-set_retry,
}

-- How many deliveries a counter leaves, at least one.
abbrev attempts_left : Result ℕ → ℕ
attempts_left (ok n) = if leb 3 (n + 1) then 1 else 3 - n
attempts_left (raise e) = 0

module _ {Body : Type 0} where
  abbrev counter : Message Body → Result ℕ
  counter m = int_of (retry_header m.headers)

  -- `int()` reads the message's counter.
  abbrev pub IsReadable : Message Body → Type 0
  IsReadable m = (n : ℕ) × (counter m ≡ ok n)

  abbrev pub load : List (Message Body) → ℕ
  load [] = 0
  load (m ∷ ms) = attempts_left (counter m) + load ms

  load-append :
      (ms : List (Message Body)) (m : Message Body)
      → load (ms ++ m ∷ []) ≡ load ms + attempts_left (counter m)
  load-append [] m = omega arith
  load-append (x ∷ ms) m = omega (arith, load-append ms m)

  some_left : (m : Message Body) → IsReadable m → 1 ≤ attempts_left (counter m)
  some_left m (n, e) = rw e (ground arith)

  load-zero : (ms : List (Message Body)) → All IsReadable ms → load ms ≤ 0 → ms ≡ []
  load-zero [] h le = refl
  load-zero (m ∷ ms) h le = absurd (omega (arith, some_left m h.0))

  retried-IsReadable : (m : Message Body) (n : ℕ) → counter (retried m n) ≡ ok n
  retried-IsReadable m n = ap int_of (retry_header-set_retry n m.headers)

  fewer_left :
      (m : Message Body) (n : ℕ)
      → counter m ≡ ok n
      → n + 1 < 3
      → attempts_left (counter (retried m (n + 1))) + 1 ≤ attempts_left (counter m)
  fewer_left m n e more = rw (e, retried-IsReadable m (n + 1)) (ground arith)

module _ {A Body : Type 0} (validate : Body → Result Event) (hs : Handlers A) where
  -- A queue of messages whose counters `int()` reads, each with its own, is empty after as many
  -- deliveries as the counters leave together (three for a new message, never less than one),
  -- whatever the handlers do.
  pub drain_empties :
      (fuel : ℕ) (ctx : String) (l : Link A Body)
      → All IsReadable l.pending
      → load l.pending ≤ fuel
      → (drain validate hs fuel ctx l).pending ≡ []
  unfolding drain
  drain_empties zero ctx l h le = load-zero l.pending h le
  drain_empties (suc fuel) ctx l h le =
      go l.pending refl h le (λ l' h' le'. drain_empties fuel ctx l' h' le')
    where
      settled :
          (m : Message Body) (n : ℕ) (rest : List (Message Body)) (l' : Link A Body)
          → counter m ≡ ok n
          → All IsReadable rest
          → attempts_left (counter m) + load rest ≤ suc fuel
          → Delivery m n (record l { pending = rest }) l'
          → All IsReadable l'.pending × (load l'.pending ≤ fuel)
      settled m n rest l' e hr small (done a eq) = rw eq (hr, omega (arith, some_left m (n, e)))
      settled m n rest l' e hr small (buried a over eq) =
          rw eq (hr, omega (arith, some_left m (n, e)))
      settled m n rest l' e hr small (again a more eq) = rw eq (
        All-append IsReadable rest _ hr ((n + 1, retried-IsReadable m (n + 1)), tt),
        omega (arith, load-append rest (retried m (n + 1)), fewer_left m n e more),
      )

      go :
          (ms : List (Message Body))
          → l.pending ≡ ms
          → All IsReadable ms
          → load ms ≤ suc fuel
          → ((l' : Link A Body)
              → All IsReadable l'.pending
              → load l'.pending ≤ fuel
              → (drain validate hs fuel ctx l').pending ≡ [])
          → (drain validate hs (suc fuel) ctx l).pending ≡ []
      go [] e hm small ih = rw e
      go (m ∷ rest) e hm small ih =
          let (n, read) = hm.0 in
          let l' = deliver validate hs m ctx (record l { pending = rest }) in
          let (h', small') =
            settled m n rest l' read hm.1 small (deliver-Delivery validate hs m n ctx _ read) in
          rw e (ih l' h' small')
