-- ===== src/Executors/HttpAsync/Polling.antt =====
-- How the polling of http_async.py ends.
use distributed_asynchronous.Prelude.{
  ℕ, zero, suc, ◌+◌, ◌-◌, ◌≤◌, ◌<◌, ◌≡◌, refl, arith, ◌⊎◌, inl, inr, Option, none, some, [], ◌++◌,
  leb, Result, ok as returns, Bool-cases,
}
use distributed_asynchronous.Models.{Time}
use distributed_asynchronous.Models.Json.{Json}
use distributed_asynchronous.Executors.{Ending}
use distributed_asynchronous.Executors.HttpAsync.{
  Options, World, Crash, Lines, verdict_of, payload_of, lines_of, after_round, exceeded, poll_loop,
}

verdict-cases :
    (v : Option (Result Crash Ending))
    → ((ending : Result Crash Ending) × (v ≡ some ending)) ⊎ (v ≡ none)
verdict-cases none = inr refl
verdict-cases (some ending) = inl (ending, refl)

module _ (world : World) (options : Options) (status_url : Json) (deadline : Time) where
  -- The clock at the beginning of each round from `round` on, if the polling goes on so long.
  abbrev pub time_at : (round : ℕ) (now : Time) → ℕ → Time
  time_at round now zero = now
  time_at round now (suc n) = time_at (round + 1) (after_round world options deadline round now) n

  abbrev pub verdict : ℕ → Option (Result Crash Ending)
  verdict round = verdict_of world options (payload_of world options (world.reply round))

  -- The polling ends after `n` rounds that decide nothing: in the next round with what its reply
  -- decides, or at the deadline with a timeout, and each round begins before the deadline.
  abbrev pub EndsAfter : ℕ → (round : ℕ) (now : Time) → Result Crash Ending → Type 0
  EndsAfter zero round now ending =
      ((deadline ≤ now) × (ending ≡ returns (exceeded world options status_url)))
      ⊎ ((now < deadline) × (verdict round ≡ some ending))
  EndsAfter (suc n) round now ending =
      (now < deadline)
      × (verdict round ≡ none)
      × EndsAfter n (round + 1) (after_round world options deadline round now) ending

  after_round_later :
      (round : ℕ) (now : Time)
      → 1 ≤ options.poll_interval
      → now < deadline
      → now < after_round world options deadline round now
  unfolding after_round
  after_round_later round now h lt = ground arith

  -- Where the interval between polls is positive, the loop ends, with fuel for as many rounds as there
  -- are microseconds left and one more: after some number of rounds that decide nothing, each begun
  -- before the deadline, it ends with the verdict of the next reply, if the deadline has not
  -- passed then, and with a timeout otherwise.
  pub poll_loop-EndsAfter :
      (fuel round : ℕ) (now : Time)
      → 1 ≤ options.poll_interval
      → deadline - now < fuel
      → (n : ℕ) × (lines : Lines) × (ending : Result Crash Ending) × (poll_loop world options fuel
            status_url deadline round now
          ≡ some (lines, ending))
        × EndsAfter n round now ending
  unfolding poll_loop
  poll_loop-EndsAfter zero round now h enough = absurd (omega arith)
  poll_loop-EndsAfter (suc fuel) round now h enough = elim (Bool-cases (leb deadline now)) [
    | inl late ↦ (
      0,
      [],
      returns (exceeded world options status_url),
      rw (late) refl,
      inl (ground arith, refl),
    )
    | inr early ↦ elim (verdict-cases (verdict round)) [
      | inl (ending, e) ↦ (
        0,
        lines_of world options (world.reply round),
        ending,
        rw (early, e) refl,
        inr (ground arith, e),
      )
      | inr e ↦
          (let open_round : now < deadline = ground arith in
            let later : now < after_round world options deadline round now =
              after_round_later round now h open_round in
            let (n, lines, ending, rest, ends) =
              poll_loop-EndsAfter fuel (round + 1) (after_round world options deadline round now) h
                (omega arith) in
            (
              suc n,
              lines_of world options (world.reply round) ++ lines,
              ending,
              rw (early, e, rest) refl,
              (open_round, e, ends),
            ))
    ]
  ]
