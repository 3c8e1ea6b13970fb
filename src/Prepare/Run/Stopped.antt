-- ===== src/Prepare/Run/Stopped.antt =====
-- The run ends: a cancelled run has only so many steps left, and no worker waits for another.
use optimizer_canary_service.Base.{
  ℕ, suc, ◌+◌, ◌*◌, ◌≤◌, ◌<◌, ◌≡◌, refl, ◌≢◌, true, none, some, arith,
}
use optimizer_canary_service.Prepare.Picker.{WeightedTpccPicker}
use optimizer_canary_service.Base.Family.{update, sum_below, sum_below-update, sum_below-le}
use optimizer_canary_service.Prepare.Run.System.{
  Pc, looping, picked, executed, returned, sent, finished, Shared, System, Move,
}

module _ {E : Type 0} where
  -- The steps that a worker takes at most, once the run is cancelled.
  abbrev pub steps_left : Pc E → ℕ
  steps_left (picked n w) = 5
  steps_left (executed n w) = 4
  steps_left (looping n) = 3
  steps_left (returned n e) = 2
  steps_left (sent n e) = 1
  steps_left (finished n) = 0

  steps_left-le : (p : Pc E) → steps_left p ≤ 5
  steps_left-le (picked n w) = omega arith
  steps_left-le (executed n w) = omega arith
  steps_left-le (looping n) = omega arith
  steps_left-le (returned n e) = omega arith
  steps_left-le (sent n e) = omega arith
  steps_left-le (finished n) = omega arith

  module _ (picker : WeightedTpccPicker) where
    -- Steps of which `k` are a worker's.
    pub data Steps (n : ℕ) (s : System E) : ℕ → System E → Type 0 where
      none_more : Steps n s 0 s
      worked :
          {k : ℕ} {t : System E} (i : ℕ) {m : Shared E} {p : Pc E}
          → Steps n s k t
          → i < n
          → Move picker i t.shared (t.pc i) m p
          → Steps n s (suc k) (record { shared = m; pc = update t.pc i p })
      expired :
          {k : ℕ} {t : System E}
          → Steps n s k t
          → Steps n s k (record t { shared = record t.shared { cancelled = true } })

    Move-steps_left :
        {i : ℕ} {m m' : Shared E} {p p' : Pc E}
        → Move picker i m p m' p'
        → m.cancelled ≡ true
        → (steps_left p' < steps_left p) × (m'.cancelled ≡ true)
    Move-steps_left (Move.stop c) h = (omega arith, h)
    Move-steps_left (Move.draw x c lt) h = cc
    Move-steps_left Move.drain h = (omega arith, h)
    Move-steps_left (Move.interrupted c) h = (omega arith, h)
    Move-steps_left (Move.fail e c) h = cc
    Move-steps_left Move.count h = (omega arith, h)
    Move-steps_left Move.send h = (omega arith, h)
    Move-steps_left (Move.cancel failure) h = (omega arith, refl)
    Move-steps_left Move.leave h = (omega arith, h)

    Steps-steps_left :
        {n : ℕ} {s : System E} {k : ℕ} {t : System E}
        → s.shared.cancelled ≡ true
        → Steps n s k t
        → (k + sum_below steps_left n t.pc ≤ sum_below steps_left n s.pc)
          × (t.shared.cancelled ≡ true)
    Steps-steps_left h Steps.none_more = (omega arith, h)
    Steps-steps_left {n} h (Steps.worked {k} {t} i {p} before lt mv) =
        let (most, cancelled) = Steps-steps_left h before in
        let (fewer, still) = Move-steps_left mv cancelled in
        (omega (arith, sum_below-update steps_left n t.pc i p lt), still)
    Steps-steps_left h (Steps.expired before) = ((Steps-steps_left h before).0, refl)

    -- A worker that has not finished can take a step, whatever the others do: where it waits for a
    -- query, the step is that the query ends.
    Move-exists :
        (i : ℕ) (m : Shared E) (p : Pc E)
        → m.cancelled ≡ true
        → steps_left p ≢ 0
        → (m' : Shared E) × (p' : Pc E) × Move picker i m p m' p'
    Move-exists i m (looping n) h unfinished = (_, _, Move.stop h)
    Move-exists i m (picked n w) h unfinished = (_, _, Move.interrupted h)
    Move-exists i m (executed n w) h unfinished = (_, _, Move.count)
    Move-exists i m (returned n e) h unfinished = (_, _, Move.send)
    Move-exists i m (sent n none) h unfinished = (_, _, Move.leave)
    Move-exists i m (sent n (some e)) h unfinished = (_, _, Move.cancel e)
    Move-exists i m (finished n) h unfinished = elim (unfinished refl) [ ]

    -- After the run is cancelled, `n` workers take at most five steps each, in any order, and each
    -- that has not finished can take its next one without waiting for another.
    pub Steps-Ends :
        {n k : ℕ} {s t : System E}
        → s.shared.cancelled ≡ true
        → Steps n s k t
        → (k ≤ n * 5)
          × ((i : ℕ)
              → steps_left (t.pc i) ≢ 0
              → (m : Shared E) × (p : Pc E) × Move picker i t.shared (t.pc i) m p)
    Steps-Ends {n} {s} {t} h steps =
        let (most, cancelled) = Steps-steps_left h steps in
        (
          omega (arith, most, sum_below-le steps_left 5 steps_left-le n s.pc),
          λ i unfinished. Move-exists i t.shared (t.pc i) cancelled unfinished,
        )
