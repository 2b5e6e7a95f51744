-- ===== src/Fel/Waiting/Deadlines.antt =====
-- The waiting loops of device.rs at their deadlines.
use project_chronos_engine.Prelude.{
  ℕ, ◌≤◌, ◌<◌, ◌≡◌, ◌≢◌, sym, subst, Bool, true, false, List, [], ◌∷◌, ◌++◌, Option, none, leb,
  arith,
}
use project_chronos_engine.Fel.Discovery.{DeviceState, Result}
use project_chronos_engine.Fel.Waiting.{
  Poll, Turn, returned, goes_on, expired, turned, poll_device, wait_for_device, sees,
}

module _ (deadline : ℕ) where
  turned-returns :
      (next : Option ℕ → Option (Result DeviceState)) (t : Turn) → turned next true t ≢ none
  turned-returns next (returned r) = λ e. cc
  turned-returns next (goes_on g) = λ e. cc

  turned-passes :
      (next : Option ℕ → Option (Result DeviceState)) (over : Bool) (t : Turn)
      → ((g : Option ℕ) → next g ≢ none)
      → turned next over t ≢ none
  turned-passes next over (returned r) h = λ e. cc
  turned-passes next true (goes_on g) h = λ e. cc
  turned-passes next false (goes_on g) h = h g

  -- Where the last reading of the clock in some turn is at the deadline or past it, `wait_for_device` returns, whatever
  -- the USB stack says and with any grace already running.
  pub wait_for_device-returns :
      (grace : Option ℕ) (before : List Poll) (p : Poll) (later : List Poll)
      → deadline ≤ p.end_check
      → wait_for_device deadline grace (before ++ (p ∷ later)) ≢ none
  unfolding wait_for_device
  wait_for_device-returns grace [] p later h =
      subst
        (λ b.
          turned (λ g. wait_for_device deadline g later) b (poll_device deadline grace p) ≢ none)
        (sym over)
        (turned-returns (λ g. wait_for_device deadline g later) (poll_device deadline grace p))
    where
      over : leb deadline p.end_check ≡ true
      over = ground arith
  wait_for_device-returns grace (q ∷ before) p later h =
      turned-passes (λ g. wait_for_device deadline g (before ++ (p ∷ later))) (expired deadline q)
        (poll_device deadline grace q) (λ g. wait_for_device-returns g before p later h)

  -- A turn that neither sees the state nor is at the deadline.
  abbrev pub IsIdle : DeviceState → Poll → Type 0
  IsIdle state p = (sees state p ≡ false) × (p.end_check < deadline)
