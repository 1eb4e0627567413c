-- ===== src/RateLimiter.antt =====
-- m_rate_limiter.py: packages that come too soon after the last one leave the pipeline. The clock
-- counts ticks, `second` of them in a second; a flow rate f means 1/f seconds, so that
-- `elapsed < 1/f` is `f * elapsed < second`. A flow rate need not be whole: for n packages in m seconds the
-- rate is n, and `second` the ticks of m seconds.
use live_translation.Base.{
  ℕ, ◌-ℤ◌, ℤ, pos, ◌≡◌, Bool, true, false, none, List, [], ◌∷◌, ltb_ℤ, leb_ℤ, if◌then◌else◌, ◌==◌,
  scale, arith, Bool-cases, inl, inr, ap,
}
use live_translation.Data.{Package, Outcome, exiting, Status, running, exit}

pub record RateLimiter : Type 0 where
  pub flowrate_per_second : ℕ
  pub last_package_time : ℤ

-- `Rate_Limiter(flowrate_per_second)`
unfoldable pub init : ℕ → RateLimiter
init flowrate = record { flowrate_per_second = flowrate; last_package_time = pos 0 }

module _ (second : ℕ) where
  abbrev pub too_soon : RateLimiter → ℤ → Bool
  too_soon self now =
      ltb_ℤ (scale self.flowrate_per_second (now -ℤ self.last_package_time)) (pos second)

  abbrev pub leave : RateLimiter → Package → Outcome RateLimiter
  leave self dp = record { state = self; dp = dp; raised = none }

  -- `execute`, at the time `now`.
  unfoldable pub execute : RateLimiter → ℤ → Package → Outcome RateLimiter
  execute self now dp =
      if self.flowrate_per_second == 0
      then leave self dp
      else (if too_soon self now
          then exiting self dp "Rate limit exceeded"
          else leave (record self { last_package_time = now }) dp)

  abbrev is_running : Status → Bool
  is_running running = true
  is_running exit = false

  -- The times at which packages pass, of those at which they come.
  unfoldable pub passing_times : RateLimiter → Package → List ℤ → List ℤ
  passing_times self dp [] = []
  passing_times self dp (now ∷ ts) =
      let o = execute self now dp in
      let rest = passing_times o.state dp ts in if is_running o.dp.status then now ∷ rest else rest

  -- Each time is 1/f seconds or more behind the one before.
  abbrev pub IsSpaced : ℕ → ℤ → List ℤ → Type 0
  IsSpaced f last [] = Unit
  IsSpaced f last (t ∷ ts) = (leb_ℤ (pos second) (scale f (t -ℤ last)) ≡ true) × IsSpaced f t ts

  limited :
      (self : RateLimiter) (dp : Package) (now : ℤ)
      → (self.flowrate_per_second == 0) ≡ false
      → too_soon self now ≡ true
      → execute self now dp ≡ exiting self dp "Rate limit exceeded"
  unfolding execute
  limited self dp now n e = rw (n, e)

  let_through :
      (self : RateLimiter) (dp : Package) (now : ℤ)
      → (self.flowrate_per_second == 0) ≡ false
      → too_soon self now ≡ false
      → execute self now dp ≡ leave (record self { last_package_time = now }) dp
  unfolding execute
  let_through self dp now n e = rw (n, e)

  -- With a flow rate f other than 0, the packages that pass, of packages that come at any times, are
  -- at least 1/f seconds apart, and the first is as far behind the last one before.
  pub passing_times-IsSpaced :
      (self : RateLimiter) (dp : Package) (ts : List ℤ)
      → (self.flowrate_per_second == 0) ≡ false
      → dp.status ≡ running
      → IsSpaced self.flowrate_per_second self.last_package_time (passing_times self dp ts)
  unfolding passing_times
  passing_times-IsSpaced self dp [] n r = tt
  passing_times-IsSpaced self dp (now ∷ ts) n r = elim (Bool-cases (too_soon self now)) [
    | inl e ↦ rw (limited self dp now n e, passing_times) (passing_times-IsSpaced self dp ts n r)
    | inr e ↦
        rw (let_through self dp now n e, ap is_running r, passing_times)
          (
            far (pos second) (scale self.flowrate_per_second (now -ℤ self.last_package_time)) e,
            passing_times-IsSpaced (record self { last_package_time = now }) dp ts n r,
          )
  ]
    where
      far : (a b : ℤ) → ltb_ℤ b a ≡ false → leb_ℤ a b ≡ true
      far a b h = ground arith
