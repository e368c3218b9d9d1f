-- ===== src/Programs/Progress.antt =====
-- The callback of src/main.cpp that prints the progress: at most one line in 100 milliseconds. A time is in
-- nanoseconds of std::chrono::steady_clock, which never goes back.
use net_transfer.Base.{
  ℕ, ◌+◌, ◌-◌, ◌*◌, ◌/◌, ◌≤◌, arith, Bool, true, false, List, [], ◌∷◌, Option, none, some, ltb,
  if◌then◌else◌, Bool-cases, inl, inr,
}

-- `last_print` is a static variable: `none` before the first call, which sets it. `first` and `now` are the
-- two readings of the clock.
unfoldable pub throttle : ℕ → ℕ → ℕ × Bool
throttle last_print now =
    if ltb ((now - last_print) / 1000000) 100 then (last_print, false) else (now, true)

unfoldable pub on_progress : Option ℕ → ℕ → ℕ → Option ℕ × Bool
unfolding throttle
on_progress none first now =
    let (last_print, printed) = throttle first now in (some last_print, printed)
on_progress (some last) first now =
    let (last_print, printed) = throttle last now in (some last_print, printed)

-- How many lines a sequence of calls prints, after a first one.
unfoldable pub prints : ℕ → List ℕ → ℕ
unfolding throttle
prints last_print [] = 0
prints last_print (now ∷ times) =
    let (last_print', printed) = throttle last_print now in
    (if printed then 1 else 0) + prints last_print' times

abbrev pub end_of : ℕ → List ℕ → ℕ
end_of time [] = time
end_of time (now ∷ times) = end_of now times

abbrev pub IsClock : ℕ → List ℕ → Type 0
IsClock time [] = Unit {0}
IsClock time (now ∷ times) = (time ≤ now) × IsClock now times

prints-le-from :
    (last_print time : ℕ) (times : List ℕ)
    → last_print ≤ time
    → IsClock time times
    → prints last_print times * 100000000 + last_print ≤ end_of time times
unfolding prints throttle
prints-le-from last_print time [] before clock = omega arith
prints-le-from last_print time (now ∷ times) before (later, clock) =
    elim (Bool-cases (ltb ((now - last_print) / 1000000) 100)) [
      | inl soon ↦
          rw (soon, throttle)
            (omega (arith, prints-le-from last_print now times (omega arith) clock))
      | inr late ↦ rw (late, throttle) (ground (arith, prints-le-from now now times))
    ]

-- However many calls there are, and at whatever times: the lines that they print take at least 100
-- milliseconds each.
pub prints-le :
    (first : ℕ) (times : List ℕ)
    → IsClock first times
    → prints first times * 100000000 ≤ end_of first times - first
prints-le first times clock = omega (arith, prints-le-from first first times (omega arith) clock)
