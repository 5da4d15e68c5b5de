-- ===== src/Veriff/Age.antt =====
-- The age that `calculateAge` finds, against the calendar.
use stprivy.Common.{ℕ, ◌+◌, ◌*◌, ◌≤◌, ◌<◌, ◌≡◌, arith}
use stprivy.Veriff.{Day, calculate_age}

-- a date of the calendar: months count from 0, days of a month from 1
pub record IsDay (d : Day) : Type 0 where
  pub month : d.month < 12
  pub date : d.date < 32

-- Dates in their order.
abbrev pub ordinal : Day → ℕ
ordinal d = (d.year * 12 + d.month) * 32 + d.date

-- The birthday number `n` of someone born on a day. The 29th of February of a common year is taken
-- to be between the 28th and the first of March.
abbrev pub birthday : (dob : Day) (n : ℕ) → Day
birthday dob n = record dob { year = dob.year + n }

-- The age of someone who was born today or before is the number of the last birthday that they have
-- had: that birthday is not after today, and the next one is.
pub calculate_age-birthday :
    (dob today : Day)
    → IsDay dob
    → IsDay today
    → ordinal dob ≤ ordinal today
    → (ordinal (birthday dob (calculate_age dob today)) ≤ ordinal today)
      × (ordinal today < ordinal (birthday dob (calculate_age dob today + 1)))
unfolding calculate_age
calculate_age-birthday dob today d t born = ground (arith, d.month, d.date, t.month, t.date)

-- Someone whose day of birth is not before today has the age 0.
pub calculate_age-unborn :
    (dob today : Day)
    → IsDay dob
    → IsDay today
    → ordinal today ≤ ordinal dob
    → calculate_age dob today ≡ 0
unfolding calculate_age
calculate_age-unborn dob today d t born = ground (arith, d.month, d.date, t.month, t.date)
