-- ===== src/Doc/Stamp.antt =====
-- Times as the created_at columns hold them: text, which ORDER BY compares byte by byte.
-- Go writes RFC3339Nano, which drops the trailing zeros of the fraction (and a zero fraction
-- whole); SQLite's strftime writes three digits always. The date is that of the Gregorian calendar, and
-- times lie between 1970 and 9999, where a year has four digits.
use flying_shuttle.Prelude.{
  ℕ, zero, suc, ◌+◌, ◌-◌, ◌*◌, ◌/◌, ◌%◌, ◌^◌, Bool, true, false, ◌&&◌, List, [], ◌∷◌, ◌++◌, nat_eq,
  ltb, if◌then◌else◌,
}

-- The last k decimal digits of n, as ASCII.
unfoldable pub digits : ℕ → ℕ → List ℕ
digits zero n = []
digits (suc k) n = (b'0' + n / 10 ^ k % 10) ∷ digits k n

abbrev pub is_empty : List ℕ → Bool
is_empty [] = true
is_empty (_ ∷ _) = false

unfoldable pub trim_zeros : List ℕ → List ℕ
trim_zeros [] = []
trim_zeros (d ∷ ds) =
    let rest = trim_zeros ds in if nat_eq d b'0' && is_empty rest then [] else d ∷ rest

abbrev pub nanos : ℕ
nanos = 1000000000

-- The days from the first of March of the year 0 to the first of January 1970.
abbrev epoch : ℕ
epoch = 719468

-- The date of a day, counted from that March on: years of 365 days, with a leap day at the end of every
-- fourth one but for three in 400, and months from March on.
unfoldable pub date_text : ℕ → List ℕ
unfolding digits
date_text day =
    let of_era = day % 146097 in
    let year_of_era = (of_era - of_era / 1460 + of_era / 36524 - of_era / 146096) / 365 in
    let of_year = of_era - (365 * year_of_era + year_of_era / 4 - year_of_era / 100) in
    let month = (5 * of_year + 2) / 153 in
    let year = day / 146097 * 400 + year_of_era in
    digits 4 (if ltb month 10 then year else year + 1)
    ++ b'-'
      ∷ (digits 2 (if ltb month 10 then month + 3 else month - 9)
          ++ b'-' ∷ digits 2 (of_year - (153 * month + 2) / 5 + 1))

-- 2006-01-02T15:04:05
unfoldable pub second_text : ℕ → List ℕ
unfolding date_text digits
second_text t =
    date_text (epoch + t / 86400)
    ++ b'T'
      ∷ (digits 2 (t % 86400 / 3600)
          ++ b':' ∷ (digits 2 (t % 3600 / 60) ++ b':' ∷ digits 2 (t % 60)))

-- t.Format(time.RFC3339Nano) in UTC.
unfoldable pub rfc3339_nano : ℕ → List ℕ
unfolding trim_zeros digits second_text
rfc3339_nano t =
    second_text (t / nanos)
    ++ (if nat_eq (t % nanos) 0
        then b'Z' ∷ []
        else b'.' ∷ (trim_zeros (digits 9 (t % nanos)) ++ b'Z' ∷ []))

-- strftime('%Y-%m-%dT%H:%M:%fZ', 'now')
unfoldable pub strftime_millis : ℕ → List ℕ
unfolding digits second_text
strftime_millis t = second_text (t / nanos) ++ b'.' ∷ (digits 3 (t % nanos / 1000000) ++ b'Z' ∷ [])

unfoldable pub text_leb : List ℕ → List ℕ → Bool
text_leb [] ys = true
text_leb (x ∷ xs) [] = false
text_leb (x ∷ xs) (y ∷ ys) =
    let rest = text_leb xs ys in if ltb x y then true else nat_eq x y && rest

-- a comes no later than b under ORDER BY created_at.
unfoldable pub stamp_leb : ℕ → ℕ → Bool
unfolding rfc3339_nano text_leb
stamp_leb a b = text_leb (rfc3339_nano a) (rfc3339_nano b)
