-- ===== src/Converters/S7/Tags.antt =====
-- thingsboard_gateway/connectors/s7/s7_downlink_converter.py: `_convert_vm_request`, and the text of
-- a TIME in `_convert_scalar`. `none` is None, or an exception that becomes None.
use thingsboard_gateway.Prelude.{
  ℕ, ◌+◌, ◌-◌, ◌*◌, ◌/◌, ◌%◌, List, [], ◌∷◌, ◌++◌, ◌≡◌, ◌||◌, ltb, Option, none, some, is_empty,
  arith, ◌<◌, ◌∙◌, Bool-cases, inl, inr, if◌then◌else◌, ◌>>=◌,
}
use thingsboard_gateway.Prelude.Int.{ℤ, pos, negsuc}
use thingsboard_gateway.Entities.Strategy.{codes}
use thingsboard_gateway.Converters.S7.{Text, Value, Runtime}
use thingsboard_gateway.Converters.S7.Downlink.{int_of, str_to_bool}

abbrev pub ms_per_day : ℕ
ms_per_day = 86_400_000

-- `timedelta(milliseconds=ms)` within its range: the days, as far as they are positive, and the
-- milliseconds of the day. Python rounds the days down.
unfoldable pub timedelta : ℤ → ℕ × ℕ
timedelta (pos n) = (n / ms_per_day, n % ms_per_day)
timedelta (negsuc m) = (0, ms_per_day - 1 - m % ms_per_day)

pub data TimeUnit : Type 0 where
  d h m s ms : TimeUnit

unfoldable pub unit_text : TimeUnit → Text
unit_text d = codes "d"
unit_text h = codes "h"
unit_text m = codes "m"
unit_text s = codes "s"
unit_text ms = codes "ms"

unfoldable pub positive_part : ℕ → TimeUnit → List (ℕ × TimeUnit)
positive_part n u = if ltb 0 n then (n, u) ∷ [] else []

-- The numbers of the text with their units.
unfoldable pub time_parts : ℕ × ℕ → List (ℕ × TimeUnit)
time_parts (days, rest) =
    let seconds = rest / 1000 in
    let front =
      positive_part days TimeUnit.d
      ++ (positive_part (seconds / 3600) TimeUnit.h
          ++ positive_part (seconds % 3600 / 60) TimeUnit.m) in
    let middle =
      if ltb 0 (seconds % 3600 % 60) || ltb 0 (rest % 1000) || is_empty front
      then (seconds % 3600 % 60, TimeUnit.s) ∷ []
      else [] in
    front ++ (middle ++ positive_part (rest % 1000) TimeUnit.ms)

module _ {F : Type 0} (r : Runtime F) where
  unfoldable pub parts_text : List (ℕ × TimeUnit) → Text
  parts_text [] = []
  parts_text ((n, u) ∷ parts) =
      r.text_of (Value.integer (pos n)) ++ (unit_text u ++ parts_text parts)

  -- The text of a TIME of some milliseconds.
  unfoldable pub time_text : ℤ → Text
  unfolding time_parts parts_text timedelta
  time_text z = codes "T#" ++ parts_text (time_parts (timedelta z))

  -- `_convert_vm_request`
  unfoldable pub convert_vm_request : Value F → Option ℤ
  convert_vm_request v = elim (int_of r v) [
    | some z ↦ some z
    | none ↦ (do b ← str_to_bool r v; some (pos (if b then 1 else 0)))
  ]

-- The milliseconds that a text with these parts stands for.
unfoldable pub worth : TimeUnit → ℕ
worth d = ms_per_day
worth h = 3_600_000
worth m = 60_000
worth s = 1000
worth ms = 1

unfoldable pub parts_total : List (ℕ × TimeUnit) → ℕ
unfolding worth
parts_total [] = 0
parts_total ((n, u) ∷ parts) = n * worth u + parts_total parts

parts_total-append :
    (xs ys : List (ℕ × TimeUnit)) → parts_total (xs ++ ys) ≡ parts_total xs + parts_total ys
unfolding parts_total
parts_total-append [] ys = omega arith
parts_total-append ((n, u) ∷ xs) ys = omega (arith, parts_total-append xs ys)

parts_total-positive_part : (n : ℕ) (u : TimeUnit) → parts_total (positive_part n u) ≡ n * worth u
unfolding parts_total positive_part
parts_total-positive_part n u = elim (Bool-cases (ltb 0 n)) [
  | inl e ↦ rw e (omega arith)
  | inr e ↦ let none_left : n ≡ 0 = ground (arith, e) in rw (e, none_left) (omega arith)
]

-- The seconds that are printed: 0 where they are left out.
middle_total :
    (n k : ℕ) (front : List (ℕ × TimeUnit))
    → parts_total (if ltb 0 n || ltb 0 k || is_empty front then (n, TimeUnit.s) ∷ [] else [])
      ≡ n * 1000
unfolding parts_total worth
middle_total n k front = elim (Bool-cases (ltb 0 n || ltb 0 k || is_empty front)) [
  | inl e ↦ rw e (omega arith)
  | inr e ↦ let none_left : n ≡ 0 = ground (arith, e) in rw (e, none_left) (omega arith)
]

total_of_parts :
    (days rest : ℕ)
    → rest < ms_per_day
    → parts_total (time_parts (days, rest)) ≡ days * ms_per_day + rest
unfolding time_parts worth
total_of_parts days rest inside =
    let seconds = rest / 1000 in
    let a = positive_part days TimeUnit.d in
    let b = positive_part (seconds / 3600) TimeUnit.h in
    let c = positive_part (seconds % 3600 / 60) TimeUnit.m in
    let last = positive_part (rest % 1000) TimeUnit.ms in
    let front = a ++ (b ++ c) in
    let middle : List (ℕ × TimeUnit) =
      if ltb 0 (seconds % 3600 % 60) || ltb 0 (rest % 1000) || is_empty front
      then (seconds % 3600 % 60, TimeUnit.s) ∷ []
      else [] in
    omega (
      arith,
      parts_total-append front (middle ++ last),
      parts_total-append a (b ++ c),
      parts_total-append b c,
      parts_total-append middle last,
      parts_total-positive_part days TimeUnit.d,
      parts_total-positive_part (seconds / 3600) TimeUnit.h,
      parts_total-positive_part (seconds % 3600 / 60) TimeUnit.m,
      middle_total (seconds % 3600 % 60) (rest % 1000) front,
      parts_total-positive_part (rest % 1000) TimeUnit.ms,
    )

-- The text of a time of no or some milliseconds has parts that add up to it, whereas that of a
-- negative time, of -(n + 1) milliseconds, has parts that add up to the rest of the day: within
-- a day, to the milliseconds of a day less n + 1.
time_total :
    (n : ℕ)
    → (parts_total (time_parts (timedelta (pos n))) ≡ n)
      × (parts_total (time_parts (timedelta (negsuc n))) + (n % ms_per_day + 1) ≡ ms_per_day)
unfolding timedelta
time_total n = (
  total_of_parts (n / ms_per_day) (n % ms_per_day) (omega arith) ∙ omega arith,
  omega (arith, total_of_parts 0 (ms_per_day - 1 - n % ms_per_day) (omega arith)),
)
