-- ===== src/Duration/RoundTrip.antt =====
-- src/utils.ts: `parseDuration` reads what `formatDuration` shows.
use stream_fi_sdk.Base.{
  ℕ, zero, suc, ◌+◌, ◌*◌, ◌/◌, ◌%◌, ◌<◌, ◌≡◌, refl, sym, ◌∙◌, ap, true, false, not, some, [], ◌∷◌,
  ◌++◌, ltb, ◌==◌, if◌then◌else◌, if_cases, length, length-append, filter, arith, append_assoc,
}
use stream_fi_sdk.Amount.Digits.{
  Text, IsDecimal, is_digit, big_int, to_string, big_int-to_string, to_string-IsDecimal,
  to_string_nonempty,
}
use stream_fi_sdk.Duration.{
  format_duration, parse_duration, unit_seconds, is_space, trim_start, trim_end, is_empty, Totals,
  exec_from, one, two, shown, unit_d, unit_h, unit_m, unit_s,
}
use stream_fi_sdk.Duration.Tokens.{
  IsUnit, is_empty_append, exec_from_token, filter_decimal, trim_start_decimal, trim_end_last,
}

-- What `parse_duration` gives for a text whose tokens are read as `totals`.
parse_duration_lem :
    (t : Text) (totals : Totals)
    → trim_end (trim_start t) ≡ t
    → is_empty t ≡ false
    → exec_from (length t) t (record { total_seconds = 0; matched_length = 0; found_any = false })
      ≡ totals
    → totals.found_any ≡ true
    → totals.matched_length ≡ length (filter (λ c. not (is_space c)) t)
    → parse_duration t ≡ some totals.total_seconds
unfolding parse_duration
parse_duration_lem t totals trim full read found size =
    let same : (totals.matched_length == length (filter (λ c. not (is_space c)) t)) ≡ true =
      ground arith in
    rw (trim, full, read, found, same) refl

exec_from_end : (fuel : ℕ) (totals : Totals) → exec_from fuel [] totals ≡ totals
exec_from_end zero totals = refl
exec_from_end (suc fuel) totals = refl

IsUnit-d : IsUnit unit_d 86400
unfolding unit_seconds is_space
IsUnit-d = record { means = refl; no_space = refl; no_digit = refl }

IsUnit-h : IsUnit unit_h 3600
unfolding unit_seconds is_space
IsUnit-h = record { means = refl; no_space = refl; no_digit = refl }

IsUnit-m : IsUnit unit_m 60
unfolding unit_seconds is_space
IsUnit-m = record { means = refl; no_space = refl; no_digit = refl }

IsUnit-s : IsUnit unit_s 1
unfolding unit_seconds is_space
IsUnit-s = record { means = refl; no_space = refl; no_digit = refl }

filter_unit :
    (unit seconds : ℕ) (t : Text)
    → IsUnit unit seconds
    → filter (λ c. not (is_space c)) (unit ∷ t) ≡ unit ∷ filter (λ c. not (is_space c)) t
filter_unit unit seconds t u = rw (u.no_space) refl

parse_one :
    (n unit seconds : ℕ) → IsUnit unit seconds → parse_duration (one n unit) ≡ some (n * seconds)
parse_one n unit seconds u =
    let w : Text = to_string n in
    let h : IsDecimal w = to_string-IsDecimal n in
    let l : 0 < length w = to_string_nonempty n in
    let totals : Totals = record {
      total_seconds = 0 + big_int w * seconds;
      matched_length = 0 + (length w + 1);
      found_any = true;
    } in
    let size : length (one n unit) ≡ suc (length w) = omega (arith, length-append w (unit ∷ [])) in
    parse_duration_lem (one n unit) totals
      (ap trim_end (trim_start_decimal w (unit ∷ []) h l) ∙ trim_end_last w unit u.no_space)
      (is_empty_append w unit)
      (ap
          (λ k.
            exec_from k (one n unit)
              (record { total_seconds = 0; matched_length = 0; found_any = false }))
          size
        ∙ exec_from_token (length w) w unit seconds [] _ u h l
        ∙ exec_from_end (length w) _)
      refl
      (rw (filter_decimal w (unit ∷ []) h, filter_unit unit seconds [] u)
        (omega (arith, length-append w (unit ∷ []))))
    ∙ rw (big_int-to_string n) (ap some (omega arith))

space_is : (is_space 32 ≡ true) × (is_digit 32 ≡ false)
unfolding is_space
space_is = (refl, refl)

filter_space :
    (t : Text) → filter (λ c. not (is_space c)) (32 ∷ t) ≡ filter (λ c. not (is_space c)) t
filter_space t = rw (space_is.0) refl

parse_two :
    (n unit seconds m smaller fraction : ℕ)
    → IsUnit unit seconds
    → IsUnit smaller fraction
    → parse_duration (two n unit m smaller) ≡ some (n * seconds + m * fraction)
parse_two n unit seconds m smaller fraction u v =
    let w : Text = to_string n in
    let x : Text = to_string m in
    let hw : IsDecimal w = to_string-IsDecimal n in
    let hx : IsDecimal x = to_string-IsDecimal m in
    let lw : 0 < length w = to_string_nonempty n in
    let lx : 0 < length x = to_string_nonempty m in
    let none_yet : Totals = record { total_seconds = 0; matched_length = 0; found_any = false } in
    let totals : Totals = record {
      total_seconds = 0 + big_int w * seconds + big_int x * fraction;
      matched_length = 0 + (length w + 1) + (length x + 1);
      found_any = true;
    } in
    let t : Text = two n unit m smaller in
    let fuel : ℕ = length w + length x in
    let as_end : t ≡ (w ++ (unit ∷ 32 ∷ x)) ++ smaller ∷ [] =
      sym (append_assoc w (unit ∷ 32 ∷ x) (smaller ∷ [])) in
    let size : length t ≡ suc (suc (suc fuel)) =
      omega (arith, length-append w (unit ∷ 32 ∷ one m smaller), length-append x (smaller ∷ [])) in
    parse_duration_lem t totals
      (ap trim_end (trim_start_decimal w (unit ∷ 32 ∷ one m smaller) hw lw)
        ∙ ap trim_end as_end
        ∙ trim_end_last (w ++ (unit ∷ 32 ∷ x)) smaller v.no_space
        ∙ sym as_end)
      (ap is_empty as_end ∙ is_empty_append (w ++ (unit ∷ 32 ∷ x)) smaller)
      (ap (λ k. exec_from k t none_yet) size
        ∙ exec_from_token (suc (suc fuel)) w unit seconds (32 ∷ one m smaller) none_yet u hw lw
        ∙ exec_from_token fuel x smaller fraction [] _ v hx lx
        ∙ exec_from_end fuel totals)
      refl
      (rw
        (
          filter_decimal w (unit ∷ 32 ∷ one m smaller) hw,
          filter_unit unit seconds (32 ∷ one m smaller) u,
          filter_space (one m smaller),
          filter_decimal x (smaller ∷ []) hx,
          filter_unit smaller fraction [] v,
        )
        (omega
          (arith, length-append w (unit ∷ (x ++ smaller ∷ [])), length-append x (smaller ∷ []))))
    ∙ rw (big_int-to_string n, big_int-to_string m) (ap some (omega arith))

parse_shown :
    (n unit seconds m smaller fraction : ℕ)
    → IsUnit unit seconds
    → IsUnit smaller fraction
    → parse_duration (shown n unit m smaller) ≡ some (n * seconds + m * fraction)
parse_shown n unit seconds m smaller fraction u v =
    if_cases (λ t. parse_duration t ≡ some (n * seconds + m * fraction)) (ltb 0 m)
      (λ l. parse_two n unit seconds m smaller fraction u v)
      (λ l.
        let z : m ≡ 0 = ground arith in parse_one n unit seconds u ∙ rw z (ap some (omega arith)))

-- The seconds that the text of a duration shows: all of them below an hour, whole minutes below a day,
-- and whole hours from there.
pub shown_seconds : ℕ → ℕ
shown_seconds n = if ltb n 3600 then n else if ltb n 86400 then n / 60 * 60 else n / 3600 * 3600

-- `parseDuration` reads the text of a duration as the seconds that the text shows.
pub parse_duration-format_duration :
    (n : ℕ) → parse_duration (format_duration n) ≡ some (shown_seconds n)
unfolding format_duration shown_seconds
parse_duration-format_duration n =
    if_cases (λ t. parse_duration t ≡ some (shown_seconds n)) (ltb n 60)
      (λ l. parse_one n unit_s 1 IsUnit-s ∙ ap some (ground arith))
      (λ l.
        if_cases (λ t. parse_duration t ≡ some (shown_seconds n)) (ltb n 3600)
          (λ k.
            parse_shown (n / 60) unit_m 60 (n % 60) unit_s 1 IsUnit-m IsUnit-s
            ∙ ap some (ground arith))
          (λ k.
            if_cases (λ t. parse_duration t ≡ some (shown_seconds n)) (ltb n 86400)
              (λ j.
                parse_shown (n / 3600) unit_h 3600 (n % 3600 / 60) unit_m 60 IsUnit-h IsUnit-m
                ∙ ap some (ground arith))
              (λ j.
                parse_shown (n / 86400) unit_d 86400 (n % 86400 / 3600) unit_h 3600 IsUnit-d
                  IsUnit-h
                ∙ ap some (ground arith))))
