-- ===== src/Clock.antt =====
-- Go's `time.Time` as the nanoseconds since its zero value, which is the zero time; the location is
-- left out, so `UTC` changes nothing. A `time.Duration` is an integer of nanoseconds.
use match_mind.Base.{ℕ, Bool, if◌then◌else◌, leb, ltb, nat_beq, ◌^◌}
use match_mind.Base.Int.{ℤ, negsuc, pos, pos_part, neg_part}
use Prim.Native.Nat.{◌+◌, ◌-◌}

abbrev pub Time : Type 0
Time = ℕ

abbrev pub zero_time : Time
zero_time = 0

abbrev pub is_zero : Time → Bool
is_zero t = nat_beq t 0

abbrev pub before : Time → Time → Bool
before t u = ltb t u

abbrev pub after : Time → Time → Bool
after t u = ltb u t

abbrev pub utc : Time → Time
utc t = t

abbrev pub Duration : Type 0
Duration = ℤ

abbrev pub at_most : ℕ → ℕ → ℕ
at_most bound n = if ltb bound n then bound else n

abbrev pub second : ℕ
second = 1000000000

-- `now.Sub(t)`, which stays at the bounds of an int64.
abbrev pub sub_time : Time → Time → Duration
sub_time now t =
    if leb t now
    then pos (at_most (2 ^ 63 - 1) (now - t))
    else negsuc (at_most (2 ^ 63 - 1) (t - now - 1))

-- `t.Add(d)`, for a result that is not before the zero time.
abbrev pub add_time : Time → Duration → Time
add_time t d = t + pos_part d - neg_part d
